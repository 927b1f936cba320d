-- ===== src/Rewrite/Interpolation/Scan.antt =====
-- The search for variables by indices finds the leftmost ones, and the loops end.
use mathlib.Core.Path.{subst}
use mathlib.Core.List.{append-nil}
use pandora_web_server.Base.{
  ℕ, suc, zero, ◌+◌, ◌-◌, ◌<◌, ◌≡◌, refl, sym, ap, ◌∙◌, inl, inr, Bool-cases, Option-cases, Option,
  none, some, Bytes, [], ◌∷◌, ◌++◌, length, take, drop, split_once, ◌==◌, arith, take-length-append,
  drop-length-append, take-split, drop-drop, length-append,
}
use pandora_web_server.Rewrite.Interpolation.{
  Variable, variable_prefix, variable_suffix, find, find_at, variable_of, scan,
}
use pandora_web_server.Rewrite.Interpolation.Leftmost.{
  Reading, behind, behind-append, named, here, leftmost, leftmost_later, Sought, absent, begins,
  find_prefix,
}
use pandora_web_server.Rewrite.Interpolation.Suffix.{Suffix, unended, ends, find_suffix}

module _ {H : Type 0} (header_name : Bytes → Option H) where
  tail_unended :
      (c : ℕ) (text : Bytes) → split_once 125 (c ∷ text) ≡ none → split_once 125 text ≡ none
  tail_unended c text h = elim (Bool-cases (c == 125)) [
    | inl p ↦
        let bad : ◌≡◌ {A = Option (Bytes × Bytes)} (some ([], text)) none = rw p at h in
        absurd (cc bad)
    | inr p ↦ elim (Option-cases (split_once 125 text)) [
      | inl q ↦ q
      | inr ((a, b), q) ↦
          let bad : ◌≡◌ {A = Option (Bytes × Bytes)} (some (c ∷ a, b)) none = rw (p, q) at h in
          absurd (cc bad)
    ]
  ]

  named_unended : (text : Bytes) → split_once 125 text ≡ none → named header_name text ≡ none
  unfolding named
  named_unended text h = rw (h, named) refl

  here_unended :
      (c : ℕ) (text : Bytes) → split_once 125 text ≡ none → here header_name (c ∷ text) ≡ none
  unfolding here
  here_unended c [] h = refl
  here_unended c (d ∷ text) h =
      let e = tail_unended d text h in
      elim (Bool-cases (c == 36)) [
        | inl p ↦ elim (Bool-cases (d == 123)) [
          | inl q ↦ rw (p, q, named_unended text e) refl
          | inr q ↦ rw (p, q) refl
        ]
        | inr p ↦ rw p refl
      ]

  leftmost_unended : (text : Bytes) → split_once 125 text ≡ none → leftmost header_name text ≡ none
  unfolding leftmost
  leftmost_unended [] h = refl
  leftmost_unended (c ∷ text) h =
      let e = tail_unended c text h in
      let f = leftmost_unended text e in
      rw (leftmost_later header_name c text (here_unended c text e), f) refl

  pub data Scanned (value : Bytes) : Option (ℕ × ℕ × Variable H) → Option (Reading H) → Type 0 where
    nothing : Scanned value none none
    found :
        (start end : ℕ) (v : Variable H)
        → Scanned value (some (start, end, v)) (some (take start value, v, drop (suc end) value))

  here_brace : (text : Bytes) → here header_name (123 ∷ text) ≡ none
  unfolding here
  here_brace [] = refl
  here_brace (c ∷ text) = refl

  -- The cases of a turn of the loop, at a beginning of a variable.
  turn_unended :
      (fuel : ℕ) (value : Bytes) (s start : ℕ) (text : Bytes)
      → find_at value variable_prefix s ≡ some start
      → find_at value variable_suffix start ≡ none
      → split_once 125 text ≡ none
      → Scanned value
          (scan header_name (suc fuel) value s)
          (behind (take start value) (leftmost header_name (36 ∷ 123 ∷ text)))
  unfolding scan
  turn_unended fuel value s start text e f h =
      let g : split_once 125 (36 ∷ 123 ∷ text) ≡ none = rw h refl in
      rw (e, f, leftmost_unended (36 ∷ 123 ∷ text) g, scan) nothing

  module _ (fuel : ℕ) (value : Bytes) (s start end : ℕ) (text name rest : Bytes)
      (e : find_at value variable_prefix s ≡ some start)
      (f : find_at value variable_suffix start ≡ some end)
      (g : take (end - (start + 2)) (drop (start + 2) value) ≡ name)
      (h : split_once 125 text ≡ some (name, rest)) where
    turn_other :
        variable_of header_name name ≡ none
        → take (start + 2) value ≡ take start value ++ (36 ∷ 123 ∷ [])
        → Scanned value
            (scan header_name fuel value (start + 2))
            (behind (take (start + 2) value) (leftmost header_name text))
        → Scanned value
            (scan header_name (suc fuel) value s)
            (behind (take start value) (leftmost header_name (36 ∷ 123 ∷ text)))
    unfolding scan here named
    turn_other k t next =
        let none_named : named header_name text ≡ none = rw (h, k, named) refl in
        let skipped : leftmost header_name (36 ∷ 123 ∷ text)
            ≡ behind (36 ∷ 123 ∷ []) (leftmost header_name text) =
          leftmost_later header_name 36 (123 ∷ text) none_named
          ∙ ap (λ x. behind (36 ∷ []) x) (leftmost_later header_name 123 text (here_brace text))
          ∙ behind-append (36 ∷ []) (123 ∷ []) (leftmost header_name text) in
        let o = behind-append (take start value) (36 ∷ 123 ∷ []) (leftmost header_name text) in
        let r : scan header_name (suc fuel) value s ≡ scan header_name fuel value (start + 2) =
          rw (e, f, g, k, scan) refl in
        rw (skipped, o, sym t, r) next

    turn_variable :
        (v : Variable H)
        → variable_of header_name name ≡ some v
        → drop (suc end) value ≡ rest
        → Scanned value
            (scan header_name (suc fuel) value s)
            (behind (take start value) (leftmost header_name (36 ∷ 123 ∷ text)))
    unfolding scan here named leftmost
    turn_variable v k t =
        let one : named header_name text ≡ some (v, rest) = rw (h, k, named) refl in
        let r : scan header_name (suc fuel) value s ≡ some (start, end, v) =
          rw (e, f, g, k, scan) refl in
        let l : leftmost header_name (36 ∷ 123 ∷ text) ≡ some ([], v, rest) =
          rw (one, leftmost) refl in
        rw (r, l, append-nil (take start value), sym t) (found start end v)

  drop_brace :
      (value : Bytes) (start : ℕ) (text : Bytes)
      → drop start value ≡ 36 ∷ 123 ∷ text
      → drop (start + 2) value ≡ text
  drop_brace value start text f = sym (drop-drop start 2 value) ∙ ap (λ d. drop 2 d) f

  take_brace :
      (value : Bytes) (start : ℕ) (text : Bytes)
      → drop start value ≡ 36 ∷ 123 ∷ text
      → take (start + 2) value ≡ take start value ++ (36 ∷ 123 ∷ [])
  take_brace value start text f =
      let e : (start + 2) - start ≡ 2 = omega arith in
      take-split start (start + 2) value (omega arith)
      ∙ ap (λ k. take start value ++ take k (drop start value)) e
      ∙ ap (λ d. take start value ++ take 2 d) f

  turn :
      (fuel : ℕ) (value : Bytes) (s start : ℕ) (text : Bytes)
      → find_at value variable_prefix s ≡ some start
      → drop start value ≡ 36 ∷ 123 ∷ text
      → Scanned value
          (scan header_name fuel value (start + 2))
          (behind (take (start + 2) value) (leftmost header_name text))
      → Scanned value
          (scan header_name (suc fuel) value s)
          (behind (take start value) (leftmost header_name (36 ∷ 123 ∷ text)))
  turn fuel value s start text e f next = go _ _ refl refl (find_suffix text)
    where
      go :
          (o : Option ℕ) (p : Option (Bytes × Bytes))
          → find variable_suffix text ≡ o
          → split_once 125 text ≡ p
          → Suffix text o p
          → Scanned value
              (scan header_name (suc fuel) value s)
              (behind (take start value) (leftmost header_name (36 ∷ 123 ∷ text)))
      go _ _ g h unended = turn_unended fuel value s start text e (rw (f, g) refl) h
      go _ _ g h (ends name rest k) =
          let at : find_at value variable_suffix start ≡ some (suc (suc (length name)) + start) =
            rw (f, g) refl in
          let behind_prefix = drop_brace value start text f in
          let len : (suc (suc (length name)) + start) - (start + 2) ≡ length name = omega arith in
          let text_name : take ((suc (suc (length name)) + start) - (start + 2))
                (drop (start + 2) value)
              ≡ name =
            ap (λ n. take n (drop (start + 2) value)) len
            ∙ ap (λ d. take (length name) d) (behind_prefix ∙ k)
            ∙ take-length-append name (125 ∷ rest) in
          let place : suc (suc (suc (length name)) + start) ≡ (start + 2) + length name + 1 =
            omega arith in
          let after : drop (suc (suc (suc (length name)) + start)) value ≡ rest =
            ap (λ n. drop n value) place
            ∙ sym (drop-drop (start + 2 + length name) 1 value)
            ∙ ap (λ d. drop 1 d)
                (sym (drop-drop (start + 2) (length name) value)
                  ∙ ap (λ d. drop (length name) d) (behind_prefix ∙ k)
                  ∙ drop-length-append name (125 ∷ rest)) in
          elim (Option-cases (variable_of header_name name)) [
            | inl n ↦
                turn_other fuel value s start _ text name rest e at text_name h n
                  (take_brace value start text f) next
            | inr (v, n) ↦
                turn_variable fuel value s start _ text name rest e at text_name h v n after
          ]

  -- The inner loop finds the leftmost variable, by its indices.
  pub scan-leftmost :
      (fuel : ℕ) (value : Bytes) (s : ℕ)
      → length (drop s value) < fuel
      → Scanned value
          (scan header_name fuel value s)
          (behind (take s value) (leftmost header_name (drop s value)))
  unfolding scan
  scan-leftmost zero value s h = absurd (omega arith)
  scan-leftmost (suc fuel) value s fits =
      go (find variable_prefix (drop s value)) refl (find_prefix header_name (drop s value))
        (λ start. scan-leftmost fuel value (start + 2))
    where
      go :
          (o : Option ℕ)
          → find variable_prefix (drop s value) ≡ o
          → Sought header_name (drop s value) o
          → ((start : ℕ)
              → length (drop (start + 2) value) < fuel
              → Scanned value
                  (scan header_name fuel value (start + 2))
                  (behind (take (start + 2) value) (leftmost header_name (drop (start + 2) value))))
          → Scanned value
              (scan header_name (suc fuel) value s)
              (behind (take s value) (leftmost header_name (drop s value)))
      go none e (absent h) next = rw (e, h, scan) nothing
      go (some i) e (begins l text f h) next =
          let start = length l + s in
          let found_at : find_at value variable_prefix s ≡ some start = rw e refl in
          let commuted : length l + s ≡ s + length l = omega arith in
          let begun : drop start value ≡ 36 ∷ 123 ∷ text =
            ap (λ n. drop n value) commuted
            ∙ sym (drop-drop s (length l) value)
            ∙ ap (λ d. drop (length l) d) f
            ∙ drop-length-append l (36 ∷ 123 ∷ text) in
          let len : start - s ≡ length l = omega arith in
          let before_it : take start value ≡ take s value ++ l =
            take-split s start value (omega arith)
            ∙ ap (λ n. take s value ++ take n (drop s value)) len
            ∙ ap (λ d. take s value ++ take (length l) d) f
            ∙ ap (λ d. take s value ++ d) (take-length-append l (36 ∷ 123 ∷ text)) in
          let text_at = drop_brace value start text begun in
          let shorter : length (drop s value) ≡ length l + suc (suc (length text)) =
            ap length f ∙ length-append l (36 ∷ 123 ∷ text) in
          let text_length = ap length text_at in
          let rest = next start (omega (arith, shorter, text_length, fits)) in
          let done = turn fuel value s start text found_at begun (
            subst
              (λ d.
                Scanned value (scan header_name fuel value (start + 2))
                  (behind (take (start + 2) value) (leftmost header_name d)))
              text_at rest) in
          rw
            (
              h,
              behind-append (take s value) l (leftmost header_name (36 ∷ 123 ∷ text)),
              sym before_it,
            )
            done
