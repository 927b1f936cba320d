-- ===== src/Startup/Certificates/Split.antt =====
-- The parts of a file of certificates end with the markers, from the left.
use mathlib.Core.List.{append-nil}
use mathlib.Core.Path.{subst}
use pandora_web_server.Base.{
  ℕ, zero, suc, ◌+◌, ◌≤◌, ◌≡◌, refl, sym, ap, ◌∙◌, true, false, Bool-cases, inl, inr, Option, none,
  some, Bytes, List, [], ◌∷◌, ◌++◌, codes, length, take, drop, all, bytes_eq, bytes_eq_iff,
  take-append-drop, take-length, take-length-append, drop-length-append, length-append, arith,
}
use pandora_web_server.Startup.Certificates.{is_ascii_whitespace, marker_at, part_length, parts_of}

-- What ends a certificate in a PEM file.
abbrev pub marker : Bytes
marker = codes "-----END CERTIFICATE-----"

-- The text goes on with the marker behind `before`, and nowhere earlier.
pub record Marks (text before after : Bytes) : Type 0 where
  pub here : text ≡ before ++ marker ++ after
  pub leftmost : (b a : Bytes) → text ≡ b ++ marker ++ a → length before ≤ length b

-- How a text is split: each part goes to the end of the leftmost marker in what is left. What is
-- left without a marker is a part of its own, unless it is whitespace.
pub data Splits : Bytes → List Bytes → Type 0 where
  blank : (rest : Bytes) → all is_ascii_whitespace rest ≡ true → Splits rest []
  unmarked :
      (rest : Bytes)
      → all is_ascii_whitespace rest ≡ false
      → ((b a : Bytes) → rest ≡ b ++ marker ++ a → ⊥)
      → Splits rest (rest ∷ [])
  marked :
      (text before after : Bytes) (parts : List Bytes)
      → Marks text before after
      → Splits after parts
      → Splits text ((before ++ marker) ∷ parts)

not-nil : (b a : Bytes) → [] ≡ b ++ marker ++ a → ⊥
not-nil [] a e = cc e
not-nil (x ∷ b) a e = cc e

-- What `marker_at` finds.
data Found (text : Bytes) : Option ℕ → Type 0 where
  absent : ((b a : Bytes) → text ≡ b ++ marker ++ a → ⊥) → Found text none
  found : (before after : Bytes) → Marks text before after → Found text (some (length before))

starts : (text : Bytes) → bytes_eq (take 25 text) marker ≡ true → text ≡ marker ++ drop 25 text
starts text e =
    sym (take-append-drop 25 text) ∙ ap (λ x. x ++ drop 25 text) ((bytes_eq_iff _ _).0 e)

starts_with_marker : (a : Bytes) → bytes_eq (take 25 (marker ++ a)) marker ≡ true
starts_with_marker a = (bytes_eq_iff _ _).1 (take-length-append marker a)

marker_behind :
    (x : ℕ) (text : Bytes)
    → bytes_eq (take 25 (x ∷ text)) marker ≡ false
    → (b a : Bytes) → x ∷ text ≡ b ++ marker ++ a
    → (b' : Bytes) × (length b ≡ suc (length b')) × (text ≡ b' ++ marker ++ a)
marker_behind x text other [] a e =
    let bad = subst (λ t. bytes_eq (take 25 t) marker ≡ false) e other in
    let good = starts_with_marker a in absurd (cc (bad, good))
marker_behind x text other (y ∷ b) a e = (b, refl, cc e)

marker_at-Found : (text : Bytes) → Found text (marker_at text)
unfolding marker_at
marker_at-Found [] = absent not-nil
marker_at-Found (x ∷ text) = elim (Bool-cases (bytes_eq (take 25 (x ∷ text)) marker)) [
  | inl start ↦
      rw (start, marker_at)
        (found [] (drop 25 (x ∷ text))
          (record { here = starts (x ∷ text) start; leftmost = λ b a e. omega arith }))
  | inr other ↦ rw (other, marker_at) (go (marker_at text) (marker_at-Found text) other)
]
  where
    go :
        (o : Option ℕ)
        → Found text o
        → bytes_eq (take 25 (x ∷ text)) marker ≡ false
        → Found (x ∷ text) (elim o as (λ x. Option ℕ) [ none ↦ none | some i ↦ some (suc i) ])
    go _ (absent not_there) other =
        absent
          (λ b a e. let (b', _, rest) = marker_behind x text other b a e in not_there b' a rest)
    go _ (found before after m) other = found (x ∷ before) after (record {
      here = ap (λ r. x ∷ r) m.here;
      leftmost = λ b a e.
          let (b', size, rest) = marker_behind x text other b a e in
          let below = m.leftmost b' a rest in omega (arith, size, below);
    })

take-before :
    (before after : Bytes)
    → take (length before + 25) (before ++ marker ++ after) ≡ before ++ marker
take-before before after =
    let size : length before + 25 ≡ length (before ++ marker) = sym (length-append before marker) in
    ap (λ n. take n ((before ++ marker) ++ after)) size
    ∙ take-length-append (before ++ marker) after

drop-before : (before after : Bytes) → drop (length before + 25) (before ++ marker ++ after) ≡ after
drop-before before after =
    let size : length before + 25 ≡ length (before ++ marker) = sym (length-append before marker) in
    ap (λ n. drop n ((before ++ marker) ++ after)) size
    ∙ drop-length-append (before ++ marker) after

parts_of-nil : (fuel : ℕ) → parts_of fuel [] ≡ []
unfolding parts_of
parts_of-nil zero = refl
parts_of-nil (suc fuel) = refl

parts_of-Splits_le :
    (fuel : ℕ) (text : Bytes) → length text ≤ fuel → Splits text (parts_of fuel text)
unfolding parts_of
parts_of-Splits_le zero [] fits = blank [] refl
parts_of-Splits_le zero (x ∷ text) fits = absurd (omega (arith, fits))
parts_of-Splits_le (suc fuel) [] fits = blank [] refl
parts_of-Splits_le (suc fuel) (x ∷ text) fits =
    elim (Bool-cases (all is_ascii_whitespace (x ∷ text))) [
      | inl empty ↦ rw (empty, parts_of) (blank (x ∷ text) empty)
      | inr more ↦
          rw (more, parts_of)
            (go (marker_at (x ∷ text)) (marker_at-Found (x ∷ text)) more fits
              (parts_of-Splits_le fuel))
    ]
  where
    whole : Bytes
    whole = x ∷ text

    go :
        (o : Option ℕ)
        → Found whole o
        → all is_ascii_whitespace whole ≡ false
        → length whole ≤ suc fuel
        → ((t : Bytes) → length t ≤ fuel → Splits t (parts_of fuel t))
        → Splits whole
            (take (part_length whole o) whole ∷ parts_of fuel (drop (part_length whole o) whole))
    go _ (absent not_there) more fits next =
        let all_of = take-length whole in
        let nothing : drop (length whole) whole ≡ [] =
          ap (λ t. drop (length whole) t) (sym (append-nil whole)) ∙ drop-length-append whole [] in
        subst (λ t. Splits whole (t ∷ parts_of fuel (drop (length whole) whole))) (sym all_of)
          (subst (λ t. Splits whole (whole ∷ parts_of fuel t)) (sym nothing)
            (subst (λ parts. Splits whole (whole ∷ parts)) (sym (parts_of-nil fuel))
              (unmarked whole more not_there)))
    go _ (found before after m) more fits next =
        let first = ap (λ t. take (length before + 25) t) m.here ∙ take-before before after in
        let left = ap (λ t. drop (length before + 25) t) m.here ∙ drop-before before after in
        let size =
          ap (λ t. length t) m.here
          ∙ length-append (before ++ marker) after
          ∙ ap (λ n. n + length after) (length-append before marker) in
        subst (λ t. Splits whole (t ∷ parts_of fuel (drop (length before + 25) whole))) (sym first)
          (subst (λ t. Splits whole ((before ++ marker) ∷ parts_of fuel t)) (sym left)
            (marked whole before after _ m (next after (omega (arith, size, fits)))))

-- A file of certificates is parsed in these parts: each goes to the end of the leftmost end marker
-- in what is left of the file, nothing between them is lost, and what is left behind the last
-- marker is a part of its own, unless it is whitespace.
pub parts_of-Splits : (text : Bytes) → Splits text (parts_of (length text) text)
parts_of-Splits text = parts_of-Splits_le (length text) text (omega arith)
