-- ===== src/Rewrite/Interpolation/Leftmost.antt =====
-- The parts of a text with variables against a definition that reads the text once.
use pandora_web_server.Base.{
  ℕ, suc, ◌≡◌, refl, sym, ap, inl, inr, true, false, Bool-cases, ◌>>=◌, Option, none, some, Bytes,
  List, [], ◌∷◌, ◌++◌, length, starts_with, split_once, ◌==◌, if◌then◌else◌, arith,
}
use mathlib.Core.Path.{subst}
use mathlib.Core.List.{append_assoc}
use pandora_web_server.Rewrite.Interpolation.{
  Variable, Part, literal, variable, variable_prefix, find, variable_of, push_literal,
}

-- A variable behind the text and before the rest.
abbrev pub Reading : Type 0 → Type 0
Reading H = Bytes × Variable H × Bytes

module _ {H : Type 0} where
  abbrev pub behind : Bytes → Option (Reading H) → Option (Reading H)
  behind l none = none
  behind l (some (text, v, rest)) = some (l ++ text, v, rest)

  pub behind-append :
      (a b : Bytes) (o : Option (Reading H)) → behind a (behind b o) ≡ behind (a ++ b) o
  behind-append a b none = refl
  behind-append a b (some (text, v, rest)) =
      ap (λ x. some (x, v, rest)) (sym (append_assoc a b text))

  pub behind-nil : (o : Option (Reading H)) → behind [] o ≡ o
  behind-nil none = refl
  behind-nil (some (text, v, rest)) = refl

module _ {H : Type 0} (header_name : Bytes → Option H) where
  -- The variable that begins where the prefix `${` was read: its name ends at the first suffix.
  unfoldable pub named : Bytes → Option (Variable H × Bytes)
  unfolding variable_of
  named text = elim (split_once 125 text) [
    | none ↦ none
    | some (name, rest) ↦ elim (variable_of header_name name) [
      | none ↦ none
      | some v ↦ some (v, rest)
    ]
  ]

  -- The variable at the start of a text.
  unfoldable pub here : Bytes → Option (Variable H × Bytes)
  unfolding named
  here [] = none
  here (c ∷ []) = none
  here (c ∷ d ∷ text) = if c == 36 then (if d == 123 then named text else none) else none

  -- The leftmost variable of a text.
  unfoldable pub leftmost : Bytes → Option (Reading H)
  unfolding here
  leftmost [] = none
  leftmost (c ∷ s) = elim (here (c ∷ s)) [
    | none ↦ behind (c ∷ []) (leftmost s)
    | some (v, rest) ↦ some ([], v, rest)
  ]

  -- The parts of a text: the variables from the left, and the text between them.
  pub data Parts : Bytes → List (Part H) → Type 0 where
    ended : Parts [] []
    plain : (c : ℕ) (s : Bytes) → leftmost (c ∷ s) ≡ none → Parts (c ∷ s) (literal (c ∷ s) ∷ [])
    reads :
        (s l : Bytes) (v : Variable H) (rest : Bytes) (parts : List (Part H))
        → leftmost s ≡ some (l, v, rest)
        → Parts rest parts
        → Parts s (push_literal header_name l (variable v ∷ parts))

  -- What a search for the prefix shows of the leftmost variable.
  pub data Sought (s : Bytes) : Option ℕ → Type 0 where
    absent : leftmost s ≡ none → Sought s none
    begins :
        (l text : Bytes)
        → s ≡ l ++ (36 ∷ 123 ∷ text)
        → leftmost s ≡ behind l (leftmost (36 ∷ 123 ∷ text))
        → Sought s (some (length l))

  pub leftmost_later :
      (c : ℕ) (s : Bytes) → here (c ∷ s) ≡ none → leftmost (c ∷ s) ≡ behind (c ∷ []) (leftmost s)
  unfolding leftmost
  leftmost_later c s h = rw (h, leftmost) refl

  Sought-cons :
      (c : ℕ) (s : Bytes) (o : Option ℕ)
      → here (c ∷ s) ≡ none
      → Sought s o
      → Sought (c ∷ s) (o >>= λ i. some (suc i))
  Sought-cons c s none other (absent h) = absent (rw (leftmost_later c s other, h) refl)
  Sought-cons c s (some i) other (begins l text e h) =
      begins (c ∷ l) text (ap (λ x. c ∷ x) e)
        (rw (leftmost_later c s other, h) (behind-append (c ∷ []) l _))

  find-later :
      (c : ℕ) (s : Bytes)
      → starts_with variable_prefix (c ∷ s) ≡ false
      → here (c ∷ s) ≡ none
      → Sought s (find variable_prefix s)
      → Sought (c ∷ s) (find variable_prefix (c ∷ s))
  find-later c s starts other sought =
      let e : find variable_prefix (c ∷ s) ≡ (find variable_prefix s >>= λ i. some (suc i)) =
        rw starts refl in
      subst (λ o. Sought (c ∷ s) o) (sym e) (Sought-cons c s _ other sought)

  find-here :
      (c d : ℕ) (s : Bytes)
      → (c == 36) ≡ true
      → (d == 123) ≡ true
      → Sought (c ∷ d ∷ s) (find variable_prefix (c ∷ d ∷ s))
  find-here c d s p q =
      let e : c ≡ 36 = ground arith in
      let f : d ≡ 123 = ground arith in
      subst (λ x. Sought (x ∷ d ∷ s) (find variable_prefix (x ∷ d ∷ s))) (sym e)
        (subst (λ x. Sought (36 ∷ x ∷ s) (find variable_prefix (36 ∷ x ∷ s))) (sym f)
          (begins [] s refl (sym (behind-nil _))))

  pub find_prefix : (s : Bytes) → Sought s (find variable_prefix s)
  unfolding leftmost here
  find_prefix [] = absent refl
  find_prefix (c ∷ []) = find-later c [] (ground arith) refl (absent refl)
  find_prefix (c ∷ d ∷ s) =
      let sought = find_prefix (d ∷ s) in
      elim (Bool-cases (c == 36)) [
        | inl p ↦ elim (Bool-cases (d == 123)) [
          | inl q ↦ find-here c d s p q
          | inr q ↦ find-later c (d ∷ s) (ground arith) (rw (p, q) refl) sought
        ]
        | inr p ↦ find-later c (d ∷ s) (ground arith) (rw p refl) sought
      ]
