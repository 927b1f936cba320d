-- ===== src/Rewrite/Interpolation/Suffix.antt =====
-- The search for the end of a variable.
use mathlib.Core.Path.{subst}
use pandora_web_server.Base.{
  ℕ, suc, ◌≡◌, refl, sym, ap, inl, inr, false, Bool-cases, ◌>>=◌, Option, none, some, Bytes, [],
  ◌∷◌, ◌++◌, length, split_once, before, starts_with, ◌==◌, arith,
}
use pandora_web_server.Rewrite.Interpolation.{variable_suffix, find}

-- What a search for the suffix shows.
pub data Suffix (text : Bytes) : Option ℕ → Option (Bytes × Bytes) → Type 0 where
  unended : Suffix text none none
  ends :
      (name rest : Bytes)
      → text ≡ name ++ (125 ∷ rest)
      → Suffix text (some (length name)) (some (name, rest))

Suffix-cons :
    (c : ℕ) (text : Bytes) (o : Option ℕ) (p : Option (Bytes × Bytes))
    → Suffix text o p
    → Suffix (c ∷ text) (o >>= λ i. some (suc i)) (before c p)
Suffix-cons c text _ _ unended = unended
Suffix-cons c text _ _ (ends name rest e) = ends (c ∷ name) rest (ap (λ x. c ∷ x) e)

pub find_suffix : (text : Bytes) → Suffix text (find variable_suffix text) (split_once 125 text)
find_suffix [] = unended
find_suffix (c ∷ text) =
    let later = find_suffix text in
    elim (Bool-cases (c == 125)) [
      | inl p ↦
          let e : c ≡ 125 = ground arith in
          subst
            (λ x. Suffix (x ∷ text) (find variable_suffix (x ∷ text)) (split_once 125 (x ∷ text)))
            (sym e) (ends [] text refl)
      | inr p ↦
          let q : starts_with variable_suffix (c ∷ text) ≡ false = ground arith in
          rw (p, q) (Suffix-cons c text _ _ later)
    ]
