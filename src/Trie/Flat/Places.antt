-- ===== src/Trie/Flat/Places.antt =====
-- Lists that are changed at one index or grow at their end, as the vectors of `Trie` do in
-- pandora-module-utils/src/trie.rs.
use pandora_web_server.Base.{
  ℕ, zero, suc, ◌+◌, ◌<◌, ◌≡◌, ◌≢◌, refl, ap, ◌∙◌, some, List, [], ◌∷◌, ◌++◌, length, get_elem?,
  modify, replicate, sort, insert_sorted, All, Bool, Bool-cases, inl, inr, arith,
}

module _ {ℓ} {A : Type ℓ} where
  pub get_elem?-lt : (xs : List A) (j : ℕ) (a : A) → get_elem? xs j ≡ some a → j < length xs
  get_elem?-lt [] j a e = cc e
  get_elem?-lt (x ∷ xs) zero a e = omega arith
  get_elem?-lt (x ∷ xs) (suc j) a e = omega (arith, get_elem?-lt xs j a e)

  pub get_elem?-append :
      (xs ys : List A) (j : ℕ) (a : A) → get_elem? xs j ≡ some a → get_elem? (xs ++ ys) j ≡ some a
  get_elem?-append [] ys j a e = cc e
  get_elem?-append (x ∷ xs) ys zero a e = e
  get_elem?-append (x ∷ xs) ys (suc j) a e = get_elem?-append xs ys j a e

  get_elem?-replicate : (m j : ℕ) (a : A) → j < m → get_elem? (replicate m a) j ≡ some a
  get_elem?-replicate zero j a h = absurd (omega arith)
  get_elem?-replicate (suc m) zero a h = refl
  get_elem?-replicate (suc m) (suc j) a h = get_elem?-replicate m j a (omega arith)

  pub get_elem?-append_replicate :
      (xs : List A) (m j : ℕ) (a : A)
      → j < m
      → get_elem? (xs ++ replicate m a) (length xs + j) ≡ some a
  get_elem?-append_replicate [] m j a h =
      ap (get_elem? (replicate m a)) (omega arith) ∙ get_elem?-replicate m j a h
  get_elem?-append_replicate (x ∷ xs) m j a h =
      let e : suc (length xs) + j ≡ suc (length xs + j) = omega arith in
      ap (get_elem? (x ∷ xs ++ replicate m a)) e ∙ get_elem?-append_replicate xs m j a h

  pub get_elem?-length : (xs : List A) (a : A) → get_elem? (xs ++ a ∷ []) (length xs) ≡ some a
  get_elem?-length [] a = refl
  get_elem?-length (x ∷ xs) a = get_elem?-length xs a

  pub get_elem?-modify :
      (xs : List A) (i : ℕ) (f : A → A) (a : A)
      → get_elem? xs i ≡ some a
      → get_elem? (modify xs i f) i ≡ some (f a)
  get_elem?-modify [] i f a e = cc e
  get_elem?-modify (x ∷ xs) zero f a e = cc e
  get_elem?-modify (x ∷ xs) (suc i) f a e = get_elem?-modify xs i f a e

  pub get_elem?-modify_other :
      (xs : List A) (i j : ℕ) (f : A → A) → j ≢ i → get_elem? (modify xs i f) j ≡ get_elem? xs j
  get_elem?-modify_other [] i j f h = refl
  get_elem?-modify_other (x ∷ xs) zero zero f h = absurd (h refl)
  get_elem?-modify_other (x ∷ xs) zero (suc j) f h = refl
  get_elem?-modify_other (x ∷ xs) (suc i) zero f h = refl
  get_elem?-modify_other (x ∷ xs) (suc i) (suc j) f h =
      get_elem?-modify_other xs i j f (λ e. h (ap suc e))

-- What holds of every element holds of every element of the sorted list, and the other way round.
module _ {ℓ κ} {A : Type ℓ} (P : A → Type κ) (le : A → A → Bool) where
  All-insert_sorted : (x : A) (xs : List A) → P x → All P xs → All P (insert_sorted le x xs)
  All-insert_sorted x [] p all = (p, tt)
  All-insert_sorted x (y ∷ ys) p (q, all) = elim (Bool-cases (le x y)) [
    | inl e ↦ rw (e, All) (p, (q, all))
    | inr e ↦ rw (e, All) (q, All-insert_sorted x ys p all)
  ]

  pub All-sort : (xs : List A) → All P xs → All P (sort le xs)
  All-sort [] all = tt
  All-sort (x ∷ xs) (p, all) = All-insert_sorted x (sort le xs) p (All-sort xs all)

  All-of_insert_sorted : (x : A) (xs : List A) → All P (insert_sorted le x xs) → P x × All P xs
  All-of_insert_sorted x [] all = all
  All-of_insert_sorted x (y ∷ ys) all = elim (Bool-cases (le x y)) [
    | inl e ↦ let here : All P (x ∷ y ∷ ys) = rw (e, All) at all in here
    | inr e ↦
        let here : All P (y ∷ insert_sorted le x ys) = rw (e, All) at all in
        let below = All-of_insert_sorted x ys here.1 in (below.0, (here.0, below.1))
  ]

  pub All-of_sort : (xs : List A) → All P (sort le xs) → All P xs
  All-of_sort [] all = tt
  All-of_sort (x ∷ xs) all =
      let below = All-of_insert_sorted x (sort le xs) all in (below.0, All-of_sort xs below.1)
