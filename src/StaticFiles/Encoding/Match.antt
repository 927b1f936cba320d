-- ===== src/StaticFiles/Encoding/Match.antt =====
-- What the answer to an `Accept-Encoding` header contains.
use pandora_web_server.Base.{
  ℕ, zero, suc, ◌≡◌, refl, sym, ap, ◌∙◌, inl, inr, Bool, true, false, ◌&&◌, ◌||◌, Bool-cases,
  Option, none, some, List, [], ◌∷◌, ◌++◌, any, All, Bytes, codes, bytes_eq, split, sort,
  insert_sorted, arith,
}
use pandora_web_server.StaticFiles.Encoding.{
  CompressionAlgorithm, gzip, deflate, compress, brotli, zstandard, discriminant, add_one, same,
  ext, from_ext, name, from_name, contains, add_new, add_supported, add_requested, find_matches,
  parse_all, quality_le,
}

-- The name and the file extension of an algorithm are both read back as that algorithm.
pub from_name-name :
    (a : CompressionAlgorithm) → (from_name (name a) ≡ some a) × (from_ext (ext a) ≡ some a)
from_name-name gzip = (refl, refl)
from_name-name deflate = (refl, refl)
from_name-name compress = (refl, refl)
from_name-name brotli = (refl, refl)
from_name-name zstandard = (refl, refl)

same-sym : (a b : CompressionAlgorithm) → same a b ≡ same b a
same-sym a b = ground arith

same→≡ : (a b : CompressionAlgorithm) → same a b ≡ true → a ≡ b
same→≡ a b h = sym (inverse a) ∙ ap variant (ground (arith, h)) ∙ inverse b
  where
    variant : ℕ → CompressionAlgorithm
    variant zero = gzip
    variant (suc zero) = deflate
    variant (suc (suc zero)) = compress
    variant (suc (suc (suc zero))) = brotli
    variant (suc (suc (suc (suc n)))) = zstandard

    inverse : (c : CompressionAlgorithm) → variant (discriminant c) ≡ c
    inverse gzip = refl
    inverse deflate = refl
    inverse compress = refl
    inverse brotli = refl
    inverse zstandard = refl

-- No element stands twice in the list.
abbrev pub Distinct : List CompressionAlgorithm → Type 0
Distinct [] = Unit
Distinct (a ∷ algorithms) = (contains algorithms a ≡ false) × Distinct algorithms

-- All of the list's elements are in `supported`.
abbrev pub Within : List CompressionAlgorithm → List CompressionAlgorithm → Type 0
Within supported algorithms = All (λ a. contains supported a ≡ true) algorithms

any-append :
    (p : CompressionAlgorithm → Bool) (xs ys : List CompressionAlgorithm)
    → any p (xs ++ ys) ≡ any p xs || any p ys
any-append p [] ys = refl
any-append p (x ∷ xs) ys = ground (arith, any-append p xs ys)

add_new-Distinct :
    (a : CompressionAlgorithm) (xs : List CompressionAlgorithm)
    → Distinct xs
    → Distinct (add_new a xs)
add_new-Distinct a xs h = elim (Bool-cases (contains xs a)) [
  | inl known ↦ rw known h
  | inr new ↦ rw new (append xs h new)
]
  where
    append :
        (xs : List CompressionAlgorithm)
        → Distinct xs
        → contains xs a ≡ false
        → Distinct (xs ++ a ∷ [])
    append [] h new = (refl, tt)
    append (x ∷ xs) (fresh, h) new = (
      any-append (same x) xs (a ∷ []) ∙ ground (arith, fresh, new),
      append xs h (ground (arith, new)),
    )

any-known :
    (p : CompressionAlgorithm → Bool) (a : CompressionAlgorithm) (xs : List CompressionAlgorithm)
    → contains xs a ≡ true
    → p a ≡ true
    → any p xs ≡ true
any-known p a [] known h = absurd (ground (arith, known))
any-known p a (x ∷ xs) known h = elim (Bool-cases (same a x)) [
  | inl here ↦ (let e : p x ≡ true = sym (ap p (same→≡ a x here)) ∙ h in rw e refl)
  | inr elsewhere ↦
      (let e = any-known p a xs (ground (arith, known, elsewhere)) h in ground (arith, e))
]

-- A test of the elements after one was added.
any-add_new :
    (p : CompressionAlgorithm → Bool) (a : CompressionAlgorithm) (xs : List CompressionAlgorithm)
    → any p (add_new a xs) ≡ any p xs || p a
any-add_new p a xs = elim (Bool-cases (contains xs a)) [
  | inl known ↦ rw known (elim (Bool-cases (p a)) [
    | inl h ↦ (let e = any-known p a xs known h in ground (arith, e, h))
    | inr h ↦ ground (arith, h)
  ])
  | inr new ↦ rw new (any-append p xs (a ∷ []) ∙ ground arith)
]

-- `add_supported` and `add_requested` on what they add.
add_supported-Distinct :
    (supported result : List CompressionAlgorithm)
    → Distinct result
    → Distinct (add_supported supported result)
add_supported-Distinct [] result h = h
add_supported-Distinct (a ∷ supported) result h =
    add_supported-Distinct supported (add_new a result) (add_new-Distinct a result h)

contains-add_supported :
    (supported result : List CompressionAlgorithm) (a : CompressionAlgorithm)
    → contains (add_supported supported result) a ≡ contains result a || contains supported a
contains-add_supported [] result a = ground arith
contains-add_supported (b ∷ supported) result a =
    contains-add_supported supported (add_new b result) a
    ∙ ground (arith, any-add_new (same a) b result)

abbrev pub is_variant : CompressionAlgorithm → Option CompressionAlgorithm → Bool
is_variant a none = false
is_variant a (some b) = same a b

abbrev pub asks_for : CompressionAlgorithm → Bytes × ℕ → Bool
asks_for a (algorithm, _) = bytes_eq algorithm (codes "*") || is_variant a (from_name algorithm)

add_one-Distinct :
    (supported : List CompressionAlgorithm) (o : Option CompressionAlgorithm)
    (result : List CompressionAlgorithm)
    → Distinct result
    → Distinct (add_one supported o result)
add_one-Distinct supported none result h = h
add_one-Distinct supported (some a) result h = elim (Bool-cases (contains supported a)) [
  | inl e ↦ rw e (add_new-Distinct a result h)
  | inr e ↦ rw e h
]

add_requested-Distinct :
    (supported : List CompressionAlgorithm) (requested : List (Bytes × ℕ))
    (result : List CompressionAlgorithm)
    → Distinct result
    → Distinct (add_requested supported requested result)
add_requested-Distinct supported [] result h = h
add_requested-Distinct supported ((algorithm, q) ∷ requested) result h =
    elim (Bool-cases (bytes_eq algorithm (codes "*"))) [
      | inl e ↦ rw e (add_supported-Distinct supported result h)
      | inr e ↦ rw e (
          add_requested-Distinct supported requested _
            (add_one-Distinct supported (from_name algorithm) result h))
    ]

contains-add_one :
    (supported : List CompressionAlgorithm) (o : Option CompressionAlgorithm)
    (result : List CompressionAlgorithm) (a : CompressionAlgorithm)
    → contains (add_one supported o result) a
      ≡ contains result a || (contains supported a && is_variant a o)
contains-add_one supported none result a = ground arith
contains-add_one supported (some b) result a = elim (Bool-cases (same a b)) [
  | inl e ↦
      (let k : contains supported a ≡ contains supported b =
          ap (contains supported) (same→≡ a b e) in
        ground (arith, e, k, any-add_new (same a) b result))
  | inr e ↦ ground (arith, e, any-add_new (same a) b result)
]

distribute : (r s v t : Bool) → (r || (s && v)) || (s && t) ≡ r || (s && (v || t))
distribute r s v t = ground arith

contains-add_requested :
    (supported : List CompressionAlgorithm) (requested : List (Bytes × ℕ))
    (result : List CompressionAlgorithm) (a : CompressionAlgorithm)
    → contains (add_requested supported requested result) a
      ≡ contains result a || (contains supported a && any (asks_for a) requested)
contains-add_requested supported [] result a = ground arith
contains-add_requested supported ((algorithm, q) ∷ requested) result a =
    elim (Bool-cases (bytes_eq algorithm (codes "*"))) [
      | inl e ↦ rw e (contains-add_supported supported result a ∙ ground arith)
      | inr e ↦ rw e (
          contains-add_requested supported requested _ a
          ∙ ap (λ b. b || (contains supported a && any (asks_for a) requested))
              (contains-add_one supported (from_name algorithm) result a)
          ∙ distribute (contains result a) (contains supported a)
              (is_variant a (from_name algorithm)) _)
    ]

any-sort :
    (p : Bytes × ℕ → Bool) (le : Bytes × ℕ → Bytes × ℕ → Bool) (xs : List (Bytes × ℕ))
    → any p (sort le xs) ≡ any p xs
any-sort p le [] = refl
any-sort p le (x ∷ xs) = any-insert (sort le xs) ∙ ap (λ b. p x || b) (any-sort p le xs)
  where
    any-insert : (ys : List (Bytes × ℕ)) → any p (insert_sorted le x ys) ≡ p x || any p ys
    any-insert [] = refl
    any-insert (y ∷ ys) = elim (Bool-cases (le x y)) [
      | inl e ↦ rw (e, any, insert_sorted) refl
      | inr e ↦ rw (e, any, insert_sorted) (ap (λ b. p y || b) (any-insert ys) ∙ ground arith)
    ]

-- No algorithm stands twice in the answer, and one is in it exactly if it is supported and the
-- header names it or contains `*`, whatever the qualities.
pub find_matches-contains :
    (read_quality : Bytes → Option ℕ) (requested : Bytes) (supported : List CompressionAlgorithm)
    → Distinct (find_matches read_quality requested supported)
      × ((a : CompressionAlgorithm)
          → contains (find_matches read_quality requested supported) a
            ≡ contains supported a
              && any (asks_for a) (parse_all read_quality (split 44 requested)))
unfolding find_matches
find_matches-contains read_quality requested supported =
    let parsed = parse_all read_quality (split 44 requested) in
    (
      add_requested-Distinct supported (sort quality_le parsed) [] tt,
      λ a.
          contains-add_requested supported (sort quality_le parsed) [] a
          ∙ ap (λ b. contains supported a && b) (any-sort (asks_for a) quality_le parsed),
    )
