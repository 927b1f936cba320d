-- ===== src/Trie/Prefix/Longest.antt =====
-- `common_prefix_length` returns the longest common prefix that ends at a boundary in both labels.
use mathlib.Core.Path.{subst}
use pandora_web_server.Base.{
  ℕ, zero, suc, ◌+◌, ◌≤◌, ◌≡◌, refl, sym, ◌∙◌, ◌≢◌, ◌⊎◌, inl, inr, Bytes, [], ◌∷◌, take, ◌==◌,
  ==_iff, if◌then◌else◌, Bool-cases, arith,
}
use pandora_web_server.Trie.Prefix.{separator, common_prefix_from, common_prefix_length}

-- The position `n` of a label is its end or a separator.
abbrev pub IsBoundary : Bytes → ℕ → Type 0
IsBoundary [] n = n ≡ 0
IsBoundary (x ∷ a) zero = x ≡ separator
IsBoundary (x ∷ a) (suc n) = IsBoundary a n

-- The first `n` bytes of both labels are there, are the same, and end at a boundary of both.
pub record IsCommon (a b : Bytes) (n : ℕ) : Type 0 where
  pub same : take n a ≡ take n b
  pub left : IsBoundary a n
  pub right : IsBoundary b n

IsCommon-cons :
    {x y : ℕ} {a b : Bytes} {n : ℕ} → x ≡ y → IsCommon a b n → IsCommon (x ∷ a) (y ∷ b) (suc n)
IsCommon-cons p c = record { same = cc (p, c.same); left = c.left; right = c.right }

IsCommon-of_cons :
    {x y : ℕ} {a b : Bytes} {n : ℕ} → IsCommon (x ∷ a) (y ∷ b) (suc n) → (x ≡ y) × IsCommon a b n
IsCommon-of_cons c = (cc c.same, record { same = cc c.same; left = c.left; right = c.right })

-- What the loop returns at index `i`: a boundary ahead of it, the last one, or the one behind it.
abbrev Outcome : ℕ → ℕ → Bytes → Bytes → ℕ → Type 0
Outcome i last a b r =
    ((r ≡ last) × ((n : ℕ) → ¬ IsCommon a b n))
    ⊎ ((n : ℕ) × (r ≡ i + n) × IsCommon a b n × ((m : ℕ) → IsCommon a b m → m ≤ n))

ends_left : (i last : ℕ) (b : Bytes) → IsCommon [] b 0 → Outcome i last [] b i
ends_left i last b c = inr (0, omega arith, c, λ m k. omega (arith, k.left))

ends_right : (i last : ℕ) (a : Bytes) → IsCommon a [] 0 → Outcome i last a [] i
ends_right i last a c = inr (0, omega arith, c, λ m k. omega (arith, k.right))

not-IsCommon_zero : {x y : ℕ} {a b : Bytes} → x ≢ separator → ¬ IsCommon (x ∷ a) (y ∷ b) 0
not-IsCommon_zero h c = h c.left

none_cons :
    (x y : ℕ) (a b : Bytes)
    → ¬ IsCommon (x ∷ a) (y ∷ b) 0
    → ((n : ℕ) → ¬ IsCommon a b n)
    → (n : ℕ) → ¬ IsCommon (x ∷ a) (y ∷ b) n
none_cons x y a b here ahead zero c = here c
none_cons x y a b here ahead (suc n) c = ahead n (IsCommon-of_cons c).1

most_cons :
    (x y : ℕ) (a b : Bytes) (n : ℕ)
    → ((m : ℕ) → IsCommon a b m → m ≤ n)
    → (m : ℕ) → IsCommon (x ∷ a) (y ∷ b) m
    → m ≤ suc n
most_cons x y a b n most zero c = omega arith
most_cons x y a b n most (suc m) c = omega (arith, most m (IsCommon-of_cons c).1)

only_zero :
    (x y : ℕ) (a b : Bytes)
    → ((n : ℕ) → ¬ IsCommon a b n)
    → (m : ℕ) → IsCommon (x ∷ a) (y ∷ b) m
    → m ≤ 0
only_zero x y a b ahead zero c = omega arith
only_zero x y a b ahead (suc m) c = absurd (ahead m (IsCommon-of_cons c).1)

-- The step of the loop over a byte that both labels have.
Outcome-cons :
    (i last : ℕ) (x y : ℕ) (a b : Bytes) (r : ℕ)
    → x ≡ y
    → Outcome (i + 1) (if x == separator then i else last) a b r
    → Outcome i last (x ∷ a) (y ∷ b) r
Outcome-cons i last x y a b r e (inr (n, at, c, most)) =
    inr (suc n, omega arith, IsCommon-cons e c, most_cons x y a b n most)
Outcome-cons i last x y a b r e (inl (at, ahead)) = elim (Bool-cases (x == separator)) [
  | inl slash ↦
      let here : x ≡ separator = (==_iff _ _).0 slash in
      inr (
        0,
        ground arith,
        record { same = refl; left = here; right = sym e ∙ here },
        only_zero x y a b ahead,
      )
  | inr plain ↦ inl (ground arith, none_cons x y a b (not-IsCommon_zero (λ h. ground arith)) ahead)
]

ends_left_cons :
    (i last y : ℕ) (b : Bytes) → Outcome i last [] (y ∷ b) (if y == separator then i else last)
ends_left_cons i last y b = elim (Bool-cases (y == separator)) [
  | inl slash ↦
      rw slash (
        ends_left i last (y ∷ b)
          (record { same = refl; left = refl; right = (==_iff _ _).0 slash }))
  | inr plain ↦ rw plain (inl (refl, none_left y b (λ h. ground arith)))
]
  where
    none_left : (y : ℕ) (b : Bytes) → y ≢ separator → (n : ℕ) → ¬ IsCommon [] (y ∷ b) n
    none_left y b h zero c = h c.right
    none_left y b h (suc n) c = absurd (omega (arith, c.left))

ends_right_cons :
    (i last x : ℕ) (a : Bytes) → Outcome i last (x ∷ a) [] (if x == separator then i else last)
ends_right_cons i last x a = elim (Bool-cases (x == separator)) [
  | inl slash ↦ rw slash (
      ends_right i last (x ∷ a) (record { same = refl; left = (==_iff _ _).0 slash; right = refl }))
  | inr plain ↦ rw plain (inl (refl, none_right x a (λ h. ground arith)))
]
  where
    none_right : (x : ℕ) (a : Bytes) → x ≢ separator → (n : ℕ) → ¬ IsCommon (x ∷ a) [] n
    none_right x a h zero c = h c.left
    none_right x a h (suc n) c = absurd (omega (arith, c.right))

IsCommon-of_ne : (x y : ℕ) (a b : Bytes) → x ≢ y → (n : ℕ) → ¬ IsCommon (x ∷ a) (y ∷ b) n
IsCommon-of_ne x y a b h zero c = h (c.left ∙ sym c.right)
IsCommon-of_ne x y a b h (suc n) c = h (IsCommon-of_cons c).0

common_prefix_from-Outcome :
    (i last : ℕ) (a b : Bytes) → Outcome i last a b (common_prefix_from i last a b)
unfolding common_prefix_from
common_prefix_from-Outcome i last [] [] =
    ends_left i last [] (record { same = refl; left = refl; right = refl })
common_prefix_from-Outcome i last [] (y ∷ b) = ends_left_cons i last y b
common_prefix_from-Outcome i last (x ∷ a) [] = ends_right_cons i last x a
common_prefix_from-Outcome i last (x ∷ a) (y ∷ b) = elim (Bool-cases (x == y)) [
  | inl same ↦ rw same (
      Outcome-cons i last x y a b _ ((==_iff _ _).0 same)
        (common_prefix_from-Outcome (i + 1) (if x == separator then i else last) a b))
  | inr other ↦ rw other (inl (refl, IsCommon-of_ne x y a b (λ h. ground arith)))
]

-- The result is the longest common prefix of two labels that ends at a boundary of both: it is
-- such a prefix, and no such prefix is longer; where there is none, the result is 0.
pub common_prefix_length-longest :
    (a b : Bytes)
    → ((m : ℕ) → IsCommon a b m → m ≤ common_prefix_length a b)
      × (IsCommon a b (common_prefix_length a b)
          ⊎ ((common_prefix_length a b ≡ 0) × ((m : ℕ) → ¬ IsCommon a b m)))
unfolding common_prefix_length
common_prefix_length-longest a b = finish (common_prefix_from-Outcome 0 0 a b)
  where
    finish :
        {r : ℕ}
        → Outcome 0 0 a b r
        → ((m : ℕ) → IsCommon a b m → m ≤ r)
          × (IsCommon a b r ⊎ ((r ≡ 0) × ((m : ℕ) → ¬ IsCommon a b m)))
    finish (inl (at, none_here)) = ((λ m c. absurd (none_here m c)), inr (at, none_here))
    finish (inr (n, at, c, most)) =
        ((λ m k. omega (arith, most m k)), inl (subst (IsCommon a b) (omega arith) c))
