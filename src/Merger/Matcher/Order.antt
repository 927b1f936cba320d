-- ===== src/Merger/Matcher/Order.antt =====
-- The derived order of `HostPathMatcher` is total and transitive.
use pandora_web_server.Base.{
  ◌≡◌, refl, sym, ap, inl, inr, Bool, true, false, Bool-cases, Bytes, [], ◌∷◌, bytes_eq,
  bytes_eq_iff, bytes_le, bytes_le_total, bytes_le_trans, bytes_le_antisym, if◌then◌else◌, arith,
}
use pandora_web_server.Merger.Matcher.{HostPathMatcher, host_path_le}

bytes_eq-sym : (a b : Bytes) → bytes_eq a b ≡ bytes_eq b a
bytes_eq-sym [] [] = refl
bytes_eq-sym [] (y ∷ b) = refl
bytes_eq-sym (x ∷ a) [] = refl
bytes_eq-sym (x ∷ a) (y ∷ b) = ground (arith, bytes_eq-sym a b)

-- Comparing by one key after another.
abbrev then_by : Bytes → Bytes → Bool → Bool
then_by a b rest = if bytes_eq a b then rest else bytes_le a b

then_by_total :
    (a b : Bytes) (r s : Bool)
    → (r ≡ false → s ≡ true)
    → then_by a b r ≡ false
    → then_by b a s ≡ true
then_by_total a b r s rest h = ground (arith, h, rest, bytes_le_total a b, bytes_eq-sym a b)

then_by_trans :
    (a b c : Bytes) (r s t : Bool)
    → (r ≡ true → s ≡ true → t ≡ true)
    → then_by a b r ≡ true
    → then_by b c s ≡ true
    → then_by a c t ≡ true
then_by_trans a b c r s t rest h k = elim (Bool-cases (bytes_eq a b)) [
  | inl e ↦
      (let f = (bytes_eq_iff a b).0 e in
        let g : bytes_eq a c ≡ bytes_eq b c = ap (λ x. bytes_eq x c) f in
        let i : bytes_le a c ≡ bytes_le b c = ap (λ x. bytes_le x c) f in
        ground (arith, rest, h, k, e, g, i))
  | inr e ↦ elim (Bool-cases (bytes_eq b c)) [
    | inl f ↦
        (let g = (bytes_eq_iff b c).0 f in
          let i : bytes_eq a c ≡ bytes_eq a b = ap (bytes_eq a) (sym g) in
          let j : bytes_le a c ≡ bytes_le a b = ap (bytes_le a) (sym g) in
          ground (arith, rest, h, k, f, i, j, e))
    | inr f ↦ elim (Bool-cases (bytes_eq a c)) [
      | inl g ↦
          (let i : bytes_le b c ≡ bytes_le b a = ap (bytes_le b) (sym ((bytes_eq_iff a c).0 g)) in
            absurd (ground (arith, h, k, e, f, i, bytes_le_antisym a b)))
      | inr g ↦ ground (arith, h, k, e, f, g, bytes_le_trans a b c)
    ]
  ]
]

pub host_path_le_total :
    (a b : HostPathMatcher) → host_path_le a b ≡ false → host_path_le b a ≡ true
unfolding host_path_le
host_path_le_total a b h =
    then_by_total a.host b.host _ _ (then_by_total a.path b.path _ _ (λ r. ground (arith, r))) h

pub host_path_le_trans :
    (a b c : HostPathMatcher)
    → host_path_le a b ≡ true
    → host_path_le b c ≡ true
    → host_path_le a c ≡ true
unfolding host_path_le
host_path_le_trans a b c h k =
    then_by_trans a.host b.host c.host _ _ _
      (then_by_trans a.path b.path c.path _ _ _ (λ r s. ground (arith, r, s))) h k
