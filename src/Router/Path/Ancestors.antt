-- ===== src/Router/Path/Ancestors.antt =====
-- `is_prefix_of` as an order of the paths, and the order in which paths are sorted.
use mathlib.Core.List.{append-nil, append_assoc}
use pandora_web_server.Base.{
  ◌≡◌, ◌≢◌, refl, sym, ap, ◌∙◌, ◌⊎◌, inl, inr, true, Bytes, [], ◌∷◌, ◌++◌, bytes_le, arith,
}
use pandora_web_server.Router.Path.{is_prefix_of}
use pandora_web_server.Router.Path.Parent.{is_prefix_of_iff, IsBehind}

bytes_le-append : (a r : Bytes) → bytes_le (a ++ r) a ≡ true → r ≡ []
bytes_le-append [] [] h = refl
bytes_le-append [] (x ∷ r) h = absurd (ground (arith, h))
bytes_le-append (x ∷ a) r h = bytes_le-append a r (ground (arith, h))

bytes_le-nil : (a : Bytes) → bytes_le a [] ≡ true → a ≡ []
bytes_le-nil [] h = refl
bytes_le-nil (x ∷ a) h = absurd (ground (arith, h))

-- Two beginnings of the same list: the one that is not larger is a beginning of the other.
beginnings :
    (a b r s : Bytes)
    → a ++ r ≡ b ++ s
    → bytes_le a b ≡ true
    → (t : Bytes) × (b ≡ a ++ t) × (r ≡ t ++ s)
beginnings [] b r s e h = (b, refl, e)
beginnings (x ∷ a) [] r s e h = absurd (ground (arith, h))
beginnings (x ∷ a) (y ∷ b) r s e h =
    let head : x ≡ y = cc e in
    let tail : a ++ r ≡ b ++ s = cc e in
    let (t, f, g) = beginnings a b r s tail (ground (arith, h, head)) in (t, cc (head, f), g)

IsBehind-append : (t s : Bytes) → IsBehind t → IsBehind s → IsBehind (t ++ s)
IsBehind-append [] s h k = k
IsBehind-append (x ∷ t) s h k = h

IsBehind-front : (t s r : Bytes) → r ≡ t ++ s → IsBehind r → IsBehind t
IsBehind-front [] s r e h = tt
IsBehind-front (x ∷ t) s [] e h = absurd (cc e)
IsBehind-front (x ∷ t) s (y ∷ r) e h = cc (e, h)

-- A parent of a parent is a parent.
pub is_prefix_of_trans :
    (a b q : Bytes) → is_prefix_of a b ≡ true → is_prefix_of b q ≡ true → is_prefix_of a q ≡ true
is_prefix_of_trans a b q h k =
    (is_prefix_of_iff a q).1 (go ((is_prefix_of_iff a b).0 h) ((is_prefix_of_iff b q).0 k))
  where
    nil : (a t : Bytes) → [] ≡ a ++ t → a ≡ []
    nil [] t e = refl
    nil (x ∷ a) t e = absurd (cc e)

    go :
        (a ≡ []) ⊎ ((rest : Bytes) × (b ≡ a ++ rest) × IsBehind rest)
        → (b ≡ []) ⊎ ((rest : Bytes) × (q ≡ b ++ rest) × IsBehind rest)
        → (a ≡ []) ⊎ ((rest : Bytes) × (q ≡ a ++ rest) × IsBehind rest)
    go (inl e) _ = inl e
    go (inr (t, e, behind)) (inl f) = inl (nil a t (sym f ∙ e))
    go (inr (t, e, behind)) (inr (s, f, behind')) =
        inr
          (t ++ s, f ∙ ap (λ b. b ++ s) e ∙ append_assoc a t s, IsBehind-append t s behind behind')

-- Of two parents of a path the one that is sorted first is a parent of the other.
pub is_prefix_of_comparable :
    (a b q : Bytes)
    → is_prefix_of a q ≡ true
    → is_prefix_of b q ≡ true
    → bytes_le a b ≡ true
    → is_prefix_of a b ≡ true
is_prefix_of_comparable a b q h k le =
    (is_prefix_of_iff a b).1 (go ((is_prefix_of_iff a q).0 h) ((is_prefix_of_iff b q).0 k))
  where
    go :
        (a ≡ []) ⊎ ((rest : Bytes) × (q ≡ a ++ rest) × IsBehind rest)
        → (b ≡ []) ⊎ ((rest : Bytes) × (q ≡ b ++ rest) × IsBehind rest)
        → (a ≡ []) ⊎ ((rest : Bytes) × (b ≡ a ++ rest) × IsBehind rest)
    go (inl e) _ = inl e
    go (inr (r, e, behind)) (inl f) = inl (bytes_le-nil a (ap (bytes_le a) (sym f) ∙ le))
    go (inr (r, e, behind)) (inr (s, f, behind')) =
        let (t, g, split) = beginnings a b r s (sym e ∙ f) le in
        inr (t, g, IsBehind-front t s r split behind)

-- A path that is sorted before a parent of `q` is not `q`.
pub parent-first : (a b q : Bytes) → bytes_le a b ≡ true → a ≢ b → is_prefix_of b q ≡ true → a ≢ q
parent-first a b q le differ k e = differ (go ((is_prefix_of_iff b q).0 k))
  where
    go : (b ≡ []) ⊎ ((rest : Bytes) × (q ≡ b ++ rest) × IsBehind rest) → a ≡ b
    go (inl f) = bytes_le-nil a (ap (bytes_le a) (sym f) ∙ le) ∙ sym f
    go (inr (r, f, behind)) =
        let none_left = bytes_le-append b r (ap (λ c. bytes_le c b) (sym f ∙ sym e) ∙ le) in
        e ∙ f ∙ ap (λ s. b ++ s) none_left ∙ append-nil b
