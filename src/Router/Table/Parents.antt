-- ===== src/Router/Table/Parents.antt =====
-- The parents of a path among sorted entries, and the `value_prefix` that a new entry takes.
use mathlib.Core.List.{reverse-cons, append-nil}
use mathlib.Core.Path.{subst}
use pandora_web_server.Base.{
  ℕ, zero, suc, ◌≡◌, ◌≢◌, refl, sym, ap, ◌∙◌, ◌⊎◌, inl, inr, false, Bool-cases, Option-cases,
  Option, none, some, or, Bytes, List, [], ◌∷◌, ◌++◌, All, reverse, take, drop, bytes_le_total,
}
use pandora_web_server.Router.Path.{is_prefix_of}
use pandora_web_server.Router.Path.Parent.{is_prefix_of_iff, IsBehind}
use pandora_web_server.Router.Path.Ancestors.{is_prefix_of_comparable}
use pandora_web_server.Router.Table.{RouterEntry, inherited}
use pandora_web_server.Router.Table.Normal.{All-take}
use pandora_web_server.Router.Table.Sorted.{Before, IsSorted}

-- The path is empty, or the other one goes on behind it at the end of a segment.
abbrev pub IsParent : Bytes → Bytes → Type 0
IsParent a b = (a ≡ []) ⊎ ((rest : Bytes) × (b ≡ a ++ rest) × IsBehind rest)

module _ {ℓ} {V : Type ℓ} where
  -- The entry is one of the list.
  pub data In (x : RouterEntry V) : List (RouterEntry V) → Type ℓ where
    first : {y : RouterEntry V} {l : List (RouterEntry V)} → y ≡ x → In x (y ∷ l)
    later : {y : RouterEntry V} {l : List (RouterEntry V)} → In x l → In x (y ∷ l)

  pub In-nil : (x : RouterEntry V) → In x [] → ⊥
  In-nil x m = go [] refl m
    where
      go : (l : List (RouterEntry V)) → l ≡ [] → In x l → ⊥
      go _ e (first f) = cc e
      go _ e (later m) = cc e

  -- The `value_prefix` that a path takes from the entries: that of its closest parent which has
  -- one, which is the parent that all others are parents of.
  pub data Closest (path : Bytes) (l : List (RouterEntry V)) : Option V → Type ℓ where
    parentless :
        ((x : RouterEntry V) → In x l → IsParent x.path path → x.value_prefix ≡ none)
        → Closest path l none
    closest :
        (parent : RouterEntry V) (w : V)
        → In parent l
        → IsParent parent.path path
        → parent.value_prefix ≡ some w
        → ((x : RouterEntry V)
            → In x l
            → IsParent x.path path
            → x.value_prefix ≢ none
            → IsParent x.path parent.path)
        → Closest path l (some w)

  pub In-All :
      (P : RouterEntry V → Type 0) (l : List (RouterEntry V))
      → All P l
      → (x : RouterEntry V) → In x l
      → P x
  In-All P [] all x m = absurd (In-nil x m)
  In-All P (y ∷ l) (p, all) x (first e) = subst P e p
  In-All P (y ∷ l) (p, all) x (later m) = In-All P l all x m

  pub In-take-or-drop :
      (i : ℕ) (l : List (RouterEntry V)) (x : RouterEntry V)
      → In x l
      → In x (take i l) ⊎ In x (drop i l)
  In-take-or-drop zero l x m = inr m
  In-take-or-drop (suc i) [] x m = absurd (In-nil x m)
  In-take-or-drop (suc i) (y ∷ l) x (first e) = inl (first e)
  In-take-or-drop (suc i) (y ∷ l) x (later m) = elim (In-take-or-drop i l x m) [
    | inl m ↦ inl (later m)
    | inr m ↦ inr m
  ]

  pub In-take : (i : ℕ) (l : List (RouterEntry V)) (x : RouterEntry V) → In x (take i l) → In x l
  In-take zero l x m = absurd (In-nil x m)
  In-take (suc i) [] x m = absurd (In-nil x m)
  In-take (suc i) (y ∷ l) x (first e) = first e
  In-take (suc i) (y ∷ l) x (later m) = later (In-take i l x m)

  pub IsSorted-take : (i : ℕ) (l : List (RouterEntry V)) → IsSorted l → IsSorted (take i l)
  IsSorted-take zero l sorted = tt
  IsSorted-take (suc i) [] sorted = tt
  IsSorted-take (suc i) (y ∷ l) (after, sorted) =
      (All-take (λ x. Before y.path x.path) i l after, IsSorted-take i l sorted)

  inherited-append :
      (path : Bytes) (a b : List (RouterEntry V))
      → inherited path (a ++ b) ≡ or (inherited path a) (inherited path b)
  unfolding inherited
  inherited-append path [] b = refl
  inherited-append path (x ∷ a) b = elim (Bool-cases (is_prefix_of x.path path)) [
    | inr other ↦ rw other (inherited-append path a b)
    | inl own ↦ elim (Option-cases x.value_prefix) [
      | inl e ↦ rw (own, e) (inherited-append path a b)
      | inr (w, e) ↦ rw (own, e) refl
    ]
  ]

  -- A parent's own value, if the closer ones have none.
  Closest-step :
      (path : Bytes) (x : RouterEntry V) (l : List (RouterEntry V)) (o : Option V)
      → All (λ y. Before x.path y.path) l
      → Closest path l o
      → Closest path (x ∷ l) (or o (inherited path (x ∷ [])))
  unfolding inherited
  Closest-step path x l _ after (closest parent w m p e least) = closest parent w (later m) p e go
    where
      go :
          (y : RouterEntry V)
          → In y (x ∷ l)
          → IsParent y.path path
          → y.value_prefix ≢ none
          → IsParent y.path parent.path
      go y (later n) q has = least y n q has
      go y (first same) q has =
          let before =
            subst (λ z. Before z.path parent.path) same
              (In-All (λ y. Before x.path y.path) l after parent m) in
          (is_prefix_of_iff y.path parent.path).0 (
            is_prefix_of_comparable y.path parent.path path ((is_prefix_of_iff y.path path).1 q)
              ((is_prefix_of_iff parent.path path).1 p) (bytes_le_total parent.path y.path before))
  Closest-step path x l _ after (parentless none_has) =
      elim (Bool-cases (is_prefix_of x.path path)) [
        | inr other ↦ rw (other, inherited) (parentless (go other))
        | inl own ↦ elim (Option-cases x.value_prefix) [
          | inl e ↦
              let takes : inherited path (x ∷ []) ≡ none = rw (own, e, inherited) refl in
              subst (Closest path (x ∷ l)) (sym takes) (parentless (go' e))
          | inr (w, e) ↦
              let takes : inherited path (x ∷ []) ≡ some w = rw (own, e, inherited) refl in
              subst (Closest path (x ∷ l)) (sym takes)
                (closest x w (first refl) ((is_prefix_of_iff _ _).0 own) e (only w e))
        ]
      ]
    where
      go :
          is_prefix_of x.path path ≡ false
          → (y : RouterEntry V) → In y (x ∷ l)
          → IsParent y.path path
          → y.value_prefix ≡ none
      go other y (later m) q = none_has y m q
      go other y (first same) q =
          let is = (is_prefix_of_iff y.path path).1 q in
          let bad : is_prefix_of y.path path ≡ false =
            subst (λ z. is_prefix_of z.path path ≡ false) same other in
          absurd (cc (is, bad))

      go' :
          x.value_prefix ≡ none
          → (y : RouterEntry V) → In y (x ∷ l)
          → IsParent y.path path
          → y.value_prefix ≡ none
      go' e y (later m) q = none_has y m q
      go' e y (first same) q = subst (λ z. z.value_prefix ≡ none) same e

      only :
          (w : V)
          → x.value_prefix ≡ some w
          → (y : RouterEntry V) → In y (x ∷ l)
          → IsParent y.path path
          → y.value_prefix ≢ none
          → IsParent y.path x.path
      only w e y (later m) q has = absurd (has (none_has y m q))
      only w e y (first same) q has =
          subst (λ z. IsParent z.path x.path) same (inr ([], sym (append-nil x.path), tt))

  pub inherited-Closest :
      (path : Bytes) (l : List (RouterEntry V))
      → IsSorted l
      → Closest path l (inherited path (reverse l))
  unfolding inherited
  inherited-Closest path [] sorted = parentless (λ x m. absurd (In-nil x m))
  inherited-Closest path (x ∷ l) (after, sorted) =
      let e : inherited path (reverse (x ∷ l))
          ≡ or (inherited path (reverse l)) (inherited path (x ∷ [])) =
        ap (inherited path) (reverse-cons x l) ∙ inherited-append path (reverse l) (x ∷ []) in
      subst (Closest path (x ∷ l)) (sym e)
        (Closest-step path x l _ after (inherited-Closest path l sorted))
