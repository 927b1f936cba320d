-- ===== src/Merger/Merge/Redundant.antt =====
-- The states that `merge` removes make no difference.
use pandora_web_server.Base.{
  ◌≡◌, ◌≢◌, refl, sym, ap, ◌∙◌, Bool, true, false, ◌&&◌, Option, none, some, Bool-cases, inl, inr,
  Bytes, List, [], ◌∷◌, bytes_eq, bytes_eq_iff, bytes_le, if◌then◌else◌, Eq, All, arith,
}
use pandora_web_server.Router.Path.{is_prefix_of}
use pandora_web_server.Router.Path.Ancestors.{
  is_prefix_of_trans, is_prefix_of_comparable, parent-first,
}
use pandora_web_server.Merger.Merge.{State, parent_has, remove_states}

-- The configuration of a path, the states being given from their end: that of the last state that
-- is the path or a parent of it.
unfoldable pub resolve {ℓ} : {V : Type ℓ} → Bytes → List (State V) → Option V
resolve path [] = none
resolve path (state ∷ states) =
    let further = resolve path states in
    if is_prefix_of state.path path
    then some (if bytes_eq state.path path then state.value_exact else state.value_prefix)
    else further

abbrev pub IsBefore {ℓ} : {V : Type ℓ} → Bytes → State V → Type 0
IsBefore path state = (bytes_le state.path path ≡ true) × (state.path ≢ path)

-- The paths come in strictly descending order.
abbrev pub Descending {ℓ} : {V : Type ℓ} → List (State V) → Type 0
Descending [] = Unit
Descending (state ∷ states) = All (IsBefore state.path) states × Descending states

bytes_eq-false : (a b : Bytes) → a ≢ b → bytes_eq a b ≡ false
bytes_eq-false a b differ = elim (Bool-cases (bytes_eq a b)) [
  | inl e ↦ absurd (differ ((bytes_eq_iff a b).0 e))
  | inr e ↦ e
]

module _ {ℓ} {V : Type ℓ} ⦃e : Eq V⦄ where
  -- A path below a state finds what the state's parent has, if the state is left out.
  resolve-parent_has :
      (path q : Bytes) (value : V) (states : List (State V))
      → All (IsBefore path) states
      → is_prefix_of path q ≡ true
      → parent_has path value states ≡ true
      → resolve q states ≡ some value
  unfolding parent_has resolve
  resolve-parent_has path q value [] before below h = absurd (ground (arith, h))
  resolve-parent_has path q value (parent ∷ parents) (first, before) below h =
      elim (Bool-cases (is_prefix_of parent.path path)) [
        | inl above ↦
            let reaches = is_prefix_of_trans parent.path path q above below in
            let differs =
              bytes_eq-false parent.path q
                (parent-first parent.path path q (first.0) (first.1) below) in
            rw (reaches, differs)
              (ap some ((e.beq_iff parent.value_prefix value).0 (ground (arith, h, above))))
        | inr beside ↦ elim (Bool-cases (is_prefix_of parent.path q)) [
          | inl reaches ↦ absurd (
              ground
                (arith, beside, is_prefix_of_comparable parent.path path q reaches below (first.0)))
          | inr misses ↦
              rw misses
                (resolve-parent_has path q value parents before below (ground (arith, h, beside)))
        ]
      ]

  -- For states in the order of their paths, which differ, every path has the same configuration,
  -- that of the closest state above it, after the unnecessary states were removed as before.
  pub resolve-remove_states :
      (q : Bytes) (states : List (State V))
      → Descending states
      → resolve q (remove_states states) ≡ resolve q states
  unfolding remove_states resolve
  resolve-remove_states q [] ordered = refl
  resolve-remove_states q (state ∷ states) (before, ordered) =
      elim (Bool-cases (
        e.beq state.value_exact state.value_prefix
        && parent_has state.path state.value_prefix states)) [
          | inl unnecessary ↦
              let same : state.value_exact ≡ state.value_prefix =
                (e.beq_iff state.value_exact state.value_prefix).0 (ground (arith, unnecessary)) in
              rw unnecessary (
                resolve-remove_states q states ordered
                ∙ elim (Bool-cases (is_prefix_of state.path q)) [
                  | inl reaches ↦ rw reaches (
                      resolve-parent_has state.path q state.value_prefix states before reaches
                        (ground (arith, unnecessary))
                      ∙ ap some (either (bytes_eq state.path q) same))
                  | inr misses ↦ rw misses refl
                ])
          | inr needed ↦ rw needed (
              ap
                (λ r.
                  if is_prefix_of state.path q
                  then some
                      (if bytes_eq state.path q then state.value_exact else state.value_prefix)
                  else r)
                (resolve-remove_states q states ordered))
        ]
    where
      either : {V : Type ℓ} {a b : V} (t : Bool) → a ≡ b → b ≡ (if t then a else b)
      either true h = sym h
      either false h = refl
