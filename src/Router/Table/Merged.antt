-- ===== src/Router/Table/Merged.antt =====
-- What `merge_value` leaves at a path and at the other ones.
use mathlib.Core.Option
use pandora_web_server.Base.{
  ℕ, ◌≡◌, ◌≢◌, refl, sym, ap, ◌∙◌, inl, inr, true, false, Bool-cases, Option, none, some, is_some,
  Bytes, List, All, reverse, take, drop, bytes_le, bytes_eq, bytes_eq_iff, if◌then◌else◌,
}
use pandora_web_server.Router.Table.{
  RouterEntry, Search, at, belongs, search_path, or_inherited, overwrite, merge_at, merge_value,
}
use pandora_web_server.Router.Table.Values.{entry_at, merged_entry, entry_at-merge_value}
use pandora_web_server.Router.Table.Sorted.{Before, IsSorted, IsFound, search_path-IsFound}
use pandora_web_server.Router.Table.Parents.{
  IsParent, In, In-All, In-take-or-drop, In-take, IsSorted-take, Closest, parentless, closest,
  inherited-Closest,
}
use pandora_web_server.Router.Table.Present.{
  bytes_le-beginning, In-entry_at, entry_at-at, entry_at-belongs,
}

-- A parent does not come behind the path.
IsParent-Before : (a b : Bytes) → IsParent a b → Before b a → ⊥
IsParent-Before a b (inl e) before = let bad : true ≡ false = rw e at before in cc bad
IsParent-Before a b (inr (rest, e, _)) before =
    let is = bytes_le-beginning a rest in
    let le : bytes_le a b ≡ true = ap (bytes_le a) e ∙ is in cc (le, before)

module _ {ℓ} {V : Type ℓ} where
  -- The `value_prefix` that the entry of a path has after a merge: the given one, or that of the
  -- entry that was there, or that of the closest parent.
  pub data NewPrefix (existing : List (RouterEntry V)) (path : Bytes)
      : Option V → Option V → Type ℓ where
    given : (w : V) → NewPrefix existing path (some w) (some w)
    kept :
        (old : RouterEntry V)
        → entry_at path existing ≡ some old
        → NewPrefix existing path none old.value_prefix
    taken :
        (o : Option V)
        → entry_at path existing ≡ none
        → Closest path existing o
        → NewPrefix existing path none o

  -- The parents of a path stand in front of the place where it belongs.
  Closest-take :
      (path : Bytes) (i : ℕ) (l : List (RouterEntry V)) (o : Option V)
      → All (λ x. Before path x.path) (drop i l)
      → Closest path (take i l) o
      → Closest path l o
  Closest-take path i l o greater c = go o c
    where
      front : (x : RouterEntry V) → In x l → IsParent x.path path → In x (take i l)
      front x m q = elim (In-take-or-drop i l x m) [
        | inl m ↦ m
        | inr m ↦ absurd (
            IsParent-Before x.path path q (In-All (λ x. Before path x.path) (drop i l) greater x m))
      ]

      go : (o : Option V) → Closest path (take i l) o → Closest path l o
      go _ (parentless lacks) = parentless (λ x m q. lacks x (front x m q) q)
      go _ (closest parent w m q e least) =
          closest parent w (In-take i l parent m) q e (λ x n r has. least x (front x n r) r has)

  overwrite-NewPrefix :
      (existing : List (RouterEntry V)) (path : Bytes) (v : V) (p : Option V) (old : RouterEntry V)
      → entry_at path existing ≡ some old
      → ((overwrite v p old).path ≡ old.path)
        × ((overwrite v p old).value_exact ≡ v)
        × NewPrefix existing path p (overwrite v p old).value_prefix
  overwrite-NewPrefix existing path v none old f = (refl, refl, kept old f)
  overwrite-NewPrefix existing path v (some w) old f = (refl, refl, given w)

  or_inherited-NewPrefix :
      (existing : List (RouterEntry V)) (path : Bytes) (p : Option V) (i : ℕ)
      → IsSorted existing
      → IsFound path existing (belongs i)
      → NewPrefix existing path p (or_inherited p path (reverse (take i existing)))
  unfolding IsFound
  or_inherited-NewPrefix existing path none i sorted found =
      taken _ (entry_at-belongs path existing i found) (
        Closest-take path i existing _ (found.2)
          (inherited-Closest path (take i existing) (IsSorted-take i existing sorted)))
  or_inherited-NewPrefix existing path (some w) i sorted found = given w

  -- If the entries are strictly in the order of their paths, then merging a value at a path leaves
  -- what the entries have for other paths, and the path has an entry with the value, whose
  -- `value_prefix` is the given one, or else that of the entry that was there, or else that of its
  -- closest parent that has one, if any. The answer is whether there was an entry for the path.
  pub merge_value-NewPrefix :
      (existing : List (RouterEntry V)) (path : Bytes) (v : V) (p : Option V)
      → IsSorted existing
      → ((q : Bytes)
          → q ≢ path
          → entry_at q (merge_value existing path v p).0 ≡ entry_at q existing)
        × ((entry : RouterEntry V) × (entry_at path (merge_value existing path v p).0 ≡ some entry)
            × (entry.path ≡ path)
            × (entry.value_exact ≡ v)
            × NewPrefix existing path p entry.value_prefix)
        × ((merge_value existing path v p).1 ≡ is_some (entry_at path existing))
  unfolding merge_value merged_entry
  merge_value-NewPrefix existing path v p sorted =
      let own = go (search_path path existing) refl (search_path-IsFound path existing sorted) in
      (others, own.0, own.1)
    where
      others :
          (q : Bytes)
          → q ≢ path
          → entry_at q (merge_value existing path v p).0 ≡ entry_at q existing
      others q differ = elim (Bool-cases (bytes_eq path q)) [
        | inl same ↦ absurd (differ (sym ((bytes_eq_iff path q).0 same)))
        | inr other ↦
            entry_at-merge_value existing path q v p
            ∙ ap
                (λ b.
                  if b
                  then merged_entry (search_path path existing) existing path v p
                  else entry_at q existing)
                other
      ]

      whole :
          (s : Search)
          → search_path path existing ≡ s
          → entry_at path (merge_value existing path v p).0 ≡ merged_entry s existing path v p
      whole s e =
          entry_at-merge_value existing path path v p
          ∙ ap
              (λ b.
                if b
                then merged_entry (search_path path existing) existing path v p
                else entry_at path existing)
              ((bytes_eq_iff path path).1 refl)
          ∙ ap (λ s. merged_entry s existing path v p) e

      go :
          (s : Search)
          → search_path path existing ≡ s
          → IsFound path existing s
          → ((entry : RouterEntry V) × (entry_at path (merge_value existing path v p).0
                ≡ some entry)
              × (entry.path ≡ path)
              × (entry.value_exact ≡ v)
              × NewPrefix existing path p entry.value_prefix)
            × ((merge_value existing path v p).1 ≡ is_some (entry_at path existing))
      go (at i) e found =
          let (old, f) = entry_at-at path existing i e in
          let (same, exact, prefix) = overwrite-NewPrefix existing path v p old f in
          let (_, at_path) = In-entry_at path existing old f in
          (
            (
              overwrite v p old,
              whole (at i) e ∙ ap (Option.map (overwrite v p)) f,
              same ∙ at_path,
              exact,
              prefix,
            ),
            ap (λ s. (merge_at s existing path v p).1) e ∙ ap is_some (sym f),
          )
      go (belongs i) e found = (
        (
          record {
            path = path;
            value_exact = v;
            value_prefix = or_inherited p path (reverse (take i existing));
          },
          whole (belongs i) e,
          refl,
          refl,
          or_inherited-NewPrefix existing path p i sorted found,
        ),
        ap (λ s. (merge_at s existing path v p).1) e
            ∙ ap is_some (sym (entry_at-belongs path existing i found)),
      )
