-- ===== src/Router/Table/Values.antt =====
-- What the routes of a host are after `merge_value`.
use mathlib.Core.Option
use pandora_web_server.Base.{
  ℕ, zero, suc, ◌≡◌, refl, inl, inr, Bool-cases, Option, none, some, Bytes, List, [], ◌∷◌, ◌++◌,
  reverse, take, drop, modify, bytes_eq, bytes_eq_iff, bytes_le, if◌then◌else◌, arith,
}
use pandora_web_server.Router.Table.{
  RouterEntry, Search, at, belongs, next, search_path, or_inherited, overwrite, merge_at,
  merge_value,
}

pub next-eq-belongs :
    (s : Search) (i : ℕ) → next s ≡ belongs i → (j : ℕ) × (i ≡ suc j) × (s ≡ belongs j)
next-eq-belongs (at j) i e = cc e
next-eq-belongs (belongs j) i e = (j, cc e, refl)

pub next-eq-at : (s : Search) (i : ℕ) → next s ≡ at i → (j : ℕ) × (i ≡ suc j) × (s ≡ at j)
next-eq-at (at j) i e = (j, cc e, refl)
next-eq-at (belongs j) i e = cc e

module _ {ℓ} {V : Type ℓ} where
  -- The entry of a path.
  unfoldable pub entry_at : Bytes → List (RouterEntry V) → Option (RouterEntry V)
  entry_at path [] = none
  entry_at path (entry ∷ entries) =
      if bytes_eq entry.path path then some entry else entry_at path entries

  entry_at-insert :
      (path q : Bytes) (l : List (RouterEntry V)) (x : RouterEntry V) (i : ℕ)
      → x.path ≡ path
      → search_path path l ≡ belongs i
      → entry_at q (take i l ++ x ∷ drop i l) ≡ (if bytes_eq path q then some x else entry_at q l)
  unfolding search_path entry_at
  entry_at-insert path q [] x zero p e = rw p
  entry_at-insert path q [] x (suc i) p e = rw p
  entry_at-insert path q (y ∷ l) x i p e = elim (Bool-cases (bytes_eq y.path path)) [
    | inl same ↦ let bad : at 0 ≡ belongs i = rw same at e in cc bad
    | inr other ↦ elim (Bool-cases (bytes_le path y.path)) [
      | inl here ↦
          let first : belongs 0 ≡ belongs i = rw (other, here) at e in
          let z : i ≡ 0 = cc first in rw (z, p)
      | inr later ↦
          let step : next (search_path path l) ≡ belongs i = rw (other, later) at e in
          let (j, up, found) = next-eq-belongs (search_path path l) i step in
          rw up (
            ground (
              arith,
              entry_at-insert path q l x j p found,
              bytes_eq_iff y.path q,
              bytes_eq_iff path q,
              bytes_eq_iff y.path path,
            ))
    ]
  ]

  entry_at-modify :
      (path q : Bytes) (l : List (RouterEntry V)) (f : RouterEntry V → RouterEntry V) (i : ℕ)
      → ((x : RouterEntry V) → (f x).path ≡ x.path)
      → search_path path l ≡ at i
      → entry_at q (modify l i f)
        ≡ (if bytes_eq path q then Option.map f (entry_at path l) else entry_at q l)
  unfolding search_path entry_at
  entry_at-modify path q [] f i keeps e = cc e
  entry_at-modify path q (y ∷ l) f i keeps e = elim (Bool-cases (bytes_eq y.path path)) [
    | inl same ↦
        let first : at 0 ≡ at i = rw same at e in
        let z : i ≡ 0 = cc first in
        rw z (
          ground (
            arith,
            keeps y,
            bytes_eq_iff y.path path,
            bytes_eq_iff y.path q,
            bytes_eq_iff (f y).path q,
            bytes_eq_iff path q,
          ))
    | inr other ↦ elim (Bool-cases (bytes_le path y.path)) [
      | inl here ↦ let bad : belongs 0 ≡ at i = rw (other, here) at e in cc bad
      | inr later ↦
          let step : next (search_path path l) ≡ at i = rw (other, later) at e in
          let (j, up, found) = next-eq-at (search_path path l) i step in
          rw (up, other)
            (ground (
              arith,
              entry_at-modify path q l f j keeps found,
              bytes_eq_iff y.path q,
              bytes_eq_iff path q,
              bytes_eq_iff y.path path,
            ))
    ]
  ]

  -- The entry that `merge_value` leaves at its path.
  unfoldable pub merged_entry :
      Search → List (RouterEntry V) → Bytes → V → Option V → Option (RouterEntry V)
  merged_entry (at i) existing path v p = Option.map (overwrite v p) (entry_at path existing)
  merged_entry (belongs i) existing path v p = some (record {
    path = path;
    value_exact = v;
    value_prefix = or_inherited p path (reverse (take i existing));
  })

  pub keeps_path : (v : V) (p : Option V) (x : RouterEntry V) → (overwrite v p x).path ≡ x.path
  keeps_path v none x = refl
  keeps_path v (some w) x = refl

  -- Merging a value at a path changes the entry of that path and no other: an entry that is there
  -- is overwritten, keeping its `value_prefix` if none is given, and a new one without a
  -- `value_prefix` takes that of its closest parent.
  pub entry_at-merge_value :
      (existing : List (RouterEntry V)) (path q : Bytes) (v : V) (p : Option V)
      → entry_at q (merge_value existing path v p).0 ≡ (
          if bytes_eq path q
          then merged_entry (search_path path existing) existing path v p
          else entry_at q existing)
  unfolding merge_value merged_entry
  entry_at-merge_value existing path q v p = go (search_path path existing) refl
    where
      go :
          (s : Search)
          → search_path path existing ≡ s
          → entry_at q (merge_at s existing path v p).0
            ≡ (if bytes_eq path q then merged_entry s existing path v p else entry_at q existing)
      go (at i) e = entry_at-modify path q existing (overwrite v p) i (keeps_path v p) e
      go (belongs i) e = entry_at-insert path q existing _ i refl e
