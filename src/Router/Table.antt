-- ===== src/Router/Table.antt =====
-- pandora-module-utils/src/router.rs: `RouterEntry`, `RouterBuilder` and its `push`.
pub mod Values
pub mod Normal
pub mod Sorted
pub mod Parents
pub mod Present
pub mod Merged
use pandora_web_server.Base.{
  ℕ, zero, suc, Bool, true, false, ◌&&◌, Option, none, some, is_some, Bytes, List, [], ◌∷◌, ◌++◌,
  reverse, take, drop, modify, bytes_eq, bytes_le, is_empty, if◌then◌else◌,
}
use pandora_web_server.Router.Path.{normalize, is_prefix_of}

pub record RouterEntry {ℓ} (V : Type ℓ) : Type ℓ where
  pub path : Bytes
  pub value_exact : V
  pub value_prefix : Option V

-- `HashMap<Vec<u8>, Vec<RouterEntry>>` as the list of its entries in the order of its iteration.
pub record RouterBuilder {ℓ} (V : Type ℓ) : Type ℓ where
  pub entries : List (Bytes × List (RouterEntry V))
  pub fallbacks : List (RouterEntry V)

-- `Router::builder`.
unfoldable pub builder {ℓ} : {V : Type ℓ} → RouterBuilder V
builder = record { entries = []; fallbacks = [] }

-- What `binary_search_by_key` returns.
pub data Search : Type 0 where
  -- `Ok`: the index of the key
  at : ℕ → Search
  -- `Err`: the index where the key belongs
  belongs : ℕ → Search

abbrev pub next : Search → Search
next (at i) = at (suc i)
next (belongs i) = belongs (suc i)

module _ {ℓ} {V : Type ℓ} where
  -- The library's search by bisection: the entries are sorted by their paths, which differ.
  unfoldable pub search_path : Bytes → List (RouterEntry V) → Search
  search_path path [] = belongs 0
  search_path path (entry ∷ entries) =
      let later = next (search_path path entries) in
      if bytes_eq entry.path path
      then at 0
      else if bytes_le path entry.path
      then belongs 0
      else later

  -- The loop over `existing[0..index]` from its end: the `value_prefix` of the closest parent.
  unfoldable pub inherited : Bytes → List (RouterEntry V) → Option V
  inherited path [] = none
  inherited path (parent ∷ parents) =
      let further = inherited path parents in
      if is_prefix_of parent.path path && is_some parent.value_prefix
      then parent.value_prefix
      else further

  abbrev pub or_inherited : Option V → Bytes → List (RouterEntry V) → Option V
  or_inherited none path parents = inherited path parents
  or_inherited (some v) path parents = some v

  abbrev pub overwrite : V → Option V → RouterEntry V → RouterEntry V
  overwrite value_exact none entry = record entry { value_exact = value_exact }
  overwrite value_exact (some v) entry = record entry {
    value_exact = value_exact;
    value_prefix = some v;
  }

  abbrev pub merge_at :
      Search → List (RouterEntry V) → Bytes → V → Option V → List (RouterEntry V) × Bool
  merge_at (at index) existing path value_exact value_prefix =
      (modify existing index (overwrite value_exact value_prefix), true)
  merge_at (belongs index) existing path value_exact value_prefix = (
    take index existing
        ++ record {
          path = path;
          value_exact = value_exact;
          value_prefix = or_inherited value_prefix path (reverse (take index existing));
        }
          ∷ drop index existing,
    false,
  )

  -- `merge_value`: the new entries, and whether an existing one was overwritten.
  unfoldable pub merge_value :
      List (RouterEntry V) → Bytes → V → Option V → List (RouterEntry V) × Bool
  unfolding search_path inherited
  merge_value existing path value_exact value_prefix =
      merge_at (search_path path existing) existing path value_exact value_prefix

  -- `entries.entry(host).or_default()`, changed in place.
  unfoldable pub merge_host :
      List (Bytes × List (RouterEntry V))
      → Bytes
      → Bytes
      → V
      → Option V
      → List (Bytes × List (RouterEntry V)) × Bool
  merge_host [] host path value_exact value_prefix =
      let (merged, overwritten) = merge_value [] path value_exact value_prefix in
      ((host, merged) ∷ [], overwritten)
  merge_host ((name, existing) ∷ hosts) host path value_exact value_prefix =
      let (merged, overwritten) = merge_value existing path value_exact value_prefix in
      let later = merge_host hosts host path value_exact value_prefix in
      if bytes_eq name host
      then ((name, merged) ∷ hosts, overwritten)
      else ((name, existing) ∷ later.0, later.1)

  -- `RouterBuilder::push`.
  unfoldable pub push : RouterBuilder V → Bytes → Bytes → V → Option V → RouterBuilder V × Bool
  unfolding merge_host
  push b host path value_exact value_prefix =
      let fallback = merge_value b.fallbacks (normalize path) value_exact value_prefix in
      let named = merge_host b.entries host (normalize path) value_exact value_prefix in
      if is_empty host
      then (record b { fallbacks = fallback.0 }, fallback.1)
      else (record b { entries = named.0 }, named.1)
