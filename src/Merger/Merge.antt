-- ===== src/Merger/Merge.antt =====
-- pandora-module-utils/src/merger.rs: `merge`, `merge_into_merger` and the combination of mergers.
pub mod Redundant
pub mod Strict
use pandora_web_server.Base.{
  ℕ, Bool, true, false, not, ◌&&◌, ◌||◌, Option, none, some, is_some, ◌>>=◌, Bytes, List, [], ◌∷◌,
  ◌++◌, map, reverse, sort, bytes_eq, is_empty, if◌then◌else◌, Eq,
}
use pandora_web_server.Router.Path.{is_prefix_of}
use pandora_web_server.Router.Table.{RouterBuilder}
use pandora_web_server.Router.Table
use pandora_web_server.Router.Routes.{Router}
use pandora_web_server.Router.Routes
use pandora_web_server.Merger.Matcher.{PathMatchResult, PathMatch, is_match, StrictHostPathMatcher}
use pandora_web_server.Merger.Table.{
  MergerEntry, Entries, Merger, ensure_entry, ensure_host, ensure_at, get,
}

-- An element of `values`: a path with its `value_exact` and its `value_prefix`.
pub record State {ℓ} (V : Type ℓ) : Type ℓ where
  pub path : Bytes
  pub value_exact : V
  pub value_prefix : V

-- The entries of a host for the states that `merge_into_merger` produced.
abbrev pub strict_entries :
    {V : Type 0} → Bytes → List (State V) → Entries StrictHostPathMatcher Unit V
strict_entries host [] = []
strict_entries host (state ∷ states) =
    (
      state.path,
      record {
        matcher = record { host = host; path = state.path; exact = true };
        sorter = tt;
        conf = state.value_exact;
      }
          ∷ record {
            matcher = record { host = host; path = state.path; exact = false };
            sorter = tt;
            conf = state.value_prefix;
          }
          ∷ [],
    )
    ∷ strict_entries host states

module _ {M S I C : Type 0} (p : PathMatch M S I) where
  abbrev by_sorter : MergerEntry M I C → MergerEntry M I C → Bool
  by_sorter a b = p.sorter_le (p.sorter a.matcher a.sorter) (p.sorter b.matcher b.sorter)

  abbrev retain : (MergerEntry M I C → Bool) → List (MergerEntry M I C) → List (MergerEntry M I C)
  retain test [] = []
  retain test (entry ∷ list) =
      let rest = retain test list in if test entry then entry ∷ rest else rest

  abbrev confs : List (MergerEntry M I C) → List C
  confs list = map (λ entry. entry.conf) list

  -- `Merger::merge_entry`.
  unfoldable pub merge_entry {ℓ} :
      {V : Type ℓ} → (List C → V) → Bytes → Bytes → List (MergerEntry M I C) → V × V
  merge_entry callback host path list = (
    callback (
        confs (
          sort by_sorter
            (retain (λ entry. is_match (p.matches entry.matcher host path false)) list))),
    callback (
        confs (
          sort by_sorter (retain (λ entry. (p.matches entry.matcher host path true).prefix) list))),
  )

  abbrev pub merge_entries {ℓ} :
      {V : Type ℓ} → (List C → V) → Bytes → Entries M I C → List (State V)
  unfolding merge_entry
  merge_entries callback host [] = []
  merge_entries callback host ((path, list) ∷ entries) =
      let (value_exact, value_prefix) = merge_entry callback host path list in
      record { path = path; value_exact = value_exact; value_prefix = value_prefix }
      ∷ merge_entries callback host entries

  -- `Merger::merge_into_merger`.
  unfoldable pub merge_into_merger :
      {V : Type 0} → (List C → V) → Merger M I C → Merger StrictHostPathMatcher Unit V
  merge_into_merger callback hosts =
      map (λ entry. (entry.0, strict_entries entry.0 (merge_entries callback entry.0 entry.1)))
        hosts

module _ {ℓ} {V : Type ℓ} ⦃e : Eq V⦄ where
  -- Whether the closest parent, the states being given from their end, has the same configuration.
  unfoldable pub parent_has : Bytes → V → List (State V) → Bool
  parent_has path value [] = false
  parent_has path value (parent ∷ parents) =
      let further = parent_has path value parents in
      if is_prefix_of parent.path path then e.beq parent.value_prefix value else further

  -- The loop that removes unnecessary states goes backwards, so that the states in front of one are
  -- still complete when it is tested. They are given from their end here.
  unfoldable pub remove_states : List (State V) → List (State V)
  unfolding parent_has
  remove_states [] = []
  remove_states (state ∷ states) =
      let rest = remove_states states in
      if e.beq state.value_exact state.value_prefix
        && parent_has state.path state.value_prefix states
      then rest
      else state ∷ rest

  abbrev push_states : Bytes → List (State V) → RouterBuilder V → RouterBuilder V
  push_states host [] builder = builder
  push_states host (state ∷ states) builder =
      push_states host states
        (Table.push builder host state.path state.value_exact (some state.value_prefix)).0

module _ {M S I C : Type 0} (p : PathMatch M S I) where
  abbrev push_merged {ℓ} :
      {V : Type ℓ} ⦃e : Eq V⦄ → (List C → V) → Merger M I C → RouterBuilder V → RouterBuilder V
  unfolding remove_states
  push_merged callback [] builder = builder
  push_merged callback ((host, entries) ∷ hosts) builder =
      let states = reverse (remove_states (reverse (merge_entries p callback host entries))) in
      push_merged callback hosts (push_states host states builder)

  -- `Merger::merge`.
  unfoldable pub merge {ℓ} :
      {V : Type ℓ} ⦃e : Eq V⦄ → (List C → V) → Merger M I C → Option (Router V)
  unfolding push_merged
  merge callback hosts =
      Routes.build (push_merged callback hosts (record { entries = []; fallbacks = [] }))

  -- The loops of `push_merger` that add the entries of another merger.
  abbrev ensure_paths : Bytes → Entries M I C → Merger M I C → Merger M I C
  ensure_paths host [] hosts = hosts
  ensure_paths host ((path, list) ∷ entries) hosts =
      ensure_paths host entries (ensure_at p host path hosts)

  abbrev ensure_hosts : Merger M I C → Merger M I C → Merger M I C
  unfolding ensure_host
  ensure_hosts [] hosts = hosts
  ensure_hosts ((host, entries) ∷ others) hosts =
      ensure_hosts others (ensure_paths host entries (ensure_host p hosts host))

  -- `zip` ends with the shorter list.
  abbrev zip_entries : Entries M I C → Entries M I C → Entries M I C
  zip_entries [] others = []
  zip_entries ((path, list) ∷ entries) [] = (path, list) ∷ entries
  zip_entries ((path, list) ∷ entries) ((_, other) ∷ others) =
      (path, list ++ other) ∷ zip_entries entries others

  -- `none` is the panic of `unwrap`.
  abbrev combine_at : Bytes → Entries M I C → Merger M I C → Option (Merger M I C)
  combine_at host others [] = none
  combine_at host others ((name, entries) ∷ hosts) =
      let later = combine_at host others hosts in
      if bytes_eq name host
      then some ((name, zip_entries entries others) ∷ hosts)
      else later >>= λ hosts'. some ((name, entries) ∷ hosts')

  abbrev combine : Merger M I C → Merger M I C → Option (Merger M I C)
  combine [] hosts = some hosts
  combine ((host, others) ∷ rest) hosts =
      combine_at host others hosts >>= λ hosts'. combine rest hosts'

  -- `Merger::push_merger`.
  unfoldable pub push_merger : Merger M I C → Merger M I C → Option (Merger M I C)
  unfolding ensure_hosts
  push_merger self other =
      let other' = ensure_hosts self other in combine other' (ensure_hosts other' self)

  -- `Merger::extend`.
  unfoldable pub extend : Merger M I C → List (Merger M I C) → Option (Merger M I C)
  unfolding push_merger
  extend self [] = some self
  extend self (merger ∷ mergers) = push_merger self merger >>= λ self'. extend self' mergers
