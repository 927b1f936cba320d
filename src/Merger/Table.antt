-- ===== src/Merger/Table.antt =====
-- pandora-module-utils/src/merger.rs: `Merger`, the configurations by host and path, and its
-- operations, for any type of matchers.
use pandora_web_server.Base.{
  false, Option, none, some, Bytes, List, [], ◌∷◌, ◌++◌, map, reverse, take, drop, bytes_eq,
  bytes_le, is_empty, if◌then◌else◌,
}
use pandora_web_server.Router.Path.{is_prefix_of}
use pandora_web_server.Router.Table.{Search, at, belongs, next}
use pandora_web_server.Merger.Matcher.{PathMatch}

pub record MergerEntry (M I C : Type 0) : Type 0 where
  pub matcher : M
  pub sorter : I
  pub conf : C

-- `MergerEntries`: the entries by path, sorted.
abbrev pub Entries : Type 0 → Type 0 → Type 0 → Type 0
Entries M I C = List (Bytes × List (MergerEntry M I C))

-- `Merger`: the entries by host, in the order of the map's iteration.
abbrev pub Merger : Type 0 → Type 0 → Type 0 → Type 0
Merger M I C = List (Bytes × Entries M I C)

module _ {M S I C : Type 0} (p : PathMatch M S I) where
  -- The library's `binary_search_by_key` in the entries.
  unfoldable pub search_entries : Bytes → Entries M I C → Search
  search_entries path [] = belongs 0
  search_entries path ((own, list) ∷ entries) =
      let later = next (search_entries path entries) in
      if bytes_eq own path then at 0 else if bytes_le path own then belongs 0 else later

  -- The entries of a parent that apply to the path.
  unfoldable pub applying : Bytes → Bytes → List (MergerEntry M I C) → List (MergerEntry M I C)
  applying host path [] = []
  applying host path (entry ∷ list) =
      let rest = applying host path list in
      elim (p.matches entry.matcher host path false).sorter [
        | none ↦ rest
        | some sorter ↦ record entry { sorter = sorter } ∷ rest
      ]

  -- The list of the closest parent, the entries being given from their end.
  unfoldable pub copied : Bytes → Bytes → Entries M I C → List (MergerEntry M I C)
  unfolding applying
  copied host path [] = []
  copied host path ((parent, list) ∷ parents) =
      let further = copied host path parents in
      if is_prefix_of parent path then applying host path list else further

  abbrev pub insert_entry : Search → Entries M I C → Bytes → Bytes → Entries M I C
  unfolding copied
  insert_entry (at index) entries host path = entries
  insert_entry (belongs index) entries host path =
      take index entries
      ++ (path, copied host path (reverse (take index entries))) ∷ drop index entries

  -- `Merger::ensure_entry`.
  unfoldable pub ensure_entry : Entries M I C → Bytes → Bytes → Entries M I C
  unfolding search_entries copied
  ensure_entry entries host path = insert_entry (search_entries path entries) entries host path

  -- `hosts.get`.
  abbrev pub get : Bytes → Merger M I C → Option (Entries M I C)
  get host [] = none
  get host ((name, entries) ∷ hosts) =
      let later = get host hosts in if bytes_eq name host then some entries else later

  -- `Merger::ensure_host`: a new host starts with the entries of the fallback host.
  unfoldable pub ensure_host : Merger M I C → Bytes → Merger M I C
  ensure_host hosts host = elim (get host hosts) [
    | some entries ↦ hosts
    | none ↦ hosts ++ (host, elim (get [] hosts) [ none ↦ [] | some entries ↦ entries ]) ∷ []
  ]

  -- `Self::ensure_entry(self.ensure_host(host), host, path)`.
  abbrev pub ensure_at : Bytes → Bytes → Merger M I C → Merger M I C
  unfolding ensure_entry
  ensure_at host path [] = []
  ensure_at host path ((name, entries) ∷ hosts) =
      let later = ensure_at host path hosts in
      if bytes_eq name host
      then (name, ensure_entry entries host path) ∷ hosts
      else (name, entries) ∷ later

  -- The loop that adds an entry for a fallback path to the other hosts.
  abbrev pub ensure_everywhere : Bytes → Merger M I C → Merger M I C
  unfolding ensure_entry
  ensure_everywhere path [] = []
  ensure_everywhere path ((name, entries) ∷ hosts) =
      (name, if is_empty name then entries else ensure_entry entries name path)
      ∷ ensure_everywhere path hosts

  -- The first loop of `push`.
  abbrev pub ensure_all : List (Bytes × Bytes) → Merger M I C → Merger M I C
  unfolding ensure_host
  ensure_all [] hosts = hosts
  ensure_all ((host, path) ∷ places) hosts =
      let ensured = ensure_at host path (ensure_host hosts host) in
      ensure_all places (if is_empty host then ensure_everywhere path ensured else ensured)

  -- The second loop of `push`.
  abbrev pub add_conf : M → C → Bytes → Entries M I C → Entries M I C
  add_conf m conf host [] = []
  add_conf m conf host ((path, list) ∷ entries) =
      (
        path,
        elim (p.matches m host path false).sorter [
          | none ↦ list
          | some sorter ↦ list ++ record { matcher = m; sorter = sorter; conf = conf } ∷ []
        ],
      )
      ∷ add_conf m conf host entries

  -- `Merger::push`.
  unfoldable pub push : Merger M I C → M → C → Merger M I C
  unfolding ensure_host
  push hosts m conf =
      map (λ entry. (entry.0, add_conf m conf entry.0 entry.1)) (ensure_all (p.iter m) hosts)
