-- ===== src/Merger/Matcher.antt =====
-- pandora-module-utils/src/merger.rs: the trait `PathMatch` and its implementations
-- `HostPathMatcher`, `PathMatcher` and `StrictHostPathMatcher`.
pub mod Applies
pub mod Order
use pandora_web_server.Base.{
  ℕ, Bool, true, false, not, ◌&&◌, ◌||◌, Option, none, some, is_some, Bytes, List, [], ◌∷◌, any,
  bytes_eq, bytes_le, codes, is_empty, split_once, strip_suffix, if◌then◌else◌, ◌==◌,
}
use pandora_web_server.Trie.Prefix.{separator}
use pandora_web_server.Router.Path.{normalize, is_prefix_of}

pub record PathMatchResult (I : Type 0) : Type 0 where
  pub exact : Bool
  pub prefix : Bool
  pub sorter : Option I

module _ {I : Type 0} where
  -- `PathMatchResult::EMPTY`.
  abbrev pub empty : PathMatchResult I
  empty = record { exact = false; prefix = false; sorter = none }

  abbrev pub set_exact : PathMatchResult I → PathMatchResult I
  set_exact result = record result { exact = true }

  abbrev pub set_prefix : PathMatchResult I → PathMatchResult I
  set_prefix result = record result { prefix = true }

  abbrev pub set_sorter : I → PathMatchResult I → PathMatchResult I
  set_sorter index result = record result { sorter = some index }

  abbrev pub is_match : PathMatchResult I → Bool
  is_match result = is_some result.sorter

-- The trait `PathMatch` of a matcher `M`, with sorters `S` that an index `I` names. `sorter_le` is
-- the order of the sorters.
pub record PathMatch (M S I : Type 0) : Type 0 where
  pub iter : M → List (Bytes × Bytes)
  pub matches : M → Bytes → Bytes → Bool → PathMatchResult I
  pub sorter : M → I → S
  pub sorter_le : S → S → Bool

pub record HostPathMatcher : Type 0 where
  pub host : Bytes
  pub path : Bytes
  pub exact : Bool

-- The derived order: by the host, the path and the flag, `false` first.
unfoldable pub host_path_le : HostPathMatcher → HostPathMatcher → Bool
host_path_le a b =
    if bytes_eq a.host b.host
    then if bytes_eq a.path b.path then not a.exact || b.exact else bytes_le a.path b.path
    else bytes_le a.host b.host

-- The host and the path of `host_path_of`.
abbrev pub host_and_path : Bytes → Bytes × Bytes
host_and_path text = elim (split_once separator text) [ none ↦ (text, []) | some parts ↦ parts ]

abbrev pub host_path_matcher : Bytes × Bytes → Bool → HostPathMatcher
unfolding normalize
host_path_matcher (host, path) exact = record { host = host; path = normalize path; exact = exact }

-- `HostPathMatcher::from`.
unfoldable pub host_path_of : Bytes → HostPathMatcher
host_path_of text =
    let with_path : HostPathMatcher = elim (strip_suffix (codes "/*") text) [
      | some path ↦ host_path_matcher (host_and_path path) false
      | none ↦ host_path_matcher (host_and_path text) true
    ] in
    if any (λ c. c == separator) text then with_path else host_path_matcher (text, []) false

-- The flags that `HostPathMatcher` and `PathMatcher` set, once the host has matched.
unfoldable pub flags : Bytes → Bool → Bytes → PathMatchResult Unit
unfolding is_prefix_of
flags own_path exact path =
    let result = set_sorter tt empty in
    if bytes_eq own_path path
    then if exact then set_exact result else set_prefix (set_exact result)
    else if not exact && is_prefix_of own_path path
    then set_prefix result
    else empty

-- `HostPathMatcher::matches`; it does not use its last argument.
unfoldable pub host_path_matches : HostPathMatcher → Bytes → Bytes → Bool → PathMatchResult Unit
host_path_matches m host path force_prefix =
    if is_empty m.host || bytes_eq m.host host then flags m.path m.exact path else empty

unfoldable pub host_path_match : PathMatch HostPathMatcher HostPathMatcher Unit
unfolding host_path_matches host_path_le
host_path_match = record {
  iter = λ m. (m.host, m.path) ∷ [];
  matches = host_path_matches;
  sorter = λ m index. m;
  sorter_le = host_path_le;
}

pub record PathMatcher : Type 0 where
  pub path : Bytes
  pub exact : Bool

-- `PathMatcher::from`.
unfoldable pub path_of : Bytes → PathMatcher
unfolding normalize
path_of text = elim (strip_suffix (codes "/*") text) [
  | some path ↦ record { path = normalize path; exact = false }
  | none ↦ record { path = normalize text; exact = true }
]

-- `PathMatcher::matches`.
unfoldable pub path_matches : PathMatcher → Bytes → Bytes → Bool → PathMatchResult Unit
path_matches m host path force_prefix =
    if not (is_empty host) then empty else flags m.path m.exact path

unfoldable pub path_le : PathMatcher → PathMatcher → Bool
path_le a b = if bytes_eq a.path b.path then not a.exact || b.exact else bytes_le a.path b.path

unfoldable pub path_match : PathMatch PathMatcher PathMatcher Unit
unfolding path_matches path_le
path_match = record {
  iter = λ m. ([], m.path) ∷ [];
  matches = path_matches;
  sorter = λ m index. m;
  sorter_le = path_le;
}

pub record StrictHostPathMatcher : Type 0 where
  pub host : Bytes
  pub path : Bytes
  pub exact : Bool

unfoldable pub strict_flags : Bytes → Bool → Bytes → Bool → PathMatchResult Unit
unfolding is_prefix_of
strict_flags own_path exact path force_prefix =
    let result = set_sorter tt empty in
    if bytes_eq own_path path
    then if exact then set_exact result else if force_prefix then set_prefix result else empty
    else if not exact && is_prefix_of own_path path
    then set_prefix result
    else empty

-- `StrictHostPathMatcher::matches`.
unfoldable pub strict_matches : StrictHostPathMatcher → Bytes → Bytes → Bool → PathMatchResult Unit
strict_matches m host path force_prefix =
    if is_empty m.host || bytes_eq m.host host
    then strict_flags m.path m.exact path force_prefix
    else empty

-- The derived order of `StrictHostPathMatcher`.
unfoldable pub strict_le : StrictHostPathMatcher → StrictHostPathMatcher → Bool
unfolding host_path_le
strict_le a b =
    host_path_le (record { host = a.host; path = a.path; exact = a.exact })
      (record { host = b.host; path = b.path; exact = b.exact })

unfoldable pub strict_match : PathMatch StrictHostPathMatcher StrictHostPathMatcher Unit
unfolding strict_flags strict_matches strict_le
strict_match = record {
  iter = λ m. (m.host, m.path) ∷ [];
  matches = strict_matches;
  sorter = λ m index. m;
  sorter_le = strict_le;
}
