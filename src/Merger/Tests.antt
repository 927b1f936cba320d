-- ===== src/Merger/Tests.antt =====
-- Matchers and mergers on concrete inputs, and the theorems at such inputs.
use pandora_web_server.Base.{
  ℕ, ◌≡◌, refl, ◌↔◌, ◌⊎◌, true, false, Option, none, some, Bytes, List, [], ◌∷◌, ◌++◌, map, drop,
  codes, nat_eq, bytes_instance,
}
use pandora_web_server.Router.Path.{normalize}
use pandora_web_server.Router.Path.Segments.{segments_of}
use pandora_web_server.Router.Tests.{routes}
use pandora_web_server.Router.Routes.{Router, lookup}
use pandora_web_server.Merger.Matcher.{
  HostPathMatcher, is_match, host_path_matcher, host_path_matches, host_path_match, host_path_of,
  host_path_le, flags, strict_match,
}
use pandora_web_server.Merger.Matcher.Applies.{host_path_matches-segments}
use pandora_web_server.Merger.Table.{
  Merger, push, ensure_host, ensure_entry, search_entries, copied, applying,
}
use pandora_web_server.Merger.Merge.{
  State, merge, merge_entry, merge_entries, strict_entries, remove_states, parent_has,
}
use pandora_web_server.Merger.Merge.Redundant.{Descending, resolve, resolve-remove_states}
use pandora_web_server.Merger.Merge.Strict.{single, merge_entries-strict_entries}

merging : Unit {0}
unfolding routes host_path_of host_path_matches host_path_match host_path_le flags push ensure_host
    ensure_entry search_entries copied applying merge merge_entry remove_states parent_has
merging = tt

-- The example of the documentation of `Merger`, with lists in place of strings.
abbrev merger : Merger HostPathMatcher Unit ℕ
merger =
    push host_path_match
      (push host_path_match
        (push host_path_match (push host_path_match [] (host_path_of (codes "localhost")) 1)
          (host_path_of (codes "localhost/abc/")) 2)
        (host_path_of (codes "example.com")) 3)
      (host_path_of []) 4

abbrev router : Option (Router Bytes)
router = merge host_path_match (λ values. values) merger

abbrev merged : Bytes → Bytes → Option Bytes
merged host path = elim router [
  | none ↦ none
  | some r ↦ elim (lookup r host path) [ none ↦ none | some found ↦ some found.value ]
]

merge_tests :
    (merged (codes "localhost") (codes "/") ≡ some (4 ∷ 1 ∷ []))
    × (merged (codes "localhost") (codes "/abc") ≡ some (4 ∷ 1 ∷ 2 ∷ []))
    × (merged (codes "localhost") (codes "/abc/def") ≡ some (4 ∷ 1 ∷ []))
    × (merged (codes "example.com") (codes "/abc/def") ≡ some (4 ∷ 3 ∷ []))
unfolding merging
merge_tests = (refl, refl, refl, refl)

host_path_matches-segments_example :
    (is_match (
        host_path_matches
          (host_path_matcher (codes "localhost", codes "dir") false)
          (codes "localhost")
          (normalize (codes "/dir/sub"))
          false)
      ≡ true)
    ↔ (((codes "localhost" ≡ []) ⊎ (codes "localhost" ≡ codes "localhost"))
        × ((rest : List Bytes) × (segments_of (codes "/dir/sub")
              ≡ segments_of (codes "dir") ++ rest)))
host_path_matches-segments_example =
    host_path_matches-segments (codes "localhost") (codes "/dir/sub") (codes "localhost")
      (codes "dir") false

-- The states of `dir/sub`, `dir` and the root, from their end; the first one is not necessary.
abbrev states : List (State ℕ)
states =
    record { path = codes "dir/sub"; value_exact = 2; value_prefix = 2 }
    ∷ record { path = codes "dir"; value_exact = 1; value_prefix = 2 }
    ∷ record { path = []; value_exact = 3; value_prefix = 3 }
    ∷ []

states-Descending : Descending states
states-Descending =
    (((refl, λ e. cc e), ((refl, λ e. cc e), tt)), (((refl, λ e. cc e), tt), (tt, tt)))

remove_states_test : remove_states states ≡ drop 1 states
unfolding merging
remove_states_test = refl

resolve-remove_states_example :
    resolve (codes "dir/sub/file") (remove_states states) ≡ resolve (codes "dir/sub/file") states
resolve-remove_states_example =
    resolve-remove_states (codes "dir/sub/file") states states-Descending

merge_entries-strict_entries_example :
    merge_entries strict_match
      (λ values. values)
      (codes "localhost")
      (strict_entries (codes "localhost") states)
    ≡ map single states
merge_entries-strict_entries_example = merge_entries-strict_entries (codes "localhost") states
