-- ===== src/Router/Tests.antt =====
-- Paths and routers on concrete inputs, and the theorems at such inputs.
use pandora_web_server.Base.{
  ℕ, ◌≡◌, ◌≢◌, is_some, refl, ◌↔◌, true, false, Option, none, some, Bytes, List, [], ◌∷◌, ◌++◌, All,
  split, codes, is_empty, nat_eq,
}
use pandora_web_server.Trie.Prefix.{separator, common_prefix_length}
use pandora_web_server.Trie.Builder.{
  append_node, find_child, find_insertion_point, meet_child, set_value, split_child,
}
use pandora_web_server.Trie.Builder
use pandora_web_server.Trie.Flat.{
  LookupResult, add_value, into_trie_children, into_trie_node, match_label, reserve, store_node,
  store_value,
}
use pandora_web_server.Trie.Flat
use pandora_web_server.Router.Path.{
  normalize, is_prefix_of, remove_prefix_from, remove_segments, skip_separators,
}
use pandora_web_server.Router.Path.Normal.{join, drop_empty, normalize_lem}
use pandora_web_server.Router.Path.Segments.{NoSlash, segments_of, normalize-segments}
use pandora_web_server.Router.Path.Prefix.{remove_prefix_from_sound}
use pandora_web_server.Router.Path.Parent.{is_prefix_of-segments}
use pandora_web_server.Router.Table.{
  RouterBuilder, RouterEntry, builder, push, merge_value, merge_host, search_path, inherited,
}
use pandora_web_server.Router.Table.Sorted.{IsSortedTable, push-IsSortedTable}
use pandora_web_server.Router.Table.Values.{entry_at}
use pandora_web_server.Router.Table.Merged.{NewPrefix, merge_value-NewPrefix}
use pandora_web_server.Router.Routes.{
  Router, make_key, host_key, build, lookup, retrieve, push_entries, push_hosts, push_fallbacks,
}
use pandora_web_server.Router.Routes.Longest.{
  Routes, push_routes, route, named_slots, host_slots, fallback_slots, lookup-push_routes,
}
use pandora_web_server.Trie.Builder.Values.{same}
use pandora_web_server.Trie.Flat.Answers.{value_of}
use pandora_web_server.Trie.Flat.Longest.{longest_from}
use pandora_web_server.Trie.Flat.Setups.{longest, slots_of, slots_from}
use pandora_web_server.Router.Routes.Retrieve.{retrieve-fallback}

paths : Unit {0}
unfolding normalize is_prefix_of remove_prefix_from remove_segments skip_separators
    common_prefix_length
paths = tt

normalize_tests :
    (normalize (codes "//dir///sub/") ≡ codes "dir/sub")
    × (normalize (codes "/") ≡ [])
    × (is_prefix_of (codes "dir") (codes "dir/sub") ≡ true)
    × (is_prefix_of (codes "dir") (codes "dirs") ≡ false)
    × (remove_prefix_from (codes "dir") (codes "//dir//sub/") ≡ some (codes "//sub/"))
    × (remove_prefix_from (codes "dir") (codes "/dir") ≡ some (codes "/"))
    × (remove_prefix_from (codes "dir") (codes "/dirs") ≡ none)
unfolding paths
normalize_tests = (refl, refl, refl, refl, refl, refl, refl)

normalize_lem_example :
    normalize (codes "//dir/sub/") ≡ join (drop_empty (split separator (codes "//dir/sub/")))
normalize_lem_example = normalize_lem (codes "//dir/sub/")

normalize-segments_example :
    (segments_of (normalize (codes "//dir/sub/")) ≡ segments_of (codes "//dir/sub/"))
    × (normalize (normalize (codes "//dir/sub/")) ≡ normalize (codes "//dir/sub/"))
normalize-segments_example = normalize-segments (codes "//dir/sub/")

is_prefix_of-segments_example :
    (is_prefix_of (normalize (codes "/dir/")) (normalize (codes "/dir/sub")) ≡ true)
    ↔ ((rest : List Bytes) × (segments_of (codes "/dir/sub") ≡ segments_of (codes "/dir/") ++ rest))
is_prefix_of-segments_example = is_prefix_of-segments (codes "/dir/") (codes "/dir/sub")

removed :
    remove_prefix_from (normalize (codes "/dir/")) (codes "//dir//sub/") ≡ some (codes "//sub/")
unfolding paths
removed = refl

remove_prefix_from_sound_example :
    (segments_of (codes "//dir//sub/")
      ≡ segments_of (codes "/dir/") ++ segments_of (codes "//sub/"))
    × (is_empty (codes "//sub/") ≡ false)
remove_prefix_from_sound_example =
    remove_prefix_from_sound (codes "/dir/") (codes "//dir//sub/") (codes "//sub/") removed

unfoldable pub routes : Unit {0}
unfolding push merge_value merge_host search_path inherited build push_entries push_hosts
    push_fallbacks host_key make_key lookup paths Builder.push Builder.new find_insertion_point
    find_child meet_child split_child set_value append_node Flat.build into_trie_node
    into_trie_children store_node store_value add_value reserve Flat.lookup Flat.match_label
    Flat.match_child Flat.follow Flat.to_lookup_result
routes = tt

abbrev no_builder : RouterBuilder ℕ
no_builder = record { entries = []; fallbacks = [] }

abbrev existing : List (RouterEntry ℕ)
existing =
    record { path = codes "dir"; value_exact = 1; value_prefix = some 2 }
    ∷ record { path = codes "dirs"; value_exact = 4; value_prefix = some 5 }
    ∷ []

merge_value_test :
    entry_at (codes "dir/sub") (merge_value existing (codes "dir/sub") 3 none).0
    ≡ some (record { path = codes "dir/sub"; value_exact = 3; value_prefix = some 2 })
unfolding routes entry_at
merge_value_test = refl

merge_value-NewPrefix_example :
    ((q : Bytes)
      → q ≢ codes "dir/sub"
      → entry_at q (merge_value existing (codes "dir/sub") 3 none).0 ≡ entry_at q existing)
    × ((entry : RouterEntry ℕ) × (entry_at
            (codes "dir/sub")
            (merge_value existing (codes "dir/sub") 3 none).0
          ≡ some entry)
        × (entry.path ≡ codes "dir/sub")
        × (entry.value_exact ≡ 3)
        × NewPrefix existing (codes "dir/sub") none entry.value_prefix)
    × ((merge_value existing (codes "dir/sub") 3 none).1
        ≡ is_some (entry_at (codes "dir/sub") existing))
merge_value-NewPrefix_example =
    merge_value-NewPrefix existing (codes "dir/sub") 3 none ((refl, tt), (tt, tt))

abbrev named_builder : RouterBuilder ℕ
named_builder =
    (push
      (push (push no_builder (codes "localhost") (codes "/") 1 (some 1)).0 (codes "localhost")
        (codes "/dir/sub/") 2 none).0
      [] (codes "/dir/") 3 (some 4)).0

abbrev no_router : Router ℕ
no_router = record {
  trie = record { nodes = []; values = []; labels = [] };
  fallback = record { nodes = []; values = []; labels = [] };
}

abbrev named : Router ℕ
named = elim (build named_builder) [ none ↦ no_router | some r ↦ r ]

abbrev value_at : Router ℕ → Bytes → Bytes → Option ℕ
value_at r host path = elim (lookup r host path) [ none ↦ none | some found ↦ some found.value ]

lookup_tests :
    (value_at named (codes "localhost") (codes "//dir//sub") ≡ some 2)
    × (value_at named (codes "localhost") (codes "/dir/sub/file") ≡ some 1)
    × (value_at named (codes "localhost") (codes "/dirs") ≡ some 1)
    × (value_at named (codes "example.com") (codes "/dir") ≡ some 3)
    × (value_at named (codes "example.com") (codes "/dir/file") ≡ some 4)
    × (value_at named (codes "example.com") (codes "/") ≡ none)
unfolding routes
lookup_tests = (refl, refl, refl, refl, refl, refl)

abbrev or_zero : Option (LookupResult ℕ) → LookupResult ℕ
or_zero none = record { index = 0; value = 0 }
or_zero (some found) = found

abbrev found_named : LookupResult ℕ
found_named = or_zero (lookup named (codes "localhost") (codes "/dir/sub/"))

found_named-found :
    Flat.lookup named.trie (make_key (codes "localhost") (codes "/dir/sub/")) ≡ some found_named
unfolding routes
found_named-found = refl

abbrev fallback_builder : RouterBuilder ℕ
fallback_builder = (push no_builder [] (codes "/dir/") 3 (some 4)).0

abbrev fallback_router : Router ℕ
fallback_router = elim (build fallback_builder) [ none ↦ no_router | some r ↦ r ]

abbrev found_fallback : LookupResult ℕ
found_fallback = or_zero (lookup fallback_router (codes "localhost") (codes "/dir/file"))

no_entries : fallback_builder.entries ≡ []
unfolding routes
no_entries = refl

fallback_router-built : build fallback_builder ≡ some fallback_router
unfolding routes
fallback_router-built = refl

found_fallback-found :
    lookup fallback_router (codes "localhost") (codes "/dir/file") ≡ some found_fallback
unfolding routes
found_fallback-found = refl

retrieve-fallback_example :
    (Flat.retrieve fallback_router.fallback found_fallback.index ≡ some found_fallback.value)
    × (retrieve fallback_router found_fallback.index ≡ none)
retrieve-fallback_example =
    retrieve-fallback fallback_builder fallback_router (codes "localhost") (codes "/dir/file")
      found_fallback no_entries fallback_router-built found_fallback-found

abbrev two_routes : Routes ℕ
two_routes = (codes "a", codes "/dir/", 1, some 2) ∷ ([], codes "//", 3, some 4) ∷ []

two_routes-plain : All (λ (host, path, v, p). NoSlash host) two_routes
two_routes-plain = ((refl, tt), (tt, tt))

route_tests :
    (route (push_routes builder two_routes) (codes "a") (codes "/dir/sub") ≡ some 2)
    × (route (push_routes builder two_routes) (codes "a") (codes "dir") ≡ some 1)
    × (route (push_routes builder two_routes) (codes "a") (codes "/dirs") ≡ some 4)
    × (route (push_routes builder two_routes) [] (codes "/") ≡ some 3)
unfolding routes push_routes builder route longest longest_from slots_of slots_from named_slots
    host_slots fallback_slots same
route_tests = (refl, refl, refl, refl)

lookup-push_routes_example :
    (r : Router ℕ) × (build (push_routes builder two_routes) ≡ some r)
    × ((host path : Bytes)
        → NoSlash host
        → value_of (lookup r host path) ≡ route (push_routes builder two_routes) host path)
lookup-push_routes_example = lookup-push_routes two_routes two_routes-plain

named_builder-IsSortedTable : IsSortedTable named_builder
unfolding routes
named_builder-IsSortedTable = ((((refl, tt), (tt, tt)), tt), (tt, tt))

push-IsSortedTable_example :
    IsSortedTable (push named_builder (codes "localhost") (codes "/dir/") 5 none).0
push-IsSortedTable_example =
    push-IsSortedTable named_builder (codes "localhost") (codes "/dir/") 5 none
      named_builder-IsSortedTable
