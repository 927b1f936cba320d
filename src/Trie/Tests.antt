-- ===== src/Trie/Tests.antt =====
-- The trie on the inputs of the source's tests, and the theorems at concrete inputs.
use pandora_web_server.Base.{
  ℕ, ◌≡◌, ◌≤◌, refl, Option, none, some, Bytes, List, [], ◌∷◌, codes, nat_eq, ◌⊎◌, All, arith,
  if◌then◌else◌,
}
use pandora_web_server.Trie.Prefix.{common_prefix_length}
use pandora_web_server.Trie.Prefix.Longest.{IsCommon, common_prefix_length-longest}
use pandora_web_server.Trie.Builder.{
  TrieBuilder, Setup, new, push, push_all, find_insertion_point, find_child, meet_child,
  split_child, set_value, append_node,
}
use pandora_web_server.Router.Path.Normal.{join}
use pandora_web_server.Router.Path.Segments.{IsSegment}
use pandora_web_server.Trie.Builder.Values.{same, at, IsTree}
use pandora_web_server.Trie.Builder.Update.Push.{push-at}
use pandora_web_server.Trie.Flat.{
  Trie, LookupResult, build, lookup, into_trie_node, into_trie_children, store_node, store_value,
  add_value, reserve, retrieve, match_label, match_child, follow, to_lookup_result,
}
use pandora_web_server.Trie.Builder.Counts.{
  IsCounted, push-IsCounted, push_all-IsCounted, new-IsCounted,
}
use pandora_web_server.Trie.Flat.Sizes.{IsSized, build-push_all}
use pandora_web_server.Trie.Flat.Answers.{value_of}
use pandora_web_server.Trie.Flat.Longest.{longest_from}
use pandora_web_server.Trie.Flat.Setups.{
  Keyed, IsKeyed, labelled, longest, slots_of, slots_from, lookup-push_all,
}
use pandora_web_server.Trie.Flat.Retrieve.{retrieve-lookup}

trie : Unit {0}
unfolding push_all push new find_insertion_point find_child meet_child split_child set_value
    append_node common_prefix_length build match_label match_child follow to_lookup_result
    into_trie_node into_trie_children store_node store_value add_value reserve lookup
trie = tt

abbrev setup : Setup ℕ
setup =
    (codes "localhost", 1, some 2)
    ∷ (codes "localhost/dir", 3, none)
    ∷ (codes "example.com", 4, some 5)
    ∷ (codes "example.com/dir/sub", 6, some 7)
    ∷ (codes "example.com/dir/sup", 8, none)
    ∷ (codes "localhost/dir", 9, some 1)
    ∷ []

abbrev found : List Bytes → Option (Option ℕ)
found segments = elim (build (push_all new setup)) [
  | none ↦ none
  | some t ↦ some (elim (lookup t segments) [ none ↦ none | some r ↦ some (r.value) ])
]

lookup_tests :
    (found (codes "localhost" ∷ []) ≡ some (some 1))
    × (found (codes "localhost" ∷ codes "dir" ∷ []) ≡ some (some 9))
    × (found (codes "localhost" ∷ codes "dir" ∷ codes "x" ∷ []) ≡ some (some 1))
    × (found (codes "localhost" ∷ codes "dirx" ∷ []) ≡ some (some 2))
    × (found (codes "example.com" ∷ codes "dir" ∷ []) ≡ some (some 5))
    × (found (codes "example.com" ∷ codes "dir" ∷ codes "sup" ∷ []) ≡ some (some 8))
    × (found (codes "example.com" ∷ codes "dir" ∷ codes "sub" ∷ codes "a" ∷ []) ≡ some (some 7))
    × (found (codes "example.net" ∷ []) ≡ some none)
unfolding trie
lookup_tests = (refl, refl, refl, refl, refl, refl, refl, refl)

abbrev built : Trie ℕ
built = elim (build (push_all new setup)) [
  | none ↦ record { nodes = []; values = []; labels = [] }
  | some t ↦ t
]

abbrev sub : List Bytes
sub = codes "example.com" ∷ codes "dir" ∷ codes "sub" ∷ codes "a" ∷ []

abbrev found_sub : LookupResult ℕ
found_sub = elim (lookup built sub) [ none ↦ record { index = 0; value = 0 } | some r ↦ r ]

common_prefix_length-longest_example :
    ((m : ℕ)
      → IsCommon (codes "a.com/dir/sub") (codes "a.com/dir/sup") m
      → m ≤ common_prefix_length (codes "a.com/dir/sub") (codes "a.com/dir/sup"))
    × (IsCommon
          (codes "a.com/dir/sub")
          (codes "a.com/dir/sup")
          (common_prefix_length (codes "a.com/dir/sub") (codes "a.com/dir/sup"))
        ⊎ ((common_prefix_length (codes "a.com/dir/sub") (codes "a.com/dir/sup") ≡ 0)
            × ((m : ℕ) → ¬ IsCommon (codes "a.com/dir/sub") (codes "a.com/dir/sup") m)))
common_prefix_length-longest_example =
    common_prefix_length-longest (codes "a.com/dir/sub") (codes "a.com/dir/sup")

push-IsCounted_example : IsCounted (push (push_all new setup) (codes "example.com/dir/su") 5 none).0
push-IsCounted_example =
    push-IsCounted (push_all new setup) (codes "example.com/dir/su") 5 none
      (push_all-IsCounted new setup new-IsCounted)

build-push_all_example :
    (t : Trie ℕ) × (build (push_all new setup) ≡ some t) × IsSized (push_all new setup) t
build-push_all_example = build-push_all setup

found_sub-found : lookup built sub ≡ some found_sub
unfolding trie
found_sub-found = refl

retrieve-lookup_example : retrieve built found_sub.index ≡ some found_sub.value
retrieve-lookup_example = retrieve-lookup built sub found_sub found_sub-found

abbrev host_dir : List Bytes
host_dir = codes "localhost" ∷ codes "dir" ∷ []

abbrev host_dirs : List Bytes
host_dirs = codes "localhost" ∷ codes "dirs" ∷ []

new-IsTree : IsTree (new {V = ℕ}).root
unfolding new IsTree
new-IsTree = tt

host_dir-IsSegment : All IsSegment host_dir
host_dir-IsSegment = ((refl, ground arith), ((refl, ground arith), tt))

host_dirs-IsSegment : All IsSegment host_dirs
host_dirs-IsSegment = ((refl, ground arith), ((refl, ground arith), tt))

abbrev first_pushed : TrieBuilder ℕ
first_pushed = (push new (join host_dir) 1 (some 2)).0

first_pushed-IsTree : IsTree first_pushed.root
first_pushed-IsTree = (push-at 1 (some 2) new host_dir new-IsTree host_dir-IsSegment).0

push-at_example :
    IsTree (push first_pushed (join host_dirs) 3 none).0.root
    × ((q : List Bytes)
        → at (push first_pushed (join host_dirs) 3 none).0.root q
          ≡ (if same host_dirs q then (some 3, none) else at first_pushed.root q))
push-at_example = push-at 3 none first_pushed host_dirs first_pushed-IsTree host_dirs-IsSegment

abbrev keyed : Keyed ℕ
keyed = (codes "a" ∷ [], 1, some 2) ∷ (codes "a" ∷ codes "b" ∷ [], 3, none) ∷ ([], 4, none) ∷ []

keyed-IsKeyed : IsKeyed keyed
keyed-IsKeyed =
    (((refl, (refl, tt)), tt), (((refl, (refl, tt)), ((refl, (refl, tt)), tt)), (tt, tt)))

longest_tests :
    (longest keyed (codes "a" ∷ codes "c" ∷ []) ≡ some 2)
    × (longest keyed (codes "a" ∷ codes "b" ∷ []) ≡ some 3)
    × (longest keyed (codes "c" ∷ []) ≡ none)
    × (longest keyed [] ≡ some 4)
unfolding longest longest_from slots_of slots_from same
longest_tests = (refl, refl, refl, refl)

lookup-push_all_example :
    (t : Trie ℕ) × (build (push_all new (labelled keyed)) ≡ some t)
    × ((q : List Bytes) → All IsSegment q → value_of (lookup t q) ≡ longest keyed q)
lookup-push_all_example = lookup-push_all keyed keyed-IsKeyed
