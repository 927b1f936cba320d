-- ===== src/Merger/Merge/Strict.antt =====
-- A merger that `merge_into_merger` produced gives back the configurations that were merged.
use pandora_web_server.Base.{
  ◌≡◌, refl, ap, true, ◌||◌, Bytes, List, [], ◌∷◌, map, bytes_eq, bytes_eq_iff, is_empty, arith,
}
use pandora_web_server.Merger.Matcher.{strict_flags, strict_match, strict_matches}
use pandora_web_server.Merger.Merge.{State, strict_entries, merge_entry, merge_entries}

abbrev pub single : {V : Type 0} → State V → State (List V)
single state = record {
  path = state.path;
  value_exact = state.value_exact ∷ [];
  value_prefix = state.value_prefix ∷ [];
}

-- Merging the entries that `merge_into_merger` makes of the states of a host gives back, for each
-- of their paths, exactly its exact configuration and exactly its prefix configuration.
pub merge_entries-strict_entries :
    {V : Type 0} (host : Bytes) (states : List (State V))
    → merge_entries strict_match (λ values. values) host (strict_entries host states)
      ≡ map single states
unfolding merge_entry strict_match strict_matches strict_flags
merge_entries-strict_entries host [] = refl
merge_entries-strict_entries host (state ∷ states) =
    let own_host : (is_empty host || bytes_eq host host) ≡ true =
      ground (arith, (bytes_eq_iff host host).1 refl) in
    let own_path = (bytes_eq_iff state.path state.path).1 refl in
    rw (own_host, own_path)
      (ap (λ rest. single state ∷ rest) (merge_entries-strict_entries host states))
