-- ===== src/Headers/Rules.antt =====
-- headers-module/src/configuration.rs: `MatchRules`, include and exclude rules as one matcher.
pub mod Closest
pub mod Forced
use pandora_web_server.Base.{
  ℕ, zero, suc, Bool, true, false, not, ◌&&◌, Option, none, some, get_elem?, Bytes, List, [], ◌∷◌,
  ◌++◌, map, is_empty, if◌then◌else◌,
}
use pandora_web_server.Merger.Matcher.{
  HostPathMatcher, PathMatch, PathMatchResult, empty, set_exact, set_prefix, set_sorter, is_match,
  host_path_matches, host_path_le,
}

pub record MatchRules : Type 0 where
  pub include : List HostPathMatcher
  pub exclude : List HostPathMatcher

-- `HostPathMatcher::FALLBACK`.
abbrev pub fallback : HostPathMatcher
fallback = record { host = []; path = []; exact = false }

-- `MatchRules::iter`.
unfoldable pub rules_iter : MatchRules → List (Bytes × Bytes)
rules_iter rules =
    let places = map (λ m. (m.host, m.path)) (rules.include ++ rules.exclude) in
    if is_empty rules.include && is_empty rules.exclude then ([], []) ∷ [] else places

-- What `find_match` folds: the result and the index of the closest rule so far, and that rule.
pub record Found : Type 0 where
  pub result : PathMatchResult Unit
  pub index : ℕ
  pub rule : Option HostPathMatcher

-- `previous.is_some_and(|previous| previous > current)`.
abbrev pub exceeds : Option HostPathMatcher → HostPathMatcher → Bool
unfolding host_path_le
exceeds none current = false
exceeds (some previous) current = not (host_path_le previous current)

abbrev pub find_from : List HostPathMatcher → ℕ → Bytes → Bytes → Bool → Found → Found
unfolding host_path_matches
find_from [] index host path force_prefix previous = previous
find_from (current ∷ rules) index host path force_prefix previous =
    let result = host_path_matches current host path force_prefix in
    find_from rules (suc index) host path force_prefix (
      if is_match result && not (exceeds previous.rule current)
      then record { result = result; index = index; rule = some current }
      else previous)

-- `find_match`.
unfoldable pub find_match : List HostPathMatcher → Bytes → Bytes → Bool → Found
unfolding find_from
find_match rules host path force_prefix =
    find_from rules 0 host path force_prefix (record { result = empty; index = 0; rule = none })

abbrev pub with_flags : Bool → Bool → PathMatchResult ℕ → PathMatchResult ℕ
with_flags exact prefix result =
    let result' = if exact then set_exact result else result in
    if prefix then set_prefix result' else result'

-- The result for the closest include rule, unless the closest exclude rule is not smaller.
abbrev pub unless_excluded : Found → Option HostPathMatcher → PathMatchResult ℕ
unfolding host_path_le
unless_excluded include none =
    let result =
      with_flags include.result.exact include.result.prefix (set_sorter include.index empty) in
    if is_match include.result then result else empty
unless_excluded include (some exclude) =
    let result =
      with_flags include.result.exact include.result.prefix (set_sorter include.index empty) in
    elim include.rule [
      | none ↦ empty
      | some rule ↦ if not (host_path_le rule exclude) then result else empty
    ]

-- `MatchRules::matches`.
unfoldable pub rules_matches : MatchRules → Bytes → Bytes → Bool → PathMatchResult ℕ
unfolding find_match
rules_matches rules host path force_prefix =
    let any_path = set_sorter 0 empty in
    if is_empty rules.include && is_empty rules.exclude
    then if is_empty path then set_prefix (set_exact any_path) else set_prefix any_path
    else unless_excluded (find_match rules.include host path force_prefix)
        (find_match rules.exclude host path force_prefix).rule

-- `MatchRules::sorter`. The index is that of an include rule, so `include[index]` does not panic.
abbrev or_fallback : Option HostPathMatcher → HostPathMatcher
or_fallback none = fallback
or_fallback (some rule) = rule

unfoldable pub rules_sorter : MatchRules → ℕ → HostPathMatcher
rules_sorter rules index =
    if is_empty rules.include then fallback else or_fallback (get_elem? rules.include index)

unfoldable pub rules_match : PathMatch MatchRules HostPathMatcher ℕ
unfolding rules_iter rules_matches rules_sorter host_path_le
rules_match = record {
  iter = rules_iter;
  matches = rules_matches;
  sorter = rules_sorter;
  sorter_le = host_path_le;
}
