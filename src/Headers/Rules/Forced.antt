-- ===== src/Headers/Rules/Forced.antt =====
-- The argument `force_prefix` of the rules.
use pandora_web_server.Base.{ℕ, suc, ◌≡◌, refl, true, false, none, Bytes, List, [], ◌∷◌}
use pandora_web_server.Merger.Matcher.{HostPathMatcher, empty, host_path_matches}
use pandora_web_server.Headers.Rules.{MatchRules, Found, find_from, find_match, rules_matches}

find_from-forced :
    (rules : List HostPathMatcher) (index : ℕ) (host path : Bytes) (previous : Found)
    → find_from rules index host path true previous ≡ find_from rules index host path false previous
unfolding find_from host_path_matches
find_from-forced [] index host path previous = refl
find_from-forced (current ∷ rules) index host path previous =
    find_from-forced rules (suc index) host path _

find_match-forced :
    (rules : List HostPathMatcher) (host path : Bytes)
    → find_match rules host path true ≡ find_match rules host path false
unfolding find_match
find_match-forced rules host path =
    find_from-forced rules 0 host path (record { result = empty; index = 0; rule = none })

-- The result of the rules does not depend on `force_prefix`: for any rules, host and path it is
-- the same for the path itself and for the paths below it.
pub rules_matches-forced :
    (rules : MatchRules) (host path : Bytes)
    → rules_matches rules host path true ≡ rules_matches rules host path false
unfolding rules_matches
rules_matches-forced rules host path =
    rw (find_match-forced rules.include host path, find_match-forced rules.exclude host path) refl
