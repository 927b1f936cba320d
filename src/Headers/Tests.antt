-- ===== src/Headers/Tests.antt =====
-- The closest rules on concrete inputs, and the theorems at such inputs.
use pandora_web_server.StandardResponse.{to_string, digits}
use pandora_web_server.Headers.Settings.{
  Header, number, flag, texts, Fields, Conf, default_conf, into_headers, entries, push,
}
use pandora_web_server.Headers.Settings.Merged.{combined_conf, merge_all, merge_all-combined_conf}
use pandora_web_server.Headers.Handler.{add_header, add_headers, combine_from, combine}
use pandora_web_server.Headers.Handler.Combined.{values_of, concat, joined, combine-values_of}
use pandora_web_server.Base.{refl, none, some, ◌≡◌, true, false, List, [], ◌∷◌, All, codes}
use pandora_web_server.Merger.Matcher.{HostPathMatcher, host_path_of}
use pandora_web_server.Headers.Rules.{MatchRules, find_match, rules_matches}
use pandora_web_server.Headers.Rules.Forced.{rules_matches-forced}
use pandora_web_server.Headers.Rules.Closest.{Applies, Below, IsResult, find_match-closest}

abbrev rules : List HostPathMatcher
rules =
    host_path_of (codes "example.com")
    ∷ host_path_of (codes "example.com/dir/*")
    ∷ host_path_of (codes "/*")
    ∷ []

find_match-closest_example :
    (IsResult
      (codes "example.com")
      (codes "dir/file")
      false
      rules
      (find_match rules (codes "example.com") (codes "dir/file") false).rule
      (find_match rules (codes "example.com") (codes "dir/file") false).index
      (find_match rules (codes "example.com") (codes "dir/file") false).result)
    × All
        (λ r.
          Applies (codes "example.com") (codes "dir/file") false r
          → Below r (find_match rules (codes "example.com") (codes "dir/file") false).rule)
        rules
find_match-closest_example = find_match-closest (codes "example.com") (codes "dir/file") false rules

abbrev excluding : MatchRules
excluding = record {
  include = host_path_of (codes "example.com") ∷ [];
  exclude = host_path_of (codes "example.com/exception.txt") ∷ [];
}

rules_matches-forced_example :
    rules_matches excluding (codes "example.com") (codes "exception.txt") true
    ≡ rules_matches excluding (codes "example.com") (codes "exception.txt") false
rules_matches-forced_example =
    rules_matches-forced excluding (codes "example.com") (codes "exception.txt")

abbrev headers : List (List Header)
headers =
    ((codes "cache-control", codes "no-cache") ∷ (codes "x-me", codes "1") ∷ [])
    ∷ ((codes "cache-control", codes "public") ∷ [])
    ∷ []

headers_tests :
    (combine headers
      ≡ (codes "cache-control", codes "no-cache, public") ∷ (codes "x-me", codes "1") ∷ [])
    × (into_headers
          (codes "cache-control")
          (codes ", ")
          ((codes "max-age", number) ∷ (codes "no-cache", flag) ∷ [])
          (some 604800, (true, tt))
        ≡ (codes "cache-control", codes "max-age=604800, no-cache") ∷ [])
unfolding combine combine_from add_headers add_header into_headers entries push to_string digits
headers_tests = (refl, refl)

combine-values_of_example :
    values_of (codes "cache-control") (combine headers)
    ≡ joined (values_of (codes "cache-control") (concat headers))
combine-values_of_example = combine-values_of (codes "cache-control") headers

abbrev fields : Fields
fields = (codes "max-age", number) ∷ (codes "no-cache", flag) ∷ (codes "img-src", texts) ∷ []

abbrev confs : List (Conf fields)
confs = (some 10, (false, (codes "a" ∷ [], tt))) ∷ (none, (true, (codes "b" ∷ [], tt))) ∷ []

merge_all-combined_conf_example :
    merge_all fields (default_conf fields) confs ≡ combined_conf fields confs
merge_all-combined_conf_example = merge_all-combined_conf fields confs
