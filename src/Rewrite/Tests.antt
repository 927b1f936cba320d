-- ===== src/Rewrite/Tests.antt =====
-- Texts with variables and rules on concrete inputs, and the theorems at such inputs.
use pandora_web_server.Base.{
  ◌≡◌, refl, true, false, Option, none, some, Bytes, List, [], ◌∷◌, codes,
}
use pandora_web_server.Trie.Flat
use pandora_web_server.Router.Routes.{Router, make_key, lookup}
use pandora_web_server.Rewrite.Interpolation.{
  tail, query, header, literal, variable, variable_of, scan, parts_of, from_str, interpolate,
}
use pandora_web_server.Rewrite.Interpolation.Leftmost.{Parts}
use pandora_web_server.Rewrite.Interpolation.Reads.{from_str-Parts}
use pandora_web_server.Rewrite.Handler.{
  condition, request_filter, Rule, Request, redirected, redirect, regex_matches, expand, applies,
  apply, apply_rules,
}
use pandora_web_server.Rewrite.Handler.Tried.{Tried, request_filter-Tried}

-- Every text is a header's name.
abbrev header_name : Bytes → Option Bytes
header_name name = some name

abbrev target : Bytes
target = codes "a${query}${tail}bc${http_a_b}d${unknown}e${${tail}"

from_str_tests :
    (from_str header_name target
      ≡ literal (codes "a")
        ∷ variable query
        ∷ variable tail
        ∷ literal (codes "bc")
        ∷ variable (header (codes "a-b"))
        ∷ literal (codes "d${unknown}e${")
        ∷ variable tail
        ∷ [])
    × (from_str header_name (codes "${tail") ≡ literal (codes "${tail") ∷ [])
    × (from_str header_name [] ≡ [])
unfolding from_str parts_of scan variable_of
from_str_tests = (refl, refl, refl)

from_str-Parts_example : Parts header_name target (from_str header_name target)
from_str-Parts_example = from_str-Parts header_name target

abbrev request : Request Bytes Bytes
request = record {
  path = codes "/file.txt";
  query_string = some (codes "a=b");
  header_value = λ name. none;
  parse_uri = λ text. some text;
  from_utf8 = λ text. some text;
}

abbrev rule_to : Bytes → Rule Bytes
unfolding from_str
rule_to to = record {
  from_regex = some (record { regex = λ text. false; negate = true });
  query_regex = none;
  to = from_str header_name to;
  rewrite_type = redirect;
}

-- The variable of the query brings its question mark along.
query_test :
    apply_rules request ((codes "file.txt", rule_to (codes "/file.html?${query}")) ∷ [])
    ≡ redirected 307 (codes "/file.html??a=b")
unfolding apply_rules apply applies expand interpolate from_str parts_of scan variable_of
    regex_matches
query_test = refl

-- The last rule has a condition on the path that is not met.
abbrev rules : List (Bytes × Rule Bytes)
rules =
    ([], rule_to (codes "/first"))
    ∷ ([], rule_to (codes "/second"))
    ∷ (
      [],
      record (rule_to (codes "/third")) {
        from_regex = some (record { regex = λ text. false; negate = false });
      },
    )
    ∷ []

abbrev router : Router (List (Bytes × Rule Bytes))
router = record {
  trie = record { nodes = []; values = []; labels = [] };
  fallback = record {
    nodes =
        record {
          label = record { start = 0; stop = 0 };
          value_exact = none;
          value_prefix = some 0;
          children = record { start = 0; stop = 0 };
        }
        ∷ [];
    values = rules ∷ [];
    labels = [];
  };
}

found : lookup router [] request.path ≡ some (record { value = rules; index = 0 })
unfolding lookup make_key Flat.lookup Flat.lookup_from Flat.match_child Flat.follow
    Flat.to_lookup_result
found = refl

rules_test : request_filter request router ≡ redirected 307 (codes "/second")
unfolding request_filter lookup make_key Flat.lookup Flat.lookup_from Flat.match_child Flat.follow
    Flat.to_lookup_result apply_rules applies condition apply expand interpolate from_str parts_of
    scan variable_of regex_matches
rules_test = refl

request_filter-Tried_example : Tried request rules (request_filter request router)
request_filter-Tried_example =
    request_filter-Tried request router (record { value = rules; index = 0 }) found
