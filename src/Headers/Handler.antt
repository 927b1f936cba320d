-- ===== src/Headers/Handler.antt =====
-- headers-module/src/handler.rs: the headers for a host and path, from the rules of all kinds.
pub mod Combined
use pandora_web_server.Base.{
  ℕ, suc, Bool, Option, none, some, ◌>>=◌, Bytes, List, [], ◌∷◌, ◌++◌, codes, bytes_eq, position,
  modify, Eq,
}
use pandora_web_server.Router.Routes.{Router}
use pandora_web_server.Router.Routes
use pandora_web_server.Merger.Matcher.{StrictHostPathMatcher, strict_match}
use pandora_web_server.Merger.Table.{Merger}
use pandora_web_server.Merger.Table
use pandora_web_server.Merger.Merge.{merge_into_merger}
use pandora_web_server.Merger.Merge
use pandora_web_server.Headers.Rules.{MatchRules, rules_match}
use pandora_web_server.Headers.Settings.{
  Fields, Conf, default_conf, Header, into_headers, cache_control, content_security_policy,
  merge_custom,
}
use pandora_web_server.Headers.Settings.Merged.{merge_all}

-- `WithMatchRules`.
pub record WithMatchRules (C : Type 0) : Type 0 where
  pub match_rules : MatchRules
  pub conf : C

-- The first loop of `merge_rules`.
unfoldable pub push_rules :
    {C : Type 0} → List (WithMatchRules C) → Merger MatchRules ℕ C → Merger MatchRules ℕ C
push_rules [] merger = merger
push_rules (rule ∷ rules) merger =
    push_rules rules (Table.push rules_match merger rule.match_rules rule.conf)

-- `merge_rules`: `headers_of` merges settings and converts the result.
unfoldable pub merge_rules :
    {C : Type 0}
    → (List C → List Header)
    → List (WithMatchRules C)
    → Merger StrictHostPathMatcher Unit (List Header)
unfolding push_rules
merge_rules headers_of rules = merge_into_merger rules_match headers_of (push_rules rules [])

abbrev pub headers_of : Bytes → Bytes → (fields : Fields) → List (Conf fields) → List Header
unfolding merge_all into_headers
headers_of header sep fields confs =
    into_headers header sep fields (merge_all fields (default_conf fields) confs)

unfoldable pub custom_of : List (List Header) → List Header → List Header
unfolding merge_custom
custom_of [] merged = merged
custom_of (headers ∷ confs) merged = custom_of confs (merge_custom merged headers)

-- `new_value.extend_from_slice(b", ")`, and the value.
abbrev pub extended : Bytes → Header → Header
extended value (name, existing) = (name, existing ++ codes ", " ++ value)

-- The body of the loop over the headers: a header that is there already is extended.
abbrev pub add_at : Option ℕ → Header → List Header → List Header
add_at none header result = result ++ header ∷ []
add_at (some existing) (name, value) result = modify result existing (extended value)

unfoldable pub add_header : List Header → Header → List Header
add_header result (name, value) =
    add_at (position (λ h. bytes_eq h.0 name) result) (name, value) result

unfoldable pub add_headers : List Header → List Header → List Header
unfolding add_header
add_headers result [] = result
add_headers result (header ∷ headers) = add_headers (add_header result header) headers

-- The closure that `merge` calls.
unfoldable pub combine_from : List Header → List (List Header) → List Header
unfolding add_headers
combine_from result [] = result
combine_from result (headers ∷ values) = combine_from (add_headers result headers) values

unfoldable pub combine : List (List Header) → List Header
unfolding combine_from
combine values = combine_from [] values

-- `HeadersInnerConf`.
pub record HeadersConf : Type 0 where
  pub cache_control_rules : List (WithMatchRules (Conf cache_control))
  pub content_security_policy_rules : List (WithMatchRules (Conf content_security_policy))
  pub custom_rules : List (WithMatchRules (List Header))

-- `HeadersHandler::try_from`; `none` is a panic.
unfoldable pub try_from : ⦃e : Eq (List Header)⦄ → HeadersConf → Option (Router (List Header))
unfolding merge_rules combine custom_of
try_from conf =
    let merged =
      merge_rules (headers_of (codes "cache-control") (codes ", ") cache_control)
        conf.cache_control_rules in
    let policies =
      merge_rules
        (headers_of (codes "content-security-policy") (codes "; ") content_security_policy)
        conf.content_security_policy_rules in
    let custom = merge_rules (λ confs. custom_of confs []) conf.custom_rules in
    Merge.extend strict_match merged (policies ∷ custom ∷ []) >>= λ merger.
    Merge.merge strict_match combine merger

-- `request_filter`: what it sets the headers of the response to, if anything.
unfoldable pub request_filter : Router (List Header) → Bytes → Bytes → Option (List Header)
request_filter router host path = Routes.lookup router host path >>= λ list. some list.value

-- `response_header_filter`: `insert` is the response's `insert_header`.
unfoldable pub response_header_filter :
    {R : Type 0} → (Bytes → Bytes → R → R) → Option (List Header) → R → R
response_header_filter insert none response = response
response_header_filter insert (some []) response = response
response_header_filter insert (some ((name, value) ∷ list)) response =
    response_header_filter insert (some list) (insert name value response)
