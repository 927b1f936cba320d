-- ===== src/Rewrite/Handler.antt =====
-- rewrite-module/src/handler.rs: `RewriteHandler`, and the rules of configuration.rs.
pub mod Order
pub mod Tried
use pandora_web_server.Base.{
  ℕ, Bool, true, false, not, ◌&&◌, Option, none, some, Bytes, List, [], ◌∷◌, ◌++◌, codes, reverse,
  sort, or, strip_prefix, Eq, if◌then◌else◌, ◌>>=◌,
}
use pandora_web_server.StandardResponse.{Response, redirect_response}
use pandora_web_server.Router.Path.{remove_prefix_from}
use pandora_web_server.Router.Routes.{Router}
use pandora_web_server.Router.Routes
use pandora_web_server.Merger.Matcher.{PathMatcher, path_le, path_match}
use pandora_web_server.Merger.Table.{Merger}
use pandora_web_server.Merger.Table
use pandora_web_server.Merger.Merge
use pandora_web_server.Rewrite.Interpolation.{Variable, Part, tail, query, header, interpolate}

pub data RewriteType : Type 0 where
  internal : RewriteType
  redirect : RewriteType
  permanent : RewriteType

-- `RegexMatch`: `regex` is the crate regex's test of a compiled expression.
pub record RegexMatch : Type 0 where
  pub regex : Bytes → Bool
  pub negate : Bool

-- `RegexMatch::try_from`: `new_regex` compiles an expression, or fails.
unfoldable pub regex_match_of : (Bytes → Option (Bytes → Bool)) → Bytes → Option RegexMatch
regex_match_of new_regex value = elim (strip_prefix (codes "!") value) [
  | none ↦ new_regex value >>= λ regex. some (record { regex = regex; negate = false })
  | some text ↦ new_regex text >>= λ regex. some (record { regex = regex; negate = true })
]

-- `RegexMatch::matches`.
unfoldable pub regex_matches : RegexMatch → Bytes → Bool
regex_matches m value = if m.negate then not (m.regex value) else m.regex value

pub record Rule (H : Type 0) : Type 0 where
  pub from_regex : Option RegexMatch
  pub query_regex : Option RegexMatch
  pub to : List (Part H)
  pub rewrite_type : RewriteType

pub record RewriteRule (H : Type 0) : Type 0 where
  pub from : PathMatcher
  pub rule : Rule H

-- What the handler reads of the session, and the conversions of the crate http and of the
-- standard library: `none` is an error.
pub record Request (H U : Type 0) : Type 0 where
  pub path : Bytes
  pub query_string : Option Bytes
  pub header_value : H → Option Bytes
  pub parse_uri : Bytes → Option U
  pub from_utf8 : Bytes → Option Bytes

-- How the handler ends.
pub data Outcome (U : Type 0) : Type 0 where
  -- `Unhandled`, with the address of the request unchanged
  unhandled : Outcome U
  -- `Unhandled`, with a new address
  uri_set : U → Outcome U
  -- a redirect was sent, with a status and a location
  redirected : ℕ → Bytes → Outcome U

module _ {H : Type 0} where
  -- The reversal and the stable sort of `try_from`.
  unfoldable pub ordered : List (RewriteRule H) → List (RewriteRule H)
  ordered rules = sort (λ a b. path_le a.from b.from) (reverse rules)

  -- The loop of `try_from`.
  unfoldable pub push_rules :
      List (RewriteRule H)
      → Merger PathMatcher Unit (Bytes × Rule H)
      → Merger PathMatcher Unit (Bytes × Rule H)
  push_rules [] merger = merger
  push_rules (r ∷ rules) merger =
      push_rules rules (Table.push path_match merger r.from (r.from.path, r.rule))

  -- `RewriteHandler::try_from`; `none` is a panic of the router.
  unfoldable pub try_from :
      ⦃e : Eq (List (Bytes × Rule H))⦄
      → List (RewriteRule H)
      → Option (Router (List (Bytes × Rule H)))
  unfolding ordered push_rules
  try_from rules = Merge.merge path_match (λ list. list) (push_rules (ordered rules) [])

unfoldable pub condition : Option RegexMatch → Bytes → Bool
unfolding regex_matches
condition none value = true
condition (some m) value = regex_matches m value

abbrev pub unwrap_or_empty : Option Bytes → Bytes
unwrap_or_empty none = []
unwrap_or_empty (some text) = text

module _ {H U : Type 0} (request : Request H U) where
  -- The two tests before the rule is applied.
  unfoldable pub applies : Rule H → Bool
  unfolding condition
  applies rule =
      condition rule.from_regex request.path
      && condition rule.query_regex (unwrap_or_empty request.query_string)

  abbrev tail_of : Option Bytes → Bytes
  tail_of none = request.path
  tail_of (some rest) = rest

  abbrev with_question_mark : Option Bytes → Bytes
  with_question_mark none = []
  with_question_mark (some text) = 63 ∷ text

  -- The closure that `interpolate` calls; 63 is the question mark.
  unfoldable pub expand : Bytes → Variable H → Bytes
  expand rule_path tail = tail_of (remove_prefix_from rule_path request.path)
  expand rule_path query = with_question_mark request.query_string
  expand rule_path (header name) = unwrap_or_empty (request.header_value name)

  abbrev redirected_to : ℕ → Option Bytes → Outcome U
  redirected_to status none = unhandled
  redirected_to status (some location) = redirected status location

  abbrev set_uri : Option U → Outcome U
  set_uri none = unhandled
  set_uri (some uri) = uri_set uri

  -- The part of the loop's body behind the two tests.
  abbrev apply_type : RewriteType → Bytes → Outcome U
  apply_type internal target = set_uri (request.parse_uri target)
  apply_type redirect target = redirected_to 307 (request.from_utf8 target)
  apply_type permanent target = redirected_to 308 (request.from_utf8 target)

  unfoldable pub apply : Bytes × Rule H → Outcome U
  unfolding expand
  apply (rule_path, rule) = apply_type rule.rewrite_type (interpolate (expand rule_path) rule.to)

  -- The loop over the rules.
  unfoldable pub apply_rules : List (Bytes × Rule H) → Outcome U
  unfolding apply applies
  apply_rules [] = unhandled
  apply_rules (r ∷ rules) =
      let further = apply_rules rules in if applies r.1 then apply r else further

  -- `request_filter`: the rules of a path are in reverse order of precedence.
  unfoldable pub request_filter : Router (List (Bytes × Rule H)) → Outcome U
  unfolding apply_rules
  request_filter router = elim (Routes.lookup router [] request.path) [
    | none ↦ unhandled
    | some found ↦ apply_rules (reverse found.value)
  ]
