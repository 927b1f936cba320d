-- ===== src/Auth/Page.antt =====
-- auth-module/src/page.rs: `page_auth`, logins by a page and sessions by a signed cookie.
pub mod Json
pub mod Handler
pub mod Grants
pub mod Logins
pub mod Answers
pub mod Ends
pub mod Passes
pub mod RemoteUser
mod Tests
use pandora_web_server.Base.{
  ℕ, ◌+◌, Bool, true, false, not, ◌&&◌, Option, none, some, is_some, Bytes, List, [], ◌∷◌, ◌++◌,
  codes, split, split_once, trim, length, bytes_eq, leb, ltb, if◌then◌else◌,
}
use pandora_web_server.StandardResponse.{
  Response, to_string, append_if_some, body_of, error_response, redirect_response_with_cookie,
}
use pandora_web_server.Auth.Login.{AuthConf, Limiter, Bcrypt, is_rate_limited, validate_login}
use pandora_web_server.Auth.Basic.{unwrap_or_default}

pub record AuthRequest : Type 0 where
  pub username : Bytes
  pub password : Bytes
  pub request_type : Option Bytes

pub data ℤ : Type 0 where
  pos : ℕ → ℤ
  negsuc : ℕ → ℤ

-- The time of issue, `iat`, is in seconds since the Unix epoch.
pub record JwtClaim : Type 0 where
  pub sub : Bytes
  pub iat : ℤ

-- The crates hmac, jwt, serde_urlencoded and maud, the conversion of headers to text, and the
-- time in seconds since the Unix epoch. `none` is an error. `verify` and `sign` have the secret
-- as first argument; `login_page` has the failure and the suggestion.
pub record Services : Type 0 where
  pub verify : Bytes → Bytes → Option JwtClaim
  pub sign : Bytes → JwtClaim → Option Bytes
  pub parse_form : Bytes → Option AuthRequest
  pub to_str : Bytes → Option Bytes
  pub page : ℕ → Bytes
  pub login_page : Bool → Option Bytes → Bytes
  pub now : ℕ

pub record AuthPageSession (U : Type 0) : Type 0 where
  pub login_page : Option U
  pub token_secret : Option Bytes
  pub cookie_name : Bytes
  pub secure_cookie : Option Bool
  pub session_expiration : ℕ

-- A result of `read_request_body` before the end of the body.
pub data BodyRead : Type 0 where
  chunk : Bytes → BodyRead
  failed : BodyRead

-- What the handler reads of the session.
pub record Request : Type 0 where
  pub method : Bytes
  pub cookies : List Bytes
  pub content_type : Option Bytes
  pub body : List BodyRead
  pub ip : Bytes
  pub is_ssl : Bool
  pub path_and_query : Option Bytes

-- How the handler ends.
pub data Outcome (U : Type 0) : Type 0 where
  -- `Unhandled`, with the remote user set: the request goes on
  granted : Bytes → Outcome U
  -- `Unhandled`, with the address and the method changed: the page of the configuration is shown
  login_page_of : U → Bytes → Outcome U
  -- the response was sent; the remote user was set if there is one
  sent : Option Bytes → Response → Outcome U
  -- an error; the remote user was set if there is one
  internal_error : Option Bytes → Outcome U

-- The token is valid from its time of issue on until it expires. `negsuc n` is `-(n + 1)`.
unfoldable pub is_current : ℕ → ℕ → ℤ → Bool
is_current now expiration (pos iat) = leb iat now && ltb now (iat + expiration)
is_current now expiration (negsuc n) = ltb (now + n + 1) expiration

module _ (services : Services) (secret : Bytes) {U : Type 0} (session : AuthPageSession U) where
  abbrev current_user : Option JwtClaim → Option Bytes
  unfolding is_current
  current_user none = none
  current_user (some claim) =
      if is_current services.now session.session_expiration claim.iat then some claim.sub else none

  -- The body of the loop over the parts of a Cookie header, which 59 separates; 61 is `=`.
  unfoldable pub user_of_pair : Bytes → Option Bytes
  unfolding current_user
  user_of_pair pair = elim (split_once 61 pair) [
    | none ↦ none
    | some (name, value) ↦
        if bytes_eq (trim name) session.cookie_name
        then current_user (services.verify secret (trim value))
        else none
  ]

  unfoldable pub user_of_pairs : List Bytes → Option Bytes
  unfolding user_of_pair
  user_of_pairs [] = none
  user_of_pairs (pair ∷ pairs) =
      let later = user_of_pairs pairs in
      elim (user_of_pair pair) [ none ↦ later | some user ↦ some user ]

  -- The loop over the Cookie headers.
  unfoldable pub user_of_cookies : List Bytes → Option Bytes
  unfolding user_of_pairs
  user_of_cookies [] = none
  user_of_cookies (value ∷ values) =
      let later = user_of_cookies values in
      elim (user_of_pairs (split 59 (unwrap_or_default (services.to_str value)))) [
        | none ↦ later
        | some user ↦ some user
      ]

abbrev max_body_size : ℕ
max_body_size = 4096

-- The loop that reads the body. The size is tested before a chunk is added.
unfoldable pub read_body : Bytes → List BodyRead → Option Bytes
read_body bytes [] = some bytes
read_body bytes (failed ∷ reads) = none
read_body bytes (chunk more_bytes ∷ reads) =
    let more = read_body (bytes ++ more_bytes) reads in
    if leb max_body_size (length bytes) then none else more

-- The media type: what is before the first semicolon, which is 59.
abbrev pub media_type : Services → Option Bytes → Bytes
media_type services none = []
media_type services (some value) = elim (services.to_str value) [
  | none ↦ []
  | some text ↦ elim (split_once 59 text) [ none ↦ trim text | some (before, _) ↦ trim before ]
]

abbrev pub is_head : Request → Bool
is_head request = bytes_eq request.method (codes "HEAD")

module _ (services : Services) {U : Type 0} (session : AuthPageSession U) (request : Request) where
  -- `login_response`.
  unfoldable pub login_response : Bool → Option Bytes → Outcome U
  unfolding to_string
  login_response login_failure suggestion = elim session.login_page [
    | some page ↦ login_page_of page (if is_head request then request.method else codes "GET")
    | none ↦
        let text = services.login_page login_failure suggestion in
        sent none (record {
          status = 200;
          headers =
              (codes "Content-Length", to_string (length text))
              ∷ (codes "Content-Type", codes "text/html;charset=utf-8")
              ∷ (codes "Cache-Control", codes "no-store")
              ∷ [];
          body = body_of (not (is_head request)) text;
        })
  ]
