-- ===== src/Auth/Basic.antt =====
-- auth-module/src/basic.rs: `basic_auth`, HTTP Basic authentication.
pub mod Grants
use pandora_web_server.Base.{
  ℕ, Bool, true, false, not, ◌&&◌, ◌||◌, Option, none, some, Bytes, List, [], ◌∷◌, ◌++◌, codes,
  split_once, bytes_eq, ◌==◌, if◌then◌else◌,
}
use pandora_web_server.Auth.Login.{AuthConf, Limiter, Bcrypt, is_rate_limited, validate_login}

-- The functions of the standard library and of the crates http and base64 on which this rests.
-- `none` is an error.
pub record Decoders : Type 0 where
  pub to_str : Bytes → Option Bytes
  pub base64 : Bytes → Option Bytes
  pub from_utf8 : Bytes → Option Bytes

-- How the handler ends.
pub data Outcome : Type 0 where
  -- `Unhandled`, with the remote user set: the request goes on
  granted : Bytes → Outcome
  -- the 401 response was sent, with the suggestion if there is one
  unauthorized : Option Bytes → Outcome
  -- the 429 response was sent
  too_many_requests : Outcome

abbrev pub unwrap_or_default : Option Bytes → Bytes
unwrap_or_default none = []
unwrap_or_default (some text) = text

-- The credentials before and behind the first colon, which is 58.
abbrev pub user_and_password : Decoders → Bytes → Bytes × Bytes
user_and_password decoders credentials = elim (split_once 58 credentials) [
  | none ↦ ([], [])
  | some (user, password) ↦ (unwrap_or_default (decoders.from_utf8 user), password)
]

-- `auth.split_once(' ').unwrap_or(("", ""))`, if the header can be converted to a string.
abbrev pub scheme_of : Option Bytes → Bytes × Bytes
scheme_of none = ([], [])
scheme_of (some auth) = elim (split_once 32 auth) [ none ↦ ([], []) | some parts ↦ parts ]

module _ {R : Type 0} (limiter : Limiter R) (bcrypt : Bcrypt) (decoders : Decoders) where
  -- The outcome of a login with a user name and a password.
  abbrev pub login_outcome : Bytes → Bool × Option Bytes → Outcome
  login_outcome user (true, suggestion) = granted user
  login_outcome user (false, suggestion) = unauthorized suggestion

  abbrev pub log_in : AuthConf → Bytes → Bytes × Bytes → R → Outcome × R
  unfolding is_rate_limited validate_login
  log_in conf ip (user, password) counts =
      let (limited, counts') = is_rate_limited limiter conf.auth_rate_limits user ip counts in
      (
        if limited
            then too_many_requests
            else login_outcome user (validate_login bcrypt conf user password),
        counts',
      )

  -- `basic_auth`: `auth` is the Authorization header. A header that cannot be converted is treated
  -- as a header with an unsupported scheme: both send the same response.
  unfoldable pub basic_auth : AuthConf → Bytes → Option Bytes → R → Outcome × R
  unfolding is_rate_limited validate_login
  basic_auth conf ip none counts = (unauthorized none, counts)
  basic_auth conf ip (some auth) counts =
      let (scheme, credentials) = scheme_of (decoders.to_str auth) in
      let answer : Outcome × R = elim (decoders.base64 credentials) [
        | none ↦ (unauthorized none, counts)
        | some decoded ↦ log_in conf ip (user_and_password decoders decoded) counts
      ] in
      if bytes_eq scheme (codes "Basic") then answer else (unauthorized none, counts)
