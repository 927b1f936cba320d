-- ===== src/Auth/Mode.antt =====
-- auth-module/src/lib.rs: the handler, which asks for a login in one of two ways, and
-- auth-module/src/basic.rs: the response that asks for one by HTTP Basic authentication.
use mathlib.Core.Path.{subst}
use pandora_web_server.Base.{
  ◌≡◌, refl, Bool, not, Option, none, some, ◌>>=◌, Bytes, [], ◌∷◌, ◌++◌, codes, length,
  if◌then◌else◌, arith,
}
use pandora_web_server.StandardResponse.{Response, to_string, body_of}
use pandora_web_server.Auth.Page.{AuthPageSession}

-- `unauthorized_response`: `page` is the page that the macro `html!` renders, and `is_head` is
-- whether the request's method is HEAD.
unfoldable pub unauthorized_response :
    (Option Bytes → Bytes) → Bool → Bytes → Option Bytes → Response
unfolding to_string
unauthorized_response page is_head realm suggestion =
    let text = page suggestion in
    record {
      status = 401;
      headers =
          (codes "Content-Length", to_string (length text))
          ∷ (codes "Content-Type", codes "text/html;charset=utf-8")
          ∷ (codes "WWW-Authenticate", codes "Basic realm=\"" ++ realm ++ codes "\"")
          ∷ [];
      body = body_of (not is_head) text;
    }

pub data AuthMode : Type 0 where
  http : AuthMode
  page : AuthMode

-- The settings that `try_from` and `request_filter` read.
pub record ModeConf (U : Type 0) : Type 0 where
  pub auth_mode : AuthMode
  pub auth_page_session : AuthPageSession U
  pub no_credentials : Bool

-- `AuthHandler::try_from`: `getrandom` is the 16 bytes of the library getrandom; `none` is an error.
unfoldable pub with_secret :
    {U : Type 0} → Option Bytes → ModeConf U → AuthMode → Option Bytes → Option (ModeConf U)
with_secret getrandom conf page none = do
  token ← getrandom
  some (record conf {
    auth_page_session = record conf.auth_page_session { token_secret = some token };
  })
with_secret getrandom conf http secret = some conf
with_secret getrandom conf page (some secret) = some conf

unfoldable pub try_from : {U : Type 0} → Option Bytes → ModeConf U → Option (ModeConf U)
unfolding with_secret
try_from getrandom conf =
    with_secret getrandom conf conf.auth_mode conf.auth_page_session.token_secret

abbrev chosen : {O : Type 0} → AuthMode → O → O → O
chosen http basic_auth page_auth = basic_auth
chosen page basic_auth page_auth = page_auth

-- `request_filter`: `unhandled`, `basic_auth` and `page_auth` are what these outcomes are on the
-- request.
unfoldable pub request_filter : {U O : Type 0} → O → O → O → ModeConf U → O
request_filter unhandled basic_auth page_auth conf =
    if conf.no_credentials then unhandled else chosen conf.auth_mode basic_auth page_auth

-- If the mode is the login page and a handler can be made of a configuration, then the handler has
-- a secret to sign its tokens with, and that of the configuration if there is one.
pub try_from-token_secret :
    {U : Type 0} (getrandom : Option Bytes) (conf handler : ModeConf U)
    → conf.auth_mode ≡ page
    → try_from getrandom conf ≡ some handler
    → (secret : Bytes) × (handler.auth_page_session.token_secret ≡ some secret)
      × ((own : Bytes) → conf.auth_page_session.token_secret ≡ some own → secret ≡ own)
unfolding try_from with_secret
try_from-token_secret {U} getrandom conf handler mode e =
    go conf.auth_mode conf.auth_page_session.token_secret getrandom mode refl e
  where
    go :
        (m : AuthMode) (s g : Option Bytes)
        → m ≡ page
        → conf.auth_page_session.token_secret ≡ s
        → with_secret g conf m s ≡ some handler
        → (secret : Bytes) × (handler.auth_page_session.token_secret ≡ some secret)
          × ((own : Bytes) → conf.auth_page_session.token_secret ≡ some own → secret ≡ own)
    go http s g bad same h = absurd (ground (arith, bad))
    go page none none m same h = absurd (ground (arith, h))
    go page none (some token) m same h =
        (token, ground (arith, h), λ own e. absurd (ground (arith, same, e)))
    go page (some secret) g m same h = (
      secret,
      (let k : conf ≡ handler = ground (arith, h) in
          subst (λ c. c.auth_page_session.token_secret ≡ some secret) k same),
      λ own e. ground (arith, same, e),
    )
