-- ===== src/Auth/Page/Handler.antt =====
-- auth-module/src/page.rs: `page_auth`, with the login that a form asks for.
use pandora_web_server.Base.{
  ℕ, Bool, true, false, Option, none, some, Bytes, [], ◌++◌, codes, bytes_eq, not, if◌then◌else◌,
}
use pandora_web_server.StandardResponse.{to_string, error_response, redirect_response_with_cookie}
use pandora_web_server.Auth.Login.{AuthConf, Limiter, Bcrypt, is_rate_limited, validate_login}
use pandora_web_server.Auth.Page.{
  pos, AuthRequest, Services, AuthPageSession, Request, Outcome, granted, sent, internal_error,
  user_of_cookies, read_body, media_type, is_head, login_response,
}
use pandora_web_server.Auth.Page.Json.{login_response_json}

abbrev pub is_json : Option Bytes → Bool
is_json none = false
is_json (some text) = bytes_eq text (codes "json")

abbrev or_ssl : Option Bool → Bool → Bool
or_ssl none is_ssl = is_ssl
or_ssl (some secure) is_ssl = secure

abbrev or_slash : Option Bytes → Bytes
or_slash none = codes "/"
or_slash (some path) = path

-- The cookie with the token.
unfoldable pub cookie_text : Bytes → Bytes → ℕ → Bool → Bytes
unfolding to_string
cookie_text name token expiration secure =
    name
    ++ codes "="
    ++ token
    ++ codes "; Max-Age="
    ++ to_string expiration
    ++ codes "; HttpOnly"
    ++ (if secure then codes "; Secure" else [])

module _ (services : Services) {R : Type 0} (limiter : Limiter R) (bcrypt : Bcrypt) {U : Type 0}
    (conf : AuthConf) (session : AuthPageSession U) (request : Request) where
  -- What follows a valid login. The remote user is set before the token is signed.
  unfoldable pub logged_in : Bytes → AuthRequest → Outcome U
  unfolding cookie_text login_response_json redirect_response_with_cookie
  logged_in secret form =
      elim (services.sign secret (record { sub = form.username; iat = pos services.now })) [
        | none ↦ internal_error (some form.username)
        | some token ↦
            let cookie =
              cookie_text session.cookie_name token session.session_expiration
                (or_ssl session.secure_cookie request.is_ssl) in
            if is_json form.request_type
            then login_response_json request (some form.username) none (some cookie)
            else sent (some form.username) (
                redirect_response_with_cookie services.page (is_head request) 302
                  (or_slash request.path_and_query) cookie)
      ]

  unfoldable pub answer_login : Bytes → AuthRequest → Bool × Option Bytes → Outcome U
  unfolding logged_in login_response_json login_response
  answer_login secret form (true, suggestion) = logged_in secret form
  answer_login secret form (false, suggestion) =
      if is_json form.request_type
      then login_response_json request none suggestion none
      else login_response services session request true suggestion

  -- The rate limits and the test of the credentials of a form.
  unfoldable pub log_in : Bytes → AuthRequest → R → Outcome U × R
  unfolding is_rate_limited validate_login answer_login error_response
  log_in secret form counts =
      let (limited, counts') =
        is_rate_limited limiter conf.auth_rate_limits form.username request.ip counts in
      (
        if limited
            then sent none (error_response services.page (is_head request) 429)
            else answer_login secret form (validate_login bcrypt conf form.username form.password),
        counts',
      )

  -- The body of a request that has the form's media type.
  unfoldable pub log_in_with : Bytes → R → Outcome U × R
  unfolding read_body log_in login_response
  log_in_with secret counts = elim (read_body [] request.body) [
    | none ↦ (login_response services session request false none, counts)
    | some bytes ↦ elim (services.parse_form bytes) [
      | none ↦ (login_response services session request false none, counts)
      | some form ↦ log_in secret form counts
    ]
  ]

  unfoldable pub without_cookie : Bytes → R → Outcome U × R
  unfolding log_in_with login_response
  without_cookie secret counts =
      let refused : Outcome U × R = (login_response services session request false none, counts) in
      if not (bytes_eq request.method (codes "POST"))
      then refused
      else (if not (
            bytes_eq (media_type services request.content_type)
              (codes "application/x-www-form-urlencoded"))
          then refused
          else log_in_with secret counts)

  -- `page_auth`.
  unfoldable pub page_auth : R → Outcome U × R
  unfolding user_of_cookies without_cookie
  page_auth counts = elim session.token_secret [
    | none ↦ (internal_error none, counts)
    | some secret ↦ elim (user_of_cookies services secret session request.cookies) [
      | some user ↦ (granted user, counts)
      | none ↦ without_cookie secret counts
    ]
  ]
