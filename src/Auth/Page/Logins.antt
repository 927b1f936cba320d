-- ===== src/Auth/Page/Logins.antt =====
-- What a request without a valid cookie gets, and for whom a login sets the remote user.
use pandora_web_server.Base.{
  ◌≡◌, ◌≢◌, refl, ◌⊎◌, inl, inr, Bool, true, false, Bool-cases, Option-cases, Option, none, some,
  Bytes, [], codes, bytes_eq, bytes_eq_iff,
}
use pandora_web_server.Auth.Login.{
  AuthConf, Limiter, Bcrypt, dummy_hash, is_rate_limited, validate_login, verified,
}
use pandora_web_server.Auth.Basic.Grants.{verified-credentials}
use pandora_web_server.Auth.Page.{
  pos, AuthRequest, Services, AuthPageSession, Request, Outcome, granted, login_page_of, sent,
  internal_error, read_body, media_type, login_response,
}
use pandora_web_server.Auth.Page.Json.{login_response_json}
use pandora_web_server.Auth.Page.Handler.{
  is_json, logged_in, answer_login, log_in, log_in_with, without_cookie,
}

-- The remote user of the session when the handler ends.
abbrev pub remote_user : {U : Type 0} → Outcome U → Option Bytes
remote_user (granted user) = some user
remote_user (login_page_of page method) = none
remote_user (sent user response) = user
remote_user (internal_error user) = user

module _ (services : Services) {R : Type 0} (limiter : Limiter R) (bcrypt : Bcrypt) {U : Type 0}
    (conf : AuthConf) (session : AuthPageSession U) (request : Request) where
  -- The request sends a form with credentials that are configured, and no rate limit is exceeded.
  pub record IsLogin (counts : R) (user : Bytes) : Type 0 where
    pub form : AuthRequest
    pub body : Bytes
    pub expected : Bytes
    pub posted : request.method ≡ codes "POST"
    pub media : media_type services request.content_type ≡ codes "application/x-www-form-urlencoded"
    pub read : read_body [] request.body ≡ some body
    pub parsed : services.parse_form body ≡ some form
    pub free : (is_rate_limited limiter conf.auth_rate_limits user request.ip counts).0 ≡ false
    pub named : form.username ≡ user
    pub known : conf.auth_credentials user ≡ some expected
    pub right : bcrypt.verify form.password expected ≡ some true

  -- No remote user is set.
  abbrev pub Refuses : Outcome U → Type 0
  Refuses o = remote_user o ≡ none

  -- The remote user is set.
  abbrev pub Sets : Bytes → Outcome U → Type 0
  Sets user o = remote_user o ≡ some user

  login_response-Refuses :
      (failure : Bool) (suggestion : Option Bytes)
      → Refuses (login_response services session request failure suggestion)
  unfolding login_response
  login_response-Refuses failure suggestion = elim (Option-cases session.login_page) [
    | inl e ↦ rw (e, login_response) refl
    | inr (page, e) ↦ rw (e, login_response) refl
  ]

  logged_in-Sets :
      (secret : Bytes) (form : AuthRequest)
      → Sets form.username (logged_in services limiter bcrypt conf session request secret form)
  unfolding logged_in login_response_json
  logged_in-Sets secret form =
      elim (Option-cases
        (services.sign secret (record { sub = form.username; iat = pos services.now }))) [
          | inl e ↦ rw (e, logged_in) refl
          | inr (token, e) ↦ elim (Bool-cases (is_json form.request_type)) [
            | inl f ↦ rw (e, f, logged_in) refl
            | inr f ↦ rw (e, f, logged_in) refl
          ]
        ]

  answer_login-Refuses :
      (secret : Bytes) (form : AuthRequest) (suggestion : Option Bytes)
      → Refuses (
          answer_login services limiter bcrypt conf session request secret form (false, suggestion))
  unfolding answer_login login_response_json
  answer_login-Refuses secret form suggestion = elim (Bool-cases (is_json form.request_type)) [
    | inl f ↦ rw (f, answer_login) refl
    | inr f ↦ rw (f, answer_login) (login_response-Refuses true suggestion)
  ]

  answer_login-Sets :
      (secret : Bytes) (form : AuthRequest) (answer : Bool × Option Bytes)
      → answer.0 ≡ true
      → Sets form.username
          (answer_login services limiter bcrypt conf session request secret form answer)
  unfolding answer_login
  answer_login-Sets secret form (true, suggestion) h = logged_in-Sets secret form
  answer_login-Sets secret form (false, suggestion) h = absurd (cc h)

  log_in-Sets :
      (secret : Bytes) (form : AuthRequest) (counts : R)
      → Refuses (log_in services limiter bcrypt conf session request secret form counts).0
        ⊎ (Sets form.username
              (log_in services limiter bcrypt conf session request secret form counts).0
            × ((is_rate_limited limiter conf.auth_rate_limits form.username request.ip counts).0
                ≡ false)
            × (verified bcrypt form.password (conf.auth_credentials form.username) ≡ true))
  unfolding log_in validate_login
  log_in-Sets secret form counts =
      elim (Bool-cases
        (is_rate_limited limiter conf.auth_rate_limits form.username request.ip counts).0) [
          | inl limited ↦ inl (rw (limited, log_in) refl)
          | inr free ↦
              elim (Bool-cases
                (verified bcrypt form.password (conf.auth_credentials form.username))) [
                  | inl valid ↦ inr (
                    rw (free, log_in)
                        (answer_login-Sets secret form
                          (validate_login bcrypt conf form.username form.password) valid),
                    free,
                    valid,
                  )
                  | inr invalid ↦ inl (
                      rw (free, log_in)
                        (refused (validate_login bcrypt conf form.username form.password) invalid))
                ]
        ]
    where
      refused :
          (answer : Bool × Option Bytes)
          → answer.0 ≡ false
          → Refuses (answer_login services limiter bcrypt conf session request secret form answer)
      refused (true, suggestion) h = absurd (cc h)
      refused (false, suggestion) h = answer_login-Refuses secret form suggestion

  log_in_with-Sets :
      (secret : Bytes) (counts : R)
      → bcrypt.verify [] dummy_hash ≢ some true
      → request.method ≡ codes "POST"
      → media_type services request.content_type ≡ codes "application/x-www-form-urlencoded"
      → Refuses (log_in_with services limiter bcrypt conf session request secret counts).0
        ⊎ ((user : Bytes) × Sets user
              (log_in_with services limiter bcrypt conf session request secret counts).0
            × IsLogin counts user)
  unfolding log_in_with
  log_in_with-Sets secret counts dummy posted media =
      elim (Option-cases (read_body [] request.body)) [
        | inl e ↦ inl (rw (e, log_in_with) (login_response-Refuses false none))
        | inr (body, e) ↦ elim (Option-cases (services.parse_form body)) [
          | inl f ↦ inl (rw (e, f, log_in_with) (login_response-Refuses false none))
          | inr (form, f) ↦ elim (log_in-Sets secret form counts) [
            | inl refused ↦ inl (rw (e, f, log_in_with) refused)
            | inr (sets, free, valid) ↦
                let (expected, known, right) =
                  verified-credentials bcrypt conf form.username form.password dummy valid in
                inr (
                  form.username,
                  rw (e, f, log_in_with) sets,
                  record {
                    form = form;
                    body = body;
                    expected = expected;
                    posted = posted;
                    media = media;
                    read = e;
                    parsed = f;
                    free = free;
                    named = refl;
                    known = known;
                    right = right;
                  },
                )
          ]
        ]
      ]

  pub without_cookie-Sets :
      (secret : Bytes) (counts : R)
      → bcrypt.verify [] dummy_hash ≢ some true
      → Refuses (without_cookie services limiter bcrypt conf session request secret counts).0
        ⊎ ((user : Bytes) × Sets user
              (without_cookie services limiter bcrypt conf session request secret counts).0
            × IsLogin counts user)
  unfolding without_cookie
  without_cookie-Sets secret counts dummy =
      elim (Bool-cases (bytes_eq request.method (codes "POST"))) [
        | inr e ↦ inl (rw (e, without_cookie) (login_response-Refuses false none))
        | inl e ↦
            elim (Bool-cases (
              bytes_eq (media_type services request.content_type)
                (codes "application/x-www-form-urlencoded"))) [
                  | inr f ↦ inl (rw (e, f, without_cookie) (login_response-Refuses false none))
                  | inl f ↦
                      rw (e, f, without_cookie)
                        (log_in_with-Sets secret counts dummy ((bytes_eq_iff _ _).0 e)
                          ((bytes_eq_iff _ _).0 f))
                ]
      ]
