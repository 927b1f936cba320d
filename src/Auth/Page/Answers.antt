-- ===== src/Auth/Page/Answers.antt =====
-- Which requests the page answers, and whether it lets the others go on.
use mathlib.Core.Path.{subst}
use pandora_web_server.Base.{
  ◌≡◌, ◌≢◌, refl, sym, ap, ◌∙◌, ◌⊎◌, inl, inr, Bool, true, false, Bool-cases, Option-cases, Option,
  none, some, Bytes, [], codes, bytes_eq_iff,
}
use pandora_web_server.Auth.Login.{
  AuthConf, Limiter, Bcrypt, dummy_hash, is_rate_limited, validate_login, verified,
}
use pandora_web_server.Auth.Basic.Grants.{verified-credentials}
use pandora_web_server.Auth.Page.{
  pos, AuthRequest, Services, AuthPageSession, Request, Outcome, granted, login_page_of, sent,
  internal_error, read_body, media_type, login_response,
}
use pandora_web_server.Auth.Page.Json.{login_response_json}
use pandora_web_server.Auth.Page.Handler.{is_json, logged_in, answer_login, log_in}
use pandora_web_server.Auth.Page.Grants.{AnyOf, HasSession}

-- Whether the result is `Unhandled`: the request goes on to the handlers behind this one.
abbrev pub passes : {U : Type 0} → Outcome U → Bool
passes (granted user) = true
passes (login_page_of page method) = true
passes (sent user response) = false
passes (internal_error user) = false

-- The address that the handler has put in place of the request's own.
abbrev pub new_uri : {U : Type 0} → Outcome U → Option U
new_uri (granted user) = none
new_uri (login_page_of page method) = some page
new_uri (sent user response) = none
new_uri (internal_error user) = none

module _ (services : Services) {R : Type 0} (limiter : Limiter R) (bcrypt : Bcrypt) {U : Type 0}
    (conf : AuthConf) (session : AuthPageSession U) (request : Request) where
  -- The request sends the form.
  pub record SendsForm (form : AuthRequest) : Type 0 where
    pub body : Bytes
    pub posted : request.method ≡ codes "POST"
    pub media : media_type services request.content_type ≡ codes "application/x-www-form-urlencoded"
    pub read : read_body [] request.body ≡ some body
    pub parsed : services.parse_form body ≡ some form

  -- The form's credentials are configured, and the password is right.
  abbrev pub IsRight : AuthRequest → Type 0
  IsRight form =
      (expected : Bytes) × (conf.auth_credentials form.username ≡ some expected)
      × (bcrypt.verify form.password expected ≡ some true)

  -- The request sends a form that is answered without a page to log in: a rate limit is exceeded,
  -- the credentials are right, or the form asks for an answer as JSON.
  abbrev pub IsAnswered : R → Type 0
  IsAnswered counts =
      (form : AuthRequest) × SendsForm form
      × (((is_rate_limited limiter conf.auth_rate_limits form.username request.ip counts).0 ≡ true)
          ⊎ (IsRight form ⊎ (form.request_type ≡ some (codes "json"))))

  -- A cookie of the request is the session's, with a token that is signed with the secret and has
  -- not expired.
  abbrev pub HasCookie : Bytes → Type 0
  HasCookie secret =
      (user : Bytes) × AnyOf (HasSession services secret session user) request.cookies

  -- How `login_response` ends.
  abbrev pub AsksFor : Outcome U → Type 0
  AsksFor o =
      (failure : Bool) × (suggestion : Option Bytes) × (o
        ≡ login_response services session request failure suggestion)

  -- The request does not go on.
  abbrev pub Stops : Outcome U → Type 0
  Stops o = (passes o ≡ false) × (new_uri o ≡ none)

  is_json_sound : (o : Option Bytes) → is_json o ≡ true → o ≡ some (codes "json")
  is_json_sound none e = absurd (cc e)
  is_json_sound (some text) e = ap some ((bytes_eq_iff text (codes "json")).0 e)

  logged_in-Stops :
      (secret : Bytes) (form : AuthRequest)
      → Stops (logged_in services limiter bcrypt conf session request secret form)
  unfolding logged_in login_response_json
  logged_in-Stops secret form =
      elim (Option-cases
        (services.sign secret (record { sub = form.username; iat = pos services.now }))) [
          | inl e ↦ (rw (e, logged_in) refl, rw (e, logged_in) refl)
          | inr (token, e) ↦ elim (Bool-cases (is_json form.request_type)) [
            | inl f ↦ (rw (e, f, logged_in) refl, rw (e, f, logged_in) refl)
            | inr f ↦ (rw (e, f, logged_in) refl, rw (e, f, logged_in) refl)
          ]
        ]

  answer_login-Stops :
      (secret : Bytes) (form : AuthRequest) (answer : Bool × Option Bytes)
      → (answer.0 ≡ true) ⊎ (is_json form.request_type ≡ true)
      → Stops (answer_login services limiter bcrypt conf session request secret form answer)
  unfolding answer_login login_response_json
  answer_login-Stops secret form (true, suggestion) why = logged_in-Stops secret form
  answer_login-Stops secret form (false, suggestion) (inl bad) = absurd (cc bad)
  answer_login-Stops secret form (false, suggestion) (inr json) =
      (rw (json, answer_login) refl, rw (json, answer_login) refl)

  answer_login-AsksFor :
      (secret : Bytes) (form : AuthRequest) (answer : Bool × Option Bytes)
      → answer.0 ≡ false
      → is_json form.request_type ≡ false
      → AsksFor (answer_login services limiter bcrypt conf session request secret form answer)
  unfolding answer_login
  answer_login-AsksFor secret form (true, suggestion) invalid other = absurd (cc invalid)
  answer_login-AsksFor secret form (false, suggestion) invalid other =
      (true, suggestion, rw (other, answer_login) refl)

  -- A handler's end agrees with whether the request is answered.
  abbrev pub Agrees : R → Outcome U → Type 0
  Agrees counts o = (IsAnswered counts × Stops o) ⊎ ((¬ IsAnswered counts) × AsksFor o)

  -- The form that is sent is the one whose answer is no other than the page to log in.
  not-IsAnswered :
      (form : AuthRequest) (counts : R)
      → SendsForm form
      → (is_rate_limited limiter conf.auth_rate_limits form.username request.ip counts).0 ≡ false
      → verified bcrypt form.password (conf.auth_credentials form.username) ≡ false
      → is_json form.request_type ≡ false
      → ¬ IsAnswered counts
  not-IsAnswered form counts sends free invalid other (form', sent', why) =
      let read : some sends.body ≡ some sent'.body = sym sends.read ∙ sent'.read in
      let same_body : sends.body ≡ sent'.body = cc read in
      let parsed : some form ≡ some form' =
        sym sends.parsed ∙ ap services.parse_form same_body ∙ sent'.parsed in
      let same : form ≡ form' = cc parsed in contradiction same why
    where
      contradiction :
          form ≡ form'
          → ((is_rate_limited limiter conf.auth_rate_limits form'.username request.ip counts).0
              ≡ true)
            ⊎ (IsRight form' ⊎ (form'.request_type ≡ some (codes "json")))
          → ⊥
      contradiction same (inl limited) =
          let free' =
            subst
              (λ f.
                (is_rate_limited limiter conf.auth_rate_limits f.username request.ip counts).0
                ≡ false)
              same free in
          cc (free', limited)
      contradiction same (inr (inl (expected, known, right))) =
          let invalid' =
            subst (λ f. verified bcrypt f.password (conf.auth_credentials f.username) ≡ false) same
              invalid in
          let bad : true ≡ false = rw (known, right) at invalid' in cc bad
      contradiction same (inr (inr json)) =
          let other' = subst (λ f. is_json f.request_type ≡ false) same other in
          let bad : true ≡ false = rw json at other' in cc bad

  pub log_in-Agrees :
      (secret : Bytes) (form : AuthRequest) (counts : R)
      → bcrypt.verify [] dummy_hash ≢ some true
      → SendsForm form
      → Agrees counts (log_in services limiter bcrypt conf session request secret form counts).0
  unfolding log_in validate_login
  log_in-Agrees secret form counts dummy sends =
      elim (Bool-cases
        (is_rate_limited limiter conf.auth_rate_limits form.username request.ip counts).0) [
          | inl limited ↦
              inl
                ((form, sends, inl limited), (rw (limited, log_in) refl, rw (limited, log_in) refl))
          | inr free ↦
              let answer = validate_login bcrypt conf form.username form.password in
              elim (Bool-cases
                (verified bcrypt form.password (conf.auth_credentials form.username))) [
                  | inl valid ↦ inl (
                    (
                      form,
                      sends,
                      inr (
                          inl (
                            verified-credentials bcrypt conf form.username form.password dummy
                              valid)),
                    ),
                    rw (free, log_in) (answer_login-Stops secret form answer (inl valid)),
                  )
                  | inr invalid ↦ elim (Bool-cases (is_json form.request_type)) [
                    | inl json ↦ inl (
                      (form, sends, inr (inr (is_json_sound form.request_type json))),
                      rw (free, log_in) (answer_login-Stops secret form answer (inr json)),
                    )
                    | inr other ↦ inr (
                      not-IsAnswered form counts sends free invalid other,
                      rw (free, log_in) (answer_login-AsksFor secret form answer invalid other),
                    )
                  ]
                ]
        ]
