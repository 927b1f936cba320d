-- ===== src/Auth/Page/Ends.antt =====
-- How the page ends, by what the request is.
use mathlib.Core.Path.{subst}
use pandora_web_server.Base.{
  ◌≡◌, ◌≢◌, refl, sym, ap, ◌∙◌, inl, inr, Bool, true, false, Bool-cases, Option-cases, Option, none,
  some, Bytes, [], codes, bytes_eq, bytes_eq_iff,
}
use pandora_web_server.Auth.Login.{AuthConf, Limiter, Bcrypt, dummy_hash}
use pandora_web_server.Auth.Page.{
  AuthRequest, Services, AuthPageSession, Request, Outcome, user_of_cookies, read_body, media_type,
  login_response,
}
use pandora_web_server.Auth.Page.Handler.{log_in_with, without_cookie, page_auth}
use pandora_web_server.Auth.Page.Grants.{user_of_cookies-HasSession, HasSession-user_of_cookies}
use pandora_web_server.Auth.Page.Answers.{
  passes, new_uri, SendsForm, IsAnswered, HasCookie, Stops, Agrees, log_in-Agrees,
}

module _ (services : Services) {R : Type 0} (limiter : Limiter R) (bcrypt : Bcrypt) {U : Type 0}
    (conf : AuthConf) (session : AuthPageSession U) (request : Request) where
  -- Whatever keeps the request from being one with a form.
  asked :
      (counts : R) (o : Outcome U)
      → ((form : AuthRequest) → SendsForm services limiter bcrypt conf session request form → ⊥)
      → o ≡ login_response services session request false none
      → Agrees services limiter bcrypt conf session request counts o
  asked counts o none_sent e = inr (λ (form, sends, why). none_sent form sends, (false, none, e))

  log_in_with-Agrees :
      (secret : Bytes) (counts : R)
      → bcrypt.verify [] dummy_hash ≢ some true
      → request.method ≡ codes "POST"
      → media_type services request.content_type ≡ codes "application/x-www-form-urlencoded"
      → Agrees services limiter bcrypt conf session request counts
          (log_in_with services limiter bcrypt conf session request secret counts).0
  unfolding log_in_with
  log_in_with-Agrees secret counts dummy posted media =
      elim (Option-cases (read_body [] request.body)) [
        | inl e ↦
            asked counts _ (λ form sends. let read = sends.read in cc (e, read))
              (rw (e, log_in_with) refl)
        | inr (body, e) ↦ elim (Option-cases (services.parse_form body)) [
          | inl f ↦
              asked counts _
                (λ form sends.
                  let read : some body ≡ some sends.body = sym e ∙ sends.read in
                  let same : body ≡ sends.body = cc read in
                  let bad : none ≡ some form = sym f ∙ ap services.parse_form same ∙ sends.parsed in
                  cc bad)
                (rw (e, f, log_in_with) refl)
          | inr (form, f) ↦
              rw (e, f, log_in_with)
                (log_in-Agrees services limiter bcrypt conf session request secret form counts dummy
                  (record { body = body; posted = posted; media = media; read = e; parsed = f }))
        ]
      ]

  without_cookie-Agrees :
      (secret : Bytes) (counts : R)
      → bcrypt.verify [] dummy_hash ≢ some true
      → Agrees services limiter bcrypt conf session request counts
          (without_cookie services limiter bcrypt conf session request secret counts).0
  unfolding without_cookie
  without_cookie-Agrees secret counts dummy =
      elim (Bool-cases (bytes_eq request.method (codes "POST"))) [
        | inr e ↦
            asked counts _
              (λ form sends.
                let posted = (bytes_eq_iff request.method (codes "POST")).1 sends.posted in
                cc (e, posted))
              (rw (e, without_cookie) refl)
        | inl e ↦
            let form_type = codes "application/x-www-form-urlencoded" in
            let own = media_type services request.content_type in
            elim (Bool-cases (bytes_eq own form_type)) [
              | inr f ↦
                  asked counts _
                    (λ form sends.
                      let media = (bytes_eq_iff own form_type).1 sends.media in cc (f, media))
                    (rw (e, f, without_cookie) refl)
              | inl f ↦
                  rw (e, f, without_cookie)
                    (log_in_with-Agrees secret counts dummy ((bytes_eq_iff _ _).0 e)
                      ((bytes_eq_iff _ _).0 f))
            ]
      ]

  pub data Ends (counts : R) (o : Outcome U) : Type 0 where
    no_secret :
        session.token_secret ≡ none
        → Stops services limiter bcrypt conf session request o
        → Ends counts o
    by_cookie :
        (secret : Bytes)
        → session.token_secret ≡ some secret
        → HasCookie services limiter bcrypt conf session request secret
        → passes o ≡ true
        → new_uri o ≡ none
        → Ends counts o
    answered :
        IsAnswered services limiter bcrypt conf session request counts
        → (secret : Bytes) → session.token_secret ≡ some secret
        → ¬ HasCookie services limiter bcrypt conf session request secret
        → Stops services limiter bcrypt conf session request o
        → Ends counts o
    no_page :
        session.login_page ≡ none
        → (secret : Bytes) → session.token_secret ≡ some secret
        → ¬ HasCookie services limiter bcrypt conf session request secret
        → Stops services limiter bcrypt conf session request o
        → Ends counts o
    shows :
        (secret : Bytes) (page : U)
        → session.token_secret ≡ some secret
        → ¬ HasCookie services limiter bcrypt conf session request secret
        → ¬ IsAnswered services limiter bcrypt conf session request counts
        → session.login_page ≡ some page
        → passes o ≡ true
        → new_uri o ≡ some page
        → Ends counts o

  login_response-Ends :
      (counts : R) (secret : Bytes)
      → session.token_secret ≡ some secret
      → ¬ HasCookie services limiter bcrypt conf session request secret
      → ¬ IsAnswered services limiter bcrypt conf session request counts
      → (failure : Bool) (suggestion : Option Bytes)
      → Ends counts (login_response services session request failure suggestion)
  unfolding login_response
  login_response-Ends counts secret e lacks unanswered failure suggestion =
      elim (Option-cases session.login_page) [
        | inl f ↦
            no_page f secret e lacks (rw (f, login_response) refl, rw (f, login_response) refl)
        | inr (page, f) ↦
            shows secret page e lacks unanswered f (rw (f, login_response) refl)
              (rw (f, login_response) refl)
      ]

  pub page_auth-Ends :
      (counts : R)
      → bcrypt.verify [] dummy_hash ≢ some true
      → Ends counts (page_auth services limiter bcrypt conf session request counts).0
  unfolding page_auth
  page_auth-Ends counts dummy = elim (Option-cases session.token_secret) [
    | inl e ↦ no_secret e (rw (e, page_auth) refl, rw (e, page_auth) refl)
    | inr (secret, e) ↦
        elim (Option-cases (user_of_cookies services secret session request.cookies)) [
          | inr (user, f) ↦
              by_cookie secret e
                (user, user_of_cookies-HasSession services secret session request.cookies user f)
                (rw (e, f, page_auth) refl) (rw (e, f, page_auth) refl)
          | inl f ↦
              let lacks : ¬ HasCookie services limiter bcrypt conf session request secret =
                (λ (user, s).
                  let (first, bad) =
                    HasSession-user_of_cookies services secret session request.cookies user s in
                  cc (f, bad)) in
              let same : (page_auth services limiter bcrypt conf session request counts).0
                  ≡ (without_cookie services limiter bcrypt conf session request secret counts).0 =
                rw (e, f, page_auth) refl in
              subst (Ends counts) (sym same) (elim (without_cookie-Agrees secret counts dummy) [
                | inl (own, stops) ↦ answered own secret e lacks stops
                | inr (unanswered, (failure, suggestion, asks)) ↦
                    subst (Ends counts) (sym asks)
                      (login_response-Ends counts secret e lacks unanswered failure suggestion)
              ])
        ]
  ]
