-- ===== src/Auth/Page/Passes.antt =====
-- Which requests the page lets go on, and with which address.
use mathlib.Core.Path.{subst}
use pandora_web_server.Base.{◌↔◌, ◌≡◌, ◌≢◌, sym, ◌∙◌, ◌⊎◌, inl, inr, true, some, Bytes, []}
use pandora_web_server.Auth.Login.{AuthConf, Limiter, Bcrypt, dummy_hash}
use pandora_web_server.Auth.Page.{Services, AuthPageSession, Request, Outcome}
use pandora_web_server.Auth.Page.Handler.{page_auth}
use pandora_web_server.Auth.Page.Answers.{passes, new_uri, IsAnswered, HasCookie}
use pandora_web_server.Auth.Page.Ends.{
  Ends, no_secret, by_cookie, answered, no_page, shows, page_auth-Ends,
}

module _ (services : Services) {R : Type 0} (limiter : Limiter R) (bcrypt : Bcrypt) {U : Type 0}
    (conf : AuthConf) (session : AuthPageSession U) (request : Request) where
  same_secret :
      (secret secret' : Bytes)
      → session.token_secret ≡ some secret
      → session.token_secret ≡ some secret'
      → HasCookie services limiter bcrypt conf session request secret'
      → HasCookie services limiter bcrypt conf session request secret
  same_secret secret secret' e e' =
      let both : some secret' ≡ some secret = sym e' ∙ e in
      let same : secret' ≡ secret = cc both in
      subst (HasCookie services limiter bcrypt conf session request) same

  passes-Ends :
      (counts : R) (o : Outcome U)
      → Ends services limiter bcrypt conf session request counts o
      → (passes o ≡ true) ↔ (
          (secret : Bytes) × (session.token_secret ≡ some secret)
          × (HasCookie services limiter bcrypt conf session request secret
              ⊎ ((page : U) × (session.login_page ≡ some page)
                  × (¬ IsAnswered services limiter bcrypt conf session request counts))))
  passes-Ends counts o (no_secret e (stops, _)) =
      ((λ h. absurd (cc (h, stops))), (λ (secret, e', _). absurd (cc (e, e'))))
  passes-Ends counts o (by_cookie secret e cookie h _) = ((λ _. (secret, e, inl cookie)), (λ _. h))
  passes-Ends counts o (answered own secret e lacks (stops, _)) =
      ((λ h. absurd (cc (h, stops))), backward)
    where
      backward :
          ((secret : Bytes) × (session.token_secret ≡ some secret)
            × (HasCookie services limiter bcrypt conf session request secret
                ⊎ ((page : U) × (session.login_page ≡ some page)
                    × (¬ IsAnswered services limiter bcrypt conf session request counts))))
          → passes o ≡ true
      backward (secret', e', inl cookie) = absurd (lacks (same_secret secret secret' e e' cookie))
      backward (secret', e', inr (page, _, unanswered)) = absurd (unanswered own)
  passes-Ends counts o (no_page f secret e lacks (stops, _)) =
      ((λ h. absurd (cc (h, stops))), backward)
    where
      backward :
          ((secret : Bytes) × (session.token_secret ≡ some secret)
            × (HasCookie services limiter bcrypt conf session request secret
                ⊎ ((page : U) × (session.login_page ≡ some page)
                    × (¬ IsAnswered services limiter bcrypt conf session request counts))))
          → passes o ≡ true
      backward (secret', e', inl cookie) = absurd (lacks (same_secret secret secret' e e' cookie))
      backward (secret', e', inr (page, f', _)) = absurd (cc (f, f'))
  passes-Ends counts o (shows secret page e lacks unanswered f h _) =
      ((λ _. (secret, e, inr (page, f, unanswered))), (λ _. h))

  new_uri-Ends :
      (counts : R) (o : Outcome U)
      → Ends services limiter bcrypt conf session request counts o
      → (page : U)
      → (new_uri o ≡ some page) ↔ (
          (secret : Bytes) × (session.token_secret ≡ some secret)
          × (¬ HasCookie services limiter bcrypt conf session request secret)
          × (session.login_page ≡ some page)
          × (¬ IsAnswered services limiter bcrypt conf session request counts))
  new_uri-Ends counts o (no_secret e (_, stays)) page =
      ((λ h. absurd (cc (h, stays))), (λ (_, e', _, _, _). absurd (cc (e, e'))))
  new_uri-Ends counts o (by_cookie secret e cookie _ stays) page = (
    (λ h. absurd (cc (h, stays))),
    (λ (secret', e', lacks, _, _). absurd (lacks (same_secret secret' secret e' e cookie))),
  )
  new_uri-Ends counts o (answered own secret e lacks (_, stays)) page =
      ((λ h. absurd (cc (h, stays))), (λ (_, _, _, _, unanswered). absurd (unanswered own)))
  new_uri-Ends counts o (no_page f secret e lacks (_, stays)) page =
      ((λ h. absurd (cc (h, stays))), (λ (_, _, _, f', _). absurd (cc (f, f'))))
  new_uri-Ends counts o (shows secret page' e lacks unanswered f _ set) page = (
    (λ h.
        let both : some page' ≡ some page = sym set ∙ h in
        (secret, e, lacks, f ∙ both, unanswered)),
    (λ (_, _, _, f', _). set ∙ sym f ∙ f'),
  )

  -- If bcrypt does not accept the empty password for the hash that stands in for those of unknown
  -- users, then `page_auth` lets a request go on exactly if there is a secret and either one of the
  -- request's cookies is the session's, with a token that is signed with the secret and has not
  -- expired, or a login page is configured and the request is not answered, that is, it does not
  -- send a form that is over a rate limit, has the right password or asks for JSON. The address of
  -- the request is changed to a page exactly if there is a secret and no such cookie, the page is
  -- the configured login page, and the request is not answered.
  pub page_auth-passes :
      (counts : R)
      → bcrypt.verify [] dummy_hash ≢ some true
      → ((passes (page_auth services limiter bcrypt conf session request counts).0 ≡ true) ↔ (
          (secret : Bytes) × (session.token_secret ≡ some secret)
          × (HasCookie services limiter bcrypt conf session request secret
              ⊎ ((page : U) × (session.login_page ≡ some page)
                  × (¬ IsAnswered services limiter bcrypt conf session request counts)))))
        × ((page : U)
            → (new_uri (page_auth services limiter bcrypt conf session request counts).0
                ≡ some page)
              ↔ ((secret : Bytes) × (session.token_secret ≡ some secret)
                  × (¬ HasCookie services limiter bcrypt conf session request secret)
                  × (session.login_page ≡ some page)
                  × (¬ IsAnswered services limiter bcrypt conf session request counts)))
  page_auth-passes counts dummy =
      let ends = page_auth-Ends services limiter bcrypt conf session request counts dummy in
      (passes-Ends counts _ ends, new_uri-Ends counts _ ends)
