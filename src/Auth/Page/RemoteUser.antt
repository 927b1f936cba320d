-- ===== src/Auth/Page/RemoteUser.antt =====
-- For whom the page sets the remote user.
use mathlib.Core.Path.{subst}
use pandora_web_server.Base.{
  ◌≡◌, ◌≢◌, ◌∙◌, ◌⊎◌, inl, inr, true, Option-cases, Option, none, some, Bytes, [],
}
use pandora_web_server.Auth.Login.{AuthConf, Limiter, Bcrypt, dummy_hash}
use pandora_web_server.Auth.Page.{Services, AuthPageSession, Request, user_of_cookies}
use pandora_web_server.Auth.Page.Handler.{without_cookie, page_auth}
use pandora_web_server.Auth.Page.Grants.{AnyOf, HasSession, user_of_cookies-HasSession}
use pandora_web_server.Auth.Page.Logins.{remote_user, IsLogin, without_cookie-Sets}

module _ (services : Services) {R : Type 0} (limiter : Limiter R) (bcrypt : Bcrypt) {U : Type 0}
    (conf : AuthConf) (session : AuthPageSession U) (request : Request) where
  -- If bcrypt does not accept the empty password for the hash that stands in for those of unknown
  -- users, and `page_auth` sets the remote user, then one of the request's cookies is the
  -- session's, with a valid token for that user, or the request is a login as that user, with
  -- a password that bcrypt accepts for the user's hash and no rate limit exceeded.
  pub page_auth-remote_user :
      (counts : R) (user : Bytes)
      → bcrypt.verify [] dummy_hash ≢ some true
      → remote_user (page_auth services limiter bcrypt conf session request counts).0 ≡ some user
      → ((secret : Bytes) × (session.token_secret ≡ some secret)
          × AnyOf (HasSession services secret session user) request.cookies)
        ⊎ IsLogin services limiter bcrypt conf session request counts user
  unfolding page_auth
  page_auth-remote_user counts user dummy h = elim (Option-cases session.token_secret) [
    | inl e ↦
        absurd
          (let bad : ◌≡◌ {A = Option Bytes} none (some user) = rw (e, page_auth) at h in cc bad)
    | inr (secret, e) ↦
        elim (Option-cases (user_of_cookies services secret session request.cookies)) [
          | inr (first, f) ↦
              let same : some first ≡ some user = rw (e, f, page_auth) at h in
              inl (
                secret,
                e,
                user_of_cookies-HasSession services secret session request.cookies user (f ∙ same),
              )
          | inl f ↦
              let set : remote_user
                    (without_cookie services limiter bcrypt conf session request secret counts).0
                  ≡ some user =
                rw (e, f, page_auth) at h in
              elim (without_cookie-Sets services limiter bcrypt conf session request secret counts
                dummy) [
                  | inl refused ↦ absurd (cc (set, refused))
                  | inr (own, owned, login) ↦ inr (
                      subst (IsLogin services limiter bcrypt conf session request counts)
                        (cc (set, owned)) login)
                ]
        ]
  ]
