-- ===== src/Auth/Basic/Grants.antt =====
-- Which requests `basic_auth` lets through.
use pandora_web_server.Base.{
  ◌≡◌, ◌≢◌, refl, sym, ap, ◌∙◌, ◌↔◌, inl, inr, Bool, true, false, Bool-cases, Option, none, some,
  Option-cases, Bytes, [], codes, bytes_eq, bytes_eq_iff, arith,
}
use pandora_web_server.Auth.Login.{
  AuthConf, Limiter, Bcrypt, is_rate_limited, validate_login, verified, unwrap_or_false, dummy_hash,
}
use pandora_web_server.Auth.Basic.{
  Decoders, granted, unauthorized, too_many_requests, scheme_of, user_and_password, log_in,
  login_outcome, basic_auth,
}

pair-eq : (p : Bytes × Bytes) {a b : Bytes} → p.0 ≡ a → p.1 ≡ b → p ≡ (a, b)
pair-eq (x, y) {a} {b} e f = ap (λ x'. (x', y)) e ∙ ap (λ y'. (a, y')) f

module _ (bcrypt : Bcrypt) (conf : AuthConf) where
  pub verified-credentials :
      (user password : Bytes)
      → bcrypt.verify [] dummy_hash ≢ some true
      → verified bcrypt password (conf.auth_credentials user) ≡ true
      → (expected : Bytes) × (conf.auth_credentials user ≡ some expected)
        × (bcrypt.verify password expected ≡ some true)
  verified-credentials user password dummy h = go (conf.auth_credentials user) refl h
    where
      unwrap : (o : Option Bool) → unwrap_or_false bcrypt o ≡ true → o ≡ some true
      unwrap none h = absurd (ground (arith, h))
      unwrap (some valid) h = ap some h

      go :
          (o : Option Bytes)
          → conf.auth_credentials user ≡ o
          → verified bcrypt password o ≡ true
          → (expected : Bytes) × (conf.auth_credentials user ≡ some expected)
            × (bcrypt.verify password expected ≡ some true)
      go none e h = absurd (dummy (unwrap _ h))
      go (some expected) e h = (expected, e, unwrap _ h)

module _ {R : Type 0} (limiter : Limiter R) (bcrypt : Bcrypt) (decoders : Decoders)
    (conf : AuthConf) (ip : Bytes) where
  -- The credentials name a user who is configured, with the right password.
  abbrev pub IsLogin : Bytes → Bytes → Type 0
  IsLogin decoded user =
      (password expected : Bytes) × (user_and_password decoders decoded ≡ (user, password))
      × (conf.auth_credentials user ≡ some expected)
      × (bcrypt.verify password expected ≡ some true)

  -- The header is one of Basic authentication with such credentials.
  abbrev pub Grants : Option Bytes → R → Bytes → Type 0
  Grants auth counts user =
      (header credentials decoded : Bytes) × (auth ≡ some header)
      × (scheme_of (decoders.to_str header) ≡ (codes "Basic", credentials))
      × (decoders.base64 credentials ≡ some decoded)
      × IsLogin decoded user
      × ((is_rate_limited limiter conf.auth_rate_limits user ip counts).0 ≡ false)

  log_in-granted :
      (user : Bytes) (login : Bytes × Bytes) (counts : R)
      → bcrypt.verify [] dummy_hash ≢ some true
      → (log_in limiter bcrypt decoders conf ip login counts).0 ≡ granted user
      → (login.0 ≡ user)
        × (verified bcrypt (login.1) (conf.auth_credentials (login.0)) ≡ true)
        × ((is_rate_limited limiter conf.auth_rate_limits (login.0) ip counts).0 ≡ false)
  unfolding log_in validate_login
  log_in-granted user (name, password) counts dummy h =
      elim (Bool-cases (is_rate_limited limiter conf.auth_rate_limits name ip counts).0) [
        | inl limited ↦
            (let bad : too_many_requests ≡ granted user = rw limited at h in absurd (cc bad))
        | inr free ↦ elim (Bool-cases (verified bcrypt password (conf.auth_credentials name))) [
          | inl valid ↦
              (let same : granted name ≡ granted user = rw (free, valid) at h in
                (cc same, valid, free))
          | inr invalid ↦
              absurd (refused (validate_login bcrypt conf name password) invalid (rw free at h))
        ]
      ]
    where
      refused :
          (answer : Bool × Option Bytes)
          → answer.0 ≡ false
          → login_outcome limiter bcrypt decoders name answer ≡ granted user
          → ⊥
      refused (true, suggestion) invalid h = absurd (ground (arith, invalid))
      refused (false, suggestion) invalid h = cc h

  -- If bcrypt does not accept the empty password for the hash that stands in for those of unknown
  -- users, then `basic_auth` lets a request through as a user exactly if its header is one of
  -- Basic authentication, with credentials that name that user, who is configured, and a password
  -- that bcrypt accepts for the user's hash, and no rate limit is exceeded.
  pub basic_auth-Grants :
      (auth : Option Bytes) (counts : R) (user : Bytes)
      → bcrypt.verify [] dummy_hash ≢ some true
      → ((basic_auth limiter bcrypt decoders conf ip auth counts).0 ≡ granted user)
        ↔ Grants auth counts user
  unfolding basic_auth log_in validate_login
  basic_auth-Grants none counts user dummy = (
    (λ h. absurd (cc h)),
    (λ h. absurd (let (header, credentials, decoded, e, f, g, login, free) = h in cc e)),
  )
  basic_auth-Grants (some header) counts user dummy = (forward, backward)
    where
      forward :
          (basic_auth limiter bcrypt decoders conf ip (some header) counts).0 ≡ granted user
          → Grants (some header) counts user
      forward h =
          elim (Bool-cases (bytes_eq (scheme_of (decoders.to_str header)).0 (codes "Basic"))) [
            | inr other ↦
                (let bad : unauthorized none ≡ granted user = rw other at h in absurd (cc bad))
            | inl basic ↦
                elim (Option-cases (decoders.base64 (scheme_of (decoders.to_str header)).1)) [
                  | inl invalid ↦
                      (let bad : unauthorized none ≡ granted user = rw (basic, invalid) at h in
                        absurd (cc bad))
                  | inr (decoded, g) ↦
                      let (named, valid, free) =
                        log_in-granted user (user_and_password decoders decoded) counts dummy
                          (rw (basic, g) at h) in
                      let (expected, j, k) = verified-credentials bcrypt conf _ _ dummy valid in
                      (
                        header,
                        (scheme_of (decoders.to_str header)).1,
                        decoded,
                        refl,
                        pair-eq (scheme_of (decoders.to_str header))
                            ((bytes_eq_iff (scheme_of (decoders.to_str header)).0 (codes "Basic")).0
                              basic)
                            refl,
                        g,
                        (
                          (user_and_password decoders decoded).1,
                          expected,
                          pair-eq (user_and_password decoders decoded) named refl,
                          ap conf.auth_credentials (sym named) ∙ j,
                          k,
                        ),
                        ap (λ u. (is_rate_limited limiter conf.auth_rate_limits u ip counts).0)
                              (sym named)
                            ∙ free,
                      )
                ]
          ]

      backward :
          Grants (some header) counts user
          → (basic_auth limiter bcrypt decoders conf ip (some header) counts).0 ≡ granted user
      backward (header', credentials, decoded, e, f, g, (password, expected, i, j, k), free) =
          let e' : header ≡ header' = cc e in
          let scheme = ap (λ x. scheme_of (decoders.to_str x)) e' ∙ f in
          let basic : bytes_eq (scheme_of (decoders.to_str header)).0 (codes "Basic") ≡ true =
            (bytes_eq_iff (scheme_of (decoders.to_str header)).0 (codes "Basic")).1
              (ap (λ x. x.0) scheme) in
          let decodes : decoders.base64 (scheme_of (decoders.to_str header)).1 ≡ some decoded =
            ap (λ x. decoders.base64 x.1) scheme ∙ g in
          rw (basic, decodes, i) (rw free (rw (j, k) refl))
