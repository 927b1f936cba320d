-- ===== src/Auth/Page/Grants.antt =====
-- Who gets through the page, and for whom the remote user is set.
use pandora_web_server.Base.{
  ◌≡◌, refl, ap, ◌∙◌, ◌⊎◌, inl, inr, true, Bool-cases, Option-cases, Option, none, some, Bytes,
  List, [], ◌∷◌, split, split_once, trim, bytes_eq, bytes_eq_iff,
}
use pandora_web_server.Auth.Basic.{unwrap_or_default}
use pandora_web_server.Auth.Page.{
  JwtClaim, Services, AuthPageSession, is_current, user_of_pair, user_of_pairs, user_of_cookies,
}

-- Some element of the list has the property.
abbrev pub AnyOf : {A : Type 0} → (A → Type 0) → List A → Type 0
AnyOf P [] = ⊥
AnyOf P (x ∷ l) = P x ⊎ AnyOf P l

module _ (services : Services) (secret : Bytes) {U : Type 0} (session : AuthPageSession U) where
  -- The part of a Cookie header is the session's cookie, with a valid token for the user that has
  -- not expired.
  pub record IsSession (user : Bytes) (pair : Bytes) : Type 0 where
    pub name : Bytes
    pub value : Bytes
    pub claim : JwtClaim
    pub parts : split_once 61 pair ≡ some (name, value)
    pub own : trim name ≡ session.cookie_name
    pub signed : services.verify secret (trim value) ≡ some claim
    pub current : is_current services.now session.session_expiration claim.iat ≡ true
    pub subject : claim.sub ≡ user

  -- Some part of the header is a session's cookie.
  abbrev pub HasSession : Bytes → Bytes → Type 0
  HasSession user value =
      AnyOf (IsSession user) (split 59 (unwrap_or_default (services.to_str value)))

  user_of_pair-IsSession :
      (pair user : Bytes)
      → user_of_pair services secret session pair ≡ some user
      → IsSession user pair
  unfolding user_of_pair
  user_of_pair-IsSession pair user h = elim (Option-cases (split_once 61 pair)) [
    | inl e ↦
        absurd
          (let bad : ◌≡◌ {A = Option Bytes} none (some user) = rw (e, user_of_pair) at h in cc bad)
    | inr ((name, value), e) ↦ elim (Bool-cases (bytes_eq (trim name) session.cookie_name)) [
      | inr f ↦ absurd (
          let bad : ◌≡◌ {A = Option Bytes} none (some user) = rw (e, f, user_of_pair) at h in
          cc bad)
      | inl f ↦ elim (Option-cases (services.verify secret (trim value))) [
        | inl g ↦ absurd (
            let bad : ◌≡◌ {A = Option Bytes} none (some user) = rw (e, f, g, user_of_pair) at h in
            cc bad)
        | inr (claim, g) ↦
            elim (Bool-cases (is_current services.now session.session_expiration claim.iat)) [
              | inr k ↦ absurd (
                  let bad : ◌≡◌ {A = Option Bytes} none (some user) =
                    rw (e, f, g, k, user_of_pair) at h in
                  cc bad)
              | inl k ↦
                  let same : some claim.sub ≡ some user = rw (e, f, g, k, user_of_pair) at h in
                  record {
                    name = name;
                    value = value;
                    claim = claim;
                    parts = e;
                    own = (bytes_eq_iff (trim name) session.cookie_name).0 f;
                    signed = g;
                    current = k;
                    subject = cc same;
                  }
            ]
      ]
    ]
  ]

  IsSession-user_of_pair :
      (pair user : Bytes)
      → IsSession user pair
      → user_of_pair services secret session pair ≡ some user
  unfolding user_of_pair
  IsSession-user_of_pair pair user s =
      rw
        (
          s.parts,
          (bytes_eq_iff (trim s.name) session.cookie_name).1 s.own,
          s.signed,
          s.current,
          user_of_pair,
        )
        (ap some s.subject)

  user_of_pairs-AnyOf :
      (pairs : List Bytes) (user : Bytes)
      → user_of_pairs services secret session pairs ≡ some user
      → AnyOf (IsSession user) pairs
  unfolding user_of_pairs
  user_of_pairs-AnyOf [] user h = absurd (cc h)
  user_of_pairs-AnyOf (pair ∷ pairs) user h =
      elim (Option-cases (user_of_pair services secret session pair)) [
        | inl e ↦ inr (user_of_pairs-AnyOf pairs user (rw (e, user_of_pairs) at h))
        | inr (own, e) ↦ inl (user_of_pair-IsSession pair user (e ∙ rw (e, user_of_pairs) at h))
      ]

  AnyOf-user_of_pairs :
      (pairs : List Bytes) (user : Bytes)
      → AnyOf (IsSession user) pairs
      → (first : Bytes) × (user_of_pairs services secret session pairs ≡ some first)
  unfolding user_of_pairs
  AnyOf-user_of_pairs [] user s = absurd s
  AnyOf-user_of_pairs (pair ∷ pairs) user s =
      elim (Option-cases (user_of_pair services secret session pair)) [
        | inr (own, e) ↦ (own, rw (e, user_of_pairs) refl)
        | inl e ↦ elim s [
          | inl now ↦ absurd (let bad = IsSession-user_of_pair pair user now in cc (e, bad))
          | inr later ↦
              let (first, f) = AnyOf-user_of_pairs pairs user later in
              (first, rw (e, user_of_pairs) f)
        ]
      ]

  pub user_of_cookies-HasSession :
      (values : List Bytes) (user : Bytes)
      → user_of_cookies services secret session values ≡ some user
      → AnyOf (HasSession user) values
  unfolding user_of_cookies
  user_of_cookies-HasSession [] user h = absurd (cc h)
  user_of_cookies-HasSession (value ∷ values) user h =
      elim (Option-cases (
        user_of_pairs services secret session
          (split 59 (unwrap_or_default (services.to_str value))))) [
            | inl e ↦ inr (user_of_cookies-HasSession values user (rw (e, user_of_cookies) at h))
            | inr (own, e) ↦ inl (user_of_pairs-AnyOf _ user (e ∙ rw (e, user_of_cookies) at h))
          ]

  pub HasSession-user_of_cookies :
      (values : List Bytes) (user : Bytes)
      → AnyOf (HasSession user) values
      → (first : Bytes) × (user_of_cookies services secret session values ≡ some first)
  unfolding user_of_cookies
  HasSession-user_of_cookies [] user s = absurd s
  HasSession-user_of_cookies (value ∷ values) user s =
      elim (Option-cases (
        user_of_pairs services secret session
          (split 59 (unwrap_or_default (services.to_str value))))) [
            | inr (own, e) ↦ (own, rw (e, user_of_cookies) refl)
            | inl e ↦ elim s [
              | inl now ↦ absurd (let (first, bad) = AnyOf-user_of_pairs _ user now in cc (e, bad))
              | inr later ↦
                  let (first, f) = HasSession-user_of_cookies values user later in
                  (first, rw (e, user_of_cookies) f)
            ]
          ]
