-- ===== src/Auth/Login.antt =====
-- auth-module/src/common.rs: the rate limits of logins and the test of the credentials.
use pandora_web_server.Base.{
  ℕ, Bool, false, not, ◌&&◌, ◌||◌, Option, none, some, Bytes, [], ◌∷◌, ◌++◌, codes, is_empty, ltb,
  ◌==◌, if◌then◌else◌,
}

pub record AuthRateLimits : Type 0 where
  pub total : ℕ
  pub per_ip : ℕ
  pub per_user : ℕ

-- What the limiter counts: `()`, a user name or an IP address.
pub data Observed : Type 0 where
  any_login : Observed
  by_user : Bytes → Observed
  by_ip : Bytes → Observed

-- The crate's `Rate` with the state `R`: `observe` counts one event and returns the count.
pub record Limiter (R : Type 0) : Type 0 where
  pub observe : Observed → R → ℕ × R

module _ {R : Type 0} (limiter : Limiter R) where
  -- `limit > 0 && rate_limiter.observe(&key, 1) > limit`: without a limit nothing is observed.
  unfoldable pub exceeds : ℕ → Observed → R → Bool × R
  exceeds limit key counts =
      let (count, counts') = limiter.observe key counts in
      if limit == 0 then (false, counts) else (ltb limit count, counts')

  -- `is_rate_limited` for a limiter that could be locked. `ip` is the client's address, or
  -- `255.255.255.255`. Every limit counts, also if another one is exceeded already.
  unfoldable pub is_rate_limited : AuthRateLimits → Bytes → Bytes → R → Bool × R
  unfolding exceeds
  is_rate_limited limits user ip counts =
      let (total, counts₁) = exceeds limits.total any_login counts in
      let (per_user, counts₂) = exceeds limits.per_user (by_user user) counts₁ in
      let (per_ip, counts₃) = exceeds limits.per_ip (by_ip ip) counts₂ in
      if limits.total == 0 && limits.per_user == 0 && limits.per_ip == 0
      then (false, counts)
      else (total || per_user || per_ip, counts₃)

-- The crate bcrypt: `none` is an error.
pub record Bcrypt : Type 0 where
  pub verify : Bytes → Bytes → Option Bool
  pub hash : Bytes → Option Bytes

pub record AuthConf : Type 0 where
  pub auth_display_hash : Bool
  pub auth_credentials : Bytes → Option Bytes
  pub auth_rate_limits : AuthRateLimits

abbrev pub dummy_hash : Bytes
dummy_hash = codes "$2y$12$/GSb/xs3Ss/Jq0zv5qBZWeH3oz8RzEi.PuOhPJ8qiP6yCc2dtDbnK"

module _ (bcrypt : Bcrypt) where
  abbrev pub unwrap_or_false : Option Bool → Bool
  unwrap_or_false none = false
  unwrap_or_false (some valid) = valid

  abbrev pub verified : Bytes → Option Bytes → Bool
  verified password none = unwrap_or_false (bcrypt.verify [] dummy_hash)
  verified password (some expected) = unwrap_or_false (bcrypt.verify password expected)

  -- `format!("auth_credentials:\n    \"{user}\": {hash}")`; 10 is the line feed, 34 the quote.
  abbrev suggestion : Bytes → Option Bytes → Option Bytes
  suggestion user none = none
  suggestion user (some hashed) = some (
      codes "auth_credentials:"
      ++ (10 ∷ [])
      ++ codes "    "
      ++ (34 ∷ user)
      ++ (34 ∷ codes ": ")
      ++ hashed)

  -- `validate_login`.
  unfoldable pub validate_login : AuthConf → Bytes → Bytes → Bool × Option Bytes
  validate_login conf user password =
      let valid = verified password (conf.auth_credentials user) in
      let suggested = suggestion user (bcrypt.hash password) in
      (
        valid,
        if not valid && conf.auth_display_hash && not (is_empty password) then suggested else none,
      )
