-- ===== src/Auth/Tests.antt =====
-- HTTP Basic authentication on concrete inputs, and the theorems at such inputs.
use pandora_web_server.Base.{
  ℕ, suc, ◌≡◌, ◌≢◌, refl, ◌↔◌, true, none, some, [], codes, bytes_eq, ◌++◌, if◌then◌else◌,
}
use pandora_web_server.Auth.Login.{
  AuthConf, Limiter, Bcrypt, dummy_hash, exceeds, is_rate_limited, validate_login,
}
use pandora_web_server.Auth.Basic.{Decoders, granted, unauthorized, too_many_requests, basic_auth}
use pandora_web_server.Auth.Basic.Grants.{Grants, basic_auth-Grants}

-- A limiter that counts everything together.
abbrev limiter : Limiter ℕ
limiter = record { observe = λ key count. (suc count, suc count) }

-- Hashes that are the password, marked.
abbrev bcrypt : Bcrypt
bcrypt = record {
  verify = λ password expected. some (bytes_eq (codes "hash:" ++ password) expected);
  hash = λ password. some (codes "hash:" ++ password);
}

abbrev decoders : Decoders
decoders = record {
  to_str = λ text. some text;
  base64 = λ text. some text;
  from_utf8 = λ text. some text;
}

abbrev conf : AuthConf
conf = record {
  auth_display_hash = true;
  auth_credentials =
      λ user. if bytes_eq user (codes "me") then some (codes "hash:secret") else none;
  auth_rate_limits = record { total = 16; per_ip = 4; per_user = 4 };
}

auth_tests :
    (basic_auth limiter bcrypt decoders conf [] (some (codes "Basic me:secret")) 0
      ≡ (granted (codes "me"), 3))
    × ((basic_auth limiter bcrypt decoders conf [] (some (codes "Basic you:")) 0).0
        ≡ unauthorized none)
    × ((basic_auth limiter bcrypt decoders conf [] (some (codes "Basic me:secret")) 5).0
        ≡ too_many_requests)
    × ((basic_auth limiter bcrypt decoders conf [] (some (codes "Bearer me:secret")) 0)
        ≡ (unauthorized none, 0))
unfolding basic_auth exceeds is_rate_limited validate_login
auth_tests = (refl, refl, refl, refl)

no_dummy : bcrypt.verify [] dummy_hash ≢ some true
no_dummy e = cc e

basic_auth-Grants_example :
    ((basic_auth limiter bcrypt decoders conf [] (some (codes "Basic me:secret")) 0).0
      ≡ granted (codes "me"))
    ↔ Grants limiter bcrypt decoders conf [] (some (codes "Basic me:secret")) 0 (codes "me")
basic_auth-Grants_example =
    basic_auth-Grants limiter bcrypt decoders conf [] (some (codes "Basic me:secret")) 0
      (codes "me") no_dummy
