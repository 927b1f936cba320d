-- ===== src/Auth/Page/Tests.antt =====
-- Sessions and logins by the page on concrete inputs, and the theorems at such inputs.
use pandora_web_server.Base.{
  ℕ, suc, ◌≡◌, ◌≢◌, refl, ◌↔◌, ◌⊎◌, true, false, none, some, Bytes, [], ◌∷◌, ◌++◌, codes, bytes_eq,
  if◌then◌else◌,
}
use pandora_web_server.StandardResponse.{
  to_string, digits, response, error_response, redirect_response_with_cookie,
}
use pandora_web_server.Auth.Login.{
  AuthConf, Limiter, Bcrypt, dummy_hash, exceeds, is_rate_limited, validate_login,
}
use pandora_web_server.Auth.Page.{
  pos, Services, AuthPageSession, Request, granted, login_page_of, internal_error, sent, chunk,
  is_current, user_of_pair, user_of_pairs, user_of_cookies, read_body, login_response,
}
use pandora_web_server.Auth.Page.Json.{
  json_text, escape_default, escape_char, hex_digits, unescape_apostrophes, login_response_json,
}
use pandora_web_server.Auth.Page.Handler.{
  cookie_text, logged_in, answer_login, log_in, log_in_with, without_cookie, page_auth,
}
use pandora_web_server.Auth.Page.Grants.{AnyOf, HasSession}
use pandora_web_server.Auth.Page.Logins.{remote_user, IsLogin}
use pandora_web_server.Auth.Page.Answers.{passes, new_uri, IsAnswered, HasCookie}
use pandora_web_server.Auth.Page.Passes.{page_auth-passes}
use pandora_web_server.Auth.Page.RemoteUser.{page_auth-remote_user}

abbrev limiter : Limiter ℕ
limiter = record { observe = λ key count. (suc count, suc count) }

abbrev bcrypt : Bcrypt
bcrypt = record {
  verify = λ password expected. some (bytes_eq (codes "hash:" ++ password) expected);
  hash = λ password. some (codes "hash:" ++ password);
}

abbrev conf : AuthConf
conf = record {
  auth_display_hash = false;
  auth_credentials =
      λ user. if bytes_eq user (codes "me") then some (codes "hash:secret") else none;
  auth_rate_limits = record { total = 16; per_ip = 4; per_user = 4 };
}

-- Tokens are a single letter, which stands for a user and a time.
abbrev services : Services
services = record {
  verify = λ secret token.
      if bytes_eq token (codes "t")
      then some (record { sub = codes "me"; iat = pos 100 })
      else none;
  sign = λ secret claim. some (codes "t");
  parse_form =
      λ body. some (record { username = codes "me"; password = body; request_type = none });
  to_str = λ text. some text;
  page = λ status. codes "page";
  login_page = λ failure suggestion. codes "login";
  now = 150;
}

abbrev session : AuthPageSession Bytes
session = record {
  login_page = none;
  token_secret = some (codes "key");
  cookie_name = codes "token";
  secure_cookie = none;
  session_expiration = 100;
}

abbrev with_cookie : Request
with_cookie = record {
  method = codes "GET";
  cookies = codes "a=b; token=t" ∷ [];
  content_type = none;
  body = [];
  ip = codes "127.0.0.1";
  is_ssl = true;
  path_and_query = some (codes "/dir");
}

abbrev with_form : Request
with_form = record with_cookie {
  method = codes "POST";
  cookies = codes "token=expired" ∷ [];
  content_type = some (codes "application/x-www-form-urlencoded; charset=utf-8");
  body = chunk (codes "sec") ∷ chunk (codes "ret") ∷ [];
}

page : Unit {0}
unfolding page_auth without_cookie log_in_with log_in answer_login logged_in cookie_text
    login_response login_response_json json_text escape_default escape_char hex_digits
    unescape_apostrophes user_of_cookies user_of_pairs user_of_pair is_current read_body
    is_rate_limited exceeds validate_login error_response redirect_response_with_cookie response
    to_string digits
page = tt

page_tests :
    (page_auth services limiter bcrypt conf session with_cookie 0 ≡ (granted (codes "me"), 0))
    × ((page_auth services limiter bcrypt conf session with_form 0).0
        ≡ sent (some (codes "me")) (record {
          status = 302;
          headers =
              (codes "Content-Length", codes "4")
              ∷ (codes "Content-Type", codes "text/html;charset=utf-8")
              ∷ (codes "Location", codes "/dir")
              ∷ (codes "Set-Cookie", codes "token=t; Max-Age=100; HttpOnly; Secure")
              ∷ [];
          body = some (codes "page");
        }))
unfolding page
page_tests = (refl, refl)

-- The escapes of other characters than those of ASCII are not those of JSON.
json_test :
    json_text false (some (codes "it's " ++ (252 ∷ [])))
    ≡ codes "{\"success\":false,\"suggestion\":\"it's \\u{fc}\"}"
unfolding page
json_test = refl

no_dummy : bcrypt.verify [] dummy_hash ≢ some true
no_dummy e = cc e

abbrev session_with_page : AuthPageSession Bytes
session_with_page = record session { login_page = some (codes "/login.html") }

-- A wrong password, and a form that is not sent as one.
login_page_tests :
    ((page_auth services limiter bcrypt conf session_with_page
        (record with_form { body = chunk (codes "wrong") ∷ [] })
        0).0
      ≡ login_page_of (codes "/login.html") (codes "GET"))
    × ((page_auth services limiter bcrypt conf session_with_page
          (record with_form { method = codes "HEAD" })
          0).0
        ≡ login_page_of (codes "/login.html") (codes "HEAD"))
unfolding page
login_page_tests = (refl, refl)

page_auth-passes_example :
    ((passes (page_auth services limiter bcrypt conf session_with_page with_form 0).0 ≡ true) ↔ (
      (secret : Bytes) × (session_with_page.token_secret ≡ some secret)
      × (HasCookie services limiter bcrypt conf session_with_page with_form secret
          ⊎ ((page : Bytes) × (session_with_page.login_page ≡ some page)
              × (¬ IsAnswered services limiter bcrypt conf session_with_page with_form 0)))))
    × ((page : Bytes)
        → (new_uri (page_auth services limiter bcrypt conf session_with_page with_form 0).0
            ≡ some page)
          ↔ ((secret : Bytes) × (session_with_page.token_secret ≡ some secret)
              × (¬ HasCookie services limiter bcrypt conf session_with_page with_form secret)
              × (session_with_page.login_page ≡ some page)
              × (¬ IsAnswered services limiter bcrypt conf session_with_page with_form 0)))
page_auth-passes_example =
    page_auth-passes services limiter bcrypt conf session_with_page with_form 0 no_dummy

-- The remote user stays set if the token cannot be signed.
signing_fails :
    (page_auth
      (record services { sign = λ secret claim. none })
      limiter
      bcrypt
      conf
      session
      with_form
      0).0
    ≡ internal_error (some (codes "me"))
unfolding page
signing_fails = refl

logged_in_user :
    remote_user (page_auth services limiter bcrypt conf session with_form 0).0 ≡ some (codes "me")
unfolding page
logged_in_user = refl

page_auth-remote_user_example :
    ((secret : Bytes) × (session.token_secret ≡ some secret)
      × AnyOf (HasSession services secret session (codes "me")) with_form.cookies)
    ⊎ IsLogin services limiter bcrypt conf session with_form 0 (codes "me")
page_auth-remote_user_example =
    page_auth-remote_user services limiter bcrypt conf session with_form 0 (codes "me") no_dummy
      logged_in_user
