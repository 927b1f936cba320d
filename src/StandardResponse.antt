-- ===== src/StandardResponse.antt =====
-- pandora-module-utils/src/standard_response.rs: the standard pages and redirects.
use pandora_web_server.Base.{
  ℕ, zero, suc, ◌+◌, ◌/◌, ◌%◌, Bool, not, Option, none, some, Bytes, List, [], ◌∷◌, ◌++◌, codes,
  length, if◌then◌else◌, ltb,
}

-- `to_string` of a number: the digits before those that are written. There are fewer than `n + 1`.
unfoldable pub digits : ℕ → ℕ → Bytes → Bytes
digits zero n written = written
digits (suc fuel) n written =
    let more = digits fuel (n / 10) ((n % 10 + 48) ∷ written) in
    if ltb n 10 then (n + 48) ∷ written else more

unfoldable pub to_string : ℕ → Bytes
unfolding digits
to_string n = digits (suc n) n []

-- What a handler sends. `body` is none if the response ends with its header.
pub record Response : Type 0 where
  pub status : ℕ
  pub headers : List (Bytes × Bytes)
  pub body : Option Bytes

-- `if let Some(value) = .. { header.append_header(name, value)?; }`
abbrev pub append_if_some : Bytes → Option Bytes → List (Bytes × Bytes)
append_if_some name none = []
append_if_some name (some value) = (name, value) ∷ []

-- `if send_body { session.write_response_body(Some(text)) }`
abbrev pub body_of : Bool → Bytes → Option Bytes
body_of send_body text = if send_body then some text else none

-- `page` is the page that the macro `html!` renders for a status, and `is_head` is whether the
-- request's method is HEAD.
module _ (page : ℕ → Bytes) (is_head : Bool) where
  unfoldable pub response : ℕ → Option Bytes → Option Bytes → Response
  unfolding to_string
  response status location cookie =
      let text = page status in
      record {
        status = status;
        headers =
            (codes "Content-Length", to_string (length text))
              ∷ (codes "Content-Type", codes "text/html;charset=utf-8")
              ∷ append_if_some (codes "Location") location
            ++ append_if_some (codes "Set-Cookie") cookie;
        body = body_of (not is_head) text;
      }

  unfoldable pub error_response : ℕ → Response
  unfolding response
  error_response status = response status none none

  unfoldable pub redirect_response : ℕ → Bytes → Response
  unfolding response
  redirect_response status location = response status (some location) none

  unfoldable pub redirect_response_with_cookie : ℕ → Bytes → Bytes → Response
  unfolding response
  redirect_response_with_cookie status location cookie =
      response status (some location) (some cookie)
