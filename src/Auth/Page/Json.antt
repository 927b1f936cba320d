-- ===== src/Auth/Page/Json.antt =====
-- auth-module/src/page.rs: `login_response_json`, and the escapes of the standard library.
use pandora_web_server.Base.{
  ℕ, zero, suc, ◌+◌, ◌/◌, ◌%◌, Bool, not, ◌&&◌, Option, none, some, is_some, Bytes, [], ◌∷◌, ◌++◌,
  codes, length, leb, ltb, ◌==◌, if◌then◌else◌,
}
use pandora_web_server.StandardResponse.{to_string, append_if_some, body_of}
use pandora_web_server.Auth.Page.{Outcome, sent, Request, is_head}

-- A hexadecimal digit in lower case.
abbrev hex_digit : ℕ → ℕ
hex_digit d = if ltb d 10 then d + 48 else d + 87

unfoldable pub hex_digits : ℕ → ℕ → Bytes → Bytes
hex_digits zero n written = written
hex_digits (suc fuel) n written =
    let more = hex_digits fuel (n / 16) (hex_digit (n % 16) ∷ written) in
    if ltb n 16 then hex_digit n ∷ written else more

-- `char::escape_default`; 92 is the backslash, 34 the quotation mark, 39 the apostrophe.
unfoldable pub escape_char : ℕ → Bytes
unfolding hex_digits
escape_char c =
    let unicode = codes "\\u{" ++ hex_digits 6 c (codes "}") in
    let printable = if leb 0x20 c && leb c 0x7e then c ∷ [] else unicode in
    let quoted =
      if c == 34
      then 92 ∷ 34 ∷ []
      else (if c == 92 then 92 ∷ 92 ∷ [] else (if c == 39 then 92 ∷ 39 ∷ [] else printable)) in
    if c == 9
    then 92 ∷ b't' ∷ []
    else (if c == 13 then 92 ∷ b'r' ∷ [] else (if c == 10 then 92 ∷ b'n' ∷ [] else quoted))

unfoldable pub escape_default : Bytes → Bytes
unfolding escape_char
escape_default [] = []
escape_default (c ∷ text) = escape_char c ++ escape_default text

-- `replace("\\'", "'")`.
unfoldable pub unescape_apostrophes : Bytes → Bytes
unescape_apostrophes [] = []
unescape_apostrophes (c ∷ []) = c ∷ []
unescape_apostrophes (c ∷ d ∷ text) =
    let replaced = unescape_apostrophes text in
    let kept = unescape_apostrophes (d ∷ text) in
    if c == 92 && d == 39 then 39 ∷ replaced else c ∷ kept

abbrev quotation_mark : Bytes
quotation_mark = 34 ∷ []

-- A name between quotation marks, with a colon.
abbrev json_key : Bytes → Bytes
json_key name = quotation_mark ++ name ++ quotation_mark ++ codes ":"

abbrev json_suggestion : Option Bytes → Bytes
unfolding escape_default unescape_apostrophes
json_suggestion none = []
json_suggestion (some text) =
    codes ","
    ++ json_key (codes "suggestion")
    ++ quotation_mark
    ++ unescape_apostrophes (escape_default text)
    ++ quotation_mark

-- The text of the response.
unfoldable pub json_text : Bool → Option Bytes → Bytes
unfolding json_suggestion
json_text success suggestion =
    codes "{"
    ++ json_key (codes "success")
    ++ (if success then codes "true" else codes "false")
    ++ json_suggestion suggestion
    ++ codes "}"

-- `login_response_json`: the response to a request for a remote user, if one was set.
unfoldable pub login_response_json :
    {U : Type 0} → Request → Option Bytes → Option Bytes → Option Bytes → Outcome U
unfolding json_text to_string
login_response_json request user suggestion cookie =
    let text = json_text (is_some cookie) suggestion in
    sent user (record {
      status = 200;
      headers =
          (codes "Content-Length", to_string (length text))
          ∷ (codes "Content-Type", codes "application/json;charset=utf-8")
          ∷ append_if_some (codes "Set-Cookie") cookie;
      body = body_of (not (is_head request)) text;
    })
