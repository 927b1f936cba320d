-- ===== src/Response/Tests.antt =====
-- A fixed response on a concrete header type.
use mathlib.Core.Path.{subst}
use pandora_web_server.Base.{
  ◌≡◌, refl, Option, none, some, Bytes, List, [], ◌∷◌, codes, length, bytes_eq, bytes_eq_iff,
  if◌then◌else◌,
}
use pandora_web_server.StandardResponse.{to_string, digits}
use pandora_web_server.Response.{
  ResponseConf, ResponseHeader, sent, try_from, request_filter, header_of, insert_all,
  request_filter-content_length,
}

-- The newest value stands first.
abbrev header : ResponseHeader (List (Bytes × Bytes))
header = record {
  build = λ status. some [];
  insert_header = λ name value h. some ((name, value) ∷ h);
}

abbrev get : Bytes → List (Bytes × Bytes) → Option Bytes
get name [] = none
get name ((n, value) ∷ h) = let later = get name h in if bytes_eq n name then some value else later

get-insert_header :
    (name value : Bytes) (h h' : List (Bytes × Bytes))
    → header.insert_header name value h ≡ some h'
    → get name h' ≡ some value
get-insert_header name value h h' e =
    let inserted : (name, value) ∷ h ≡ h' = cc e in
    let same = (bytes_eq_iff name name).1 refl in
    subst (λ x. get name x ≡ some value) inserted (rw same refl)

abbrev conf : ResponseConf
conf = record {
  response = some (codes "gone");
  response_status = 410;
  response_headers = (codes "content-length", codes "7") ∷ (codes "x-a", codes "b") ∷ [];
}

abbrev all_headers : List (Bytes × Bytes)
all_headers =
    (codes "content-length", codes "4")
    ∷ (codes "x-a", codes "b")
    ∷ (codes "content-length", codes "7")
    ∷ []

answered : request_filter header (try_from conf) ≡ sent all_headers (codes "gone")
unfolding request_filter try_from header_of insert_all to_string digits
answered = refl

request_filter-content_length_example :
    (conf.response ≡ some (codes "gone"))
    × (get (codes "content-length") all_headers ≡ some (to_string (length (codes "gone"))))
request_filter-content_length_example =
    request_filter-content_length header get get-insert_header conf all_headers (codes "gone")
      answered
