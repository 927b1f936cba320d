-- ===== src/Response.antt =====
-- response-module/src/lib.rs: a fixed response from the configuration.
mod Tests
use mathlib.Core.Path.{subst}
use pandora_web_server.Base.{
  ℕ, ◌≡◌, refl, ap, Option, none, some, ◌>>=◌, Bytes, List, [], ◌∷◌, codes, length,
}
use pandora_web_server.StandardResponse.{to_string}

-- `deserialize_status_code`: `from_u16` is that of the crate http.
unfoldable pub deserialize_status_code : {S : Type 0} → (ℕ → Option S) → Option ℕ → Option S
deserialize_status_code from_u16 status = status >>= from_u16

-- The headers are those of the configuration in the order of its iteration.
pub record ResponseConf : Type 0 where
  pub response : Option Bytes
  pub response_status : ℕ
  pub response_headers : List (Bytes × Bytes)

pub record ResponseHandler : Type 0 where
  pub response : Option Bytes
  pub response_status : ℕ
  pub response_headers : List (Bytes × Bytes)

-- `ResponseHandler::try_from`, which cannot fail.
unfoldable pub try_from : ResponseConf → ResponseHandler
try_from conf = record {
  response = conf.response;
  response_status = conf.response_status;
  response_headers = conf.response_headers;
}

-- The header of a response `H` of pingora. `none` is an error.
pub record ResponseHeader (H : Type 0) : Type 0 where
  pub build : ℕ → Option H
  pub insert_header : Bytes → Bytes → H → Option H

-- How the handler ends, but for errors of the writing.
pub data Outcome (H : Type 0) : Type 0 where
  -- `Unhandled`
  passed : Outcome H
  -- `ResponseSent`, with the header and the body that were written
  sent : H → Bytes → Outcome H
  -- an error, before anything was written
  failed : Outcome H

module _ {H : Type 0} (header : ResponseHeader H) where
  unfoldable pub insert_all : List (Bytes × Bytes) → H → Option H
  insert_all [] h = some h
  insert_all ((name, value) ∷ headers) h = header.insert_header name value h >>= insert_all headers

  -- The header of the response.
  unfoldable pub header_of : ResponseHandler → Bytes → Option H
  unfolding insert_all to_string
  header_of handler response = do
    built ← header.build handler.response_status
    filled ← insert_all handler.response_headers built
    header.insert_header (codes "content-length") (to_string (length response)) filled

  abbrev sent_with : Bytes → Option H → Outcome H
  sent_with response none = failed
  sent_with response (some h) = sent h response

  abbrev filter : ResponseHandler → Option Bytes → Outcome H
  unfolding header_of
  filter handler none = passed
  filter handler (some response) = sent_with response (header_of handler response)

  -- `request_filter`.
  unfoldable pub request_filter : ResponseHandler → Outcome H
  unfolding filter
  request_filter handler = filter handler handler.response

-- What a header says after an insertion: the value that was inserted.
module _ {H : Type 0} (header : ResponseHeader H) (get : Bytes → H → Option Bytes)
    (get-insert_header : (name value : Bytes) (h h' : H)
      → header.insert_header name value h ≡ some h'
      → get name h' ≡ some value) where
  -- If inserting a header sets its value, then the Content-Length of a response that is sent is
  -- the length of its body, whatever headers are configured.
  pub request_filter-content_length :
      (conf : ResponseConf) (h : H) (body : Bytes)
      → request_filter header (try_from conf) ≡ sent h body
      → (conf.response ≡ some body)
        × (get (codes "content-length") h ≡ some (to_string (length body)))
  unfolding request_filter try_from header_of
  request_filter-content_length conf h body e = go conf.response refl e
    where
      ended :
          (response : Bytes) (o : Option H)
          → (sent_with header response o) ≡ sent h body
          → (response ≡ body) × (o ≡ some h)
      ended response none f = cc f
      ended response (some h') f = (cc f, cc f)

      last :
          (response : Bytes) (o : Option H)
          → (o >>= header.insert_header (codes "content-length") (to_string (length response)))
            ≡ some h
          → get (codes "content-length") h ≡ some (to_string (length response))
      last response none f = cc f
      last response (some filled) f = get-insert_header _ _ filled h f

      filled :
          (response : Bytes) (o : Option H)
          → (do
            built ← o
            filled ← insert_all header conf.response_headers built
            header.insert_header (codes "content-length") (to_string (length response)) filled)
            ≡ some h
          → get (codes "content-length") h ≡ some (to_string (length response))
      filled response none f = cc f
      filled response (some built) f =
          last response (insert_all header conf.response_headers built) f

      go :
          (response : Option Bytes)
          → conf.response ≡ response
          → filter header (try_from conf) response ≡ sent h body
          → (response ≡ some body)
            × (get (codes "content-length") h ≡ some (to_string (length body)))
      go none f g = cc g
      go (some response) f g =
          let (same, built) = ended response (header_of header (try_from conf) response) g in
          (
            ap some same,
            subst (λ x. get (codes "content-length") h ≡ some (to_string (length x))) same
                (filled response (header.build conf.response_status) built),
          )
