-- ===== src/Server.antt =====
-- startup-module/src/lib.rs: `DefaultApp`, which runs the phases of a request.
pub mod Proxied
pub mod Target
mod Tests
use pandora_web_server.Base.{
  ℕ, Bool, true, false, Option, none, some, Bytes, [], ◌++◌, if◌then◌else◌,
}
use pandora_web_server.Modules.{
  Result, ok, err, RequestFilterResult, response_sent, handled, unhandled, Phase, Handler,
}

abbrev pub error_of : {E A : Type 0} → Result E A → Option E
error_of (ok a) = none
error_of (err e) = some e

-- `http_status` is the error of pingora for a status.
module _ {S C E P : Type 0} (http_status : ℕ → E) (handler : Handler S C E P) where
  abbrev pub is_sent : Result E RequestFilterResult → Result E Bool
  is_sent (err e) = err e
  is_sent (ok response_sent) = ok true
  is_sent (ok handled) = ok false
  is_sent (ok unhandled) = ok false

  abbrev pub peer_or_404 : Result E (Option P) → Result E P
  peer_or_404 (err e) = err e
  peer_or_404 (ok none) = err (http_status 404)
  peer_or_404 (ok (some peer)) = ok peer

  -- `DefaultApp::request_filter`: whether the response has been sent.
  unfoldable pub request_filter : Phase S C (Result E Bool)
  request_filter session ctx =
      let (result, after, ctx') = handler.request_filter session ctx in
      (is_sent result, after, ctx')

  -- `DefaultApp::upstream_peer`.
  unfoldable pub upstream_peer : Phase S C (Result E P)
  upstream_peer session ctx =
      let (result, after, ctx') = handler.upstream_peer session ctx in
      (peer_or_404 result, after, ctx')

-- What pingora does with the session and the response `R` of the upstream server, which the
-- callback `upstream_response` makes up. `take_body` removes the captured body from the session's
-- extensions.
pub record Pingora (S E P R : Type 0) : Type 0 where
  pub new_modules : S → S
  pub request_header_filter : S → Result E Unit × S
  pub upstream_response : S → P → Result E R × S
  pub upstream_response_filter : S → R → S × R
  pub response_header_filter : S → R → Result E R × S
  pub write_response_header : S → R → Result E Unit × S
  pub take_body : S → Option Bytes × S
  pub response_body_filter : S → Option Bytes → Result E Unit × S

pub record AppResult (S C E : Type 0) : Type 0 where
  pub session : S
  pub ctx : C
  pub error : Option E
  pub body : Bytes

-- Steps of a request on the session and the context, up to the first error.
abbrev pub Step : Type 0 → Type 0 → Type 0 → Type 0 → Type 0
Step S C E A = S → C → Result E A × S × C

abbrev pub next :
    {S C E A B : Type 0} → Result E A × S × C → (A → Step S C E B) → Result E B × S × C
next (err e, session, ctx) f = (err e, session, ctx)
next (ok a, session, ctx) f = f a session ctx

abbrev pub on_session : {S C E A : Type 0} → Result E A × S → C → Result E A × S × C
on_session (result, session) ctx = (result, session, ctx)

abbrev pub or_empty : Option Bytes → Bytes
or_empty none = []
or_empty (some body) = body

module _ {S C E P R : Type 0} (http_status : ℕ → E) (handler : Handler S C E P)
    (pingora : Pingora S E P R) where
  -- What follows the upstream server's response.
  unfoldable pub pass_response : R → Step S C E Unit
  pass_response response session ctx =
      let (filtered, header) = pingora.upstream_response_filter session response in
      next (on_session (pingora.response_header_filter filtered header) ctx) (λ header session ctx.
        next (on_session (pingora.write_response_header session header) ctx) (λ _ session ctx.
          let (body, session) = pingora.take_body session in
          on_session (pingora.response_body_filter session body) ctx))

  -- The phases of a request that is not answered by its filter.
  unfoldable pub proxy : Step S C E Unit
  unfolding upstream_peer pass_response
  proxy session ctx = next (upstream_peer http_status handler session ctx) (λ peer session ctx.
      next (on_session (pingora.upstream_response session peer) ctx) pass_response)

  -- The phases before the logging.
  unfoldable pub phases : Step S C E Unit
  unfolding request_filter proxy
  phases session ctx = next (handler.early_request_filter session ctx) (λ _ session ctx.
      next (on_session (pingora.request_header_filter session) ctx) (λ _ session ctx.
        next (request_filter http_status handler session ctx)
          (λ sent session ctx. if sent then (ok tt, session, ctx) else proxy session ctx)))

  -- `handle_request_with_upstream`.
  unfoldable pub handle_request_with_upstream : S → AppResult S C E
  unfolding phases
  handle_request_with_upstream session =
      let (result, session, ctx) =
        phases (handler.init_downstream_modules (pingora.new_modules session)) handler.new_ctx in
      let (session, ctx) = handler.logging (error_of result) session ctx in
      let (body, session) = pingora.take_body session in
      record { session = session; ctx = ctx; error = error_of result; body = or_empty body }

-- `SessionWrapperImpl::write_response_body`: `captured` is what the extensions have of the body,
-- and `write` passes the data on to the client.
unfoldable pub write_response_body :
    {S E : Type 0}
    → (Option Bytes → Bool → S → Result E Unit × S)
    → Bool
    → Option Bytes
    → Bool
    → Option Bytes × S
    → Result E Unit × (Option Bytes × S)
write_response_body write false bytes end_of_stream (captured, session) =
    let (result, after) = write bytes end_of_stream session in (result, (captured, after))
write_response_body write true none end_of_stream (captured, session) = (ok tt, (captured, session))
write_response_body write true (some bytes) end_of_stream (captured, session) =
    (ok tt, (some (or_empty captured ++ bytes), session))
