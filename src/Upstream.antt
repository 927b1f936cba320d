-- ===== src/Upstream.antt =====
-- upstream-module/src/lib.rs: the forwarding of requests to another server.
use pandora_web_server.Base.{ℕ, Bool, true, false, Option, none, some, Bytes, List, [], ◌∷◌, ◌++◌}
use pandora_web_server.Modules.{Result, ok, err, RequestFilterResult, handled, unhandled, Handler}

-- What the code tells apart of a scheme.
pub data Scheme : Type 0 where
  http : Scheme
  https : Scheme
  other : Scheme

-- The addresses `U` of the crate http, and the resolution of host names to the addresses `A`. A
-- port is its text and its number; `none` is an error of the resolution.
pub record Uris (U A : Type 0) : Type 0 where
  pub scheme : U → Option Scheme
  pub host : U → Option Bytes
  pub port : U → Option (Bytes × ℕ)
  pub to_socket_addrs : Bytes → ℕ → Option (List A)

pub record UpstreamContext (A : Type 0) : Type 0 where
  pub addr : A
  pub tls : Bool
  pub sni : Bytes

pub record UpstreamHandler (A : Type 0) : Type 0 where
  pub host_port : Bytes
  pub context : Option (UpstreamContext A)

-- `merge_with_opt`, on the only setting: `upstream`.
unfoldable pub merge_with_opt {ℓ} : {U : Type ℓ} → Option U → Option U → Option U
merge_with_opt conf none = conf
merge_with_opt conf (some upstream) = some upstream

abbrev pub port_or : Bool → Option (Bytes × ℕ) → ℕ
port_or tls (some (text, port)) = port
port_or true none = 443
port_or false none = 80

-- The host, and the port behind a colon if there is one; 58 is the colon.
abbrev pub host_port_of : Bytes → Option (Bytes × ℕ) → Bytes
host_port_of host none = host
host_port_of host (some (text, port)) = host ++ 58 ∷ text

module _ {U A : Type 0} (uris : Uris U A) {E : Type 0} (internal_error : E) where
  abbrev pub resolved : U → Bool → Bytes → Option (List A) → Result E (UpstreamHandler A)
  resolved upstream tls host none = err internal_error
  resolved upstream tls host (some []) = err internal_error
  resolved upstream tls host (some (addr ∷ _)) = ok (record {
    host_port = host_port_of host (uris.port upstream);
    context = some (record { addr = addr; tls = tls; sni = host });
  })

  abbrev pub with_scheme : U → Bool → Result E (UpstreamHandler A)
  with_scheme upstream tls = elim (uris.host upstream) [
    | none ↦ err internal_error
    | some host ↦
        resolved upstream tls host (uris.to_socket_addrs host (port_or tls (uris.port upstream)))
  ]

  -- `UpstreamHandler::try_from`.
  unfoldable pub try_from : Option U → Result E (UpstreamHandler A)
  try_from none = ok (record { host_port = []; context = none })
  try_from (some upstream) = elim (uris.scheme upstream) [
    | none ↦ err internal_error
    | some http ↦ with_scheme upstream false
    | some https ↦ with_scheme upstream true
    | some other ↦ err internal_error
  ]

-- `insert_host` sets the header Host of the session's request, and `peer` is `HttpPeer::new`.
module _ {S E A P : Type 0} (insert_host : S → Bytes → Result E Unit × S)
    (peer : A → Bool → Bytes → P) where
  abbrev pub after_host :
      UpstreamContext A
      → Option (UpstreamContext A)
      → Result E Unit × S
      → Result E RequestFilterResult × S × Option (UpstreamContext A)
  after_host context ctx (err e, session) = (err e, session, ctx)
  after_host context ctx (ok _, session) = (ok handled, session, some context)

  abbrev pub peer_of : Option (UpstreamContext A) → Option P
  peer_of none = none
  peer_of (some context) = some (peer context.addr context.tls context.sni)

  abbrev pub filter_with :
      UpstreamHandler A
      → S
      → Option (UpstreamContext A)
      → Option (UpstreamContext A)
      → Result E RequestFilterResult × S × Option (UpstreamContext A)
  filter_with h session ctx none = (ok unhandled, session, ctx)
  filter_with h session ctx (some context) =
      after_host context ctx (insert_host session h.host_port)

  -- The handler's phases; it has no modules of pingora and no own
  -- `early_request_filter` and `logging`.
  unfoldable pub upstream_handler : UpstreamHandler A → Handler S (Option (UpstreamContext A)) E P
  upstream_handler h = record {
    init_downstream_modules = λ session. session;
    early_request_filter = λ session ctx. (ok tt, session, ctx);
    request_filter = λ session ctx. filter_with h session ctx h.context;
    upstream_peer = λ session ctx. (ok (peer_of ctx), session, ctx);
    logging = λ e session ctx. (session, ctx);
    new_ctx = none;
  }
