-- ===== src/Startup/Listen.antt =====
-- startup-module/src/configuration.rs: `ListenAddr`, and what `into_server` listens on.
pub mod Served
use pandora_web_server.Base.{
  ℕ, Bool, true, false, not, ◌||◌, Option, none, some, is_some, ◌>>=◌, Bytes, List, [], ◌∷◌, ◌++◌,
  codes, any, bytes_eq, is_empty, if◌then◌else◌, ◌≡◌, ◌≢◌, refl, ap, ◌∙◌, Bool-cases, inl, inr,
  arith,
}
use pandora_web_server.Modules.{Result, ok, err}

pub record ListenAddr : Type 0 where
  pub addr : Bytes
  pub tls : Bool
  pub ipv6_only : Option Bool

-- `ListenAddr::from` a text.
unfoldable pub from_text : Bytes → ListenAddr
from_text value = record { addr = value; tls = false; ipv6_only = none }

-- The error that a field makes, which names it.
pub data FieldError (E : Type 0) : Type 0 where
  duplicate_field : Bytes → FieldError E
  unknown_field : Bytes → FieldError E
  missing_field : Bytes → FieldError E
  invalid_value : E → FieldError E

-- The fields that have been read.
pub record Fields : Type 0 where
  pub addr : Option Bytes
  pub tls : Option Bool
  pub ipv6_only : Option Bool

-- A map of the configuration is a list of names and values `X`. `text` and `bool` read values.
module _ {X E : Type 0} (text : X → Result E Bytes) (bool : X → Result E Bool) where
  abbrev read : {A : Type 0} → Result E A → (A → Fields) → Result (FieldError E) Fields
  read (ok a) put = ok (put a)
  read (err e) put = err (invalid_value e)

  -- One round of the loop of `visit_map`.
  unfoldable pub visit_field : Fields → Bytes → X → Result (FieldError E) Fields
  visit_field fields key value =
      if bytes_eq key (codes "addr")
      then (if is_some fields.addr
          then err (duplicate_field key)
          else read (text value) (λ a. record fields { addr = some a }))
      else (if bytes_eq key (codes "ipv6_only")
          then (if is_some fields.ipv6_only
              then err (duplicate_field key)
              else read (bool value) (λ b. record fields { ipv6_only = some b }))
          else (if bytes_eq key (codes "tls")
              then (if is_some fields.tls
                  then err (duplicate_field key)
                  else read (bool value) (λ b. record fields { tls = some b }))
              else err (unknown_field key)))

  unfoldable pub visit_fields : List (Bytes × X) → Fields → Result (FieldError E) Fields
  unfolding visit_field
  visit_fields [] fields = ok fields
  visit_fields ((key, value) ∷ map) fields = elim (visit_field fields key value) [
    | err e ↦ err e
    | ok read ↦ visit_fields map read
  ]

  abbrev or_false : Option Bool → Bool
  or_false none = false
  or_false (some b) = b

  abbrev finish : Fields → Option Bytes → Result (FieldError E) ListenAddr
  finish fields none = err (missing_field (codes "addr"))
  finish fields (some addr) =
      ok (record { addr = addr; tls = or_false fields.tls; ipv6_only = fields.ipv6_only })

  -- `visit_map`.
  unfoldable pub visit_map : List (Bytes × X) → Result (FieldError E) ListenAddr
  unfolding visit_fields
  visit_map map = elim (visit_fields map (record { addr = none; tls = none; ipv6_only = none })) [
    | err e ↦ err e
    | ok fields ↦ finish fields fields.addr
  ]

-- A socket that the service opens, with the value of `to_socket_options`: its only option is
-- `ipv6_only`.
pub data Socket (T : Type 0) : Type 0 where
  tcp : Bytes → Option Bool → Socket T
  encrypted : Bytes → Option Bool → T → Socket T

-- What `into_server` serves: the redirector of HTTP to HTTPS if there is one, and its sockets.
pub record Services (D T : Type 0) : Type 0 where
  pub redirector : Option D
  pub sockets : List (Socket T)

-- The addresses that are used if no others are given.
abbrev pub default_listen : List ListenAddr
unfolding from_text
default_listen = from_text (codes "127.0.0.1:8080") ∷ from_text (codes "[::1]:8080") ∷ []

abbrev or_default : List ListenAddr → List ListenAddr
or_default [] = default_listen
or_default (a ∷ listen) = a ∷ listen

-- The addresses of the command line, or else of the configuration, or else the default ones.
unfoldable pub listen_of : List ListenAddr → Option (List ListenAddr) → List ListenAddr
listen_of conf none = or_default conf
listen_of conf (some opt) = or_default opt

abbrev pub has_tls : List ListenAddr → Bool
has_tls listen = any (λ a. a.tls) listen

module _ {T : Type 0} where
  -- The loop over the addresses without TLS.
  unfoldable pub tcp_sockets : List ListenAddr → List (Socket T)
  tcp_sockets [] = []
  tcp_sockets (a ∷ listen) =
      let rest = tcp_sockets listen in if a.tls then rest else tcp a.addr a.ipv6_only ∷ rest

  -- The loop over the addresses with TLS; `with_callbacks` is that of `TlsSettings`, whose
  -- settings hold the certificates. Nothing of it depends on the address.
  unfoldable pub tls_sockets :
      {E : Type 0} → Result E T → List ListenAddr → Result E (List (Socket T))
  tls_sockets with_callbacks [] = ok []
  tls_sockets with_callbacks (a ∷ listen) =
      let rest = tls_sockets with_callbacks listen in
      if a.tls
      then elim with_callbacks [
        | err e ↦ err e
        | ok settings ↦ elim rest [
          | err e ↦ err e
          | ok sockets ↦ ok (encrypted a.addr a.ipv6_only settings ∷ sockets)
        ]
      ]
      else rest

  -- `into_server`. `to_redirector` and `into_callbacks` are the results of these methods of the
  -- configuration, and `with_callbacks` is that of `TlsSettings`.
  unfoldable pub into_server :
      {E D K : Type 0}
      → Result E (Option D)
      → Result E K
      → (K → Result E T)
      → List ListenAddr
      → Option (List ListenAddr)
      → Result E (Services D T)
  unfolding listen_of tcp_sockets tls_sockets
  into_server to_redirector into_callbacks with_callbacks conf opt =
      let listen = listen_of conf opt in
      let plain = tcp_sockets listen in
      if has_tls listen
      then elim to_redirector [
        | err e ↦ err e
        | ok redirector ↦ elim into_callbacks [
          | err e ↦ err e
          | ok callbacks ↦ elim (tls_sockets (with_callbacks callbacks) listen) [
            | err e ↦ err e
            | ok sockets ↦ ok (record { redirector = redirector; sockets = plain ++ sockets })
          ]
        ]
      ]
      else ok (record { redirector = none; sockets = plain })
