-- ===== src/Server/Target.antt =====
-- upstream-module/src/lib.rs: where the requests for an address are forwarded to.
use mathlib.Core.Path.{subst}
use pandora_web_server.Base.{
  ℕ, ◌≡◌, refl, inl, inr, Bool, true, false, Option, none, some, Option-cases, Bytes, List, [], ◌∷◌,
  ◌++◌, codes,
}
use pandora_web_server.Modules.{Result, ok, err}
use pandora_web_server.Upstream.{
  Scheme, http, https, other, Uris, UpstreamHandler, port_or, host_port_of, with_scheme, resolved,
  try_from,
}

-- The scheme says whether the connection is encrypted.
abbrev pub scheme_of : Bool → Scheme
scheme_of false = http
scheme_of true = https

-- The port that an address stands for.
pub data PortOf : Bool → Option (Bytes × ℕ) → ℕ → Type 0 where
  given : (tls : Bool) (text : Bytes) (port : ℕ) → PortOf tls (some (text, port)) port
  of_http : PortOf false none 80
  of_https : PortOf true none 443

-- The value of the header Host.
pub data HostPort (host : Bytes) : Option (Bytes × ℕ) → Bytes → Type 0 where
  bare : HostPort host none host
  with_port :
      (text : Bytes) (port : ℕ) → HostPort host (some (text, port)) (host ++ (codes ":" ++ text))

module _ {U A : Type 0} (uris : Uris U A) where
  -- Requests for the address are sent to `addr`, with the header Host as given.
  pub record Target (upstream : U) (tls : Bool) (host : Bytes) (addr : A) (header : Bytes)
      : Type 0 where
    pub port : ℕ
    pub more : List A
    pub scheme : uris.scheme upstream ≡ some (scheme_of tls)
    pub named : uris.host upstream ≡ some host
    pub port_of : PortOf tls (uris.port upstream) port
    pub resolves : uris.to_socket_addrs host port ≡ some (addr ∷ more)
    pub header_of : HostPort host (uris.port upstream) header

  PortOf-port_or : (tls : Bool) (o : Option (Bytes × ℕ)) → PortOf tls o (port_or tls o)
  PortOf-port_or tls (some (text, port)) = given tls text port
  PortOf-port_or true none = of_https
  PortOf-port_or false none = of_http

  HostPort-host_port_of :
      (host : Bytes) (o : Option (Bytes × ℕ)) → HostPort host o (host_port_of host o)
  HostPort-host_port_of host none = bare
  HostPort-host_port_of host (some (text, port)) = with_port text port

  module _ {E : Type 0} (internal_error : E) where
    with_scheme-Target :
        (upstream : U) (tls : Bool) (h : UpstreamHandler A)
        → uris.scheme upstream ≡ some (scheme_of tls)
        → with_scheme uris internal_error upstream tls ≡ ok h
        → (host : Bytes) × (addr : A) × Target upstream tls host addr h.host_port
          × (h.context ≡ some (record { addr = addr; tls = tls; sni = host }))
    with_scheme-Target upstream tls h scheme e = elim (Option-cases (uris.host upstream)) [
      | inl f ↦ absurd (let bad : err internal_error ≡ ok h = rw (f, with_scheme) at e in cc bad)
      | inr (host, f) ↦
          go host f (uris.to_socket_addrs host (port_or tls (uris.port upstream))) refl
            (rw (f, with_scheme) at e)
    ]
      where
        go :
            (host : Bytes)
            → uris.host upstream ≡ some host
            → (o : Option (List A))
            → uris.to_socket_addrs host (port_or tls (uris.port upstream)) ≡ o
            → resolved uris internal_error upstream tls host o ≡ ok h
            → (host : Bytes) × (addr : A) × Target upstream tls host addr h.host_port
              × (h.context ≡ some (record { addr = addr; tls = tls; sni = host }))
        go host f none g e = absurd (cc e)
        go host f (some []) g e = absurd (cc e)
        go host f (some (addr ∷ more)) g e =
            let all_of : ◌≡◌ {A = Result E (UpstreamHandler A)}
                (ok (record {
                  host_port = host_port_of host (uris.port upstream);
                  context = some (record { addr = addr; tls = tls; sni = host });
                }))
                (ok h) =
              e in
            let same : record {
              host_port = host_port_of host (uris.port upstream);
              context = some (record { addr = addr; tls = tls; sni = host });
            }
                ≡ h =
              cc all_of in
            subst
              (λ (h : UpstreamHandler A).
                (host : Bytes) × (addr : A) × Target upstream tls host addr h.host_port
                × (h.context ≡ some (record { addr = addr; tls = tls; sni = host })))
              same
              (
                host,
                addr,
                record {
                  port = port_or tls (uris.port upstream);
                  more = more;
                  scheme = scheme;
                  named = f;
                  port_of = PortOf-port_or tls (uris.port upstream);
                  resolves = g;
                  header_of = HostPort-host_port_of host (uris.port upstream);
                },
                refl,
              )

    -- What the conversion of an address gives.
    pub try_from-Target :
        (upstream : U) (h : UpstreamHandler A)
        → try_from uris internal_error (some upstream) ≡ ok h
        → (tls : Bool) × (host : Bytes) × (addr : A) × Target upstream tls host addr h.host_port
          × (h.context ≡ some (record { addr = addr; tls = tls; sni = host }))
    unfolding try_from
    try_from-Target upstream h e = go (uris.scheme upstream) refl e
      where
        go :
            (o : Option Scheme)
            → uris.scheme upstream ≡ o
            → (elim o as (λ o. Result E (UpstreamHandler A)) [
              | none ↦ err internal_error
              | some http ↦ with_scheme uris internal_error upstream false
              | some https ↦ with_scheme uris internal_error upstream true
              | some other ↦ err internal_error
            ])
              ≡ ok h
            → (tls : Bool) × (host : Bytes) × (addr : A) × Target upstream tls host addr h.host_port
              × (h.context ≡ some (record { addr = addr; tls = tls; sni = host }))
        go none f e = absurd (cc e)
        go (some http) f e =
            let (host, addr, target, context) = with_scheme-Target upstream false h f e in
            (false, host, addr, target, context)
        go (some https) f e =
            let (host, addr, target, context) = with_scheme-Target upstream true h f e in
            (true, host, addr, target, context)
        go (some other) f e = absurd (cc e)
