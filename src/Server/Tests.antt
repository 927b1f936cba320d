-- ===== src/Server/Tests.antt =====
-- The server on concrete handlers.
use pandora_web_server.Base.{
  ℕ, ◌≡◌, ◌⊎◌, refl, Bool, true, false, none, some, Bytes, List, [], ◌∷◌, codes,
}
use pandora_web_server.Modules.{Result, ok, err, unhandled, Handler, no_handler, ◌and◌}
use pandora_web_server.Modules.Chain.{chain}
use pandora_web_server.Upstream.{http, https, Uris, UpstreamHandler, try_from, upstream_handler}
use pandora_web_server.Server.{
  Pingora, request_filter, upstream_peer, handle_request_with_upstream, phases, proxy,
  pass_response,
}
use pandora_web_server.Server.Target.{Target}
use pandora_web_server.Server.Proxied.{proxied}

-- An address is its scheme's encryption and its host, without a port.
abbrev uris : Uris (Bool × Bytes) ℕ
uris = record {
  scheme = λ u. some (elim (u.0) [ true ↦ https | false ↦ http ]);
  host = λ u. some (u.1);
  port = λ u. none;
  to_socket_addrs = λ host port. some (port ∷ 1 ∷ []);
}

-- A session is the header Host.
abbrev insert_host : Bytes → Bytes → Result ℕ Unit × Bytes
insert_host session host = (ok tt, host)

abbrev peer : ℕ → Bool → Bytes → ℕ × Bool × Bytes
peer addr tls sni = (addr, tls, sni)

abbrev failed : ℕ
failed = 500

abbrev upstream : Bool × Bytes
upstream = (true, codes "example.com")

abbrev nothing : Handler Bytes Unit ℕ (ℕ × Bool × Bytes)
unfolding no_handler
nothing = no_handler

abbrev forwarding : UpstreamHandler ℕ
forwarding = record {
  host_port = codes "example.com";
  context = some (record { addr = 443; tls = true; sni = codes "example.com" });
}

converted : try_from uris failed (some upstream) ≡ ok forwarding
unfolding try_from
converted = refl

filtered :
    request_filter
      (λ status. status)
      (nothing and upstream_handler insert_host peer forwarding)
      (codes "localhost")
      (tt, none)
    ≡ (ok false, codes "example.com", (tt, forwarding.context))
unfolding request_filter ◌and◌ upstream_handler no_handler
filtered = refl

found :
    upstream_peer
      (λ status. status)
      (nothing and upstream_handler insert_host peer forwarding)
      (codes "example.com")
      (tt, forwarding.context)
    ≡ (ok (443, true, codes "example.com"), codes "example.com", (tt, forwarding.context))
unfolding upstream_peer ◌and◌ upstream_handler no_handler
found = refl

proxied_example :
    (nothing.upstream_peer (codes "example.com") tt
      ≡ (ok (some (443, true, codes "example.com")), codes "example.com", tt))
    ⊎ ((tls : Bool) × (host : Bytes) × (addr : ℕ) × (s1 : Bytes) × Target uris upstream tls host
          addr forwarding.host_port
        × ((443, true, codes "example.com") ≡ peer addr tls host)
        × (nothing.request_filter (codes "localhost") tt ≡ (ok unhandled, s1, tt))
        × (insert_host s1 forwarding.host_port ≡ (ok tt, codes "example.com"))
        × (false ≡ false))
proxied_example =
    proxied uris failed upstream forwarding converted (λ status. status) insert_host peer nothing
      (codes "localhost") (codes "example.com") (codes "example.com") (codes "example.com") tt tt tt
      tt forwarding.context forwarding.context false (443, true, codes "example.com") filtered found

abbrev handler : Handler Bytes Unit ℕ (ℕ × Bool × Bytes)
handler = record {
  init_downstream_modules = λ session. session;
  early_request_filter = λ session ctx. (ok tt, session, ctx);
  request_filter = λ session ctx. (err 403, 1 ∷ session, ctx);
  upstream_peer = λ session ctx. (ok none, session, ctx);
  logging = λ e session ctx. (2 ∷ session, ctx);
  new_ctx = tt;
}

abbrev three : List (Handler Bytes Unit ℕ (ℕ × Bool × Bytes))
three = nothing ∷ handler ∷ handler ∷ []

-- The third handler does not run.
chain_test :
    (chain three).request_filter [] (tt, (tt, (tt, tt))) ≡ (err 403, 1 ∷ [], (tt, (tt, (tt, tt))))
unfolding chain ◌and◌ no_handler
chain_test = refl

abbrev pingora : Pingora Bytes ℕ (ℕ × Bool × Bytes) Bytes
pingora = record {
  new_modules = λ s. s;
  request_header_filter = λ s. (ok tt, s);
  upstream_response = λ s p. (ok [], s);
  upstream_response_filter = λ s r. (s, r);
  response_header_filter = λ s r. (ok r, s);
  write_response_header = λ s r. (ok tt, s);
  take_body = λ s. (none, s);
  response_body_filter = λ s body. (ok tt, s);
}

-- The logging runs after an error, too.
handled_example :
    handle_request_with_upstream (λ status. status) (nothing and handler) pingora []
    ≡ record { session = 2 ∷ 1 ∷ []; ctx = (tt, tt); error = some 403; body = [] }
unfolding handle_request_with_upstream phases request_filter proxy pass_response ◌and◌ no_handler
handled_example = refl
