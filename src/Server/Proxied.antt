-- ===== src/Server/Proxied.antt =====
-- A server whose last handler forwards requests to another server.
use pandora_web_server.Base.{
  ℕ, ◌≡◌, refl, sym, ap, ◌∙◌, ◌⊎◌, inl, inr, Bool, false, Option, none, some, Bytes,
}
use pandora_web_server.Modules.{
  Result, ok, err, RequestFilterResult, response_sent, handled, unhandled, Handler, ◌and◌,
  filter_then, peer_then,
}
use pandora_web_server.Server.{is_sent, peer_or_404, request_filter, upstream_peer}
use pandora_web_server.Upstream.{
  Uris, UpstreamContext, UpstreamHandler, try_from, after_host, filter_with, peer_of,
  upstream_handler,
}
use pandora_web_server.Server.Target.{Target, try_from-Target}

module _ {S A E P C : Type 0} (insert_host : S → Bytes → Result E Unit × S)
    (peer : A → Bool → Bytes → P) (first : Handler S C E P) (h : UpstreamHandler A) where
  -- The filter leaves the context empty, or it has set the header Host.
  abbrev Filtered : S → S → C → C → Option (UpstreamContext A) → Bool → Type 0
  Filtered s s' c c' new sent =
      (new ≡ none)
      ⊎ ((s1 : S) × (first.request_filter s c ≡ (ok unhandled, s1, c'))
          × (insert_host s1 h.host_port ≡ (ok tt, s'))
          × (new ≡ h.context)
          × (sent ≡ false))

  abbrev Ended : Type 0
  Ended = Result E Bool × S × (C × Option (UpstreamContext A))

  abbrev answer :
      (ℕ → E) → Result E RequestFilterResult × S × (C × Option (UpstreamContext A)) → Ended
  answer http_status (result, after, ctx) =
      (is_sent http_status (first and upstream_handler insert_host peer h) result, after, ctx)

  request_filter-Filtered :
      (http_status : ℕ → E) (s s' : S) (c c' : C) (new : Option (UpstreamContext A)) (sent : Bool)
      → request_filter http_status (first and upstream_handler insert_host peer h) s (c, none)
        ≡ (ok sent, s', (c', new))
      → Filtered s s' c c' new sent
  unfolding request_filter ◌and◌ upstream_handler
  request_filter-Filtered http_status s s' c c' new sent e = go (first.request_filter s c) refl e
    where
      inner :
          (s1 : S) (c1 : C) (x : Option (UpstreamContext A)) (r : Result E Unit × S)
          → first.request_filter s c ≡ (ok unhandled, s1, c1)
          → h.context ≡ x
          → insert_host s1 h.host_port ≡ r
          → answer http_status (
              let (result, after, ctx) =
                elim x as (λ x. Result E RequestFilterResult × S × Option (UpstreamContext A)) [
                  | none ↦ (ok unhandled, s1, none)
                  | some context ↦ after_host insert_host peer context none r
                ] in
              (result, after, (c1, ctx)))
            ≡ (ok sent, s', (c', new))
          → Filtered s s' c c' new sent
      inner s1 c1 none r f g k e = inl (sym (ap (λ t. t.2.1) e))
      inner s1 c1 (some context) (err x, s2) f g k e =
          absurd (let wrong = ap (λ t. t.0) e in cc wrong)
      inner s1 c1 (some context) (ok _, s2) f g k e = inr (
        s1,
        f ∙ ap (λ c. (ok unhandled, s1, c)) (ap (λ t. t.2.0) e),
        k ∙ ap (λ s. (ok tt, s)) (ap (λ t. t.1) e),
        sym (ap (λ t. t.2.1) e) ∙ sym g,
        (let same = ap (λ t. t.0) e in cc same),
      )

      go :
          (o : Result E RequestFilterResult × S × C)
          → first.request_filter s c ≡ o
          → answer http_status (
              filter_then
                (λ session ctx. filter_with insert_host peer h session ctx h.context)
                none
                o)
            ≡ (ok sent, s', (c', new))
          → Filtered s s' c c' new sent
      go (err x, s1, c1) f e = absurd (let bad = ap (λ t. t.0) e in cc bad)
      go (ok response_sent, s1, c1) f e = inl (sym (ap (λ t. t.2.1) e))
      go (ok handled, s1, c1) f e = inl (sym (ap (λ t. t.2.1) e))
      go (ok unhandled, s1, c1) f e =
          inner s1 c1 h.context (insert_host s1 h.host_port) f refl refl e

  upstream_peer-peer_of :
      (http_status : ℕ → E) (t t' : S) (d d' : C) (new new' : Option (UpstreamContext A)) (q : P)
      → upstream_peer http_status (first and upstream_handler insert_host peer h) t (d, new)
        ≡ (ok q, t', (d', new'))
      → (first.upstream_peer t d ≡ (ok (some q), t', d')) ⊎ (peer_of insert_host peer new ≡ some q)
  unfolding upstream_peer ◌and◌ upstream_handler
  upstream_peer-peer_of http_status t t' d d' new new' q e = go (first.upstream_peer t d) refl e
    where
      go :
          (o : Result E (Option P) × S × C)
          → first.upstream_peer t d ≡ o
          → ◌≡◌ {A = Result E P × S × (C × Option (UpstreamContext A))}
              (let (result, after, ctx') =
                  peer_then
                    (λ session ctx. (ok (peer_of insert_host peer ctx), session, ctx))
                    new
                    o in
                (
                  peer_or_404 http_status (first and upstream_handler insert_host peer h) result,
                  after,
                  ctx',
                ))
              (ok q, t', (d', new'))
          → (first.upstream_peer t d ≡ (ok (some q), t', d'))
            ⊎ (peer_of insert_host peer new ≡ some q)
      go (err x, t1, d1) f e = absurd (let bad = ap (λ t. t.0) e in cc bad)
      go (ok (some p), t1, d1) f e =
          let own = ap (λ t. t.0) e in
          let same : p ≡ q = cc own in
          inl (
            f
            ∙ ap (λ p. (ok (some p), t1, d1)) same
            ∙ ap (λ t. (ok (some q), t, d1)) (ap (λ t. t.1) e)
            ∙ ap (λ d. (ok (some q), t', d)) (ap (λ t. t.2.0) e))
      go (ok none, t1, d1) f e = inr (last (peer_of insert_host peer new) (ap (λ t. t.0) e))
        where
          last :
              (o : Option P)
              → peer_or_404 http_status (first and upstream_handler insert_host peer h) (ok o)
                ≡ ok q
              → o ≡ some q
          last none e = absurd (cc e)
          last (some p) e = cc e

module _ {U A : Type 0} (uris : Uris U A) {E : Type 0} (internal_error : E) where
  -- If an address is converted to a handler, and a server whose other handlers are `first` gets
  -- through the filter of a request with an empty context and then finds a peer in the context that
  -- the filter left, then the peer is one of `first`, or the address has the scheme http or https,
  -- a host that resolves to socket addresses at the port that is given or else 80 or 443 by the
  -- scheme, and the peer is the first of these, encrypted for https only, with the host as the
  -- server name, `first` left the request alone, no response was sent, and the header Host was set
  -- to the host with the given port.
  pub proxied :
      (upstream : U) (h : UpstreamHandler A)
      → try_from uris internal_error (some upstream) ≡ ok h
      → {S P C : Type 0} (http_status : ℕ → E) (insert_host : S → Bytes → Result E Unit × S)
        (peer : A → Bool → Bytes → P) (first : Handler S C E P) (s s' t t' : S) (c c' d d' : C)
        (new new' : Option (UpstreamContext A)) (sent : Bool) (q : P)
      → request_filter http_status (first and upstream_handler insert_host peer h) s (c, none)
        ≡ (ok sent, s', (c', new))
      → upstream_peer http_status (first and upstream_handler insert_host peer h) t (d, new)
        ≡ (ok q, t', (d', new'))
      → (first.upstream_peer t d ≡ (ok (some q), t', d'))
        ⊎ ((tls : Bool) × (host : Bytes) × (addr : A) × (s1 : S) × Target uris upstream tls host
              addr h.host_port
            × (q ≡ peer addr tls host)
            × (first.request_filter s c ≡ (ok unhandled, s1, c'))
            × (insert_host s1 h.host_port ≡ (ok tt, s'))
            × (sent ≡ false))
  proxied upstream h e http_status insert_host peer first s s' t t' c c' d d' new new' sent q f g =
      elim (upstream_peer-peer_of insert_host peer first h http_status t t' d d' new new' q g) [
        | inl own ↦ inl own
        | inr own ↦
            elim (request_filter-Filtered insert_host peer first h http_status s s' c c' new sent
              f) [
                | inl empty ↦ absurd (let bad : none ≡ some q = rw empty at own in cc bad)
                | inr (s1, left, set, same, unsent) ↦
                    let (tls, host, addr, target, context) =
                      try_from-Target uris internal_error upstream h e in
                    let peers : some (peer addr tls host) ≡ some q = rw (same ∙ context) at own in
                    let is : q ≡ peer addr tls host = cc peers in
                    inr (tls, host, addr, s1, target, is, left, set, unsent)
              ]
      ]
