-- ===== src/Startup/Listen/Served.antt =====
-- The server's sockets are those of the addresses to listen on.
use mathlib.Core.List.{Perm, perm_middle}
use mathlib.Core.List.Perm
use mathlib.Core.Path.{subst}
use pandora_web_server.Base.{
  Bool, true, false, ◌||◌, Option, none, Bytes, List, [], ◌∷◌, ◌++◌, if◌then◌else◌, ◌≡◌, refl, sym,
  ap, ◌∙◌, Bool-cases, inl, inr, arith,
}
use pandora_web_server.Modules.{Result, ok, err, Result-cases}
use pandora_web_server.Startup.Listen.{
  ListenAddr, Socket, tcp, encrypted, Services, listen_of, tcp_sockets, tls_sockets, into_server,
  has_tls,
}

ok_err : {E A : Type 0} {e : E} {a : A} → ◌≡◌ {A = Result E A} (err e) (ok a) → ⊥
ok_err bad = ground (arith, bad)

neither : (b c : Bool) → (b || c) ≡ false → (b ≡ false) × (c ≡ false)
neither true c e = cc e
neither false c e = (refl, e)

abbrev address : Bytes → Bool → Option Bool → ListenAddr
address addr tls ipv6_only = record { addr = addr; tls = tls; ipv6_only = ipv6_only }

module _ {T : Type 0} where
  -- The addresses that sockets are opened for.
  unfoldable pub addresses : List (Socket T) → List ListenAddr
  addresses [] = []
  addresses (tcp addr ipv6_only ∷ sockets) = address addr false ipv6_only ∷ addresses sockets
  addresses (encrypted addr ipv6_only settings ∷ sockets) =
      address addr true ipv6_only ∷ addresses sockets

  addresses-append : (s s' : List (Socket T)) → addresses (s ++ s') ≡ addresses s ++ addresses s'
  unfolding addresses
  addresses-append [] s' = refl
  addresses-append (tcp a i ∷ s) s' = ap (λ l. address a false i ∷ l) (addresses-append s s')
  addresses-append (encrypted a i t ∷ s) s' = ap (λ l. address a true i ∷ l) (addresses-append s s')

  if_so :
      (b : Bool) (a : ListenAddr) (listen : List ListenAddr) (sockets : List (Socket T))
      → a.tls ≡ b
      → Perm
          (addresses (if b then tcp_sockets listen else tcp a.addr a.ipv6_only ∷ tcp_sockets listen)
            ++ addresses sockets)
          (a ∷ listen)
      → Perm (addresses (tcp_sockets (a ∷ listen)) ++ addresses sockets) (a ∷ listen)
  unfolding tcp_sockets
  if_so b a listen sockets e =
      subst
        (λ b.
          Perm
            (addresses
                (if b then tcp_sockets listen else tcp a.addr a.ipv6_only ∷ tcp_sockets listen)
              ++ addresses sockets)
            (a ∷ listen))
        (sym e)

  -- The addresses without TLS and those with TLS are all addresses.
  sockets-Perm :
      {E : Type 0} (with_callbacks : Result E T) (listen : List ListenAddr)
      (sockets : List (Socket T))
      → tls_sockets with_callbacks listen ≡ ok sockets
      → Perm (addresses (tcp_sockets listen) ++ addresses sockets) listen
  unfolding tls_sockets tcp_sockets addresses
  sockets-Perm with_callbacks [] sockets e =
      let none_left : [] ≡ sockets = ground (arith, e) in
      subst (λ s. Perm (addresses s) []) none_left (Perm.refl [])
  sockets-Perm with_callbacks (a ∷ listen) sockets e = elim (Bool-cases a.tls) [
    | inr plain ↦
        let rest : tls_sockets with_callbacks listen ≡ ok sockets = rw (plain, tls_sockets) at e in
        let same : address a.addr false a.ipv6_only ≡ a =
          ap (λ b. address a.addr b a.ipv6_only) (sym plain) in
        if_so false a listen sockets plain (
          subst
            (λ b.
              Perm (b ∷ addresses (tcp_sockets {T = T} listen) ++ addresses sockets) (a ∷ listen))
            (sym same) (Perm.cons a (sockets-Perm with_callbacks listen sockets rest)))
    | inl tls ↦ elim (Result-cases with_callbacks) [
      | inl (f, failed) ↦
          let bad : err f ≡ ok sockets = rw (tls, failed, tls_sockets) at e in absurd (ok_err bad)
      | inr (t, made) ↦ elim (Result-cases (tls_sockets with_callbacks listen)) [
        | inl (f, failed) ↦
            let bad : err f ≡ ok sockets = rw (tls, made, failed, tls_sockets) at e in
            absurd (ok_err bad)
        | inr (more, rest) ↦
            let all : ok (encrypted a.addr a.ipv6_only t ∷ more) ≡ ok sockets =
              rw (tls, made, rest, tls_sockets) at e in
            let same : address a.addr true a.ipv6_only ≡ a =
              ap (λ b. address a.addr b a.ipv6_only) (sym tls) in
            let first : encrypted a.addr a.ipv6_only t ∷ more ≡ sockets = ground (arith, all) in
            let before = addresses (tcp_sockets {T = T} listen) in
            if_so true a listen sockets tls (
              subst (λ s. Perm (before ++ addresses s) (a ∷ listen)) first
                (subst (λ b. Perm (before ++ b ∷ addresses more) (a ∷ listen)) (sym same)
                  (Perm.trans (perm_middle before (addresses more))
                    (Perm.cons a (sockets-Perm with_callbacks listen more rest)))))
      ]
    ]
  ]

addresses-tcp_sockets :
    (T : Type 0) (listen : List ListenAddr)
    → has_tls listen ≡ false
    → addresses (tcp_sockets {T = T} listen) ≡ listen
unfolding tcp_sockets addresses
addresses-tcp_sockets T [] e = refl
addresses-tcp_sockets T (a ∷ listen) e =
    let (plain, rest) = neither a.tls (has_tls listen) e in
    subst
      (λ b.
        addresses {T = T}
          (if b then tcp_sockets listen else tcp a.addr a.ipv6_only ∷ tcp_sockets listen)
        ≡ a ∷ listen)
      (sym plain)
      (ap (λ b. address a.addr b a.ipv6_only ∷ addresses (tcp_sockets {T = T} listen)) (sym plain)
        ∙ ap (λ l. a ∷ l) (addresses-tcp_sockets T listen rest))

module _ {T : Type 0} where
  -- If the server is set up, its sockets are opened for the addresses to listen on, each of them
  -- once, in some order: with TLS for those that are marked so and without it for the others.
  pub into_server-Perm :
      {E D K : Type 0} (to_redirector : Result E (Option D)) (into_callbacks : Result E K)
      (with_callbacks : K → Result E T) (conf : List ListenAddr) (opt : Option (List ListenAddr))
      (served : Services D T)
      → into_server to_redirector into_callbacks with_callbacks conf opt ≡ ok served
      → Perm (addresses served.sockets) (listen_of conf opt)
  unfolding into_server
  into_server-Perm to_redirector into_callbacks with_callbacks conf opt served e =
      let listen = listen_of conf opt in
      elim (Bool-cases (has_tls listen)) [
        | inr plain ↦
            let all : ok (record { redirector = none; sockets = tcp_sockets listen }) ≡ ok served =
              rw (plain, into_server) at e in
            let same : tcp_sockets listen ≡ served.sockets = ground (arith, all) in
            subst (λ s. Perm (addresses s) listen) same
              (subst (λ l. Perm l listen) (sym (addresses-tcp_sockets T listen plain))
                (Perm.refl listen))
        | inl tls ↦ elim (Result-cases to_redirector) [
          | inl (f, failed) ↦
              let bad : err f ≡ ok served = rw (tls, failed, into_server) at e in
              absurd (ok_err bad)
          | inr (redirector, e1) ↦ elim (Result-cases into_callbacks) [
            | inl (f, failed) ↦
                let bad : err f ≡ ok served = rw (tls, e1, failed, into_server) at e in
                absurd (ok_err bad)
            | inr (callbacks, e2) ↦
                elim (Result-cases (tls_sockets (with_callbacks callbacks) listen)) [
                  | inl (f, failed) ↦
                      let bad : err f ≡ ok served = rw (tls, e1, e2, failed, into_server) at e in
                      absurd (ok_err bad)
                  | inr (sockets, e3) ↦
                      let all : ok (record {
                        redirector = redirector;
                        sockets = tcp_sockets listen ++ sockets;
                      })
                          ≡ ok served =
                        rw (tls, e1, e2, e3, into_server) at e in
                      let same : tcp_sockets listen ++ sockets ≡ served.sockets =
                        ground (arith, all) in
                      subst (λ s. Perm (addresses s) listen) same
                        (subst (λ l. Perm l listen)
                          (sym (addresses-append (tcp_sockets listen) sockets))
                          (sockets-Perm (with_callbacks callbacks) listen sockets e3))
                ]
          ]
        ]
      ]
