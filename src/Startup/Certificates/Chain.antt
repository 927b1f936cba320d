-- ===== src/Startup/Certificates/Chain.antt =====
-- The certificates that connections are served with.
use mathlib.Core.Path.{subst}
use pandora_web_server.Base.{
  ◌↔◌, ◌≡◌, ◌≢◌, refl, sym, ap, ◌∙◌, ◌⊎◌, Bool-cases, inl, inr, Option, none, some, Bytes, List, [],
  ◌∷◌, bytes_eq, bytes_eq_iff,
}
use pandora_web_server.Modules.{Result, ok, err, Result-cases}
use pandora_web_server.Startup.Certificates.{
  CertKeyConf, Pem, Explained, get, insert_names, into_certificate, insert_all, into_callbacks,
  with_default, Ssl, certificate_for, certificate_callback,
}
use pandora_web_server.Startup.Certificates.Leaf.{into_certificate-leaf}
use pandora_web_server.Startup.Certificates.Uses.{Uses, use_cert-Uses}

-- The name is one of the list.
abbrev pub Names : Bytes → List Bytes → Type 0
Names name [] = ⊥
Names name (n ∷ names) = (n ≡ name) ⊎ Names name names

-- No entry is for the name.
abbrev pub NamedNowhere : Bytes → List (List Bytes × CertKeyConf) → Type 0
NamedNowhere name [] = Unit
NamedNowhere name ((names, conf) ∷ entries) = (¬ Names name names) × NamedNowhere name entries

-- The last entry for the name has the configuration.
abbrev pub NamedLast : Bytes → List (List Bytes × CertKeyConf) → CertKeyConf → Type 0
NamedLast name [] own = ⊥
NamedLast name ((names, conf) ∷ entries) own =
    NamedLast name entries own ⊎ (Names name names × ((conf ≡ own) × NamedNowhere name entries))

-- The configuration for a connection, by the server name that the client asks for.
pub data Chosen (server_names : List (List Bytes × CertKeyConf)) (default : CertKeyConf)
    : Option Bytes → CertKeyConf → Type 0 where
  unnamed : Chosen server_names default none default
  empty : Chosen server_names default (some []) default
  unknown :
      (name : Bytes)
      → NamedNowhere name server_names
      → Chosen server_names default (some name) default
  own :
      (name : Bytes) (conf : CertKeyConf)
      → name ≢ []
      → NamedLast name server_names conf
      → Chosen server_names default (some name) conf

module _ {A : Type 0} where
  get-insert_names :
      (name : Bytes) (names : List Bytes) (a : A) (entries : List (Bytes × A))
      → (Names name names × (get name (insert_names names a entries) ≡ some a))
        ⊎ ((¬ Names name names) × (get name (insert_names names a entries) ≡ get name entries))
  get-insert_names name [] a entries = inr ((λ m. m), refl)
  get-insert_names name (n ∷ names) a entries =
      elim (get-insert_names name names a ((n, a) ∷ entries)) [
        | inl (m, e) ↦ inl (inr m, e)
        | inr (absent, e) ↦ elim (Bool-cases (bytes_eq n name)) [
          | inl f ↦ inl (inl ((bytes_eq_iff n name).0 f), e ∙ rw f refl)
          | inr f ↦ inr (
            (λ m. elim m [
              | inl same ↦ (let bad = (bytes_eq_iff n name).1 same in cc (bad, f))
              | inr m ↦ absent m
            ]),
            e ∙ rw f refl,
          )
        ]
      ]

module _ {E X K : Type 0} (pem : Pem E X K) (explained : Explained E) where
  -- What the entries leave for a name.
  insert_all-NamedLast :
      (name : Bytes) (entries : List (List Bytes × CertKeyConf))
      (before result : List (Bytes × (List X × K)))
      → insert_all pem explained entries before ≡ ok result
      → ((conf : CertKeyConf) × (cert : List X × K) × NamedLast name entries conf
          × (into_certificate pem explained conf ≡ ok cert)
          × (get name result ≡ some cert))
        ⊎ (NamedNowhere name entries × (get name result ≡ get name before))
  unfolding insert_all
  insert_all-NamedLast name [] before result h =
      let same : before ≡ result = cc h in inr (tt, ap (get name) (sym same))
  insert_all-NamedLast name ((names, conf) ∷ entries) before result h =
      elim (Result-cases (into_certificate pem explained conf)) [
        | inl (e, f) ↦ absurd (
            let bad : err (explained.because (some names) e) ≡ ok result =
              rw (f, insert_all) at h in
            cc bad)
        | inr (cert, f) ↦
            elim (insert_all-NamedLast name entries (insert_names names cert before) result
              (rw (f, insert_all) at h)) [
                | inl (conf', cert', named, g, k) ↦ inl (conf', cert', inl named, g, k)
                | inr (absent, k) ↦ elim (get-insert_names name names cert before) [
                  | inl (m, l) ↦ inl (conf, cert, inr (m, (refl, absent)), f, k ∙ l)
                  | inr (other, l) ↦ inr ((other, absent), k ∙ l)
                ]
              ]
      ]

  -- What the entries and the default one leave for the server name that the client asks for.
  certificate_for-Chosen :
      (server_names : List (List Bytes × CertKeyConf)) (default : CertKeyConf)
      (certificates : List (Bytes × (List X × K)))
      → into_callbacks pem explained server_names default ≡ ok certificates
      → (name : Option Bytes)
      → (conf : CertKeyConf) × (cert : List X × K) × Chosen server_names default name conf
        × (into_certificate pem explained conf ≡ ok cert)
        × (certificate_for certificates name ≡ some cert)
  unfolding into_callbacks
  certificate_for-Chosen server_names default certificates h name =
      elim (Result-cases (insert_all pem explained server_names [])) [
        | inl (e, f) ↦
            absurd (let bad : err e ≡ ok certificates = rw (f, into_callbacks) at h in cc bad)
        | inr (before, f) ↦ elim (Result-cases (into_certificate pem explained default)) [
          | inl (e, g) ↦ absurd (
              let bad : err (explained.because none e) ≡ ok certificates =
                rw (f, g, into_callbacks, with_default) at h in
              cc bad)
          | inr (cert, g) ↦
              let all_of : ◌≡◌ {A = Result E (List (Bytes × (List X × K)))}
                  (ok (([], cert) ∷ before)) (ok certificates) =
                rw (f, g, into_callbacks, with_default) at h in
              let lists : ([], cert) ∷ before ≡ certificates = cc all_of in
              let every : ([], cert) ∷ before ≡ certificates = cc all_of in
              subst
                (λ c.
                  (conf : CertKeyConf) × (cert : List X × K) × Chosen server_names default name conf
                  × (into_certificate pem explained conf ≡ ok cert)
                  × (certificate_for c name ≡ some cert))
                every (go before cert f g name)
        ]
      ]
    where
      go :
          (before : List (Bytes × (List X × K))) (cert : List X × K)
          → insert_all pem explained server_names [] ≡ ok before
          → into_certificate pem explained default ≡ ok cert
          → (name : Option Bytes)
          → (conf : CertKeyConf) × (own : List X × K) × Chosen server_names default name conf
            × (into_certificate pem explained conf ≡ ok own)
            × (certificate_for (([], cert) ∷ before) name ≡ some own)
      go before cert f g none = (default, cert, unnamed, g, refl)
      go before cert f g (some []) = (default, cert, empty, g, refl)
      go before cert f g (some (x ∷ name)) =
          elim (insert_all-NamedLast (x ∷ name) server_names [] before f) [
            | inl (conf, own_cert, named, k, found) ↦
                (conf, own_cert, own (x ∷ name) conf (λ e. cc e) named, k, rw found refl)
            | inr (absent, missing) ↦ (default, cert, unknown (x ∷ name) absent, g, rw missing refl)
          ]

  -- If the certificates of the server names and the default one can be read, then each connection
  -- is served with the certificate of its configuration, which is that of the last entry for the
  -- server name that the client asks for, or the default one if there is no such entry, or no
  -- server name or an empty one: the callback ends exactly if the connection accepts the leaf, then
  -- each of the intermediates in their order and then the key, and panics otherwise.
  pub certificate_callback-into_callbacks :
      (server_names : List (List Bytes × CertKeyConf)) (default : CertKeyConf)
      (certificates : List (Bytes × (List X × K)))
      → into_callbacks pem explained server_names default ≡ ok certificates
      → {S : Type 0} (tls : Ssl S X K) (name : Option Bytes)
      → (conf : CertKeyConf) × (leaf : X) × (chain : List X) × (key : K) × Chosen server_names
          default name conf
        × (into_certificate pem explained conf ≡ ok (leaf ∷ chain, key))
        × ((before after : S)
            → (certificate_callback tls certificates name before ≡ some after)
              ↔ Uses tls before leaf chain key after)
  unfolding certificate_callback
  certificate_callback-into_callbacks server_names default certificates h tls name =
      let (conf, cert, chosen, read, found) =
        certificate_for-Chosen server_names default certificates h name in
      let (leaf, chain, same) = into_certificate-leaf pem explained conf cert read in
      (
        conf,
        leaf,
        chain,
        cert.1,
        chosen,
        read ∙ ap ok same,
        (λ before after.
            rw (found ∙ ap some same, certificate_callback)
              (use_cert-Uses tls leaf chain cert.1 before after)),
      )
