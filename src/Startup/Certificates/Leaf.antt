-- ===== src/Startup/Certificates/Leaf.antt =====
-- The chain of a certificate that could be read is not empty.
use pandora_web_server.Base.{◌≡◌, sym, ap, ◌∙◌, inl, inr, Option-cases, Bytes, List, [], ◌∷◌}
use pandora_web_server.Modules.{Result, ok, err, Result-cases}
use pandora_web_server.Startup.Certificates.{
  CertKeyConf, Pem, Explained, with_key, with_chain, read_chain, into_certificate,
}

module _ {E X K : Type 0} (pem : Pem E X K) (explained : Explained E) where
  with_chain-leaf :
      (key_path : Bytes) (read : Result E (List X)) (cert : List X × K)
      → with_chain pem explained key_path read ≡ ok cert
      → (leaf : X) × (chain : List X) × (cert ≡ (leaf ∷ chain, cert.1))
  with_chain-leaf key_path (err e) cert h = absurd (cc h)
  with_chain-leaf key_path (ok []) cert h = absurd (cc h)
  with_chain-leaf key_path (ok (leaf ∷ chain)) cert h =
      elim (Result-cases (pem.read_file key_path)) [
        | inl (e, f) ↦ absurd (let bad : err e ≡ ok cert = rw f at h in cc bad)
        | inr (text, f) ↦ elim (Result-cases (pem.private_key_from_pem text)) [
          | inl (e, g) ↦ absurd (let bad : err e ≡ ok cert = rw (f, g, with_key) at h in cc bad)
          | inr (key, g) ↦
              let same : ◌≡◌ {A = Result E (List X × K)} (ok (leaf ∷ chain, key)) (ok cert) =
                rw (f, g, with_key) at h in
              let pairs : (leaf ∷ chain, key) ≡ cert = cc same in
              (leaf, chain, sym pairs ∙ ap (λ c. (leaf ∷ chain, c.1)) pairs)
        ]
      ]

  pub into_certificate-leaf :
      (conf : CertKeyConf) (cert : List X × K)
      → into_certificate pem explained conf ≡ ok cert
      → (leaf : X) × (chain : List X) × (cert ≡ (leaf ∷ chain, cert.1))
  unfolding into_certificate read_chain
  into_certificate-leaf conf cert h = elim (Option-cases conf.cert_path) [
    | inl e ↦
        absurd
          (let bad : err explained.incomplete ≡ ok cert = rw (e, into_certificate) at h in cc bad)
    | inr (cert_path, e) ↦ elim (Option-cases conf.key_path) [
      | inl f ↦ absurd (
          let bad : err explained.incomplete ≡ ok cert = rw (e, f, into_certificate) at h in cc bad)
      | inr (key_path, f) ↦ elim (Result-cases (pem.read_file cert_path)) [
        | inl (x, g) ↦
            absurd (
              let bad : err x ≡ ok cert = rw (e, f, g, into_certificate, read_chain) at h in cc bad)
        | inr (text, g) ↦
            with_chain-leaf key_path _ cert (rw (e, f, g, into_certificate, read_chain) at h)
      ]
    ]
  ]
