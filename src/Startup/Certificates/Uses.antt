-- ===== src/Startup/Certificates/Uses.antt =====
-- What a connection has got when the callback has set its certificate.
use mathlib.Core.Path.{subst}
use pandora_web_server.Base.{◌↔◌, ◌≡◌, refl, inl, inr, none, some, Option-cases, List, [], ◌∷◌}
use pandora_web_server.Startup.Certificates.{Ssl, add_intermediates, use_cert}

module _ {S X K : Type 0} (tls : Ssl S X K) where
  -- The certificates are added one after the other.
  pub data Adds : S → List X → S → Type 0 where
    all_added : (ssl : S) → Adds ssl [] ssl
    added :
        (ssl next last : S) (x : X) (chain : List X)
        → tls.ssl_add_chain_cert ssl x ≡ some next
        → Adds next chain last
        → Adds ssl (x ∷ chain) last

  -- The connection has got the leaf, the intermediates and the key, and none was refused.
  pub data Uses (before : S) (leaf : X) (chain : List X) (key : K) (after : S) : Type 0 where
    uses :
        (with_leaf with_chain : S)
        → tls.ssl_use_certificate before leaf ≡ some with_leaf
        → Adds with_leaf chain with_chain
        → tls.ssl_use_private_key with_chain key ≡ some after
        → Uses before leaf chain key after

  add_intermediates-Adds :
      (ssl : S) (chain : List X) (last : S)
      → add_intermediates tls (some ssl) chain ≡ some last
      → Adds ssl chain last
  unfolding add_intermediates
  add_intermediates-Adds ssl [] last e =
      let same : ssl ≡ last = cc e in subst (λ l. Adds ssl [] l) same (all_added ssl)
  add_intermediates-Adds ssl (x ∷ chain) last e =
      elim (Option-cases (tls.ssl_add_chain_cert ssl x)) [
        | inl f ↦ absurd (let bad : none ≡ some last = rw (f, add_intermediates) at e in cc bad)
        | inr (next, f) ↦
            added ssl next last x chain f
              (add_intermediates-Adds next chain last (rw (f, add_intermediates) at e))
      ]

  Adds-add_intermediates :
      (ssl : S) (chain : List X) (last : S)
      → Adds ssl chain last
      → add_intermediates tls (some ssl) chain ≡ some last
  unfolding add_intermediates
  Adds-add_intermediates _ _ _ (all_added ssl) = refl
  Adds-add_intermediates _ _ _ (added ssl next last x chain e rest) =
      rw (e, add_intermediates) (Adds-add_intermediates next chain last rest)

  pub use_cert-Uses :
      (leaf : X) (chain : List X) (key : K) (before after : S)
      → (use_cert tls before (leaf ∷ chain, key) ≡ some after) ↔ Uses before leaf chain key after
  unfolding use_cert add_intermediates
  use_cert-Uses leaf chain key before after = (forward, backward)
    where
      forward :
          use_cert tls before (leaf ∷ chain, key) ≡ some after → Uses before leaf chain key after
      forward e = elim (Option-cases (tls.ssl_use_certificate before leaf)) [
        | inl f ↦
            absurd
              (let bad : none ≡ some after = rw (f, use_cert, add_intermediates) at e in cc bad)
        | inr (with_leaf, f) ↦ elim (Option-cases (add_intermediates tls (some with_leaf) chain)) [
          | inl g ↦ absurd (let bad : none ≡ some after = rw (f, g, use_cert) at e in cc bad)
          | inr (with_chain, g) ↦
              uses with_leaf with_chain f (add_intermediates-Adds with_leaf chain with_chain g)
                (rw (f, g, use_cert) at e)
        ]
      ]

      backward :
          Uses before leaf chain key after → use_cert tls before (leaf ∷ chain, key) ≡ some after
      backward (uses with_leaf with_chain f g h) =
          let added_all = Adds-add_intermediates with_leaf chain with_chain g in
          rw (f, added_all, use_cert) h
