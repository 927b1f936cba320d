-- ===== src/Merger/Matcher/Applies.antt =====
-- Which paths a matcher matches, in terms of their segments.
use pandora_web_server.Base.{
  ◌≡◌, refl, sym, ap, ◌∙◌, ◌↔◌, ◌⊎◌, inl, inr, Bool, true, false, ◌||◌, Bool-cases, Bytes, List, [],
  ◌∷◌, ◌++◌, bytes_eq, bytes_eq_iff, is_empty, arith,
}
use mathlib.Core.List.{append-nil}
use pandora_web_server.Router.Path.{normalize, is_prefix_of}
use pandora_web_server.Router.Path.Segments.{segments_of, normalize-segments}
use pandora_web_server.Router.Path.Parent.{is_prefix_of-segments}
use pandora_web_server.Merger.Matcher.{is_match, flags, host_path_matcher, host_path_matches}

is_prefix_of-same :
    (p q : Bytes) → normalize p ≡ normalize q → is_prefix_of (normalize p) (normalize q) ≡ true
is_prefix_of-same p q e = (is_prefix_of-segments p q).1 ([], segments)
  where
    segments : segments_of q ≡ segments_of p ++ []
    segments =
        sym ((normalize-segments q).0)
        ∙ ap segments_of (sym e)
        ∙ (normalize-segments p).0
        ∙ sym (append-nil _)

-- What the flags of a prefix matcher say.
flags-prefix :
    (own path : Bytes)
    → (is_match (flags (normalize own) false (normalize path))
        ≡ is_prefix_of (normalize own) (normalize path))
      × ((flags (normalize own) false (normalize path)).prefix
          ≡ is_prefix_of (normalize own) (normalize path))
unfolding flags is_prefix_of
flags-prefix own path = elim (Bool-cases (bytes_eq (normalize own) (normalize path))) [
  | inl e ↦ (let h = is_prefix_of-same own path ((bytes_eq_iff _ _).0 e) in rw (e, h) (refl, refl))
  | inr e ↦ rw e (elim (Bool-cases (is_prefix_of (normalize own) (normalize path))) [
    | inl h ↦ rw h (refl, refl)
    | inr h ↦ rw h (refl, refl)
  ])
]

host_test :
    (own host : Bytes) → ((is_empty own || bytes_eq own host) ≡ true) ↔ ((own ≡ []) ⊎ (own ≡ host))
host_test [] host = ((λ h. inl refl), (λ h. refl))
host_test (b ∷ own) host = (
  (λ h. inr ((bytes_eq_iff (b ∷ own) host).0 h)),
  (λ h. elim h [ inl e ↦ absurd (cc e) | inr e ↦ (bytes_eq_iff (b ∷ own) host).1 e ]),
)

-- A prefix matcher matches exactly the paths whose segments start with its own ones, on its host
-- or, if it has none, on every host; whatever `force_prefix` is.
pub host_path_matches-segments :
    (host path own_host own_path : Bytes) (force_prefix : Bool)
    → (is_match (
          host_path_matches
            (host_path_matcher (own_host, own_path) false)
            host
            (normalize path)
            force_prefix)
        ≡ true)
      ↔ (((own_host ≡ []) ⊎ (own_host ≡ host))
          × ((rest : List Bytes) × (segments_of path ≡ segments_of own_path ++ rest)))
unfolding host_path_matches host_path_matcher
host_path_matches-segments host path own_host own_path force_prefix =
    elim (Bool-cases (is_empty own_host || bytes_eq own_host host)) [
      | inl e ↦
          rw (e, (flags-prefix own_path path).0)
            (
              (λ h. ((host_test own_host host).0 e, (is_prefix_of-segments own_path path).0 h)),
              (λ h. (is_prefix_of-segments own_path path).1 (h.1)),
            )
      | inr e ↦ rw e (
        (λ h. absurd (ground (arith, h))),
        (λ h. absurd (ground (arith, e, (host_test own_host host).1 (h.0)))),
      )
    ]
