-- ===== src/IpAnonymization/Idempotent.antt =====
-- Anonymizing an address a second time changes nothing.
use pandora_web_server.Base.{
  ℕ, zero, suc, ◌-◌, ◌<◌, ◌≡◌, refl, ap, Bool, true, false, inl, inr, Bool-cases, some, Bytes, [],
  ◌∷◌, ◌++◌, take, length, replicate, bytes_eq, ◌==◌, ◌&&◌, arith,
}
use pandora_web_server.IpAnonymization.{
  IpAddr, v4, v6, inet, zero_last, mapped, anonymize_v6, anonymize_ip, anonymize_address,
  early_request_filter,
}

zero_last-zero_last : (octets : Bytes) → zero_last (zero_last octets) ≡ zero_last octets
zero_last-zero_last [] = refl
zero_last-zero_last (b ∷ []) = refl
zero_last-zero_last (b ∷ c ∷ []) = refl
zero_last-zero_last (b ∷ c ∷ d ∷ octets) = ap (λ r. b ∷ r) (zero_last-zero_last (c ∷ d ∷ octets))

take-zero_last :
    (n : ℕ) (octets : Bytes) → n < length octets → take n (zero_last octets) ≡ take n octets
take-zero_last zero octets h = refl
take-zero_last (suc n) [] h = absurd (omega arith)
take-zero_last (suc n) (b ∷ []) h = absurd (omega arith)
take-zero_last (suc n) (b ∷ c ∷ octets) h =
    ap (λ r. b ∷ r) (take-zero_last n (c ∷ octets) (omega arith))

-- An address that was filled with zeros does not look like an IPv4 address.
fill-anonymize_v6 :
    (a b c d : ℕ) (n : ℕ)
    → n ≡ 12
    → anonymize_v6 (a ∷ b ∷ c ∷ d ∷ replicate n 0) ≡ a ∷ b ∷ c ∷ d ∷ replicate n 0
fill-anonymize_v6 a b c d n e = rw e (rw (plain (a == 0) (b == 0) (c == 0) (d == 0)) refl)
  where
    plain : (p q r s : Bool) → (p && (q && (r && (s && false)))) ≡ false
    plain p q r s = ground arith

anonymize_v6-anonymize_v6 :
    (octets : Bytes) → length octets ≡ 16 → anonymize_v6 (anonymize_v6 octets) ≡ anonymize_v6 octets
anonymize_v6-anonymize_v6 octets h = elim (Bool-cases (bytes_eq (take 12 octets) mapped)) [
  | inl e ↦
      let kept = take-zero_last 12 octets (omega (arith, h)) in
      rw e (rw kept (rw e (zero_last-zero_last octets)))
  | inr e ↦ rw e (filled octets h)
]
  where
    filled :
        (octets : Bytes)
        → length octets ≡ 16
        → anonymize_v6 (take 4 octets ++ replicate (length octets - 4) 0)
          ≡ take 4 octets ++ replicate (length octets - 4) 0
    filled [] h = absurd (omega (arith, h))
    filled (a ∷ []) h = absurd (omega (arith, h))
    filled (a ∷ b ∷ []) h = absurd (omega (arith, h))
    filled (a ∷ b ∷ c ∷ []) h = absurd (omega (arith, h))
    filled (a ∷ b ∷ c ∷ d ∷ octets) h =
        fill-anonymize_v6 a b c d (length (a ∷ b ∷ c ∷ d ∷ octets) - 4) (omega (arith, h))

-- The octets of an address are four or sixteen.
abbrev pub IsIp : IpAddr → Type 0
IsIp (v4 octets) = length octets ≡ 4
IsIp (v6 octets) = length octets ≡ 16

-- Anonymizing the address of a client with an IP address a second time changes nothing, for the
-- request filter of the module with any configuration.
pub early_request_filter_idem :
    (enabled : Bool) (ip : IpAddr) (port : ℕ)
    → IsIp ip
    → early_request_filter enabled (early_request_filter enabled (some (inet ip port)))
      ≡ early_request_filter enabled (some (inet ip port))
unfolding early_request_filter anonymize_address anonymize_ip
early_request_filter_idem false ip port h = refl
early_request_filter_idem true (v4 octets) port h =
    ap (λ o. some (inet (v4 o) port)) (zero_last-zero_last octets)
early_request_filter_idem true (v6 octets) port h =
    ap (λ o. some (inet (v6 o) port)) (anonymize_v6-anonymize_v6 octets h)
