-- ===== src/IpAnonymization/Tests.antt =====
-- Addresses of both families, and the theorems at concrete inputs.
use pandora_web_server.Base.{◌≡◌, refl, [], ◌∷◌}
use pandora_web_server.IpAnonymization.{IpAddr, v4, v6, anonymize_ip}

abbrev address : IpAddr
address = v6 (1 ∷ 2 ∷ 3 ∷ 4 ∷ 5 ∷ 6 ∷ 7 ∷ 8 ∷ 9 ∷ 10 ∷ 11 ∷ 12 ∷ 13 ∷ 14 ∷ 15 ∷ 16 ∷ [])

abbrev disguised : IpAddr
disguised = v6 (0 ∷ 0 ∷ 0 ∷ 0 ∷ 0 ∷ 0 ∷ 0 ∷ 0 ∷ 0 ∷ 0 ∷ 255 ∷ 255 ∷ 12 ∷ 34 ∷ 56 ∷ 78 ∷ [])

anonymize_tests :
    (anonymize_ip (v4 (12 ∷ 34 ∷ 56 ∷ 78 ∷ [])) ≡ v4 (12 ∷ 34 ∷ 56 ∷ 0 ∷ []))
    × (anonymize_ip address
        ≡ v6 (1 ∷ 2 ∷ 3 ∷ 4 ∷ 0 ∷ 0 ∷ 0 ∷ 0 ∷ 0 ∷ 0 ∷ 0 ∷ 0 ∷ 0 ∷ 0 ∷ 0 ∷ 0 ∷ []))
    × (anonymize_ip disguised
        ≡ v6 (0 ∷ 0 ∷ 0 ∷ 0 ∷ 0 ∷ 0 ∷ 0 ∷ 0 ∷ 0 ∷ 0 ∷ 255 ∷ 255 ∷ 12 ∷ 34 ∷ 56 ∷ 0 ∷ []))
unfolding anonymize_ip
anonymize_tests = (refl, refl, refl)
