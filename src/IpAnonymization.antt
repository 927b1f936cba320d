-- ===== src/IpAnonymization.antt =====
-- ip-anonymization-module/src/lib.rs: the removal of a part of the client's IP address.
pub mod Idempotent
mod Tests
use pandora_web_server.Base.{
  ℕ, ◌-◌, Bool, true, false, Option, none, some, Bytes, List, [], ◌∷◌, ◌++◌, take, length,
  replicate, bytes_eq, if◌then◌else◌,
}

-- `IpAddr`, by its octets: four or sixteen.
pub data IpAddr : Type 0 where
  v4 : Bytes → IpAddr
  v6 : Bytes → IpAddr

-- `SocketAddr` of pingora: the address and the port, or the path of a Unix socket.
pub data SocketAddr : Type 0 where
  inet : IpAddr → ℕ → SocketAddr
  unix : Bytes → SocketAddr

-- `octets[octets.len() - 1] = 0`.
abbrev pub zero_last : Bytes → Bytes
zero_last [] = []
zero_last (b ∷ []) = 0 ∷ []
zero_last (b ∷ c ∷ octets) = b ∷ zero_last (c ∷ octets)

-- The start of an IPv4 address in disguise.
abbrev pub mapped : Bytes
mapped = 0 ∷ 0 ∷ 0 ∷ 0 ∷ 0 ∷ 0 ∷ 0 ∷ 0 ∷ 0 ∷ 0 ∷ 0xFF ∷ 0xFF ∷ []

abbrev pub anonymize_v6 : Bytes → Bytes
anonymize_v6 octets =
    if bytes_eq (take 12 octets) mapped
    then zero_last octets
    else take 4 octets ++ replicate (length octets - 4) 0

unfoldable pub anonymize_ip : IpAddr → IpAddr
anonymize_ip (v4 octets) = v4 (zero_last octets)
anonymize_ip (v6 octets) = v6 (anonymize_v6 octets)

unfoldable pub anonymize_address : Option SocketAddr → Option SocketAddr
unfolding anonymize_ip
anonymize_address none = none
anonymize_address (some (inet ip port)) = some (inet (anonymize_ip ip) port)
anonymize_address (some (unix path)) = none

-- `merge_with_opt`, on the only setting: `anonymization_enabled`.
unfoldable pub merge_with_opt : Bool → Bool → Bool
merge_with_opt conf opt = if opt then true else conf

-- `early_request_filter`: the client's address behind it.
unfoldable pub early_request_filter : Bool → Option SocketAddr → Option SocketAddr
unfolding anonymize_address
early_request_filter anonymization_enabled client_addr =
    let anonymized = elim (anonymize_address client_addr) as (λ x. Option SocketAddr) [
      | some addr ↦ some addr
      | none ↦ client_addr
    ] in
    if anonymization_enabled then anonymized else client_addr
