-- ===== src/Startup/Certificates.antt =====
-- startup-module/src/configuration.rs: the certificates and keys of the server names.
pub mod Chain
pub mod Leaf
pub mod Split
pub mod Uses
use pandora_web_server.Base.{
  ℕ, zero, suc, ◌+◌, Bool, true, false, ◌||◌, Option, none, some, Bytes, List, [], ◌∷◌, ◌++◌, codes,
  length, take, drop, all, bytes_eq, ◌==◌, if◌then◌else◌,
}
use pandora_web_server.Base
use pandora_web_server.Modules.{Result, ok, err}

-- `u8::is_ascii_whitespace`: space, tab, line feed, form feed and carriage return.
abbrev pub is_ascii_whitespace : ℕ → Bool
is_ascii_whitespace b = b == 32 || b == 9 || b == 10 || b == 12 || b == 13

abbrev pub end_marker : Bytes
end_marker = codes "-----END CERTIFICATE-----"

-- `windows(END_MARKER.len()).position(…)`: where the marker starts first.
unfoldable pub marker_at : Bytes → Option ℕ
marker_at [] = none
marker_at (b ∷ text) =
    let later = marker_at text in
    if bytes_eq (take (length end_marker) (b ∷ text)) end_marker
    then some 0
    else elim later as (λ x. Option ℕ) [ none ↦ none | some i ↦ some (suc i) ]

-- The length of the first part of what is left: to the end of the marker, or all of it.
abbrev pub part_length : Bytes → Option ℕ → ℕ
part_length text none = length text
part_length text (some position) = position + length end_marker

-- The loop of `into_certificate`: the parts of the text that are parsed one by one. Each round takes
-- at least the marker, so the length of the text is fuel enough.
unfoldable pub parts_of : ℕ → Bytes → List Bytes
unfolding marker_at
parts_of zero text = []
parts_of (suc fuel) [] = []
parts_of (suc fuel) (b ∷ text) =
    let n = part_length (b ∷ text) (marker_at (b ∷ text)) in
    let rest = parts_of fuel (drop n (b ∷ text)) in
    if all is_ascii_whitespace (b ∷ text) then [] else take n (b ∷ text) ∷ rest

pub record CertKeyConf : Type 0 where
  pub cert_path : Option Bytes
  pub key_path : Option Bytes

-- The file system, and `X509::from_pem` and `PKey::private_key_from_pem` of pingora's TLS library.
pub record Pem (E X K : Type 0) : Type 0 where
  pub read_file : Bytes → Result E Bytes
  pub from_pem : Bytes → Result E X
  pub private_key_from_pem : Bytes → Result E K

-- The errors that the code explains itself.
pub record Explained (E : Type 0) : Type 0 where
  pub empty_chain : E
  pub incomplete : E
  -- an error's context: the server names, or none for the default certificate
  pub because : Option (List Bytes) → E → E

module _ {E X K : Type 0} (pem : Pem E X K) (explained : Explained E) where
  unfoldable pub parse_all : List Bytes → Result E (List X)
  parse_all [] = ok []
  parse_all (part ∷ parts) =
      let rest = parse_all parts in
      elim (pem.from_pem part) [
        | err e ↦ err e
        | ok cert ↦ elim rest [ err e ↦ err e | ok certs ↦ ok (cert ∷ certs) ]
      ]

  abbrev pub with_key : List X → Result E Bytes → Result E (List X × K)
  with_key certs (err e) = err e
  with_key certs (ok text) = elim (pem.private_key_from_pem text) [
    | err e ↦ err e
    | ok key ↦ ok (certs, key)
  ]

  abbrev pub with_chain : Bytes → Result E (List X) → Result E (List X × K)
  with_chain key_path (err e) = err e
  with_chain key_path (ok []) = err explained.empty_chain
  with_chain key_path (ok (cert ∷ certs)) = with_key (cert ∷ certs) (pem.read_file key_path)

  unfoldable pub read_chain : Bytes → Bytes → Result E (List X × K)
  unfolding parts_of parse_all
  read_chain cert_path key_path = elim (pem.read_file cert_path) [
    | err e ↦ err e
    | ok text ↦ with_chain key_path (parse_all (parts_of (length text) text))
  ]

  -- `into_certificate`: the chain of certificates and the key.
  unfoldable pub into_certificate : CertKeyConf → Result E (List X × K)
  unfolding read_chain
  into_certificate conf = elim conf.cert_path [
    | none ↦ err explained.incomplete
    | some cert_path ↦ elim conf.key_path [
      | none ↦ err explained.incomplete
      | some key_path ↦ read_chain cert_path key_path
    ]
  ]

-- `HashMap::insert` and `get` on a list of entries, the newest first.
abbrev pub get {ℓ} : {A : Type ℓ} → Bytes → List (Bytes × A) → Option A
get name [] = none
get name ((n, a) ∷ entries) =
    let later = get name entries in if bytes_eq n name then some a else later

abbrev pub insert_names {ℓ} : {A : Type ℓ} → List Bytes → A → List (Bytes × A) → List (Bytes × A)
insert_names [] a entries = entries
insert_names (name ∷ names) a entries = insert_names names a ((name, a) ∷ entries)

module _ {E X K : Type 0} (pem : Pem E X K) (explained : Explained E) where
  unfoldable pub insert_all :
      List (List Bytes × CertKeyConf)
      → List (Bytes × (List X × K))
      → Result E (List (Bytes × (List X × K)))
  unfolding into_certificate
  insert_all [] certificates = ok certificates
  insert_all ((names, conf) ∷ server_names) certificates =
      elim (into_certificate pem explained conf) [
        | err e ↦ err (explained.because (some names) e)
        | ok cert ↦ insert_all server_names (insert_names names cert certificates)
      ]

  abbrev with_default :
      CertKeyConf → Result E (List (Bytes × (List X × K))) → Result E (List (Bytes × (List X × K)))
  with_default default (err e) = err e
  with_default default (ok certificates) = elim (into_certificate pem explained default) [
    | err e ↦ err (explained.because none e)
    | ok cert ↦ ok (([], cert) ∷ certificates)
  ]

  -- `into_callbacks`: the certificates of the server names in the order of the iteration, and the
  -- default one under the empty name.
  unfoldable pub into_callbacks :
      List (List Bytes × CertKeyConf) → CertKeyConf → Result E (List (Bytes × (List X × K)))
  unfolding insert_all
  into_callbacks server_names default = with_default default (insert_all server_names [])

-- The certificate for the server name that the client asks for.
abbrev pub certificate_for {ℓ} : {A : Type ℓ} → List (Bytes × A) → Option Bytes → Option A
certificate_for certificates none = get [] certificates
certificate_for certificates (some name) = Base.or (get name certificates) (get [] certificates)

-- `ssl_use_certificate`, `ssl_add_chain_cert` and `ssl_use_private_key` of pingora's TLS library, on
-- the state `S` of a connection. `none` is an error, at which `unwrap` panics.
pub record Ssl (S X K : Type 0) : Type 0 where
  pub ssl_use_certificate : S → X → Option S
  pub ssl_add_chain_cert : S → X → Option S
  pub ssl_use_private_key : S → K → Option S

module _ {S X K : Type 0} (tls : Ssl S X K) where
  -- The loop over the intermediates. `none` is a panic, here and below.
  unfoldable pub add_intermediates : Option S → List X → Option S
  add_intermediates none intermediates = none
  add_intermediates (some ssl) [] = some ssl
  add_intermediates (some ssl) (intermediate ∷ intermediates) =
      add_intermediates (tls.ssl_add_chain_cert ssl intermediate) intermediates

  abbrev use_private_key : Option S → K → Option S
  use_private_key none key = none
  use_private_key (some ssl) key = tls.ssl_use_private_key ssl key

  -- The leaf is the first certificate of the chain, which is not empty.
  unfoldable pub use_cert : S → List X × K → Option S
  unfolding add_intermediates
  use_cert ssl ([], key) = none
  use_cert ssl (leaf ∷ intermediates, key) =
      use_private_key (add_intermediates (tls.ssl_use_certificate ssl leaf) intermediates) key

  -- `certificate_callback`: without a certificate, the connection is left as it is.
  unfoldable pub certificate_callback : List (Bytes × (List X × K)) → Option Bytes → S → Option S
  unfolding use_cert
  certificate_callback certificates name ssl = elim (certificate_for certificates name) [
    | none ↦ some ssl
    | some cert ↦ use_cert ssl cert
  ]
