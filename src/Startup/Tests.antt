-- ===== src/Startup/Tests.antt =====
-- The set-up of a server on concrete configurations.
use mathlib.Core.List.{Perm}
use pandora_web_server.Base.{
  ℕ, ◌≡◌, ◌↔◌, ◌⊎◌, inl, inr, bytes_eq, if◌then◌else◌, refl, Bool, true, false, Option, none, some,
  Bytes, List, [], ◌∷◌, codes, length,
}
use pandora_web_server.Modules.{Result, ok, err}
use pandora_web_server.Startup.Listen.{
  ListenAddr, tcp, encrypted, Services, visit_map, visit_fields, visit_field, duplicate_field,
  listen_of, tcp_sockets, tls_sockets, into_server,
}
use pandora_web_server.Startup.Listen.Served.{addresses, into_server-Perm}
use pandora_web_server.Startup.Certificates.{
  marker_at, parts_of, CertKeyConf, Pem, Explained, into_certificate, read_chain, Ssl, use_cert,
  add_intermediates, parse_all, insert_all, into_callbacks, certificate_callback,
}
use pandora_web_server.Startup.Certificates.Split.{Splits, parts_of-Splits}
use pandora_web_server.Startup.Certificates.Uses.{Uses}
use pandora_web_server.Startup.Certificates.Chain.{Chosen, certificate_callback-into_callbacks}
use pandora_web_server.Startup.Redirector.{RedirectorApp, server_name, target}

-- A value of the configuration is its text.
abbrev text : Bytes → Result ℕ Bytes
text value = ok value

abbrev bool : Bytes → Result ℕ Bool
bool value = ok true

visit_map_tests :
    (visit_map text bool ((codes "tls", []) ∷ (codes "addr", codes "a") ∷ [])
      ≡ ok (record { addr = codes "a"; tls = true; ipv6_only = none }))
    × (visit_map text bool ((codes "tls", []) ∷ (codes "tls", []) ∷ [])
        ≡ err (duplicate_field (codes "tls")))
unfolding visit_map visit_fields visit_field
visit_map_tests = (refl, refl)

abbrev listen : List ListenAddr
listen =
    record { addr = codes "a"; tls = true; ipv6_only = some true }
    ∷ record { addr = codes "b"; tls = false; ipv6_only = none }
    ∷ []

abbrev redirector : Result ℕ (Option ℕ)
redirector = ok none

abbrev callbacks : Result ℕ ℕ
callbacks = ok 7

abbrev settings : ℕ → Result ℕ ℕ
settings callbacks = ok callbacks

abbrev services : Services ℕ ℕ
services = record {
  redirector = none;
  sockets = tcp (codes "b") none ∷ encrypted (codes "a") (some true) 7 ∷ [];
}

set_up : into_server redirector callbacks settings listen none ≡ ok services
unfolding into_server listen_of tcp_sockets tls_sockets
set_up = refl

into_server-Perm_example : Perm (addresses services.sockets) (listen_of listen none)
into_server-Perm_example =
    into_server-Perm redirector callbacks settings listen none services set_up

abbrev chain : Bytes
chain = codes "ab-----END CERTIFICATE-----c-----END CERTIFICATE----- "

parts_tests :
    parts_of (length chain) chain
    ≡ codes "ab-----END CERTIFICATE-----" ∷ codes "c-----END CERTIFICATE-----" ∷ []
unfolding parts_of marker_at
parts_tests = refl

parts_of-Splits_example : Splits chain (parts_of (length chain) chain)
parts_of-Splits_example = parts_of-Splits chain

-- The certificate of a part is its length, and the key of a file is its path.
abbrev pem : Pem ℕ ℕ Bytes
pem = record {
  read_file = λ path. ok path;
  from_pem = λ part. ok (length part);
  private_key_from_pem = λ key. ok key;
}

abbrev explained : Explained ℕ
explained = record { empty_chain = 1; incomplete = 2; because = λ names e. e }

abbrev files : Bytes → Bytes → CertKeyConf
files cert key = record { cert_path = some cert; key_path = some key }

abbrev server_names : List (List Bytes × CertKeyConf)
server_names = ((codes "x" ∷ codes "y" ∷ []), files (codes "abc") (codes "k")) ∷ []

abbrev certificates : List (Bytes × (List ℕ × Bytes))
certificates =
    ([], (1 ∷ [], codes "l"))
    ∷ (codes "y", (3 ∷ [], codes "k"))
    ∷ (codes "x", (3 ∷ [], codes "k"))
    ∷ []

read_all :
    into_callbacks pem explained server_names (files (codes "d") (codes "l")) ≡ ok certificates
unfolding into_callbacks insert_all into_certificate read_chain parse_all parts_of marker_at
read_all = refl

-- A connection is the list of what it was given, the newest first. It accepts no key `l`.
abbrev tls : Ssl (List (ℕ ⊎ Bytes)) ℕ Bytes
tls = record {
  ssl_use_certificate = λ ssl x. some (inl x ∷ ssl);
  ssl_add_chain_cert = λ ssl x. some (inl x ∷ ssl);
  ssl_use_private_key = λ ssl key. if bytes_eq key (codes "l") then none else some (inr key ∷ ssl);
}

callback_tests :
    (certificate_callback tls certificates (some (codes "x")) []
      ≡ some (inr (codes "k") ∷ inl 3 ∷ []))
    × (certificate_callback tls certificates (some (codes "z")) [] ≡ none)
unfolding certificate_callback use_cert add_intermediates
callback_tests = (refl, refl)

certificate_callback-into_callbacks_example :
    (conf : CertKeyConf) × (leaf : ℕ) × (intermediates : List ℕ) × (key : Bytes) × Chosen
      server_names
      (files (codes "d") (codes "l"))
      (some (codes "x"))
      conf
    × (into_certificate pem explained conf ≡ ok (leaf ∷ intermediates, key))
    × ((before after : List (ℕ ⊎ Bytes))
        → (certificate_callback tls certificates (some (codes "x")) before ≡ some after)
          ↔ Uses tls before leaf intermediates key after)
certificate_callback-into_callbacks_example =
    certificate_callback-into_callbacks pem explained server_names (files (codes "d") (codes "l"))
      certificates read_all tls (some (codes "x"))

abbrev app : RedirectorApp
app = record { redirect_to = codes "b:81"; redirect_by_name = (codes "x", codes "z") ∷ [] }

redirect_tests :
    (target app (
        server_name (record {
          host = some (codes "x:80");
          uri_host = none;
          path_and_query = none;
          is_head = false;
        }))
      ≡ codes "z")
    × (target app none ≡ codes "b:81")
unfolding target server_name
redirect_tests = (refl, refl)
