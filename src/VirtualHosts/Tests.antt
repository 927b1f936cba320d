-- ===== src/VirtualHosts/Tests.antt =====
-- Virtual hosts on concrete inputs, and the theorems at such inputs.
use pandora_web_server.Base.{
  ℕ, Bool, ◌&&◌, ◌↔◌, ◌==◌, bytes_eq, bytes_eq_iff, arith, ◌≡◌, refl, true, false, Option, none,
  some, Bytes, [], ◌∷◌, codes, Eq,
}
use pandora_web_server.VirtualHosts.Configuration.{
  VirtualHostsConf, Route, insert_name, extend_names, names_of, push_names, push_subpath,
  push_subpaths, sort_subpaths, push_vhosts, try_from,
}
use pandora_web_server.VirtualHosts.Handler.{
  Uris, Called, set_uri_path, early_request_filter, as_inner, early_request_filter-as_inner,
}
use pandora_web_server.Trie.Flat.{LookupResult}
use pandora_web_server.Trie.Flat
use pandora_web_server.Router.Routes.{Router, make_key, retrieve}
use pandora_web_server.Router.Tests.{routes}

hosts : Unit {0}
unfolding routes try_from push_vhosts push_subpaths push_subpath push_names sort_subpaths
    extend_names insert_name early_request_filter as_inner set_uri_path retrieve Flat.retrieve
hosts = tt

names_test :
    names_of true (codes "b" ∷ [] ∷ codes "a" ∷ codes "b" ∷ []) ≡ [] ∷ codes "a" ∷ codes "b" ∷ []
unfolding extend_names insert_name
names_test = refl

abbrev uris : Uris Bytes Bytes
uris = record {
  path = λ uri. uri;
  query = λ uri. none;
  from_utf8_lossy = λ text. text;
  parse = λ text. some text;
  with_path_and_query = λ uri path. path;
}

abbrev option_eq : Option Bytes → Option Bytes → Bool
option_eq none none = true
option_eq none (some b) = false
option_eq (some a) none = false
option_eq (some a) (some b) = bytes_eq a b

option_eq_iff : (a b : Option Bytes) → (option_eq a b ≡ true) ↔ (a ≡ b)
option_eq_iff none none = ground arith
option_eq_iff none (some b) = ground arith
option_eq_iff (some a) none = ground arith
option_eq_iff (some a) (some b) = ground (arith, bytes_eq_iff a b)

route_eq_iff : (a b : Route ℕ) → ((option_eq a.0 b.0 && a.1 == b.1) ≡ true) ↔ (a ≡ b)
route_eq_iff (a, n) (b, m) = ground (arith, option_eq_iff a b)

instance abbrev route_instance : Eq (Route ℕ)
route_instance = record { beq = λ a b. option_eq a.0 b.0 && a.1 == b.1; beq_iff = route_eq_iff }

abbrev configuration : VirtualHostsConf ℕ
configuration =
    (
      codes "example.com" ∷ [],
      record {
        is_default = true;
        subpaths =
            (
              record { path = codes "dir"; exact = false },
              record { strip_prefix = true; config = 2 },
            )
            ∷ [];
        config = 1;
      },
    )
    ∷ []

abbrev handlers : Router (Route ℕ)
handlers = elim (try_from (λ c. some c) configuration) [
  | none ↦ record {
    trie = record { nodes = []; values = []; labels = [] };
    fallback = record { nodes = []; values = []; labels = [] };
  }
  | some router ↦ router
]

abbrev found : LookupResult (Route ℕ)
found = elim (Flat.lookup handlers.trie (make_key (codes "example.com") (codes "/dir/sub"))) [
  | none ↦ record { value = (none, 0); index = 0 }
  | some result ↦ result
]

handlers_test :
    (early_request_filter uris handlers (codes "example.com") (codes "/dir/sub")
      ≡ some (record { handler = 2; uri = codes "/sub"; index = found.index }))
    × (as_inner handlers (some found.index) ≡ some 2)
unfolding hosts
handlers_test = (refl, refl)

found-found :
    Flat.lookup handlers.trie (make_key (codes "example.com") (codes "/dir/sub")) ≡ some found
unfolding hosts
found-found = refl

early_request_filter-as_inner_example :
    (c : Called Bytes ℕ) × (early_request_filter uris handlers
        (codes "example.com")
        (codes "/dir/sub")
      ≡ some c)
    × (c.handler ≡ found.value.1)
    × (as_inner handlers (some c.index) ≡ some c.handler)
early_request_filter-as_inner_example =
    early_request_filter-as_inner handlers uris (codes "example.com") (codes "/dir/sub") found refl
      found-found
