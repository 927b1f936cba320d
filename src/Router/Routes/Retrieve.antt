-- ===== src/Router/Routes/Retrieve.antt =====
-- Which lookups `retrieve` can repeat, and which parts of a path a lookup reads.
use pandora_web_server.Base.{
  false, ◌≡◌, refl, ap, Option, none, some, ◌>>=◌, Bytes, List, [], ◌∷◌, is_empty, Eq, arith,
}
use pandora_web_server.Trie.Builder
use pandora_web_server.Trie.Flat
use pandora_web_server.Trie.Flat.{Trie, LookupResult}
use pandora_web_server.Trie.Flat.Retrieve
use pandora_web_server.Router.Path.{normalize}
use pandora_web_server.Router.Path.Segments.{normalize-segments}
use pandora_web_server.Router.Table.{RouterBuilder}
use pandora_web_server.Router.Routes.{
  Router, make_key, push_hosts, push_fallbacks, lookup, retrieve, build,
}

make_key-normalize : (host path : Bytes) → make_key host (normalize path) ≡ make_key host path
unfolding make_key
make_key-normalize [] path = (normalize-segments path).0
make_key-normalize (b ∷ host) path = ap (λ s. (b ∷ host) ∷ s) (normalize-segments path).0

module _ {ℓ} {V : Type ℓ} where
  -- A lookup has the same result for a path and for its normal form.
  pub lookup-normalize :
      (r : Router V) (host path : Bytes) → lookup r host (normalize path) ≡ lookup r host path
  unfolding lookup
  lookup-normalize r host path = simp make_key-normalize

  -- If the trie of the named hosts finds something for a host that is not empty, then the
  -- router's lookup returns that, and its index retrieves its value.
  pub retrieve-lookup_named :
      (r : Router V) (host path : Bytes) (found : LookupResult V)
      → is_empty host ≡ false
      → Flat.lookup r.trie (make_key host path) ≡ some found
      → (lookup r host path ≡ some found) × (retrieve r found.index ≡ some found.value)
  unfolding lookup retrieve
  retrieve-lookup_named r host path found named e =
      (rw (named, e), Retrieve.retrieve-lookup r.trie (make_key host path) found e)

module _ {ℓ} {V : Type ℓ} ⦃e : Eq V⦄ where
  abbrev no_routes : Trie V
  no_routes = record {
    nodes = record Flat.empty_node { children = record { start = 1; stop = 1 } } ∷ [];
    values = [];
    labels = [];
  }

  build-new : Flat.build (push_hosts [] (Builder.new {V = V})) ≡ some no_routes
  unfolding Flat.build push_hosts Builder.new Flat.into_trie_node Flat.store_node Flat.store_value
      Flat.reserve Flat.into_trie_children
  build-new = refl

  lookup-no_routes : (segments : List Bytes) → Flat.lookup no_routes segments ≡ none
  unfolding Flat.lookup
  lookup-no_routes [] = refl
  lookup-no_routes (s ∷ segments) = refl

  build-trie :
      (b : RouterBuilder V) (r : Router V) → b.entries ≡ [] → build b ≡ some r → r.trie ≡ no_routes
  unfolding build
  build-trie b r empty built =
      go (Flat.build (push_fallbacks b.fallbacks Builder.new)) (rw (empty, build-new) at built)
    where
      go :
          (o : Option (Trie V))
          → (do fallback ← o; some (record { trie = no_routes; fallback = fallback })) ≡ some r
          → r.trie ≡ no_routes
      go none h = cc h
      go (some t) h = ground (arith, h)

  -- In a router that was built from routes for the fallback host only, whatever a lookup finds is
  -- in the trie of the fallback host at its index, and `retrieve` finds nothing at that index.
  pub retrieve-fallback :
      (b : RouterBuilder V) (r : Router V) (host path : Bytes) (found : LookupResult V)
      → b.entries ≡ []
      → build b ≡ some r
      → lookup r host path ≡ some found
      → (Flat.retrieve r.fallback found.index ≡ some found.value) × (retrieve r found.index ≡ none)
  unfolding lookup retrieve
  retrieve-fallback b r host path found empty built h =
      let alone = build-trie b r empty built in
      let missed : Flat.lookup r.trie (make_key host path) ≡ none = rw alone (lookup-no_routes _) in
      let answered : Flat.lookup r.fallback (make_key [] path) ≡ some found =
        ground (arith, h, missed) in
      (
        Retrieve.retrieve-lookup r.fallback (make_key [] path) found answered,
        rw alone (unfold Flat.retrieve in refl),
      )
