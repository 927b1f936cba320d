-- ===== src/VirtualHosts/Handler.antt =====
-- virtual-hosts-module/src/handler.rs: the handler of a request's host and path.
use pandora_web_server.Base.{
  ℕ, ◌≡◌, refl, false, Option, none, some, ◌>>=◌, Bytes, ◌∷◌, ◌++◌, is_empty,
}
use pandora_web_server.Trie.Flat.{LookupResult}
use pandora_web_server.Trie.Flat
use pandora_web_server.Router.Path.{remove_prefix_from}
use pandora_web_server.Router.Routes.{Router, make_key}
use pandora_web_server.Router.Routes
use pandora_web_server.Router.Routes.Retrieve.{retrieve-lookup_named}
use pandora_web_server.VirtualHosts.Configuration.{Route}

-- The crate http's addresses, and `from_utf8_lossy`. `none` is an error.
pub record Uris (U P : Type 0) : Type 0 where
  pub path : U → Bytes
  pub query : U → Option Bytes
  pub from_utf8_lossy : Bytes → Bytes
  pub parse : Bytes → Option P
  pub with_path_and_query : U → Option P → Option U

-- What the inner handler is called with: the address that the session then has, and the index
-- in the context.
pub record Called (U H : Type 0) : Type 0 where
  pub handler : H
  pub uri : U
  pub index : ℕ

module _ {U P : Type 0} (uris : Uris U P) where
  -- `path_and_query.push('?')`, and the query; 63 is the question mark.
  abbrev with_query : Bytes → Option Bytes → Bytes
  with_query path none = path
  with_query path (some query) = path ++ 63 ∷ query

  abbrev or_uri : U → Option U → U
  or_uri uri none = uri
  or_uri uri (some changed) = changed

  unfoldable pub set_uri_path : U → Bytes → U
  set_uri_path uri path = or_uri uri (
      uris.with_path_and_query uri
        (uris.parse (with_query (uris.from_utf8_lossy path) (uris.query uri))))

  abbrev changed_uri : U → Option Bytes → U
  unfolding set_uri_path
  changed_uri uri none = uri
  changed_uri uri (some path) = set_uri_path uri path

module _ {U P : Type 0} (uris : Uris U P) {H : Type 0} (handlers : Router (Route H)) where
  abbrev pub called : U → LookupResult (Route H) → Called U H
  unfolding changed_uri
  called uri found = record {
    handler = found.value.1;
    uri =
        changed_uri uris uri (found.value.0 >>= λ strip. remove_prefix_from strip (uris.path uri));
    index = found.index;
  }

  -- `early_request_filter`: which handler is called, if any.
  unfoldable pub early_request_filter : Bytes → U → Option (Called U H)
  unfolding called
  early_request_filter host uri =
      Routes.lookup handlers host (uris.path uri) >>= λ found. some (called uri found)

module _ {H : Type 0} (handlers : Router (Route H)) where
  -- `as_inner`, which finds the handler of the later phases of the request.
  unfoldable pub as_inner : Option ℕ → Option H
  as_inner index = index >>= λ i. Routes.retrieve handlers i >>= λ route. some route.1

  -- If the trie of the named hosts finds something for a host that is not empty, then
  -- `early_request_filter` calls the handler that was found, and with the index that it keeps
  -- `as_inner` finds that handler again for the later phases of the request.
  pub early_request_filter-as_inner :
      {U P : Type 0} (uris : Uris U P) (host : Bytes) (uri : U) (found : LookupResult (Route H))
      → is_empty host ≡ false
      → Flat.lookup handlers.trie (make_key host (uris.path uri)) ≡ some found
      → (c : Called U H) × (early_request_filter uris handlers host uri ≡ some c)
        × (c.handler ≡ found.value.1)
        × (as_inner (some c.index) ≡ some c.handler)
  unfolding early_request_filter as_inner called
  early_request_filter-as_inner uris host uri found named e =
      let (looked_up, retrieved) =
        retrieve-lookup_named handlers host (uris.path uri) found named e in
      (called uris handlers uri found, rw looked_up refl, refl, rw retrieved refl)
