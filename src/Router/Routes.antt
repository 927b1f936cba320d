-- ===== src/Router/Routes.antt =====
-- pandora-module-utils/src/router.rs: `Router`, its construction, `lookup` and `retrieve`.
pub mod Retrieve
pub mod Longest
use pandora_web_server.Base.{
  ℕ, Bool, true, false, Option, none, some, or, ◌>>=◌, Bytes, List, [], ◌∷◌, ◌++◌, split, is_empty,
  if◌then◌else◌, Eq,
}
use pandora_web_server.Trie.Prefix.{separator}
use pandora_web_server.Trie.Builder.{TrieBuilder}
use pandora_web_server.Trie.Builder
use pandora_web_server.Trie.Flat.{Trie, LookupResult}
use pandora_web_server.Trie.Flat
use pandora_web_server.Router.Path.Normal.{drop_empty}
use pandora_web_server.Router.Table.{RouterEntry, RouterBuilder}

pub record Router {ℓ} (V : Type ℓ) : Type ℓ where
  pub trie : Trie V
  pub fallback : Trie V

-- `make_key`: the host, if it is not empty, and the segments of the path.
unfoldable pub make_key : Bytes → Bytes → List Bytes
make_key [] path = drop_empty (split separator path)
make_key (b ∷ host) path = (b ∷ host) ∷ drop_empty (split separator path)

-- The key of a route in the trie of the hosts.
unfoldable pub host_key : Bytes → Bytes → Bytes
host_key host [] = host
host_key host (b ∷ path) = host ++ separator ∷ b ∷ path

module _ {ℓ} {V : Type ℓ} where
  -- The inner loop of `build`.
  unfoldable pub push_entries : Bytes → List (RouterEntry V) → TrieBuilder V → TrieBuilder V
  push_entries host [] b = b
  push_entries host (entry ∷ entries) b =
      push_entries host entries
        (Builder.push b (host_key host entry.path) entry.value_exact entry.value_prefix).0

  unfoldable pub push_hosts : List (Bytes × List (RouterEntry V)) → TrieBuilder V → TrieBuilder V
  push_hosts [] b = b
  push_hosts ((host, entries) ∷ hosts) b = push_hosts hosts (push_entries host entries b)

  unfoldable pub push_fallbacks : List (RouterEntry V) → TrieBuilder V → TrieBuilder V
  push_fallbacks [] b = b
  push_fallbacks (entry ∷ entries) b =
      push_fallbacks entries (Builder.push b entry.path entry.value_exact entry.value_prefix).0

  -- `Router::lookup`.
  unfoldable pub lookup : Router V → Bytes → Bytes → Option (LookupResult V)
  unfolding make_key
  lookup r host path =
      let named = Flat.lookup r.trie (make_key host path) in
      or (if is_empty host then none else named) (Flat.lookup r.fallback (make_key [] path))

  -- `Router::retrieve`.
  unfoldable pub retrieve : Router V → ℕ → Option V
  retrieve r index = Flat.retrieve r.trie index

module _ {ℓ} {V : Type ℓ} ⦃e : Eq V⦄ where
  -- `RouterBuilder::build`; `none` is a panic in one of the tries.
  unfoldable pub build : RouterBuilder V → Option (Router V)
  unfolding push_entries push_hosts push_fallbacks
  build b = do
    trie ← Flat.build (push_hosts b.entries Builder.new)
    fallback ← Flat.build (push_fallbacks b.fallbacks Builder.new)
    some (record { trie = trie; fallback = fallback })
