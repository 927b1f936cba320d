-- ===== src/Router/Routes/Longest.antt =====
-- pandora-module-utils/src/router.rs: what a router's lookup finds for a host and a path.
use pandora_web_server.Base.{
  ◌≡◌, refl, sym, ap, ◌∙◌, Option, none, some, or, Bytes, List, [], ◌∷◌, ◌++◌, All, Eq,
}
use pandora_web_server.Trie.Prefix.{separator}
use pandora_web_server.Trie.Builder.{TrieBuilder, push_all}
use pandora_web_server.Trie.Builder
use pandora_web_server.Trie.Flat.{Trie, LookupResult}
use pandora_web_server.Trie.Flat
use pandora_web_server.Trie.Flat.Answers.{value_of}
use pandora_web_server.Trie.Flat.Setups.{Keyed, IsKeyed, labelled, longest, lookup-push_all}
use pandora_web_server.Router.Path.Normal.{join}
use pandora_web_server.Router.Path.Segments.{segments_of, segments_of-IsSegment, IsSegment, NoSlash}
use pandora_web_server.Router.Table.{RouterEntry, RouterBuilder, builder, push}
use pandora_web_server.Router.Table.Normal.{IsNormal, AreNormal, IsTable, push-IsTable}
use pandora_web_server.Router.Routes.{
  Router, make_key, host_key, push_entries, push_hosts, push_fallbacks, lookup, build,
}

host_key-join :
    (host path : Bytes) → IsNormal path → host_key host path ≡ join (host ∷ segments_of path)
unfolding host_key
host_key-join host [] normal = refl
host_key-join host (b ∷ path) normal = under (segments_of (b ∷ path)) normal
  where
    under :
        (segments : List Bytes)
        → join segments ≡ b ∷ path
        → host ++ separator ∷ b ∷ path ≡ join (host ∷ segments)
    under [] e = cc e
    under (s ∷ segments) e = ap (λ x. host ++ separator ∷ x) (sym e)

-- The routes of a setup: host, path and values.
abbrev pub Routes {ℓ} : Type ℓ → Type ℓ
Routes V = List (Bytes × Bytes × V × Option V)

module _ {ℓ} {V : Type ℓ} where
  -- The entries of a host as values at the host and the segments of their paths.
  unfoldable pub host_slots : Bytes → List (RouterEntry V) → Keyed V
  host_slots host [] = []
  host_slots host (e ∷ entries) =
      (host ∷ segments_of e.path, e.value_exact, e.value_prefix) ∷ host_slots host entries

  unfoldable pub named_slots : List (Bytes × List (RouterEntry V)) → Keyed V
  named_slots [] = []
  named_slots ((host, entries) ∷ hosts) = host_slots host entries ++ named_slots hosts

  -- The entries of the fallback host as values at the segments of their paths.
  unfoldable pub fallback_slots : List (RouterEntry V) → Keyed V
  fallback_slots [] = []
  fallback_slots (e ∷ entries) =
      (segments_of e.path, e.value_exact, e.value_prefix) ∷ fallback_slots entries

  push_all-append :
      (s s' : Keyed V) (b : TrieBuilder V)
      → push_all b (labelled (s ++ s')) ≡ push_all (push_all b (labelled s)) (labelled s')
  unfolding push_all
  push_all-append [] s' b = refl
  push_all-append ((key, v, p) ∷ s) s' b = push_all-append s s' (Builder.push b (join key) v p).0

  IsKeyed-append : (s s' : Keyed V) → IsKeyed s → IsKeyed s' → IsKeyed (s ++ s')
  IsKeyed-append [] s' h k = k
  IsKeyed-append (_ ∷ s) s' (h, hs) k = (h, IsKeyed-append s s' hs k)

  host_slots-IsKeyed :
      (host : Bytes) (entries : List (RouterEntry V))
      → IsSegment host
      → IsKeyed (host_slots host entries)
  unfolding host_slots
  host_slots-IsKeyed host [] h = tt
  host_slots-IsKeyed host (e ∷ entries) h =
      ((h, segments_of-IsSegment e.path), host_slots-IsKeyed host entries h)

  named_slots-IsKeyed :
      (hosts : List (Bytes × List (RouterEntry V)))
      → All (λ (host, entries). IsSegment host × AreNormal entries) hosts
      → IsKeyed (named_slots hosts)
  unfolding named_slots
  named_slots-IsKeyed [] all = tt
  named_slots-IsKeyed ((host, entries) ∷ hosts) ((h, _), all) =
      IsKeyed-append (host_slots host entries) (named_slots hosts)
        (host_slots-IsKeyed host entries h) (named_slots-IsKeyed hosts all)

  fallback_slots-IsKeyed : (entries : List (RouterEntry V)) → IsKeyed (fallback_slots entries)
  unfolding fallback_slots
  fallback_slots-IsKeyed [] = tt
  fallback_slots-IsKeyed (e ∷ entries) =
      (segments_of-IsSegment e.path, fallback_slots-IsKeyed entries)

  push_entries-push_all :
      (host : Bytes) (entries : List (RouterEntry V)) (b : TrieBuilder V)
      → AreNormal entries
      → push_entries host entries b ≡ push_all b (labelled (host_slots host entries))
  unfolding push_entries push_all host_slots
  push_entries-push_all host [] b all = refl
  push_entries-push_all host (e ∷ entries) b (normal, all) =
      push_entries-push_all host entries
        (Builder.push b (host_key host e.path) e.value_exact e.value_prefix).0 all
      ∙ ap
          (λ l.
            push_all (Builder.push b l e.value_exact e.value_prefix).0
              (labelled (host_slots host entries)))
          (host_key-join host e.path normal)

  push_hosts-push_all :
      (hosts : List (Bytes × List (RouterEntry V))) (b : TrieBuilder V)
      → All (λ (host, entries). IsSegment host × AreNormal entries) hosts
      → push_hosts hosts b ≡ push_all b (labelled (named_slots hosts))
  unfolding push_hosts push_all named_slots
  push_hosts-push_all [] b all = refl
  push_hosts-push_all ((host, entries) ∷ hosts) b ((_, normal), all) =
      push_hosts-push_all hosts (push_entries host entries b) all
      ∙ ap (λ x. push_all x (labelled (named_slots hosts)))
          (push_entries-push_all host entries b normal)
      ∙ sym (push_all-append (host_slots host entries) (named_slots hosts) b)

  push_fallbacks-push_all :
      (entries : List (RouterEntry V)) (b : TrieBuilder V)
      → AreNormal entries
      → push_fallbacks entries b ≡ push_all b (labelled (fallback_slots entries))
  unfolding push_fallbacks push_all fallback_slots
  push_fallbacks-push_all [] b all = refl
  push_fallbacks-push_all (e ∷ entries) b (normal, all) =
      push_fallbacks-push_all entries (Builder.push b e.path e.value_exact e.value_prefix).0 all
      ∙ ap
          (λ l.
            push_all (Builder.push b l e.value_exact e.value_prefix).0
              (labelled (fallback_slots entries)))
          (sym normal)

  value_of-or : (a b : Option (LookupResult V)) → value_of (or a b) ≡ or (value_of a) (value_of b)
  value_of-or none b = refl
  value_of-or (some r) b = refl

  -- The value that a lookup has to find: for a host that is not empty the one of the host's
  -- entries; for an empty one, or if these have none, the one of the fallback host's entries.
  unfoldable pub route : RouterBuilder V → Bytes → Bytes → Option V
  unfolding longest named_slots fallback_slots
  route b [] path = longest (fallback_slots b.fallbacks) (segments_of path)
  route b (c ∷ host) path =
      or (longest (named_slots b.entries) ((c ∷ host) ∷ segments_of path))
        (longest (fallback_slots b.fallbacks) (segments_of path))

  unfoldable pub push_routes : RouterBuilder V → Routes V → RouterBuilder V
  push_routes b [] = b
  push_routes b ((host, path, v, p) ∷ routes) = push_routes (push b host path v p).0 routes

  push_routes-IsTable :
      (routes : Routes V) (b : RouterBuilder V)
      → All (λ (host, path, v, p). NoSlash host) routes
      → IsTable b
      → IsTable (push_routes b routes)
  unfolding push_routes
  push_routes-IsTable [] b plain table = table
  push_routes-IsTable ((host, path, v, p) ∷ routes) b (h, plain) table =
      push_routes-IsTable routes (push b host path v p).0 plain
        (push-IsTable b host path v p h table)

module _ {ℓ} {V : Type ℓ} ⦃e : Eq V⦄ where
  lookup_of_IsTable :
      (b : RouterBuilder V)
      → IsTable b
      → (r : Router V) × (build b ≡ some r)
        × ((host path : Bytes) → NoSlash host → value_of (lookup r host path) ≡ route b host path)
  unfolding build lookup route make_key
  lookup_of_IsTable b (hosts, fallbacks) =
      let (t, built, found) =
        lookup-push_all (named_slots b.entries) (named_slots-IsKeyed b.entries hosts) in
      let (f, built', found') =
        lookup-push_all (fallback_slots b.fallbacks) (fallback_slots-IsKeyed b.fallbacks) in
      let first = ap Flat.build (push_hosts-push_all b.entries Builder.new hosts) ∙ built in
      let second =
        ap Flat.build (push_fallbacks-push_all b.fallbacks Builder.new fallbacks) ∙ built' in
      let r : Router V = record { trie = t; fallback = f } in
      (r, rw (first, second, build) refl, answer t f found found')
    where
      answer :
          (t f : Trie V)
          → ((q : List Bytes)
              → All IsSegment q
              → value_of (Flat.lookup t q) ≡ longest (named_slots b.entries) q)
          → ((q : List Bytes)
              → All IsSegment q
              → value_of (Flat.lookup f q) ≡ longest (fallback_slots b.fallbacks) q)
          → (host path : Bytes) → NoSlash host
          → value_of (lookup (record { trie = t; fallback = f }) host path) ≡ route b host path
      answer t f found found' [] path plain = found' (segments_of path) (segments_of-IsSegment path)
      answer t f found found' (c ∷ host) path plain =
          let key = (c ∷ host) ∷ segments_of path in
          value_of-or (Flat.lookup t key) (Flat.lookup f (segments_of path))
          ∙ ap (λ x. or x (value_of (Flat.lookup f (segments_of path))))
              (found key ((refl, plain), segments_of-IsSegment path))
          ∙ ap (or (longest (named_slots b.entries) key))
              (found' (segments_of path) (segments_of-IsSegment path))

  -- For any sequence of routes whose hosts contain no separator, the `build` of the builder that
  -- they are pushed to returns a router, so that no assertion fails. Its `lookup` finds, for any
  -- host without a separator and any path, what `route` reads off the builder's table: the exact
  -- value at the host and the segments of the path, or else the prefix value at the longest start
  -- of them that has one, or else, and for an empty host at once, the same of the fallback entries.
  pub lookup-push_routes :
      (routes : Routes V)
      → All (λ (host, path, v, p). NoSlash host) routes
      → (r : Router V) × (build (push_routes builder routes) ≡ some r)
        × ((host path : Bytes)
            → NoSlash host
            → value_of (lookup r host path) ≡ route (push_routes builder routes) host path)
  lookup-push_routes routes plain =
      lookup_of_IsTable (push_routes builder routes)
        (push_routes-IsTable routes builder plain (unfold builder in (tt, tt)))
