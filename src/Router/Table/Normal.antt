-- ===== src/Router/Table/Normal.antt =====
-- The paths that `RouterBuilder` keeps are normal, and its hosts are segments.
use pandora_web_server.Base.{
  ℕ, zero, suc, ◌≡◌, inl, inr, Bool-cases, Option, none, some, Bytes, List, [], ◌∷◌, ◌++◌, All,
  take, drop, modify, bytes_eq, sym, ap, ◌∙◌, refl,
}
use pandora_web_server.Router.Path.{normalize}
use pandora_web_server.Router.Path.Normal.{join, normalize_lem}
use pandora_web_server.Router.Path.Segments.{segments_of, normalize-segments, NoSlash, IsSegment}
use pandora_web_server.Router.Table.{
  RouterEntry, RouterBuilder, Search, at, belongs, search_path, overwrite, merge_at, merge_value,
  merge_host, push,
}

abbrev pub IsNormal : Bytes → Type 0
IsNormal path = join (segments_of path) ≡ path

normalize-IsNormal : (path : Bytes) → IsNormal (normalize path)
normalize-IsNormal path = ap join ((normalize-segments path).0) ∙ sym (normalize_lem path)

module _ {ℓ κ} {A : Type ℓ} (P : A → Type κ) where
  pub All-append : (xs ys : List A) → All P xs → All P ys → All P (xs ++ ys)
  All-append [] ys all rest = rest
  All-append (x ∷ xs) ys (p, all) rest = (p, All-append xs ys all rest)

  pub All-take : (n : ℕ) (xs : List A) → All P xs → All P (take n xs)
  All-take zero xs all = tt
  All-take (suc n) [] all = tt
  All-take (suc n) (x ∷ xs) (p, all) = (p, All-take n xs all)

  pub All-drop : (n : ℕ) (xs : List A) → All P xs → All P (drop n xs)
  All-drop zero xs all = all
  All-drop (suc n) [] all = tt
  All-drop (suc n) (x ∷ xs) (p, all) = All-drop n xs all

  pub All-modify :
      (xs : List A) (i : ℕ) (f : A → A)
      → ((x : A) → P x → P (f x))
      → All P xs
      → All P (modify xs i f)
  All-modify [] i f h all = tt
  All-modify (x ∷ xs) zero f h (p, all) = (h x p, all)
  All-modify (x ∷ xs) (suc i) f h (p, all) = (p, All-modify xs i f h all)

module _ {ℓ} {V : Type ℓ} where
  abbrev pub AreNormal : List (RouterEntry V) → Type 0
  AreNormal entries = All (λ e. IsNormal e.path) entries

  -- Every host is a segment, and every path is normal.
  abbrev pub IsTable : RouterBuilder V → Type 0
  IsTable b =
      All (λ (host, entries). IsSegment host × AreNormal entries) b.entries × AreNormal b.fallbacks

  overwrite-IsNormal :
      (v : V) (p : Option V) (e : RouterEntry V) → IsNormal e.path → IsNormal (overwrite v p e).path
  overwrite-IsNormal v none e h = h
  overwrite-IsNormal v (some w) e h = h

  merge_value-AreNormal :
      (existing : List (RouterEntry V)) (path : Bytes) (v : V) (p : Option V)
      → IsNormal path
      → AreNormal existing
      → AreNormal (merge_value existing path v p).0
  unfolding merge_value
  merge_value-AreNormal existing path v p normal all = go (search_path path existing)
    where
      go : (s : Search) → AreNormal (merge_at s existing path v p).0
      go (at i) =
          All-modify (λ e. IsNormal e.path) existing i (overwrite v p) (overwrite-IsNormal v p) all
      go (belongs i) =
          All-append (λ e. IsNormal e.path) (take i existing) _
            (All-take (λ e. IsNormal e.path) i existing all)
            (normal, All-drop (λ e. IsNormal e.path) i existing all)

  abbrev AreHosts : List (Bytes × List (RouterEntry V)) → Type 0
  AreHosts entries = All (λ (host, entries). IsSegment host × AreNormal entries) entries

  merge_host-AreHosts :
      (hosts : List (Bytes × List (RouterEntry V))) (host path : Bytes) (v : V) (p : Option V)
      → IsSegment host
      → IsNormal path
      → AreHosts hosts
      → AreHosts (merge_host hosts host path v p).0
  unfolding merge_host
  merge_host-AreHosts [] host path v p segment normal all =
      ((segment, merge_value-AreNormal [] path v p normal tt), tt)
  merge_host-AreHosts ((name, existing) ∷ hosts) host path v p segment normal ((h, n), all) =
      elim (Bool-cases (bytes_eq name host)) [
        | inl same ↦
            rw (same, merge_host, All) ((h, merge_value-AreNormal existing path v p normal n), all)
        | inr other ↦
            rw (other, merge_host, All)
              ((h, n), merge_host-AreHosts hosts host path v p segment normal all)
      ]

  -- A push keeps the hosts segments and the paths normal, if its own host has no separator.
  pub push-IsTable :
      (b : RouterBuilder V) (host path : Bytes) (v : V) (p : Option V)
      → NoSlash host
      → IsTable b
      → IsTable (push b host path v p).0
  unfolding push
  push-IsTable b [] path v p plain (hosts, fallbacks) = (
    hosts,
    merge_value-AreNormal b.fallbacks (normalize path) v p (normalize-IsNormal path) fallbacks,
  )
  push-IsTable b (x ∷ host) path v p plain (hosts, fallbacks) = (
    merge_host-AreHosts b.entries (x ∷ host) (normalize path) v p (refl, plain)
        (normalize-IsNormal path) hosts,
    fallbacks,
  )
