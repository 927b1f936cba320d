-- ===== src/Router/Table/Sorted.antt =====
-- The entries of `RouterBuilder` stay sorted by their paths, on which its binary search relies.
use mathlib.Core.Path.{subst}
use pandora_web_server.Base.{
  ℕ, zero, suc, ◌≡◌, refl, sym, ◌∙◌, true, false, inl, inr, Bool-cases, Option, Bytes, List, [],
  ◌∷◌, ◌++◌, All, get_elem?, some, take, drop, modify, bytes_eq, bytes_eq_iff, bytes_le,
  bytes_le_total, bytes_le_trans, bytes_le_antisym, arith,
}
use pandora_web_server.Router.Path.{normalize}
use pandora_web_server.Router.Table.{
  RouterEntry, RouterBuilder, Search, at, belongs, next, search_path, overwrite, merge_at,
  merge_value, merge_host, push,
}
use pandora_web_server.Router.Table.Values.{next-eq-belongs, keeps_path}
use pandora_web_server.Router.Table.Normal.{All-append, All-take, All-drop, All-modify}

-- The first path comes before the second one, and is another one.
abbrev pub Before : Bytes → Bytes → Type 0
Before p q = bytes_le q p ≡ false

Before-trans : (p q r : Bytes) → Before p q → Before q r → Before p r
Before-trans p q r h k = elim (Bool-cases (bytes_le r p)) [
  | inr e ↦ e
  | inl e ↦
      let bad : bytes_le r q ≡ true = bytes_le_trans r p q e (bytes_le_total q p h) in
      absurd (true_false (sym bad ∙ k))
]
  where
    true_false : true ≡ false → ⊥
    true_false e = cc e

Before-of_le : (p q : Bytes) → bytes_le p q ≡ true → bytes_eq q p ≡ false → Before p q
Before-of_le p q h differ = elim (Bool-cases (bytes_le q p)) [
  | inr e ↦ e
  | inl e ↦ let bad = bytes_le_antisym q p e h in cc (bad, differ)
]

module _ {ℓ} {V : Type ℓ} where
  -- The paths of the entries behind each entry come after its own.
  abbrev pub IsSorted : List (RouterEntry V) → Type 0
  IsSorted [] = Unit
  IsSorted (e ∷ entries) = All (λ x. Before e.path x.path) entries × IsSorted entries

  All-Before :
      (p q : Bytes) (l : List (RouterEntry V))
      → Before p q
      → All (λ x. Before q x.path) l
      → All (λ x. Before p x.path) l
  All-Before p q [] h all = tt
  All-Before p q (z ∷ l) h (k, all) = (Before-trans p q z.path h k, All-Before p q l h all)

  -- What the library's search by bisection promises of its result, on a sorted list.
  unfoldable pub IsFound : Bytes → List (RouterEntry V) → Search → Type ℓ
  IsFound path l (at i) = (e : RouterEntry V) × (get_elem? l i ≡ some e) × (e.path ≡ path)
  IsFound path l (belongs i) =
      ((e : RouterEntry V) → get_elem? l i ≡ some e → Before path e.path)
      × All (λ x. Before x.path path) (take i l)
      × All (λ x. Before path x.path) (drop i l)

  IsFound-next :
      (path : Bytes) (y : RouterEntry V) (l : List (RouterEntry V)) (s : Search)
      → Before y.path path
      → IsFound path l s
      → IsFound path (y ∷ l) (next s)
  unfolding IsFound
  IsFound-next path y l (at i) before found = found
  IsFound-next path y l (belongs i) before (there, smaller, greater) =
      (there, (before, smaller), greater)

  -- The search from the front keeps what the library's search by bisection promises: on sorted
  -- entries it finds the index of the path, or else the one index with smaller paths in front of
  -- it and greater ones from it on.
  pub search_path-IsFound :
      (path : Bytes) (l : List (RouterEntry V)) → IsSorted l → IsFound path l (search_path path l)
  unfolding search_path IsFound
  search_path-IsFound path [] sorted = ((λ e f. cc f), tt, tt)
  search_path-IsFound path (y ∷ l) (after, sorted) = elim (Bool-cases (bytes_eq y.path path)) [
    | inl same ↦ rw (same, search_path) (y, refl, (bytes_eq_iff y.path path).0 same)
    | inr other ↦ elim (Bool-cases (bytes_le path y.path)) [
      | inl here ↦
          let before = Before-of_le path y.path here other in
          rw (other, here, search_path)
            (
              (λ e f.
                  let same : y ≡ e = ground (arith, f) in
                  subst (λ (x : RouterEntry V). Before path x.path) same before),
              tt,
              (before, All-Before path y.path l before after),
            )
      | inr later ↦
          rw (other, later, search_path)
            (IsFound-next path y l (search_path path l) later (search_path-IsFound path l sorted))
    ]
  ]

  IsSorted-insert :
      (path : Bytes) (l : List (RouterEntry V)) (x : RouterEntry V) (i : ℕ)
      → x.path ≡ path
      → search_path path l ≡ belongs i
      → IsSorted l
      → IsSorted (take i l ++ x ∷ drop i l)
  unfolding search_path
  IsSorted-insert path [] x zero p e sorted = (tt, tt)
  IsSorted-insert path [] x (suc i) p e sorted = (tt, tt)
  IsSorted-insert path (y ∷ l) x i p e (after, sorted) = elim (Bool-cases (bytes_eq y.path path)) [
    | inl same ↦ let bad : at 0 ≡ belongs i = rw same at e in cc bad
    | inr other ↦ elim (Bool-cases (bytes_le path y.path)) [
      | inl here ↦
          let first : belongs 0 ≡ belongs i = rw (other, here) at e in
          let z : i ≡ 0 = cc first in
          let before : Before x.path y.path =
            subst (λ q. Before q y.path) (sym p) (Before-of_le path y.path here other) in
          rw z (((before, All-Before x.path y.path l before after)), (after, sorted))
      | inr later ↦
          let step : next (search_path path l) ≡ belongs i = rw (other, later) at e in
          let (j, up, found) = next-eq-belongs (search_path path l) i step in
          let P : RouterEntry V → Type 0 = λ z. Before y.path z.path in
          rw up (
            All-append P (take j l) (x ∷ drop j l) (All-take P j l after)
                (subst (λ q. Before y.path q) (sym p) later, All-drop P j l after),
            IsSorted-insert path l x j p found sorted,
          )
    ]
  ]

  IsSorted-modify :
      (l : List (RouterEntry V)) (i : ℕ) (f : RouterEntry V → RouterEntry V)
      → ((x : RouterEntry V) → (f x).path ≡ x.path)
      → IsSorted l
      → IsSorted (modify l i f)
  IsSorted-modify [] i f keeps sorted = tt
  IsSorted-modify (x ∷ l) zero f keeps (after, sorted) =
      (subst (λ q. All (λ z. Before q z.path) l) (sym (keeps x)) after, sorted)
  IsSorted-modify (x ∷ l) (suc i) f keeps (after, sorted) = (
    All-modify (λ z. Before x.path z.path) l i f
        (λ z h. subst (λ q. Before x.path q) (sym (keeps z)) h) after,
    IsSorted-modify l i f keeps sorted,
  )

  merge_value-IsSorted :
      (existing : List (RouterEntry V)) (path : Bytes) (v : V) (p : Option V)
      → IsSorted existing
      → IsSorted (merge_value existing path v p).0
  unfolding merge_value
  merge_value-IsSorted existing path v p sorted = go (search_path path existing) refl
    where
      go : (s : Search) → search_path path existing ≡ s → IsSorted (merge_at s existing path v p).0
      go (at i) e = IsSorted-modify existing i (overwrite v p) (keeps_path v p) sorted
      go (belongs i) e = IsSorted-insert path existing _ i refl e sorted

  abbrev AllSorted : List (Bytes × List (RouterEntry V)) → Type 0
  AllSorted hosts = All (λ (host, entries). IsSorted entries) hosts

  merge_host-AllSorted :
      (hosts : List (Bytes × List (RouterEntry V))) (host path : Bytes) (v : V) (p : Option V)
      → AllSorted hosts
      → AllSorted (merge_host hosts host path v p).0
  unfolding merge_host
  merge_host-AllSorted [] host path v p all = (merge_value-IsSorted [] path v p tt, tt)
  merge_host-AllSorted ((name, existing) ∷ hosts) host path v p (sorted, all) =
      elim (Bool-cases (bytes_eq name host)) [
        | inl same ↦
            rw (same, merge_host, All) ((merge_value-IsSorted existing path v p sorted, all))
        | inr other ↦
            rw (other, merge_host, All) ((sorted, merge_host-AllSorted hosts host path v p all))
      ]

  -- The entries of each host and of the fallback host are sorted.
  abbrev pub IsSortedTable : RouterBuilder V → Type 0
  IsSortedTable b = AllSorted b.entries × IsSorted b.fallbacks

  -- A push keeps the table of a builder sorted: if the entries of each host are strictly in the
  -- order of their paths, so that no path is there twice, then they are so after the push of any
  -- route.
  pub push-IsSortedTable :
      (b : RouterBuilder V) (host path : Bytes) (v : V) (p : Option V)
      → IsSortedTable b
      → IsSortedTable (push b host path v p).0
  unfolding push
  push-IsSortedTable b [] path v p (hosts, fallbacks) =
      (hosts, merge_value-IsSorted b.fallbacks (normalize path) v p fallbacks)
  push-IsSortedTable b (x ∷ host) path v p (hosts, fallbacks) =
      (merge_host-AllSorted b.entries (x ∷ host) (normalize path) v p hosts, fallbacks)
