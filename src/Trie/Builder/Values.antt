-- ===== src/Trie/Builder/Values.antt =====
-- What a builder's tree means: the values at each list of segments.
use pandora_web_server.Base.{
  ◌≡◌, ◌≢◌, refl, Bool, true, false, ◌&&◌, inl, inr, Bool-cases, Option, none, some, ◌>>=◌, Bytes,
  List, [], ◌∷◌, ◌++◌, bytes_eq, bytes_eq_iff, if◌then◌else◌, arith,
}
use pandora_web_server.Router.Path.Normal.{join}
use pandora_web_server.Router.Path.Segments.{segments_of}
use pandora_web_server.Trie.Builder.{BuilderNode, BuilderNodes, node, nil, cons, label_of}

-- What is left of a list behind its first segments.
unfoldable pub strip : List Bytes → List Bytes → Option (List Bytes)
strip [] q = some q
strip (p ∷ ps) [] = none
strip (p ∷ ps) (s ∷ q) = let rest = strip ps q in if bytes_eq p s then rest else none

unfoldable pub same : List Bytes → List Bytes → Bool
same [] [] = true
same [] (s ∷ q) = false
same (p ∷ ps) [] = false
same (p ∷ ps) (s ∷ q) = bytes_eq p s && same ps q

abbrev pub segs {ℓ} : {V : Type ℓ} → BuilderNode V → List Bytes
segs c = segments_of (label_of c)

-- The exact value and the prefix value.
abbrev pub Slot {ℓ} : Type ℓ → Type ℓ
Slot V = Option V × Option V

unfoldable mutual
  unfolding strip

  -- The values behind a node.
  pub at {ℓ} : {V : Type ℓ} → BuilderNode V → List Bytes → Slot V
  at (node l cs e p) [] = (e, p)
  at (node l cs e p) (s ∷ q) = at_children cs (s ∷ q)

  pub at_children {ℓ} : {V : Type ℓ} → BuilderNodes V → List Bytes → Slot V
  at_children nil q = (none, none)
  at_children (cons c cs) q = elim (strip (segs c) q) [ none ↦ at_children cs q | some r ↦ at c r ]

-- The lists do not start with the same segment.
unfoldable pub Apart : List Bytes → List Bytes → Type 0
Apart (p ∷ ps) (q ∷ qs) = bytes_eq p q ≡ false
Apart _ _ = Unit

unfoldable pub ApartAll {ℓ} : {V : Type ℓ} → List Bytes → BuilderNodes V → Type 0
unfolding Apart
ApartAll ps nil = Unit
ApartAll ps (cons c cs) = Apart ps (segs c) × ApartAll ps cs

-- The label is one of segments, one at least.
abbrev pub IsLabel : Bytes → Type 0
IsLabel l = (join (segments_of l) ≡ l) × (segments_of l ≢ [])

unfoldable mutual
  unfolding ApartAll

  -- The labels of the children are in order, and no two of them start with the same segment.
  pub IsTree {ℓ} : {V : Type ℓ} → BuilderNode V → Type 0
  IsTree (node l cs e p) = IsForest cs

  pub IsForest {ℓ} : {V : Type ℓ} → BuilderNodes V → Type 0
  IsForest nil = Unit
  IsForest (cons c cs) = IsLabel (label_of c) × ApartAll (segs c) cs × IsTree c × IsForest cs

pub strip_sound : (ps q r : List Bytes) → strip ps q ≡ some r → q ≡ ps ++ r
unfolding strip
strip_sound [] q r e = cc e
strip_sound (p ∷ ps) [] r e = cc e
strip_sound (p ∷ ps) (s ∷ q) r e = elim (Bool-cases (bytes_eq p s)) [
  | inr differ ↦ let bad : none ≡ some r = rw differ at e in cc bad
  | inl equal ↦
      let rest : strip ps q ≡ some r = rw equal at e in
      let head = (bytes_eq_iff p s).0 equal in let tail = strip_sound ps q r rest in cc (head, tail)
]

pub strip-append : (ps r : List Bytes) → strip ps (ps ++ r) ≡ some r
unfolding strip
strip-append [] r = refl
strip-append (p ∷ ps) r = let e = (bytes_eq_iff p p).1 refl in rw e (strip-append ps r)

pub strip-strip : (ps qs q : List Bytes) → strip (ps ++ qs) q ≡ (strip ps q >>= strip qs)
unfolding strip
strip-strip [] qs q = refl
strip-strip (p ∷ ps) qs [] = refl
strip-strip (p ∷ ps) qs (s ∷ q) = elim (Bool-cases (bytes_eq p s)) [
  | inl e ↦ rw e (strip-strip ps qs q)
  | inr e ↦ rw e refl
]

pub same_sound : (ps q : List Bytes) → same ps q ≡ true → ps ≡ q
unfolding same
same_sound [] [] e = refl
same_sound [] (s ∷ q) e = cc e
same_sound (p ∷ ps) [] e = cc e
same_sound (p ∷ ps) (s ∷ q) e =
    let head = (bytes_eq_iff p s).0 (ground (arith, e)) in
    let tail = same_sound ps q (ground (arith, e)) in cc (head, tail)

pub same-same : (ps : List Bytes) → same ps ps ≡ true
unfolding same
same-same [] = refl
same-same (p ∷ ps) = ground (arith, (bytes_eq_iff p p).1 refl, same-same ps)

-- The same, in front of the list that is left.
pub same-strip :
    (ps qs q : List Bytes)
    → same (ps ++ qs) q ≡ elim (strip ps q) as (λ x. Bool) [ none ↦ false | some r ↦ same qs r ]
unfolding same strip
same-strip [] qs q = refl
same-strip (p ∷ ps) qs [] = refl
same-strip (p ∷ ps) qs (s ∷ q) = elim (Bool-cases (bytes_eq p s)) [
  | inl e ↦ rw e (same-strip ps qs q)
  | inr e ↦ rw e refl
]
