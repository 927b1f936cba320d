-- ===== src/Trie/Prefix/Joined.antt =====
-- Labels as lists of segments: the common prefix of two labels is that of their segments.
use mathlib.Core.List.{append-nil}
use pandora_web_server.Base.{
  ℕ, suc, ◌+◌, ◌≡◌, refl, sym, ap, ◌∙◌, false, inl, inr, Bool-cases, Bytes, List, [], ◌∷◌, ◌++◌,
  All, length, length-append, ◌==◌, ==_iff, bytes_eq, bytes_eq_iff, if◌then◌else◌, arith,
}
use pandora_web_server.Trie.Prefix.{separator, common_prefix_from, common_prefix_length}
use pandora_web_server.Router.Path.Normal.{join}
use pandora_web_server.Router.Path.Segments.{IsSegment, NoSlash}

-- The first segments that two lists share.
abbrev pub common : List Bytes → List Bytes → List Bytes
common [] qs = []
common (p ∷ ps) [] = []
common (p ∷ ps) (q ∷ qs) = let rest = common ps qs in if bytes_eq p q then p ∷ rest else []

-- What stands behind the first segment of a label.
abbrev pub behind : List Bytes → Bytes
behind [] = []
behind (p ∷ ps) = separator ∷ join (p ∷ ps)

pub join-cons : (p : Bytes) (ps : List Bytes) → join (p ∷ ps) ≡ p ++ behind ps
join-cons p [] = sym (append-nil p)
join-cons p (q ∷ ps) = refl

same_segment :
    (i l : ℕ) (p a b : Bytes)
    → NoSlash p
    → common_prefix_from i l (p ++ a) (p ++ b) ≡ common_prefix_from (i + length p) l a b
unfolding common_prefix_from
same_segment i l [] a b h = ap (λ k. common_prefix_from k l a b) (omega arith)
same_segment i l (x ∷ p) a b (plain, h) =
    let same = (==_iff x x).1 refl in
    let k : (i + 1) + length p ≡ i + suc (length p) = omega arith in
    rw (same, plain) (same_segment (i + 1) l p a b h ∙ ap (λ j. common_prefix_from j l a b) k)

other_segment :
    (i l : ℕ) (p q : Bytes) (ps qs : List Bytes)
    → NoSlash p
    → NoSlash q
    → bytes_eq p q ≡ false
    → common_prefix_from i l (p ++ behind ps) (q ++ behind qs) ≡ l
unfolding common_prefix_from
other_segment i l [] [] ps qs h k e = absurd (ground (arith, e))
other_segment i l [] (y ∷ q) [] qs h (plain, k) e = rw plain refl
other_segment i l [] (y ∷ q) (p' ∷ ps) qs h (plain, k) e =
    let differ : (separator == y) ≡ false = ground (arith, plain) in rw differ refl
other_segment i l (x ∷ p) [] ps [] (plain, h) k e = rw plain refl
other_segment i l (x ∷ p) [] ps (q' ∷ qs) (plain, h) k e = rw plain refl
other_segment i l (x ∷ p) (y ∷ q) ps qs (plain, h) (plain', k) e = elim (Bool-cases (x == y)) [
  | inr differ ↦ rw differ refl
  | inl same ↦ rw (same, plain) (other_segment (i + 1) l p q ps qs h k (ground (arith, e, same)))
]

-- The result for two labels, if that for what stands behind their first segments is known.
first_segments :
    (i l : ℕ) (p q : Bytes) (ps qs : List Bytes)
    → NoSlash p
    → NoSlash q
    → common_prefix_from (i + length p) l (behind ps) (behind qs)
      ≡ i + length (join (p ∷ common ps qs))
    → common_prefix_from i l (join (p ∷ ps)) (join (q ∷ qs))
      ≡ (if bytes_eq p q then i + length (join (p ∷ common ps qs)) else l)
first_segments i l p q ps qs h k r =
    rw (join-cons p ps, join-cons q qs)
      (elim (Bool-cases (bytes_eq p q)) [
        | inr differ ↦ rw differ (other_segment i l p q ps qs h k differ)
        | inl same ↦ rw same (under ((bytes_eq_iff p q).0 same))
      ])
  where
    under :
        p ≡ q
        → common_prefix_from i l (p ++ behind ps) (q ++ behind qs)
          ≡ i + length (join (p ∷ common ps qs))
    under e = rw (← e) (same_segment i l p (behind ps) (behind qs) h ∙ r)

common_prefix_from-join :
    (i l : ℕ) (p q : Bytes) (ps qs : List Bytes)
    → All IsSegment (p ∷ ps)
    → All IsSegment (q ∷ qs)
    → common_prefix_from i l (join (p ∷ ps)) (join (q ∷ qs))
      ≡ (if bytes_eq p q then i + length (join (p ∷ common ps qs)) else l)
unfolding common_prefix_from
common_prefix_from-join i l p q [] [] (h, hs) (k, ks) =
    first_segments i l p q [] [] (h.1) (k.1) refl
common_prefix_from-join i l p q [] (q' ∷ qs) (h, hs) (k, ks) =
    first_segments i l p q [] (q' ∷ qs) (h.1) (k.1) refl
common_prefix_from-join i l p q (p' ∷ ps) [] (h, hs) (k, ks) =
    first_segments i l p q (p' ∷ ps) [] (h.1) (k.1) refl
common_prefix_from-join i l p q (p' ∷ ps) (q' ∷ qs) (h, hs) (k, ks) =
    first_segments i l p q (p' ∷ ps) (q' ∷ qs) (h.1) (k.1) (
      common_prefix_from-join (i + length p + 1) (i + length p) p' q' ps qs hs ks
      ∙ elim (Bool-cases (bytes_eq p' q')) [
        | inl same ↦
            rw same (ground (arith, length-append p (separator ∷ join (p' ∷ common ps qs))))
        | inr differ ↦ rw differ refl
      ])

common_prefix_from-nil :
    (a : Bytes) → (common_prefix_from 0 0 [] a ≡ 0) × (common_prefix_from 0 0 a [] ≡ 0)
unfolding common_prefix_from
common_prefix_from-nil [] = (refl, refl)
common_prefix_from-nil (x ∷ a) = ground arith

-- The common prefix of two labels of segments is the label of the segments that they share.
pub common_prefix_length-join :
    (ps qs : List Bytes)
    → All IsSegment ps
    → All IsSegment qs
    → common_prefix_length (join ps) (join qs) ≡ length (join (common ps qs))
unfolding common_prefix_length
common_prefix_length-join [] qs hs ks = (common_prefix_from-nil (join qs)).0
common_prefix_length-join (p ∷ ps) [] hs ks = (common_prefix_from-nil (join (p ∷ ps))).1
common_prefix_length-join (p ∷ ps) (q ∷ qs) hs ks =
    common_prefix_from-join 0 0 p q ps qs hs ks
    ∙ elim (Bool-cases (bytes_eq p q)) [ inl e ↦ rw e (omega arith) | inr e ↦ rw e refl ]
