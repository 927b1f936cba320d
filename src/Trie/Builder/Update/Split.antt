-- ===== src/Trie/Builder/Update/Split.antt =====
-- Where two labels part, and a child that is split there.
use mathlib.Core.Path.{subst}
use mathlib.Core.List.{append-nil, append_assoc}
use pandora_web_server.Base.{
  ℕ, suc, ◌+◌, ◌≤◌, ◌<◌, min, ◌≡◌, ◌≢◌, refl, sym, ap, ◌∙◌, true, false, inl, inr, Bool-cases,
  Option, none, some, Option-cases, ◌>>=◌, Bytes, List, [], ◌∷◌, ◌++◌, All, length, length-append,
  take, drop, bytes_eq, bytes_eq_iff, ltb, lt→ltb, arith,
}
use pandora_web_server.Trie.Prefix.{separator}
use pandora_web_server.Trie.Prefix.Joined.{common}
use pandora_web_server.Router.Path.Normal.{join}
use pandora_web_server.Router.Path.Segments.{
  segments_of, IsSegment, segments_of-join, segments_of-IsSegment,
}
use pandora_web_server.Trie.Builder.{
  BuilderNode, BuilderNodes, node, nil, cons, label_of, split_child, meet_child,
}
use pandora_web_server.Trie.Builder.Values.{
  strip, segs, Slot, at, at_children, Apart, ApartAll, IsLabel, IsTree, strip-strip,
}

-- Two lists, where they part.
pub record Parting (ps qs : List Bytes) : Type 0 where
  pub left : List Bytes
  pub right : List Bytes
  pub left_lem : ps ≡ common ps qs ++ left
  pub right_lem : qs ≡ common ps qs ++ right
  pub apart : Apart left right

pub parting : (ps qs : List Bytes) → Parting ps qs
unfolding Apart
parting [] qs = record { left = []; right = qs; left_lem = refl; right_lem = refl; apart = tt }
parting (p ∷ ps) [] = record {
  left = p ∷ ps;
  right = [];
  left_lem = refl;
  right_lem = refl;
  apart = tt;
}
parting (p ∷ ps) (q ∷ qs) = elim (Bool-cases (bytes_eq p q)) [
  | inl e ↦
      let rest = parting ps qs in
      let head = (bytes_eq_iff p q).0 e in
      record {
        left = rest.left;
        right = rest.right;
        left_lem = rw (e, common) (ap (λ r. p ∷ r) rest.left_lem);
        right_lem =
            rw (e, common)
              (ap (λ r. q ∷ r) rest.right_lem
                ∙ ap (λ x. x ∷ common ps qs ++ rest.right) (sym head));
        apart = rest.apart;
      }
  | inr e ↦ record {
    left = p ∷ ps;
    right = q ∷ qs;
    left_lem = rw (e, common) refl;
    right_lem = rw (e, common) refl;
    apart = e;
  }
]

pub All-append :
    (ps qs : List Bytes) → All IsSegment (ps ++ qs) → All IsSegment ps × All IsSegment qs
All-append [] qs h = (tt, h)
All-append (p ∷ ps) qs (k, h) = let (a, b) = All-append ps qs h in ((k, a), b)

pub join-append_cons :
    (c : Bytes) (cs : List Bytes) (p : Bytes) (ps : List Bytes)
    → join ((c ∷ cs) ++ p ∷ ps) ≡ join (c ∷ cs) ++ separator ∷ join (p ∷ ps)
join-append_cons c [] p ps = refl
join-append_cons c (d ∷ cs) p ps =
    ap (λ r. c ++ separator ∷ r) (join-append_cons d cs p ps)
    ∙ sym (append_assoc c (separator ∷ join (d ∷ cs)) (separator ∷ join (p ∷ ps)))

take-front : (a b : Bytes) → take (length a) (a ++ b) ≡ a
take-front [] b = refl
take-front (x ∷ a) b = ap (λ r. x ∷ r) (take-front a b)

drop-front : (a : Bytes) (x : ℕ) (b : Bytes) → drop (suc (length a)) (a ++ x ∷ b) ≡ b
drop-front [] x b = refl
drop-front (y ∷ a) x b = drop-front a x b

pub join_pos : (c : Bytes) (cs : List Bytes) → All IsSegment (c ∷ cs) → 0 < length (join (c ∷ cs))
join_pos [] cs ((h, _), _) = absurd (ground (arith, h))
join_pos (b ∷ c) [] h = omega arith
join_pos (b ∷ c) (d ∷ cs) h = omega arith

drop-length : (a : Bytes) (n : ℕ) → length a ≤ n → drop (min (n + 1) (length a)) a ≡ []
drop-length a n h = ap (λ k. drop k a) min_lem ∙ all a
  where
    min_lem : min (n + 1) (length a) ≡ length a
    min_lem = omega arith

    all : (b : Bytes) → drop (length b) b ≡ []
    all [] = refl
    all (x ∷ b) = all b

-- What is left of a label behind the segments that it shares with a child, and how long that is.
pub drop_shared :
    (ks qs : List Bytes)
    → ks ≢ []
    → drop (min (length (join ks) + 1) (length (join (ks ++ qs)))) (join (ks ++ qs)) ≡ join qs
drop_shared [] qs h = absurd (h refl)
drop_shared (k ∷ ks) [] h =
    ap (λ x. drop (min (length (join (k ∷ ks)) + 1) (length (join x))) (join x))
      (append-nil (k ∷ ks))
    ∙ drop-length (join (k ∷ ks)) (length (join (k ∷ ks))) (omega arith)
drop_shared (k ∷ ks) (q ∷ qs) h =
    let n = length (join (k ∷ ks)) in
    let size = length-append (join (k ∷ ks)) (separator ∷ join (q ∷ qs)) in
    let cut : min (n + 1) (length (join (k ∷ ks) ++ separator ∷ join (q ∷ qs))) ≡ suc n =
      omega (arith, size) in
    ap (λ x. drop (min (n + 1) (length x)) x) (join-append_cons k ks q qs)
    ∙ ap (λ i. drop i (join (k ∷ ks) ++ separator ∷ join (q ∷ qs))) cut
    ∙ drop-front (join (k ∷ ks)) separator (join (q ∷ qs))

pub shorter_shared :
    (ks qs : List Bytes)
    → ks ≢ []
    → All IsSegment (ks ++ qs)
    → length (join qs) < length (join (ks ++ qs))
shorter_shared [] qs h all = absurd (h refl)
shorter_shared (k ∷ ks) [] h all = join_pos k (ks ++ []) all
shorter_shared (k ∷ ks) (q ∷ qs) h all =
    let size =
      ap length (join-append_cons k ks q qs)
      ∙ length-append (join (k ∷ ks)) (separator ∷ join (q ∷ qs)) in
    omega (arith, size)

module _ {ℓ} {V : Type ℓ} where
  -- The values behind a child, and `z` where the path does not start with its label.
  abbrev pub at_child : BuilderNode V → Slot V → List Bytes → Slot V
  at_child c z q = elim (strip (segs c) q) [ none ↦ z | some r ↦ at c r ]

  pub at_child-none :
      (c : BuilderNode V) (z : Slot V) (q : List Bytes)
      → strip (segs c) q ≡ none
      → at_child c z q ≡ z
  at_child-none c z q e = rw (e, at_child) refl

  pub at_child-some :
      (c : BuilderNode V) (z : Slot V) (q r : List Bytes)
      → strip (segs c) q ≡ some r
      → at_child c z q ≡ at c r
  at_child-some c z q r e = rw (e, at_child) refl

  at-relabel :
      (l l' : Bytes) (cs : BuilderNodes V) (e p : Option V) (q : List Bytes)
      → at (node l cs e p) q ≡ at (node l' cs e p) q
  unfolding at
  at-relabel l l' cs e p [] = refl
  at-relabel l l' cs e p (s ∷ q) = refl

  -- A child `c`, and what `meet_child` makes of it for a label that shares the segments `ps`.
  pub record Meets (c m : BuilderNode V) (ps : List Bytes) : Type ℓ where
    pub label : label_of m ≡ join ps
    pub tree : IsTree m
    pub values :
        (z : Slot V) (q : List Bytes)
        → ((r : List Bytes) → strip ps q ≡ some r → z ≡ (none, none))
        → at_child m z q ≡ at_child c z q

  meet_whole :
      (c : BuilderNode V) (k : Bytes) (ks : List Bytes) (nodes labels : ℕ)
      → segs c ≡ k ∷ ks
      → label_of c ≡ join (k ∷ ks)
      → IsTree c
      → Meets c (meet_child (length (join (k ∷ ks))) c nodes labels).changed (k ∷ ks)
  unfolding meet_child
  meet_whole c k ks nodes labels e l tree =
      let whole : ltb (length (join (k ∷ ks))) (length (label_of c)) ≡ false =
        rw l (ground arith) in
      rw whole (record { label = l; tree = tree; values = λ z q h. refl })

  -- A node for the first segments, with the old node behind it for the others, has the same values.
  split_values :
      (l l' l'' : Bytes) (cs : BuilderNodes V) (e p : Option V) (ks ps : List Bytes) (k : Bytes)
      → segments_of l ≡ ks ++ k ∷ ps
      → segments_of l' ≡ ks
      → segments_of l'' ≡ k ∷ ps
      → (z : Slot V) (q : List Bytes) → ((r : List Bytes) → strip ks q ≡ some r → z ≡ (none, none))
      → at_child (node l' (cons (node l'' cs e p) nil) none none) z q ≡ at_child (node l cs e p) z q
  unfolding at at_children strip
  split_values l l' l'' cs e p ks ps k whole first rest z q free =
      let step = ap (λ x. strip x q) whole ∙ strip-strip ks (k ∷ ps) q in
      elim (Option-cases (strip ks q)) [
        | inl missed ↦
            at_child-none upper z q (ap (λ x. strip x q) first ∙ missed)
            ∙ sym (at_child-none whole_child z q (step ∙ ap (λ x. x >>= strip (k ∷ ps)) missed))
        | inr (r, found) ↦
            at_child-some upper z q r (ap (λ x. strip x q) first ∙ found)
            ∙ below r (free r found) (step ∙ ap (λ x. x >>= strip (k ∷ ps)) found)
      ]
    where
      whole_child : BuilderNode V
      whole_child = node l cs e p

      lower : BuilderNode V
      lower = node l'' cs e p

      upper : BuilderNode V
      upper = node l' (cons lower nil) none none

      below :
          (r : List Bytes)
          → z ≡ (none, none)
          → strip (segments_of l) q ≡ strip (k ∷ ps) r
          → at upper r ≡ at_child whole_child z q
      below [] h f = sym (at_child-none whole_child z q f ∙ h)
      below (s ∷ r) h f = elim (Option-cases (strip (k ∷ ps) (s ∷ r))) [
        | inl missed ↦
            at_child-none lower (none, none) (s ∷ r) (ap (λ x. strip x (s ∷ r)) rest ∙ missed)
            ∙ sym (at_child-none whole_child z q (f ∙ missed) ∙ h)
        | inr (t, found) ↦
            at_child-some lower (none, none) (s ∷ r) t (ap (λ x. strip x (s ∷ r)) rest ∙ found)
            ∙ at-relabel l'' l cs e p t
            ∙ sym (at_child-some whole_child z q t (f ∙ found))
      ]

  meet_part :
      (c : BuilderNode V) (k : Bytes) (ks : List Bytes) (p : Bytes) (ps : List Bytes)
      (nodes labels : ℕ)
      → segs c ≡ (k ∷ ks) ++ p ∷ ps
      → label_of c ≡ join ((k ∷ ks) ++ p ∷ ps)
      → IsTree c
      → All IsSegment ((k ∷ ks) ++ p ∷ ps)
      → Meets c (meet_child (length (join (k ∷ ks))) c nodes labels).changed (k ∷ ks)
  unfolding meet_child split_child IsTree ApartAll
  meet_part (node l cs e p') k ks p ps nodes labels parts l_lem tree all =
      let cut : l ≡ join (k ∷ ks) ++ separator ∷ join (p ∷ ps) =
        l_lem ∙ join-append_cons k ks p ps in
      let longer : length l ≡ length (join (k ∷ ks)) + suc (length (join (p ∷ ps))) =
        ap length cut ∙ length-append (join (k ∷ ks)) (separator ∷ join (p ∷ ps)) in
      let short : ltb (length (join (k ∷ ks))) (length l) ≡ true =
        lt→ltb _ _ (omega (arith, longer)) in
      let first : take (length (join (k ∷ ks))) l ≡ join (k ∷ ks) =
        ap (take (length (join (k ∷ ks)))) cut
        ∙ take-front (join (k ∷ ks)) (separator ∷ join (p ∷ ps)) in
      let next : length (join (k ∷ ks)) + 1 ≡ suc (length (join (k ∷ ks))) = omega arith in
      let rest : drop (length (join (k ∷ ks)) + 1) l ≡ join (p ∷ ps) =
        ap (λ n. drop n l) next
        ∙ ap (drop (suc (length (join (k ∷ ks))))) cut
        ∙ drop-front (join (k ∷ ks)) separator (join (p ∷ ps)) in
      let (all_first, all_rest) = All-append (k ∷ ks) (p ∷ ps) all in
      let first_segs = ap segments_of first ∙ segments_of-join (k ∷ ks) all_first in
      let rest_segs = ap segments_of rest ∙ segments_of-join (p ∷ ps) all_rest in
      rw short (record {
        label = first;
        tree = ((ap join rest_segs ∙ sym rest, λ e. cc (e, rest_segs)), tt, tree, tt);
        values =
            split_values l (take (length (join (k ∷ ks))) l) (drop (length (join (k ∷ ks)) + 1) l)
              cs e p' (k ∷ ks) ps p parts first_segs rest_segs;
      })

  -- What `meet_child` makes of a child for a label that shares segments with it.
  pub meet_child-Meets :
      (c : BuilderNode V) (qs : List Bytes) (nodes labels : ℕ)
      → IsLabel (label_of c)
      → IsTree c
      → common (segs c) qs ≢ []
      → Meets c
          (meet_child (length (join (common (segs c) qs))) c nodes labels).changed
          (common (segs c) qs)
  meet_child-Meets c qs nodes labels (l, filled) tree shared =
      let p = parting (segs c) qs in go (common (segs c) qs) p.left p.left_lem shared
    where
      go :
          (ks ps : List Bytes)
          → segs c ≡ ks ++ ps
          → ks ≢ []
          → Meets c (meet_child (length (join ks)) c nodes labels).changed ks
      go [] ps e h = absurd (h refl)
      go (k ∷ ks) [] e h =
          let whole = e ∙ append-nil (k ∷ ks) in
          meet_whole c k ks nodes labels whole (sym l ∙ ap join whole) tree
      go (k ∷ ks) (p ∷ ps) e h =
          meet_part c k ks p ps nodes labels e (sym l ∙ ap join e) tree
            (subst (All IsSegment) e (segments_of-IsSegment (label_of c)))
