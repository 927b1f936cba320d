-- ===== src/Trie/Builder/Update/Descend.antt =====
-- The walk to the insertion point, and the values behind each node on its way.
use mathlib.Core.Path.{subst}
use pandora_web_server.Base.{
  ◌≡◌, ◌≢◌, ◌⊎◌, refl, sym, ap, ◌∙◌, Bool, true, false, inl, inr, Bool-cases, Option, none, some,
  Option-cases, Bytes, List, [], ◌∷◌, ◌++◌, All, bytes_eq, bytes_eq_iff, if◌then◌else◌, arith,
}
use pandora_web_server.Trie.Prefix.Joined.{common}
use pandora_web_server.Router.Path.Normal.{join}
use pandora_web_server.Router.Path.Segments.{segments_of, IsSegment, segments_of-join}
use pandora_web_server.Trie.Builder.{BuilderNode, BuilderNodes, nil, cons, label_of, Changed}
use pandora_web_server.Trie.Builder.Values.{
  strip, same, segs, Slot, at, at_children, Apart, ApartAll, IsTree, IsForest, same-strip,
}
use pandora_web_server.Trie.Builder.Update.Split.{at_child, at_child-none, at_child-some, Meets}

Apart-front : (qs ks ps : List Bytes) → ks ≢ [] → Apart qs (ks ++ ps) → Apart qs ks
unfolding Apart
Apart-front qs [] ps h a = absurd (h refl)
Apart-front [] (k ∷ ks) ps h a = tt
Apart-front (q ∷ qs) (k ∷ ks) ps h a = a

Apart-front_left : (ks ps qs : List Bytes) → ks ≢ [] → Apart (ks ++ ps) qs → Apart ks qs
unfolding Apart
Apart-front_left [] ps qs h a = absurd (h refl)
Apart-front_left (k ∷ ks) ps [] h a = tt
Apart-front_left (k ∷ ks) ps (q ∷ qs) h a = a

Apart-sym : (ps qs : List Bytes) → Apart ps qs → Apart qs ps
unfolding Apart
Apart-sym [] [] a = tt
Apart-sym [] (q ∷ qs) a = tt
Apart-sym (p ∷ ps) [] a = tt
Apart-sym (p ∷ ps) (q ∷ qs) a = elim (Bool-cases (bytes_eq q p)) [
  | inr other ↦ other
  | inl equal ↦
      let back : bytes_eq p q ≡ true = (bytes_eq_iff p q).1 (sym ((bytes_eq_iff q p).0 equal)) in
      ground (arith, back, a)
]

pub Apart-common : (ps qs : List Bytes) → ps ≢ [] → common ps qs ≡ [] → Apart qs ps
unfolding Apart
Apart-common [] qs h e = absurd (h refl)
Apart-common (p ∷ ps) [] h e = tt
Apart-common (p ∷ ps) (q ∷ qs) h e = elim (Bool-cases (bytes_eq p q)) [
  | inl equal ↦ let bad : p ∷ common ps qs ≡ [] = rw equal at e in cc bad
  | inr differ ↦ Apart-sym (p ∷ ps) (q ∷ qs) differ
]

append-ne-nil : (ks ps : List Bytes) → ks ≢ [] → ks ++ ps ≢ []
append-ne-nil [] ps h e = h refl
append-ne-nil (k ∷ ks) ps h e = cc e

-- What starts with a list is neither another one nor behind it, where the two are apart.
pub Apart-strip :
    (qs ps q r : List Bytes)
    → ps ≢ []
    → Apart qs ps
    → strip ps q ≡ some r
    → (same qs q ≡ false) × (qs ≢ [] → strip qs q ≡ none)
unfolding Apart strip same
Apart-strip qs [] q r h a e = absurd (h refl)
Apart-strip qs (p ∷ ps) [] r h a e = cc e
Apart-strip [] (p ∷ ps) (s ∷ q) r h a e = (refl, λ k. absurd (k refl))
Apart-strip (x ∷ qs) (p ∷ ps) (s ∷ q) r h a e = elim (Bool-cases (bytes_eq p s)) [
  | inr differ ↦ let bad : none ≡ some r = rw differ at e in cc bad
  | inl equal ↦
      let other : bytes_eq x s ≡ false = ap (bytes_eq x) (sym ((bytes_eq_iff p s).0 equal)) ∙ a in
      (rw other refl, λ k. rw other refl)
]

module _ {ℓ} {V : Type ℓ} where
  ApartAll-front_left :
      (ks ps : List Bytes) (cs : BuilderNodes V) → ks ≢ [] → ApartAll (ks ++ ps) cs → ApartAll ks cs
  unfolding ApartAll
  ApartAll-front_left ks ps nil h a = tt
  ApartAll-front_left ks ps (cons c cs) h (a, b) =
      (Apart-front_left ks ps (segs c) h a, ApartAll-front_left ks ps cs h b)

  -- No child starts like a list that is apart from all of them.
  at_children-ApartAll :
      (ks : List Bytes) (cs : BuilderNodes V) (q r : List Bytes)
      → ks ≢ []
      → IsForest cs
      → ApartAll ks cs
      → strip ks q ≡ some r
      → at_children cs q ≡ (none, none)
  unfolding ApartAll at_children IsForest
  at_children-ApartAll ks nil q r h forest a e = refl
  at_children-ApartAll ks (cons c cs) q r h ((_, filled), _, _, forest) (a, b) e =
      at_child-none c (at_children cs q) q
        ((Apart-strip (segs c) ks q r h (Apart-sym ks (segs c) a) e).1 filled)
      ∙ at_children-ApartAll ks cs q r h forest b e

  module _ (v : V) (w : Option V) where
    -- `n'` is `n` with the values behind `qs` set.
    pub record Updated (n : BuilderNode V) (qs : List Bytes) (n' : BuilderNode V) : Type ℓ where
      pub label : label_of n' ≡ label_of n
      pub tree : IsTree n'
      pub values : (q : List Bytes) → at n' q ≡ (if same qs q then (some v, w) else at n q)

    pub record UpdatedAll (cs : BuilderNodes V) (qs : List Bytes) (cs' : BuilderNodes V)
        : Type ℓ where
      pub filled : qs ≢ []
      pub forest : IsForest cs'
      pub apart : (ps : List Bytes) → Apart ps qs → ApartAll ps cs → ApartAll ps cs'
      pub values :
          (q : List Bytes)
          → at_children cs' q ≡ (if same qs q then (some v, w) else at_children cs q)

    abbrev pub Found : BuilderNodes V → List Bytes → Option (Changed (BuilderNodes V)) → Type ℓ
    Found cs qs o =
        ((o ≡ none) × ApartAll qs cs)
        ⊎ ((r : Changed (BuilderNodes V)) × (o ≡ some r) × UpdatedAll cs qs r.changed)

    at_child_if :
        (t : Bool) (c : BuilderNode V) (q : List Bytes) (y z : Slot V)
        → ((r : List Bytes) → strip (segs c) q ≡ some r → t ≡ false)
        → at_child c (if t then y else z) q ≡ (if t then y else at_child c z q)
    at_child_if t c q y z h = elim (Option-cases (strip (segs c) q)) [
      | inl missed ↦
          at_child-none c (if t then y else z) q missed
          ∙ ap (λ x. if t then y else x) (sym (at_child-none c z q missed))
      | inr (r, found) ↦ let f = h r found in rw f refl
    ]

    pub later-UpdatedAll :
        (c : BuilderNode V) (cs cs' : BuilderNodes V) (qs : List Bytes)
        → IsForest (cons c cs)
        → Apart qs (segs c)
        → UpdatedAll cs qs cs'
        → UpdatedAll (cons c cs) qs (cons c cs')
    unfolding IsForest ApartAll at_children
    later-UpdatedAll c cs cs' qs (label, apart, tree, forest) unshared u = record {
      filled = u.filled;
      forest = (label, u.apart (segs c) (Apart-sym qs (segs c) unshared) apart, tree, u.forest);
      apart = λ ps d (a, b). (a, u.apart ps d b);
      values = λ q.
          ap (λ z. at_child c z q) (u.values q)
          ∙ at_child_if (same qs q) c q (some v, w) (at_children cs q)
              (λ r e. (Apart-strip qs (segs c) q r (label.1) unshared e).0);
    }

    pub below-UpdatedAll :
        (c m x : BuilderNode V) (cs : BuilderNodes V) (qs ks ps rest : List Bytes)
        → IsForest (cons c cs)
        → ks ≢ []
        → All IsSegment ks
        → segs c ≡ ks ++ ps
        → qs ≡ ks ++ rest
        → Meets c m ks
        → Updated m rest x
        → UpdatedAll (cons c cs) qs (cons x cs)
    unfolding IsForest ApartAll at_children
    below-UpdatedAll c m x cs qs ks ps rest (label, apart, tree, forest) filled all c_parts q_parts
          meets u =
        let named : segs x ≡ ks =
          ap segments_of (u.label ∙ meets.label) ∙ segments_of-join ks all in
        let met : segs m ≡ ks = ap segments_of meets.label ∙ segments_of-join ks all in
        let free = ApartAll-front_left ks ps cs filled (subst (λ s. ApartAll s cs) c_parts apart) in
        record {
          filled = λ e. append-ne-nil ks rest filled (sym q_parts ∙ e);
          forest = (
            (ap join named ∙ sym (u.label ∙ meets.label), λ e. filled (sym named ∙ e)),
            subst (λ s. ApartAll s cs) (sym named) free,
            u.tree,
            forest,
          );
          apart = λ ts d (a, b). (
            subst (Apart ts) (sym named) (Apart-front ts ks ps filled (subst (Apart ts) c_parts a)),
            b,
          );
          values = λ q.
              values q (at_children cs q) (same-step q)
                (λ r e. at_children-ApartAll ks cs q r filled forest free e) named met;
        }
      where
        same-step :
            (q : List Bytes)
            → same qs q ≡ elim (strip ks q) as (λ x. Bool) [ none ↦ false | some r ↦ same rest r ]
        same-step q = ap (λ x. same x q) q_parts ∙ same-strip ks rest q

        values :
            (q : List Bytes) (z : Slot V)
            → same qs q ≡ elim (strip ks q) as (λ x. Bool) [ none ↦ false | some r ↦ same rest r ]
            → ((r : List Bytes) → strip ks q ≡ some r → z ≡ (none, none))
            → segs x ≡ ks
            → segs m ≡ ks
            → at_child x z q ≡ (if same qs q then (some v, w) else at_child c z q)
        values q z test free named met = elim (Option-cases (strip ks q)) [
          | inl missed ↦
              let differ : same qs q ≡ false =
                test
                ∙ ap (λ o. elim o as (λ x. Bool) [ none ↦ false | some r ↦ same rest r ]) missed in
              at_child-none x z q (ap (λ y. strip y q) named ∙ missed)
              ∙ sym (at_child-none m z q (ap (λ y. strip y q) met ∙ missed))
              ∙ meets.values z q free
              ∙ rw differ refl
          | inr (r, found) ↦
              let alike : same qs q ≡ same rest r =
                test
                ∙ ap (λ o. elim o as (λ x. Bool) [ none ↦ false | some r ↦ same rest r ]) found in
              at_child-some x z q r (ap (λ y. strip y q) named ∙ found)
              ∙ u.values r
              ∙ ap (λ y. if same rest r then (some v, w) else y)
                  (sym (at_child-some m z q r (ap (λ y. strip y q) met ∙ found))
                    ∙ meets.values z q free)
              ∙ rw alike refl
        ]
