-- ===== src/Trie/Builder/Update/Push.antt =====
-- `push` sets the values at its label.
use mathlib.Core.Path.{subst}
use mathlib.Core.List.{append-nil}
use pandora_web_server.Base.{
  ℕ, zero, suc, ◌+◌, ◌≤◌, ◌<◌, min, ◌≡◌, ◌≢◌, ◌⊎◌, refl, sym, ap, ◌∙◌, Bool, true, false, inl, inr,
  Option, none, some, Option-cases, Bytes, List, [], ◌∷◌, All, length, drop, ltb, lt→ltb,
  if◌then◌else◌, arith,
}
use pandora_web_server.Trie.Prefix.{common_prefix_length}
use pandora_web_server.Trie.Prefix.Joined.{common, common_prefix_length-join}
use pandora_web_server.Router.Path.Normal.{join}
use pandora_web_server.Router.Path.Segments.{
  segments_of, IsSegment, segments_of-join, segments_of-IsSegment,
}
use pandora_web_server.Trie.Builder.{
  BuilderNode, BuilderNodes, node, nil, cons, label_of, append_node, Changed, within, meet_child,
  find_child, find_insertion_point, set_value, TrieBuilder, push,
}
use pandora_web_server.Trie.Builder.Values.{
  strip, same, same-strip, segs, at, at_children, Apart, ApartAll, IsTree, IsForest,
}
use pandora_web_server.Trie.Builder.Update.Split.{
  parting, All-append, join_pos, drop_shared, shorter_shared, at_child, at_child-none,
  at_child-some, meet_child-Meets,
}
use pandora_web_server.Trie.Builder.Update.Descend.{
  Updated, UpdatedAll, Found, later-UpdatedAll, below-UpdatedAll, Apart-common,
}

List-cases : (xs : List Bytes) → (xs ≡ []) ⊎ (xs ≢ [])
List-cases [] = inl refl
List-cases (x ∷ xs) = inr (λ e. cc e)

-- A list that does not start with `ps` is not `ps`, and one that does is so with nothing behind.
same-none : (ps q : List Bytes) → strip ps q ≡ none → same ps q ≡ false
same-none ps q e =
    ap (λ x. same x q) (sym (append-nil ps))
    ∙ same-strip ps [] q
    ∙ ap (λ o. elim o as (λ x. Bool) [ none ↦ false | some r ↦ same [] r ]) e

same-some : (ps q r : List Bytes) → strip ps q ≡ some r → same ps q ≡ same [] r
same-some ps q r e =
    ap (λ x. same x q) (sym (append-nil ps))
    ∙ same-strip ps [] q
    ∙ ap (λ o. elim o as (λ x. Bool) [ none ↦ false | some r ↦ same [] r ]) e

join_pos_of : (ks : List Bytes) → ks ≢ [] → All IsSegment ks → 0 < length (join ks)
join_pos_of [] h all = absurd (h refl)
join_pos_of (k ∷ ks) h all = join_pos k ks all

module _ {ℓ} {V : Type ℓ} (v : V) (w : Option V) where
  -- A walk that sets the values behind a node, for labels of a length.
  abbrev Sets : (BuilderNode V → ℕ → ℕ → Bytes → Changed (BuilderNode V)) → ℕ → Type ℓ
  Sets descend fuel =
      (n : BuilderNode V) (nodes labels : ℕ) (qs : List Bytes)
      → IsTree n
      → All IsSegment qs
      → length (join qs) ≤ fuel
      → Updated v w n qs (descend n nodes labels (join qs)).changed

  find_child-Found :
      (descend : BuilderNode V → ℕ → ℕ → Bytes → Changed (BuilderNode V)) (fuel : ℕ)
      → Sets descend fuel
      → (cs : BuilderNodes V) (nodes labels : ℕ) (qs : List Bytes) → IsForest cs
      → All IsSegment qs
      → length (join qs) ≤ suc fuel
      → Found v w cs qs (find_child descend cs nodes labels (join qs))
  unfolding find_child IsForest ApartAll
  find_child-Found descend fuel sets nil nodes labels qs forest all fits = inl (refl, tt)
  find_child-Found descend fuel sets (cons c cs) nodes labels qs forest all fits =
      let shared =
        ap (λ l. common_prefix_length l (join qs)) (sym (forest.0.0))
        ∙ common_prefix_length-join (segs c) qs (segments_of-IsSegment (label_of c)) all in
      elim (List-cases (common (segs c) qs)) [
        | inl none_shared ↦
            rw (shared, none_shared)
              (elim (find_child-Found descend fuel sets cs nodes labels qs (forest.3) all fits) [
                | inl (e, apart) ↦
                    rw e (inl (refl, (Apart-common (segs c) qs (forest.0.1) none_shared, apart)))
                | inr (r, e, u) ↦ rw e (
                    inr (
                      within (cons c r.changed) r,
                      refl,
                      later-UpdatedAll v w c cs r.changed qs forest
                          (Apart-common (segs c) qs (forest.0.1) none_shared) u,
                    ))
              ])
        | inr some_shared ↦
            let ks = common (segs c) qs in
            let p = parting (segs c) qs in
            let meets = meet_child-Meets c qs nodes labels (forest.0) (forest.2) some_shared in
            let met = meet_child (length (join ks)) c nodes labels in
            let parts = All-append ks p.right (subst (All IsSegment) p.right_lem all) in
            let left : drop (min (length (join ks) + 1) (length (join qs))) (join qs)
                ≡ join p.right =
              ap (λ x. drop (min (length (join ks) + 1) (length (join x))) (join x)) p.right_lem
              ∙ drop_shared ks p.right some_shared in
            let shorter =
              shorter_shared ks p.right some_shared (subst (All IsSegment) p.right_lem all) in
            let size = ap (λ x. length (join x)) p.right_lem in
            let positive : ltb 0 (length (join ks)) ≡ true =
              lt→ltb 0 _ (join_pos_of ks some_shared (parts.0)) in
            let u =
              sets met.changed met.nodes met.labels p.right meets.tree (parts.1)
                (omega (arith, shorter, size)) in
            rw (shared, positive, left)
              (inr (
                within (cons (descend met.changed met.nodes met.labels (join p.right)).changed cs)
                    (descend met.changed met.nodes met.labels (join p.right)),
                refl,
                below-UpdatedAll v w c met.changed
                    (descend met.changed met.nodes met.labels (join p.right)).changed cs qs ks
                    p.left p.right forest some_shared (parts.0) p.left_lem p.right_lem meets u,
              ))
      ]

  same_nil : (qs : List Bytes) → qs ≢ [] → same qs [] ≡ false
  unfolding same
  same_nil [] h = absurd (h refl)
  same_nil (q ∷ qs) h = refl

  -- The values behind a node that was appended.
  append_node-UpdatedAll :
      (cs : BuilderNodes V) (qs : List Bytes)
      → qs ≢ []
      → All IsSegment qs
      → IsForest cs
      → ApartAll qs cs
      → UpdatedAll v w cs qs (append_node cs (node (join qs) nil (some v) w))
  unfolding append_node IsForest ApartAll at_children same
  append_node-UpdatedAll nil qs filled all forest apart =
      let named = segments_of-join qs all in
      record {
        filled = filled;
        forest = ((ap join named, λ e. filled (sym named ∙ e)), tt, tt, tt);
        apart = λ ps d a. (subst (Apart ps) (sym named) d, tt);
        values = λ q. alone q named;
      }
    where
      alone :
          (q : List Bytes)
          → segments_of (join qs) ≡ qs
          → at_child (node (join qs) nil (some v) w) (none, none) q
            ≡ (if same qs q then (some v, w) else (none, none))
      alone q named = elim (Option-cases (strip qs q)) [
        | inl missed ↦
            let differ = same-none qs q missed in
            at_child-none (node (join qs) nil (some v) w) (none, none) q
              (ap (λ x. strip x q) named ∙ missed)
            ∙ rw differ refl
        | inr (r, found) ↦
            at_child-some (node (join qs) nil (some v) w) (none, none) q r
              (ap (λ x. strip x q) named ∙ found)
            ∙ leaf r
            ∙ ap (λ t. if t then (some v, w) else (none, none)) (sym (same-some qs q r found))
      ]
        where
          leaf :
              (r : List Bytes)
              → at (node (join qs) nil (some v) w) r
                ≡ (if same [] r then (some v, w) else (none, none))
          leaf [] = refl
          leaf (s ∷ r) = refl
  append_node-UpdatedAll (cons c cs) qs filled all forest (a, apart) =
      later-UpdatedAll v w c cs _ qs forest a
        (append_node-UpdatedAll cs qs filled all (forest.3) apart)

  inside-Updated :
      (l : Bytes) (cs cs' : BuilderNodes V) (e p : Option V) (qs : List Bytes)
      → UpdatedAll v w cs qs cs'
      → Updated v w (node l cs e p) qs (node l cs' e p)
  unfolding IsTree at
  inside-Updated l cs cs' e p qs u = record { label = refl; tree = u.forest; values = values }
    where
      values :
          (q : List Bytes)
          → at (node l cs' e p) q ≡ (if same qs q then (some v, w) else at (node l cs e p) q)
      values [] = let other = same_nil qs u.filled in rw other refl
      values (s ∷ q) = u.values (s ∷ q)

  -- `set_value` at a node with no child that the label starts like.
  set_value-Updated :
      (l : Bytes) (cs : BuilderNodes V) (e p : Option V) (nodes labels : ℕ) (qs : List Bytes)
      → IsForest cs
      → All IsSegment qs
      → ApartAll qs cs
      → Updated v w
          (node l cs e p)
          qs
          (set_value v w (node l cs e p) nodes labels (join qs)).changed
  unfolding set_value IsTree at same
  set_value-Updated l cs e p nodes labels [] forest all apart = record {
    label = refl;
    tree = forest;
    values = λ q.
        elim q
          as (λ x.
            at (node l cs (some v) w) x
            ≡ (if same [] x then (some v, w) else at (node l cs e p) x)) [
              | [] ↦ refl
              | s ∷ r ↦ refl
            ];
  }
  set_value-Updated l cs e p nodes labels (q ∷ qs) forest all apart =
      grow (join (q ∷ qs)) refl (join_pos q qs all)
    where
      grow :
          (t : Bytes)
          → join (q ∷ qs) ≡ t
          → 0 < length t
          → Updated v w
              (node l cs e p)
              (q ∷ qs)
              (set_value v w (node l cs e p) nodes labels t).changed
      grow [] h pos = absurd (omega arith)
      grow (x ∷ t) h pos = inside-Updated l cs _ e p (q ∷ qs) (
          subst (λ y. UpdatedAll v w cs (q ∷ qs) (append_node cs (node y nil (some v) w))) h
            (append_node-UpdatedAll cs (q ∷ qs) (λ bad. cc bad) all forest apart))

  ApartAll-nil : (cs : BuilderNodes V) → ApartAll [] cs
  unfolding ApartAll Apart
  ApartAll-nil nil = tt
  ApartAll-nil (cons c cs) = (tt, ApartAll-nil cs)

  find_insertion_point-Updated : (fuel : ℕ) → Sets (find_insertion_point (set_value v w) fuel) fuel
  unfolding find_insertion_point IsTree
  find_insertion_point-Updated zero (node l cs e p) nodes labels [] tree all fits =
      set_value-Updated l cs e p nodes labels [] tree all (ApartAll-nil cs)
  find_insertion_point-Updated zero (node l cs e p) nodes labels (q ∷ qs) tree all fits =
      absurd (omega (arith, join_pos q qs all, fits))
  find_insertion_point-Updated (suc fuel) (node l cs e p) nodes labels qs tree all fits =
      elim (find_child-Found (find_insertion_point (set_value v w) fuel) fuel
        (find_insertion_point-Updated fuel) cs nodes labels qs tree all fits) [
          | inl (missed, apart) ↦
              rw (missed, find_insertion_point)
                (set_value-Updated l cs e p nodes labels qs tree all apart)
          | inr (r, found, u) ↦
              rw (found, find_insertion_point) (inside-Updated l cs r.changed e p qs u)
        ]

  -- A push of a label of segments keeps the tree in order, and sets the values at that label and no
  -- others.
  pub push-at :
      (b : TrieBuilder V) (qs : List Bytes)
      → IsTree b.root
      → All IsSegment qs
      → IsTree (push b (join qs) v w).0.root
        × ((q : List Bytes)
            → at (push b (join qs) v w).0.root q ≡ (if same qs q then (some v, w) else at b.root q))
  unfolding push
  push-at b qs tree all =
      let u =
        find_insertion_point-Updated (length (join qs)) b.root b.nodes b.labels qs tree all
          (omega arith) in
      (u.tree, u.values)
