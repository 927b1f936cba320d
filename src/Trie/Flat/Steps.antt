-- ===== src/Trie/Flat/Steps.antt =====
-- pandora-module-utils/src/trie.rs: what `into_trie_node` writes for a node before it looks at the
-- children, and the places that it adds for them.
use mathlib.Core.List.{append-nil}
use pandora_web_server.Base.{
  ℕ, ◌+◌, ◌<◌, ◌≡◌, ◌≢◌, refl, sym, ap, ◌∙◌, Option, none, some, Option-cases, inl, inr, Bytes,
  List, [], ◌∷◌, ◌++◌, length, get_elem?, modify, replicate, position, length-append, length-modify,
  length-replicate, Eq, arith, Bool-cases, suc,
}
use pandora_web_server.Trie.Builder.{BuilderNodes, node}
use pandora_web_server.Trie.Flat.{
  IndexRange, Trie, Node, empty_node, add_value, store_value, store_node, reserve,
}
use pandora_web_server.Trie.Flat.Places.{
  get_elem?-append, get_elem?-append_replicate, get_elem?-modify, get_elem?-modify_other,
  get_elem?-length,
}
use pandora_web_server.Trie.Flat.Kept.{
  Kept, Kept-refl, Kept-trans, Stored, Stored-Kept, Labelled-Kept, IsWritten,
}

module _ {ℓ} {V : Type ℓ} ⦃e : Eq V⦄ where
  get_elem?-position :
      (v : V) (vs : List V) (i : ℕ)
      → position (λ w. e.beq w v) vs ≡ some i
      → get_elem? vs i ≡ some v
  get_elem?-position v [] i found = cc found
  get_elem?-position v (w ∷ vs) i found = elim (Bool-cases (e.beq w v)) [
    | inl same ↦
        let here : some 0 ≡ some i = rw same at found in
        let equal = (e.beq_iff w v).0 same in cc (here, equal)
    | inr differ ↦ elim (Option-cases (position (λ x. e.beq x v) vs)) [
      | inl missed ↦ let bad : none ≡ some i = rw (differ, missed) at found in cc bad
      | inr (j, later) ↦
          let below : some (suc j) ≡ some i = rw (differ, later) at found in
          let rest = get_elem?-position v vs j later in cc (below, rest)
    ]
  ]

  -- The index of a value is its index in the values that `add_value` leaves.
  add_value_lem :
      (v : V) (vs : List V)
      → (get_elem? (add_value v vs).1 (add_value v vs).0 ≡ some v)
        × ((s : List V) × ((add_value v vs).1 ≡ vs ++ s))
  unfolding add_value
  add_value_lem v vs = elim (Option-cases (position (λ w. e.beq w v) vs)) [
    | inl missed ↦ rw (missed, add_value) (get_elem?-length vs v, (v ∷ [], refl))
    | inr (i, found) ↦
        rw (found, add_value) (get_elem?-position v vs i found, ([], sym (append-nil vs)))
  ]

  -- The node at the index gets the index of the value, if there is one.
  store_value_lem :
      (put : Option ℕ → Node → Node) (v : Option V) (index : ℕ) (t : Trie V) (n : Node)
      → put none n ≡ n
      → get_elem? t.nodes index ≡ some n
      → Kept (λ j. j ≢ index) t (store_value put v index t)
        × ((r : Option ℕ) × Stored (store_value put v index t) r v
            × (get_elem? (store_value put v index t).nodes index ≡ some (put r n)))
  unfolding store_value
  store_value_lem put none index t n same here =
      (Kept-refl (λ j. j ≢ index) t, (none, (refl, refl), here ∙ ap some (sym same)))
  store_value_lem put (some v) index t n same here =
      let (found, grown) = add_value_lem v t.values in
      let i = (add_value v t.values).0 in
      (
        record {
          nodes = λ j m p at. get_elem?-modify_other t.nodes index j (put (some i)) p ∙ at;
          count = omega (arith, length-modify t.nodes index (put (some i)));
          labels = ([], sym (append-nil t.labels));
          values = grown;
        },
        (some i, (refl, found), get_elem?-modify t.nodes index (put (some i)) n here),
      )

  pub store_node_lem :
      (l : Bytes) (cs : BuilderNodes V) (v p : Option V) (index : ℕ) (t : Trie V)
      → get_elem? t.nodes index ≡ some empty_node
      → Kept (λ j. j ≢ index) t (store_node (node l cs v p) index t)
        × ((n : Node) × (get_elem? (store_node (node l cs v p) index t).nodes index ≡ some n)
            × IsWritten (store_node (node l cs v p) index t) l v p n)
  unfolding store_node
  store_node_lem l cs v p index t here =
      let Q : ℕ → Type 0 = λ j. j ≢ index in
      let range : IndexRange = record {
        start = length t.labels;
        stop = length t.labels + length l;
      } in
      let t1 : Trie V = record t {
        nodes = modify t.nodes index (λ n. record n { label = range });
        labels = t.labels ++ l;
      } in
      let k1 : Kept Q t t1 = record {
        nodes = λ j m q at. get_elem?-modify_other t.nodes index j _ q ∙ at;
        count = omega (arith, length-modify t.nodes index (λ n. record n { label = range }));
        labels = (l, refl);
        values = ([], sym (append-nil t.values));
      } in
      let put_exact : Option ℕ → Node → Node = λ i n. record n { value_exact = i } in
      let put_prefix : Option ℕ → Node → Node = λ i n. record n { value_prefix = i } in
      let n1 : Node = record empty_node { label = range } in
      let t2 = store_value put_exact v index t1 in
      let (k2, (r, s2, at2)) =
        store_value_lem put_exact v index t1 n1 refl
          (get_elem?-modify t.nodes index _ empty_node here) in
      let (k3, (r', s3, at3)) = store_value_lem put_prefix p index t2 (put_exact r n1) refl at2 in
      let t3 = store_value put_prefix p index t2 in
      (
        Kept-trans Q t t1 t3 k1 (Kept-trans Q t1 t2 t3 k2 k3),
        (
          put_prefix r' (put_exact r n1),
          at3,
          (
            Labelled-Kept Q t1 t3 range l (Kept-trans Q t1 t2 t3 k2 k3)
                (t.labels, [], ap (λ x. t.labels ++ x) (sym (append-nil l)), refl, refl),
            Stored-Kept Q t2 t3 r v k3 s2,
            s3,
          ),
        ),
      )

  pub reserve_lem :
      (count index : ℕ) (t : Trie V) (n : Node)
      → get_elem? t.nodes index ≡ some n
      → Kept (λ j. j ≢ index) t (reserve count index t)
        × (get_elem? (reserve count index t).nodes index
            ≡ some (record n {
              children = record { start = length t.nodes; stop = length t.nodes + count };
            }))
        × ((j : ℕ)
            → j < count
            → get_elem? (reserve count index t).nodes (length t.nodes + j) ≡ some empty_node)
        × (length (reserve count index t).nodes ≡ length t.nodes + count)
  unfolding reserve
  reserve_lem count index t n here =
      let range : IndexRange = record { start = length t.nodes; stop = length t.nodes + count } in
      let changed = modify t.nodes index (λ n. record n { children = range }) in
      let places = replicate count empty_node in
      let size : length changed ≡ length t.nodes = length-modify t.nodes index _ in
      let total : length (changed ++ places) ≡ length t.nodes + count =
        length-append changed places ∙ omega (arith, size, length-replicate count empty_node) in
      (
        record {
          nodes = λ j m q at.
              get_elem?-append changed places j m (get_elem?-modify_other t.nodes index j _ q ∙ at);
          count = omega (arith, total);
          labels = ([], sym (append-nil t.labels));
          values = ([], sym (append-nil t.values));
        },
        get_elem?-append changed places index _ (get_elem?-modify t.nodes index _ n here),
        (λ j h.
            ap (λ k. get_elem? (changed ++ places) (k + j)) (sym size)
            ∙ get_elem?-append_replicate changed count j empty_node h),
        total,
      )
