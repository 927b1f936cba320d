-- ===== src/Trie/Flat/Sizes.antt =====
-- The assertions of `build` hold: the two counters of a builder are the sizes of its vectors.
use pandora_web_server.Base.{
  ℕ, zero, suc, ◌+◌, ◌≤◌, ◌≡◌, refl, ◌∙◌, Bool, Option, none, some, Bytes, List, [], ◌∷◌, ◌++◌,
  length, modify, length-append, length-modify, length-replicate, insert_sorted, sort, Eq, arith,
}
use pandora_web_server.Trie.Builder.{
  BuilderNode, BuilderNodes, node, nil, cons, TrieBuilder, Setup, new, push_all,
}
use pandora_web_server.Trie.Builder.Counts.{
  node_count, nodes_count, node_bytes, nodes_bytes, IsCounted, new-IsCounted, push_all-IsCounted,
}
use pandora_web_server.Trie.Flat.{
  Trie, Node, to_list, label_le, add_value, store_value, store_node, reserve, into_trie_children,
  into_trie_node, build, empty_node,
}

-- A measure summed over a list is the same when the list is sorted.
module _ {ℓ} {A : Type ℓ} (measure : A → ℕ) where
  abbrev pub sum_of : List A → ℕ
  sum_of [] = 0
  sum_of (x ∷ xs) = measure x + sum_of xs

  sum_of-insert_sorted :
      (le : A → A → Bool) (x : A) (xs : List A)
      → sum_of (insert_sorted le x xs) ≡ measure x + sum_of xs
  sum_of-insert_sorted le x [] = refl
  sum_of-insert_sorted le x (y ∷ ys) = ground (arith, sum_of-insert_sorted le x ys)

  pub sum_of-sort : (le : A → A → Bool) (xs : List A) → sum_of (sort le xs) ≡ sum_of xs
  sum_of-sort le [] = refl
  sum_of-sort le (x ∷ xs) = omega (arith, sum_of-insert_sorted le x (sort le xs), sum_of-sort le xs)

module _ {ℓ} {V : Type ℓ} where
  pub sum_of-to_list : (cs : BuilderNodes V) → sum_of node_count (to_list cs) ≡ nodes_count cs
  unfolding node_count
  sum_of-to_list nil = refl
  sum_of-to_list (cons c cs) = omega (arith, sum_of-to_list cs)

  bytes_of-to_list : (cs : BuilderNodes V) → sum_of node_bytes (to_list cs) ≡ nodes_bytes cs
  unfolding node_bytes
  bytes_of-to_list nil = refl
  bytes_of-to_list (cons c cs) = omega (arith, bytes_of-to_list cs)

module _ {ℓ} {V : Type ℓ} ⦃e : Eq V⦄ where
  -- `t'` has `n` nodes and `b` bytes of labels more than `t`.
  abbrev Grown : ℕ → ℕ → Trie V → Trie V → Type 0
  Grown n b t t' = (length t'.nodes ≡ length t.nodes + n) × (length t'.labels ≡ length t.labels + b)

  store_value-Grown :
      (put : Option ℕ → Node → Node) (v : Option V) (index : ℕ) (t : Trie V)
      → Grown 0 0 t (store_value put v index t)
  unfolding store_value
  store_value-Grown put none index t = (omega arith, omega arith)
  store_value-Grown put (some v) index t = (
    omega (arith, length-modify t.nodes index (put (some (add_value v t.values).0))),
    omega arith,
  )

  store_node-Grown :
      (l : Bytes) (cs : BuilderNodes V) (v p : Option V) (index : ℕ) (t : Trie V)
      → Grown 0 (length l) t (store_node (node l cs v p) index t)
  unfolding store_node
  store_node-Grown l cs v p index t =
      let labelled : Trie V = record t {
        nodes = modify t.nodes index (λ n. record n {
          label = record { start = length t.labels; stop = length t.labels + length l };
        });
        labels = t.labels ++ l;
      } in
      let exact = store_value-Grown (λ i n. record n { value_exact = i }) v index labelled in
      let prefix =
        store_value-Grown (λ i n. record n { value_prefix = i }) p index
          (store_value (λ i n. record n { value_exact = i }) v index labelled) in
      (
        rw (prefix.0, exact.0, length-modify) (omega arith),
        rw (prefix.1, exact.1, length-append) (omega arith),
      )

  reserve-Grown : (n index : ℕ) (t : Trie V) → Grown n 0 t (reserve n index t)
  unfolding reserve
  reserve-Grown n index t =
      (rw (modify, length-append, length-modify, length-replicate) refl, omega arith)

  -- The subtree `c`, whose own place was there, was written behind what `t` has.
  abbrev Filled : BuilderNode V → Trie V → Trie V → Type 0
  Filled c t t' =
      (length t'.nodes + 1 ≡ length t.nodes + node_count c)
      × (length t'.labels ≡ length t.labels + node_bytes c)

  into_trie_children-Filled :
      (into : BuilderNode V → ℕ → Trie V → Trie V) (fuel : ℕ)
      → ((c : BuilderNode V) (index : ℕ) (t : Trie V)
          → node_count c ≤ fuel
          → Filled c t (into c index t))
      → (cs : List (BuilderNode V)) (index : ℕ) (t : Trie V) → sum_of node_count cs ≤ fuel
      → (length (into_trie_children into cs index t).nodes + length cs
          ≡ length t.nodes + sum_of node_count cs)
        × (length (into_trie_children into cs index t).labels
            ≡ length t.labels + sum_of node_bytes cs)
  unfolding into_trie_children
  into_trie_children-Filled into fuel grown [] index t fits = (omega arith, omega arith)
  into_trie_children-Filled into fuel grown (c ∷ cs) index t fits =
      let first = grown c index t (omega arith) in
      let rest =
        into_trie_children-Filled into fuel grown cs (index + 1) (into c index t) (omega arith) in
      (omega (arith, first.0, rest.0), omega (arith, first.1, rest.1))

  into_trie_node-Filled :
      (fuel : ℕ) (c : BuilderNode V) (index : ℕ) (t : Trie V)
      → node_count c ≤ fuel
      → Filled c t (into_trie_node fuel c index t)
  unfolding into_trie_node node_count node_bytes
  into_trie_node-Filled zero (node l cs v p) index t fits = absurd (omega arith)
  into_trie_node-Filled (suc fuel) (node l cs v p) index t fits =
      let sorted = sort label_le (to_list cs) in
      let stored = store_node (node l cs v p) index t in
      let own = store_node-Grown l cs v p index t in
      let places = reserve-Grown (length sorted) index stored in
      let nodes = sum_of-sort node_count label_le (to_list cs) ∙ sum_of-to_list cs in
      let bytes = sum_of-sort node_bytes label_le (to_list cs) ∙ bytes_of-to_list cs in
      let below =
        into_trie_children-Filled (into_trie_node fuel) fuel (into_trie_node-Filled fuel) sorted
          (length stored.nodes) (reserve (length sorted) index stored) (omega (arith, nodes)) in
      (
        omega (arith, below.0, own.0, places.0, nodes),
        omega (arith, below.1, own.1, places.1, bytes),
      )

module _ {ℓ} {V : Type ℓ} ⦃e : Eq V⦄ where
  abbrev pub IsSized : TrieBuilder V → Trie V → Type 0
  IsSized b t = (length t.nodes ≡ b.nodes) × (length t.labels ≡ b.labels)

  pub build_of_IsCounted :
      (b : TrieBuilder V) → IsCounted b → (t : Trie V) × (build b ≡ some t) × IsSized b t
  unfolding build
  build_of_IsCounted b counted =
      let t =
        into_trie_node b.nodes b.root 0
          (record { nodes = empty_node ∷ []; values = []; labels = [] }) in
      let filled =
        into_trie_node-Filled b.nodes b.root 0
          (record { nodes = empty_node ∷ []; values = []; labels = [] })
          (omega (arith, counted.nodes)) in
      (
        t,
        ground (arith, filled, counted.nodes, counted.labels),
        (omega (arith, filled.0, counted.nodes), omega (arith, filled.1, counted.labels)),
      )

  -- After any sequence of pushes, `build` returns a trie, so that its assertions hold, with as
  -- many nodes and bytes of labels as the builder has counted.
  pub build-push_all :
      (s : Setup V) → (t : Trie V) × (build (push_all new s) ≡ some t) × IsSized (push_all new s) t
  build-push_all s = build_of_IsCounted (push_all new s) (push_all-IsCounted new s new-IsCounted)
