-- ===== src/Trie/Flat/Written.antt =====
-- pandora-module-utils/src/trie.rs: the vectors that `into_trie_node` writes hold the tree.
use pandora_web_server.Base.{
  ℕ, zero, suc, ◌+◌, ◌≤◌, ◌<◌, ◌≡◌, ◌≢◌, refl, ap, ◌∙◌, ◌⊎◌, inl, inr, none, some, List, [], ◌∷◌,
  length, get_elem?, sort, Eq, arith,
}
use pandora_web_server.Trie.Builder.{BuilderNode, node}
use pandora_web_server.Trie.Builder.Counts.{node_count}
use pandora_web_server.Trie.Flat.{
  Trie, Node, empty_node, to_list, label_le, store_node, reserve, into_trie_children,
  into_trie_node,
}
use pandora_web_server.Trie.Flat.Places.{get_elem?-lt}
use pandora_web_server.Trie.Flat.Kept.{
  Kept, Kept-refl, Kept-trans, Kept-mono, Kept-of_lt, IsWritten, IsWritten-Kept,
}
use pandora_web_server.Trie.Flat.Steps.{store_node_lem, reserve_lem}
use pandora_web_server.Trie.Flat.Sizes.{sum_of, sum_of-sort, sum_of-to_list}

-- What holds of the elements of a list and the indices from `i` on.
unfoldable pub Row {ℓ κ} : {A : Type ℓ} → (A → ℕ → Type κ) → List A → ℕ → Type κ
Row P [] i = Unit
Row P (x ∷ xs) i = P x i × Row P xs (i + 1)

Row-map {ℓ κ} :
    {A : Type ℓ} (P Q : A → ℕ → Type κ) (xs : List A) (i : ℕ)
    → ((x : A) (j : ℕ) → i ≤ j → P x j → Q x j)
    → Row P xs i
    → Row Q xs i
unfolding Row
Row-map P Q [] i f row = tt
Row-map P Q (x ∷ xs) i f (p, row) =
    (f x i (omega arith) p, Row-map P Q xs (i + 1) (λ y j h q. f y j (omega arith) q) row)

abbrev Beside : ℕ → ℕ → ℕ → Type 0
Beside i count j = (j < i) ⊎ (i + count ≤ j)

module _ {ℓ} {V : Type ℓ} where
  -- The node `n` is that of `c`, and its children, sorted by their labels, stand in a row, at
  -- `lo` or behind it.
  unfoldable pub IsNode : ℕ → Trie V → ℕ → BuilderNode V → Node → Type ℓ
  IsNode zero t lo c n = none ≡ some t
  IsNode (suc k) t lo (node l cs v p) n =
      IsWritten t l v p n
      × (lo ≤ n.children.start)
      × (n.children.stop ≡ n.children.start + length (sort label_le (to_list cs)))
      × Row (λ c j. (m : Node) × (get_elem? t.nodes j ≡ some m) × IsNode k t lo c m)
          (sort label_le (to_list cs)) n.children.start

  -- The tree `c` is written with its root at the index `j`.
  abbrev pub IsTreeAt : ℕ → Trie V → ℕ → BuilderNode V → ℕ → Type ℓ
  IsTreeAt k t lo c j = (m : Node) × (get_elem? t.nodes j ≡ some m) × IsNode k t lo c m

  IsNode-Kept :
      (k : ℕ) (t t' : Trie V) (lo lo' : ℕ) (c : BuilderNode V) (n : Node)
      → lo' ≤ lo
      → Kept (λ j. lo ≤ j) t t'
      → IsNode k t lo c n
      → IsNode k t' lo' c n
  unfolding IsNode
  IsNode-Kept zero t t' lo lo' c n h kept is = cc is
  IsNode-Kept (suc k) t t' lo lo' (node l cs v p) n h kept (written, from, to, row) =
      let P : ℕ → Type 0 = λ j. lo ≤ j in
      (
        IsWritten-Kept P t t' l v p n kept written,
        omega (arith, from),
        to,
        Row-map (IsTreeAt k t lo) (IsTreeAt k t' lo') (sort label_le (to_list cs)) n.children.start
            (λ c j at (m, found, is). (
              m,
              kept.nodes j m (omega (arith, from)) found,
              IsNode-Kept k t t' lo lo' c m h kept is,
            ))
            row,
      )

  -- Subtrees at `lo` or behind it are at any smaller index or behind it.
  Row-lower :
      (k : ℕ) (t : Trie V) (lo lo' : ℕ) (cs : List (BuilderNode V)) (i : ℕ)
      → lo' ≤ lo
      → Row (IsTreeAt k t lo) cs i
      → Row (IsTreeAt k t lo') cs i
  Row-lower k t lo lo' cs i h =
      Row-map (IsTreeAt k t lo) (IsTreeAt k t lo') cs i
        (λ c j from (m, found, is). (m, found, IsNode-Kept k t t lo lo' c m h (Kept-refl _ t) is))

module _ {ℓ} {V : Type ℓ} ⦃e : Eq V⦄ where
  -- `into_trie_node` at an empty node writes the tree there and behind what `t` has.
  abbrev Writes : ℕ → (BuilderNode V → ℕ → Trie V → Trie V) → Type ℓ
  Writes k into =
      (c : BuilderNode V) (index : ℕ) (t : Trie V)
      → node_count c ≤ k
      → get_elem? t.nodes index ≡ some empty_node
      → Kept (λ j. j ≢ index) t (into c index t)
        × IsTreeAt k (into c index t) (length t.nodes) c index

  into_trie_children_lem :
      (k : ℕ) (into : BuilderNode V → ℕ → Trie V → Trie V)
      → Writes k into
      → (cs : List (BuilderNode V)) (i : ℕ) (t : Trie V) → sum_of node_count cs ≤ k
      → ((j : ℕ) → j < length cs → get_elem? t.nodes (i + j) ≡ some empty_node)
      → Kept (Beside i (length cs)) t (into_trie_children into cs i t)
        × Row (IsTreeAt k (into_trie_children into cs i t) (length t.nodes)) cs i
  unfolding into_trie_children Row
  into_trie_children_lem k into writes [] i t fits empty = (Kept-refl _ t, tt)
  into_trie_children_lem k into writes (c ∷ cs) i t fits empty =
      let u = into c i t in
      let w = into_trie_children into cs (i + 1) u in
      let at_first : get_elem? t.nodes i ≡ some empty_node =
        ap (get_elem? t.nodes) (omega arith) ∙ empty 0 (omega arith) in
      let (kept, (m, found, is)) = writes c i t (omega (arith, fits)) at_first in
      let later : (j : ℕ) → j < length cs → get_elem? u.nodes (i + 1 + j) ≡ some empty_node = λ j h.
        kept.nodes (i + 1 + j) empty_node (λ same. absurd (omega (arith, same)))
          (ap (get_elem? t.nodes) (omega arith) ∙ empty (suc j) (omega arith)) in
      let (kept', row) =
        into_trie_children_lem k into writes cs (i + 1) u (omega (arith, fits)) later in
      let last =
        get_elem?-lt t.nodes (i + length cs) empty_node (empty (length cs) (omega arith)) in
      let mine : Kept (λ j. length t.nodes ≤ j) u w =
        Kept-mono (Beside (i + 1) (length cs)) _ u w (λ j h. inr (omega (arith, h, last))) kept' in
      (
        Kept-trans (Beside i (suc (length cs))) t u w
            (Kept-mono (λ j. j ≢ i) _ t u (λ j h same. not_in i (length cs) j h same) kept)
            (Kept-mono (Beside (i + 1) (length cs)) _ u w (λ j h. further i (length cs) j h) kept'),
        (
          (
            m,
            kept'.nodes i m (inl (omega arith)) found,
            IsNode-Kept k u w (length t.nodes) (length t.nodes) c m (omega arith) mine is,
          ),
          Row-lower k w (length u.nodes) (length t.nodes) cs (i + 1) kept.count row,
        ),
      )
    where
      not_in : (i count j : ℕ) → Beside i (suc count) j → j ≢ i
      not_in i count j (inl h) same = absurd (omega (arith, h, same))
      not_in i count j (inr h) same = absurd (omega (arith, h, same))

      further : (i count j : ℕ) → Beside i (suc count) j → Beside (i + 1) count j
      further i count j (inl h) = inl (omega (arith, h))
      further i count j (inr h) = inr (omega (arith, h))

  pub into_trie_node_lem : (k : ℕ) → Writes k (into_trie_node k)
  unfolding into_trie_node node_count IsNode
  into_trie_node_lem zero (node l cs v p) index t fits empty = absurd (omega (arith, fits))
  into_trie_node_lem (suc k) (node l cs v p) index t fits empty =
      let sorted = sort label_le (to_list cs) in
      let u = store_node (node l cs v p) index t in
      let w = reserve (length sorted) index u in
      let x = into_trie_children (into_trie_node k) sorted (length u.nodes) w in
      let (kept_u, (n, at_u, written)) = store_node_lem l cs v p index t empty in
      let (kept_w, at_w, places, _) = reserve_lem (length sorted) index u n at_u in
      let (kept_x, row) =
        into_trie_children_lem k (into_trie_node k) (into_trie_node_lem k) sorted (length u.nodes) w
          (omega (arith, fits, sum_of-sort node_count label_le (to_list cs), sum_of-to_list cs))
          places in
      let here = get_elem?-lt t.nodes index empty_node empty in
      let Q : ℕ → Type 0 = λ j. j ≢ index in
      let B = Beside (length u.nodes) (length sorted) in
      let from_u : Kept (λ j. Q j × (j < length t.nodes)) u x =
        Kept-trans _ u w x (Kept-mono Q (λ j. Q j × (j < length t.nodes)) u w (λ j h. h.0) kept_w) (
          Kept-mono B (λ j. Q j × (j < length t.nodes)) w x
            (λ j h. inl (omega (arith, h.1, kept_u.count))) kept_x) in
      (
        Kept-of_lt Q t x (Kept-trans _ t u x (Kept-mono Q _ t u (λ j h. h.0) kept_u) from_u),
        (
          _,
          kept_x.nodes index _ (inl (omega (arith, here, kept_u.count))) at_w,
          (
            IsWritten-Kept _ u x l v p n from_u written,
            kept_u.count,
            refl,
            Row-lower k x (length w.nodes) (length t.nodes) sorted (length u.nodes)
                (omega (arith, kept_u.count, kept_w.count)) row,
          ),
        ),
      )
