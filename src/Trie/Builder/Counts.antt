-- ===== src/Trie/Builder/Counts.antt =====
-- The counters of a builder are the sizes of its tree.
use pandora_web_server.Base.{
  ℕ, zero, suc, ◌+◌, ◌≤◌, ◌<◌, min, ◌≡◌, refl, inl, inr, Option, some, Bytes, [], ◌∷◌, length, drop,
  length-take, length-drop, ltb, ltb→lt, Bool-cases, Option-cases, arith,
}
use pandora_web_server.Trie.Prefix.{common_prefix_length}
use pandora_web_server.Trie.Builder.{
  BuilderNode, BuilderNodes, node, nil, cons, label_of, append_node, TrieBuilder, Changed, new,
  split_child, meet_child, find_child, find_insertion_point, Setup, set_value, push, push_all,
}

-- The nodes of a tree, and the bytes of their labels.
unfoldable mutual
  pub node_count {ℓ} : {V : Type ℓ} → BuilderNode V → ℕ
  node_count (node l cs e p) = suc (nodes_count cs)

  pub nodes_count {ℓ} : {V : Type ℓ} → BuilderNodes V → ℕ
  nodes_count nil = 0
  nodes_count (cons c cs) = node_count c + nodes_count cs

unfoldable mutual
  pub node_bytes {ℓ} : {V : Type ℓ} → BuilderNode V → ℕ
  node_bytes (node l cs e p) = length l + nodes_bytes cs

  pub nodes_bytes {ℓ} : {V : Type ℓ} → BuilderNodes V → ℕ
  nodes_bytes nil = 0
  nodes_bytes (cons c cs) = node_bytes c + nodes_bytes cs

module _ {ℓ} {V : Type ℓ} where
  append_node_count :
      (cs : BuilderNodes V) (c : BuilderNode V)
      → nodes_count (append_node cs c) ≡ nodes_count cs + node_count c
  unfolding append_node node_count
  append_node_count nil c = omega arith
  append_node_count (cons d cs) c = omega (arith, append_node_count cs c)

  append_node_bytes :
      (cs : BuilderNodes V) (c : BuilderNode V)
      → nodes_bytes (append_node cs c) ≡ nodes_bytes cs + node_bytes c
  unfolding append_node node_bytes
  append_node_bytes nil c = omega arith
  append_node_bytes (cons d cs) c = omega (arith, append_node_bytes cs c)

  -- The counters in `r` moved from `nodes` and `labels` as the sizes did from `n`.
  abbrev NodeMoved : BuilderNode V → ℕ → ℕ → Changed (BuilderNode V) → Type 0
  NodeMoved n nodes labels r =
      (r.nodes + node_count n ≡ nodes + node_count r.changed)
      × (r.labels + node_bytes n ≡ labels + node_bytes r.changed)

  abbrev NodesMoved : BuilderNodes V → ℕ → ℕ → Changed (BuilderNodes V) → Type 0
  NodesMoved n nodes labels r =
      (r.nodes + nodes_count n ≡ nodes + nodes_count r.changed)
      × (r.labels + nodes_bytes n ≡ labels + nodes_bytes r.changed)

  split_child-NodeMoved :
      (n : ℕ) (c : BuilderNode V) (nodes labels : ℕ)
      → n < length (label_of c)
      → node_bytes c ≤ labels
      → NodeMoved c nodes labels (split_child n c nodes labels)
  unfolding split_child node_count node_bytes
  split_child-NodeMoved n (node l cs e p) nodes labels short fits =
      (omega arith, omega (arith, length-take n l, length-drop (n + 1) l))

  set_value-NodeMoved :
      (value_exact : V) (value_prefix : Option V) (c : BuilderNode V) (nodes labels : ℕ)
      (label : Bytes)
      → NodeMoved c nodes labels (set_value value_exact value_prefix c nodes labels label)
  unfolding set_value node_count node_bytes
  set_value-NodeMoved ve vp (node l cs e p) nodes labels [] = (omega arith, omega arith)
  set_value-NodeMoved ve vp (node l cs e p) nodes labels (b ∷ label) = (
    omega (arith, append_node_count cs (node (b ∷ label) nil (some ve) vp)),
    omega (arith, append_node_bytes cs (node (b ∷ label) nil (some ve) vp)),
  )

  meet_child-NodeMoved :
      (n : ℕ) (c : BuilderNode V) (nodes labels : ℕ)
      → node_bytes c ≤ labels
      → NodeMoved c nodes labels (meet_child n c nodes labels)
  unfolding meet_child
  meet_child-NodeMoved n c nodes labels fits = elim (Bool-cases (ltb n (length (label_of c)))) [
    | inl short ↦ rw short (split_child-NodeMoved n c nodes labels (ltb→lt _ _ short) fits)
    | inr whole ↦ rw whole (refl, refl)
  ]

  module _ (descend : BuilderNode V → ℕ → ℕ → Bytes → Changed (BuilderNode V))
      (moved : (c : BuilderNode V) (nodes labels : ℕ) (label : Bytes)
        → node_bytes c ≤ labels
        → NodeMoved c nodes labels (descend c nodes labels label)) where
    find_child-NodesMoved :
        (cs : BuilderNodes V) (nodes labels : ℕ) (label : Bytes) (r : Changed (BuilderNodes V))
        → nodes_bytes cs ≤ labels
        → find_child descend cs nodes labels label ≡ some r
        → NodesMoved cs nodes labels r
    unfolding find_child node_count node_bytes
    find_child-NodesMoved nil nodes labels label r fits e = cc
    find_child-NodesMoved (cons c cs) nodes labels label r fits e =
        let n = common_prefix_length (label_of c) label in
        let met = meet_child n c nodes labels in
        let met_moved = meet_child-NodeMoved n c nodes labels (omega arith) in
        let shorter = drop (min (n + 1) (length label)) label in
        elim (Bool-cases (ltb 0 n)) [
          | inl here ↦ ground (arith, met_moved, moved met.changed met.nodes met.labels shorter)
          | inr later ↦ elim (Option-cases (find_child descend cs nodes labels label)) [
            | inl missed ↦ ground arith
            | inr (l, found) ↦
                ground (arith, find_child-NodesMoved cs nodes labels label l (omega arith) found)
          ]
        ]

  module _ (value_exact : V) (value_prefix : Option V) where
    find_insertion_point-NodeMoved :
        (fuel : ℕ) (c : BuilderNode V) (nodes labels : ℕ) (label : Bytes)
        → node_bytes c ≤ labels
        → NodeMoved c nodes labels
            (find_insertion_point (set_value value_exact value_prefix) fuel c nodes labels label)
    unfolding find_insertion_point node_count node_bytes
    find_insertion_point-NodeMoved zero c nodes labels label fits =
        set_value-NodeMoved value_exact value_prefix c nodes labels label
    find_insertion_point-NodeMoved (suc fuel) (node l cs e p) nodes labels label fits =
        let descend = find_insertion_point (set_value value_exact value_prefix) fuel in
        elim (Option-cases (find_child descend cs nodes labels label)) [
          | inl missed ↦
              rw (missed, find_insertion_point)
                (set_value-NodeMoved value_exact value_prefix (node l cs e p) nodes labels label)
          | inr (r, found) ↦
              rw (found, find_insertion_point)
                (omega (
                  arith,
                  find_child-NodesMoved descend (find_insertion_point-NodeMoved fuel) cs nodes
                      labels label r (omega arith) found,
                ))
        ]

-- The counters of a builder are the sizes of its tree.
pub record IsCounted {ℓ} {V : Type ℓ} (b : TrieBuilder V) : Type 0 where
  pub nodes : b.nodes ≡ node_count b.root
  pub labels : b.labels ≡ node_bytes b.root

module _ {ℓ} {V : Type ℓ} where
  pub new-IsCounted : IsCounted (new {V = V})
  unfolding new node_count node_bytes
  new-IsCounted = record { nodes = refl; labels = refl }

  -- A push keeps the counters of a builder right: if they are the number of the nodes of its tree
  -- and the total length of the labels, then they are so of the tree after the push.
  pub push-IsCounted :
      (b : TrieBuilder V) (label : Bytes) (value_exact : V) (value_prefix : Option V)
      → IsCounted b
      → IsCounted (push b label value_exact value_prefix).0
  unfolding push
  push-IsCounted b label value_exact value_prefix counted =
      let (n, l) =
        find_insertion_point-NodeMoved value_exact value_prefix (length label) b.root b.nodes
          b.labels label (omega arith) in
      record { nodes = omega arith; labels = omega arith }

  pub push_all-IsCounted :
      (b : TrieBuilder V) (s : Setup V) → IsCounted b → IsCounted (push_all b s)
  unfolding push_all
  push_all-IsCounted b [] counted = counted
  push_all-IsCounted b ((label, v, p) ∷ rest) counted =
      push_all-IsCounted (push b label v p).0 rest (push-IsCounted b label v p counted)
