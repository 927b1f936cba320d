-- ===== src/Trie/Flat.antt =====
-- pandora-module-utils/src/trie.rs: `Trie` and `Node`, the compilation of the builder's tree into
-- three vectors, and `lookup` and `retrieve` over them.
pub mod Sizes
pub mod Retrieve
pub mod Places
pub mod Kept
pub mod Steps
pub mod Written
pub mod Longest
pub mod Leads
pub mod Chosen
pub mod Answers
pub mod Setups
use pandora_web_server.Base.{
  ℕ, zero, suc, ◌+◌, ◌-◌, Bool, true, false, ◌&&◌, Option, none, some, or, is_some, ◌>>=◌, Bytes,
  List, [], ◌∷◌, ◌++◌, length, take, drop, get_elem?, modify, replicate, sort, position, bytes_le,
  ltb, ◌==◌, if◌then◌else◌, Eq,
}
use pandora_web_server.Trie.Prefix.{common_prefix_length}
use pandora_web_server.Trie.Builder.{
  BuilderNode, BuilderNodes, node, nil, cons, label_of, TrieBuilder,
}

-- `Range<usize>`.
pub record IndexRange : Type 0 where
  pub start : ℕ
  pub stop : ℕ

pub record Node : Type 0 where
  pub label : IndexRange
  pub value_exact : Option ℕ
  pub value_prefix : Option ℕ
  pub children : IndexRange

pub record Trie {ℓ} (V : Type ℓ) : Type ℓ where
  pub nodes : List Node
  pub values : List V
  pub labels : Bytes

-- `push_trie_node`: the entry that keeps a place.
abbrev pub empty_node : Node
empty_node = record {
  label = record { start = 0; stop = 0 };
  value_exact = none;
  value_prefix = none;
  children = record { start = 0; stop = 0 };
}

module _ {ℓ} {V : Type ℓ} where
  abbrev pub to_list : BuilderNodes V → List (BuilderNode V)
  to_list nil = []
  to_list (cons c cs) = c ∷ to_list cs

  -- The order of `sort_by` in `into_trie_node`.
  abbrev pub label_le : BuilderNode V → BuilderNode V → Bool
  label_le a b = bytes_le (label_of a) (label_of b)

module _ {ℓ} {V : Type ℓ} ⦃e : Eq V⦄ where
  -- The index of the value, and the values with it.
  unfoldable pub add_value : V → List V → ℕ × List V
  add_value value values = elim (position (λ v. e.beq v value) values) [
    | some index ↦ (index, values)
    | none ↦ (length values, values ++ value ∷ [])
  ]

  -- `if let Some(value) = … { nodes[index].… = Some(add_value(value)) }`
  unfoldable pub store_value : (Option ℕ → Node → Node) → Option V → ℕ → Trie V → Trie V
  store_value put none index t = t
  store_value put (some value) index t =
      let (i, values) = add_value value t.values in
      record t { nodes = modify t.nodes index (put (some i)); values = values }

  -- The last loop of `into_trie_node`.
  unfoldable pub into_trie_children :
      (BuilderNode V → ℕ → Trie V → Trie V) → List (BuilderNode V) → ℕ → Trie V → Trie V
  into_trie_children into [] child_index t = t
  into_trie_children into (child ∷ rest) child_index t =
      into_trie_children into rest (child_index + 1) (into child child_index t)

  -- What `into_trie_node` does for the node itself, before it looks at the children.
  unfoldable pub store_node : BuilderNode V → ℕ → Trie V → Trie V
  store_node (node label children value_exact value_prefix) index t =
      let from = length t.labels in
      let labelled = record t {
        nodes =
            modify t.nodes index
              (λ n. record n { label = record { start = from; stop = from + length label } });
        labels = t.labels ++ label;
      } in
      let exact = store_value (λ i n. record n { value_exact = i }) value_exact index labelled in
      store_value (λ i n. record n { value_prefix = i }) value_prefix index exact

  -- The places of `count` children behind the nodes that are there.
  unfoldable pub reserve : ℕ → ℕ → Trie V → Trie V
  reserve count index t =
      let from = length t.nodes in
      record t {
        nodes =
            modify t.nodes index
              (λ n. record n { children = record { start = from; stop = from + count } })
            ++ replicate count empty_node;
      }

  -- The recursion is over the children in another order, so it takes fuel: the number of nodes.
  unfoldable pub into_trie_node : ℕ → BuilderNode V → ℕ → Trie V → Trie V
  into_trie_node zero current index t = t
  into_trie_node (suc fuel) (node label children e p) index t =
      let stored = store_node (node label children e p) index t in
      let sorted = sort label_le (to_list children) in
      into_trie_children (into_trie_node fuel) sorted (length stored.nodes)
        (reserve (length sorted) index stored)

  -- `build`; `none` is a panic of one of its two assertions.
  unfoldable pub build : TrieBuilder V → Option (Trie V)
  build b =
      let t =
        into_trie_node b.nodes b.root 0
          (record { nodes = empty_node ∷ []; values = []; labels = [] }) in
      if length t.nodes == b.nodes && length t.labels == b.labels then some t else none

pub record LookupResult {ℓ} (V : Type ℓ) : Type ℓ where
  pub value : V
  pub index : ℕ

-- The `while` loop of `lookup`, on what is left of a child's label behind the segments matched so
-- far: it skips a separator and matches the next segment, to the end of the label. The segments
-- behind the label, or `none` if the label does not match.
unfoldable pub match_label : Bytes → List Bytes → Option (List Bytes)
match_label [] segments = some segments
match_label (c ∷ rest) [] = none
match_label (c ∷ rest) (segment ∷ segments) =
    let n = common_prefix_length segment rest in
    let more = match_label (drop n rest) segments in if ltb 0 n then more else none

-- How the loop over the children ends.
pub data ChildMatch : Type 0 where
  -- a child's label matches, and the segments behind it are left
  matched : Node → List Bytes → ChildMatch
  -- a child's label matches the segment and not what follows
  partial : ChildMatch
  -- no child matches the segment
  missed : ChildMatch
  -- an index of a child is not there
  broken : ChildMatch

abbrev pub slice : IndexRange → Bytes → Bytes
slice r bytes = take (r.stop - r.start) (drop r.start bytes)

abbrev pub matched_if : Node → Option (List Bytes) → ChildMatch
matched_if child none = partial
matched_if child (some rest) = matched child rest

module _ {ℓ} {V : Type ℓ} where
  -- The loop over `count` children from the index `at`.
  unfoldable pub match_child : Trie V → ℕ → ℕ → Bytes → List Bytes → ChildMatch
  unfolding match_label
  match_child t zero at segment segments = missed
  match_child t (suc count) at segment segments =
      let later = match_child t count (at + 1) segment segments in
      elim (get_elem? t.nodes at) [
        | none ↦ broken
        | some child ↦
            let label = slice child.label t.labels in
            let n = common_prefix_length segment label in
            if ltb 0 n then matched_if child (match_label (drop n label) segments) else later
      ]

  unfoldable pub to_lookup_result : Trie V → Option ℕ → Option (LookupResult V)
  to_lookup_result t result = do
    index ← result
    value ← get_elem? t.values index
    some (record { value = value; index = index })

  -- How the outer loop goes on after the loop over the children; `above` is `result_prefix`.
  unfoldable pub follow :
      Trie V
      → Option ℕ
      → (Node → List Bytes → Option (LookupResult V))
      → ChildMatch
      → Option (LookupResult V)
  follow t above descend (matched child rest) = descend child rest
  follow t above descend partial = to_lookup_result t above
  follow t above descend missed = to_lookup_result t above
  follow t above descend broken = none

  -- The outer loop of `lookup` at a node; `result` is the last `value_prefix` above it. Each round
  -- takes at least one segment, so their number is fuel enough.
  unfoldable pub lookup_from : Trie V → ℕ → Node → Option ℕ → List Bytes → Option (LookupResult V)
  unfolding match_child to_lookup_result follow
  lookup_from t fuel current result [] =
      to_lookup_result t (or current.value_exact (or current.value_prefix result))
  lookup_from t zero current result (segment ∷ segments) = none
  lookup_from t (suc fuel) current result (segment ∷ segments) =
      let above = or current.value_prefix result in
      let children = current.children in
      follow t above (λ child rest. lookup_from t fuel child above rest)
        (match_child t (children.stop - children.start) children.start segment segments)

  unfoldable pub lookup : Trie V → List Bytes → Option (LookupResult V)
  unfolding lookup_from
  lookup t segments = elim (get_elem? t.nodes 0) [
    | none ↦ none
    | some root ↦ lookup_from t (length segments) root none segments
  ]

  unfoldable pub retrieve : Trie V → ℕ → Option V
  retrieve t index = get_elem? t.values index
