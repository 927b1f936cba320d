-- ===== src/Trie/Builder.antt =====
-- pandora-module-utils/src/trie.rs: `TrieBuilder` and `BuilderNode`, the tree that a setup fills.
pub mod Counts
pub mod Values
pub mod Update
use pandora_web_server.Base.{
  ℕ, zero, suc, ◌+◌, ◌-◌, min, Bool, false, Option, none, some, Bytes, List, [], ◌∷◌, length, take,
  drop, ltb, is_some, if◌then◌else◌, is_empty,
}
use pandora_web_server.Trie.Prefix.{common_prefix_length}

-- `children: Vec<BuilderNode>` is a list type of its own.
mutual
  pub data BuilderNode {ℓ} (V : Type ℓ) : Type ℓ where
    node :
        (label : Bytes) (children : BuilderNodes V) (value_exact value_prefix : Option V)
        → BuilderNode V

  pub data BuilderNodes {ℓ} (V : Type ℓ) : Type ℓ where
    nil : BuilderNodes V
    cons : BuilderNode V → BuilderNodes V → BuilderNodes V

module _ {ℓ} {V : Type ℓ} where
  abbrev pub label_of : BuilderNode V → Bytes
  label_of (node label children value_exact value_prefix) = label

  -- `Vec::push`.
  unfoldable pub append_node : BuilderNodes V → BuilderNode V → BuilderNodes V
  append_node nil n = cons n nil
  append_node (cons c cs) n = cons c (append_node cs n)

pub record TrieBuilder {ℓ} (V : Type ℓ) : Type ℓ where
  pub nodes : ℕ
  pub labels : ℕ
  pub root : BuilderNode V

-- A node that was changed in place, the two counters, and whether a value was overwritten.
pub record Changed {ℓ} (N : Type ℓ) : Type ℓ where
  pub changed : N
  pub nodes : ℕ
  pub labels : ℕ
  pub had_value : Bool

-- The same outcome for what `n` stands in.
abbrev pub within {ℓ κ} : {M : Type ℓ} {N : Type κ} → N → Changed M → Changed N
within n r = record { changed = n; nodes = r.nodes; labels = r.labels; had_value = r.had_value }

module _ {ℓ} {V : Type ℓ} where
  -- `TrieBuilder::new`.
  unfoldable pub new : TrieBuilder V
  new = record { nodes = 1; labels = 0; root = node [] nil none none }

  -- The split of a child that the label shares its first `n` bytes with: the child is put
  -- below a new node for them, the separator behind them is dropped.
  unfoldable pub split_child : ℕ → BuilderNode V → ℕ → ℕ → Changed (BuilderNode V)
  split_child n (node label children e p) nodes labels = record {
    changed = node (take n label) (cons (node (drop (n + 1) label) children e p) nil) none none;
    nodes = nodes + 1;
    labels = labels - 1;
    had_value = false;
  }

  -- A child that shares `n` bytes with the label is split, if that is not its whole label.
  unfoldable pub meet_child : ℕ → BuilderNode V → ℕ → ℕ → Changed (BuilderNode V)
  meet_child n child nodes labels =
      if ltb n (length (label_of child))
      then split_child n child nodes labels
      else record { changed = child; nodes = nodes; labels = labels; had_value = false }

  -- The loop of `find_insertion_point` over the children: `descend` goes on below the first
  -- one with a common prefix, with what is left of the label. `none` if there is no such child.
  unfoldable pub find_child :
      (BuilderNode V → ℕ → ℕ → Bytes → Changed (BuilderNode V))
      → BuilderNodes V
      → ℕ
      → ℕ
      → Bytes
      → Option (Changed (BuilderNodes V))
  find_child descend nil nodes labels label = none
  find_child descend (cons child rest) nodes labels label =
      let n = common_prefix_length (label_of child) label in
      let shorter = drop (min (n + 1) (length label)) label in
      let met = meet_child n child nodes labels in
      let r = descend met.changed met.nodes met.labels shorter in
      let below = some (within (cons r.changed rest) r) in
      let later = find_child descend rest nodes labels label in
      if ltb 0 n
      then below
      else elim later [ none ↦ none | some l ↦ some (within (cons child l.changed) l) ]

  -- `find_insertion_point`, and `update` in place of the reference that it returns. Each round
  -- takes at least one byte off the label, which is the fuel.
  unfoldable pub find_insertion_point :
      (BuilderNode V → ℕ → ℕ → Bytes → Changed (BuilderNode V))
      → ℕ
      → BuilderNode V
      → ℕ
      → ℕ
      → Bytes
      → Changed (BuilderNode V)
  find_insertion_point update zero current nodes labels label = update current nodes labels label
  find_insertion_point update (suc fuel) (node l children e p) nodes labels label =
      elim (find_child (find_insertion_point update fuel) children nodes labels label) [
        | none ↦ update (node l children e p) nodes labels label
        | some r ↦ within (node l r.changed e p) r
      ]

  -- What `push` does at the insertion point.
  unfoldable pub set_value : V → Option V → BuilderNode V → ℕ → ℕ → Bytes → Changed (BuilderNode V)
  set_value value_exact value_prefix (node l children e p) nodes labels [] = record {
    changed = node l children (some value_exact) value_prefix;
    nodes = nodes;
    labels = labels;
    had_value = is_some e;
  }
  set_value value_exact value_prefix (node l children e p) nodes labels (c ∷ label) = record {
    changed =
        node l (append_node children (node (c ∷ label) nil (some value_exact) value_prefix)) e p;
    nodes = nodes + 1;
    labels = labels + length (c ∷ label);
    had_value = false;
  }

  -- `push`: the new builder, and whether an existing value was overwritten.
  unfoldable pub push : TrieBuilder V → Bytes → V → Option V → TrieBuilder V × Bool
  push b label value_exact value_prefix =
      let r =
        find_insertion_point (set_value value_exact value_prefix) (length label) b.root b.nodes
          b.labels label in
      (record { nodes = r.nodes; labels = r.labels; root = r.changed }, r.had_value)

-- The labels and values of a setup, in the order in which they are pushed.
abbrev pub Setup {ℓ} : Type ℓ → Type ℓ
Setup V = List (Bytes × V × Option V)

unfoldable pub push_all {ℓ} : {V : Type ℓ} → TrieBuilder V → Setup V → TrieBuilder V
push_all b [] = b
push_all b ((label, value_exact, value_prefix) ∷ rest) =
    push_all (push b label value_exact value_prefix).0 rest
