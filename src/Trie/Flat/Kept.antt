-- ===== src/Trie/Flat/Kept.antt =====
-- pandora-module-utils/src/trie.rs: what the vectors hold of a node, and which steps of
-- `into_trie_node` keep it.
use mathlib.Core.List.{append-nil, append_assoc}
use pandora_web_server.Base.{
  ℕ, ◌+◌, ◌-◌, ◌>>=◌, is_some, ◌≤◌, ◌<◌, ◌≡◌, refl, sym, ap, ◌∙◌, Option, none, some, or, Bytes,
  List, [], ◌++◌, length, get_elem?, drop-length-append, take-length-append, arith,
}
use pandora_web_server.Trie.Flat.{IndexRange, Trie, Node, slice}
use pandora_web_server.Trie.Flat.Places.{get_elem?-append, get_elem?-lt}

-- `t'` has what `t` has: the nodes at the indices of `P`, the labels and the values.
pub record Kept {ℓ} {V : Type ℓ} (P : ℕ → Type 0) (t t' : Trie V) : Type ℓ where
  pub nodes :
      (j : ℕ) (n : Node) → P j → get_elem? t.nodes j ≡ some n → get_elem? t'.nodes j ≡ some n
  pub count : length t.nodes ≤ length t'.nodes
  pub labels : (s : Bytes) × (t'.labels ≡ t.labels ++ s)
  pub values : (s : List V) × (t'.values ≡ t.values ++ s)

module _ {ℓ} {V : Type ℓ} where
  pub Kept-refl : (P : ℕ → Type 0) (t : Trie V) → Kept P t t
  Kept-refl P t = record {
    nodes = λ j n p e. e;
    count = omega arith;
    labels = ([], sym (append-nil t.labels));
    values = ([], sym (append-nil t.values));
  }

  pub Kept-trans : (P : ℕ → Type 0) (t u w : Trie V) → Kept P t u → Kept P u w → Kept P t w
  Kept-trans P t u w h k = record {
    nodes = λ j n p e. k.nodes j n p (h.nodes j n p e);
    count = omega (arith, h.count, k.count);
    labels =
        let (a, e) = h.labels in
        let (b, f) = k.labels in (a ++ b, f ∙ ap (λ x. x ++ b) e ∙ append_assoc t.labels a b);
    values =
        let (a, e) = h.values in
        let (b, f) = k.values in (a ++ b, f ∙ ap (λ x. x ++ b) e ∙ append_assoc t.values a b);
  }

  pub Kept-mono :
      (P Q : ℕ → Type 0) (t u : Trie V) → ((j : ℕ) → Q j → P j) → Kept P t u → Kept Q t u
  Kept-mono P Q t u f h = record {
    nodes = λ j n q e. h.nodes j n (f j q) e;
    count = h.count;
    labels = h.labels;
    values = h.values;
  }

  -- The index `r` leads to the value `v`.
  abbrev pub Stored : Trie V → Option ℕ → Option V → Type ℓ
  Stored t r v = (is_some r ≡ is_some v) × ((r >>= get_elem? t.values) ≡ v)

  pub Stored-Kept :
      (P : ℕ → Type 0) (t t' : Trie V) (r : Option ℕ) (v : Option V)
      → Kept P t t'
      → Stored t r v
      → Stored t' r v
  Stored-Kept P t t' none none kept s = (refl, refl)
  Stored-Kept P t t' none (some v) kept s = cc
  Stored-Kept P t t' (some i) none kept s = cc
  Stored-Kept P t t' (some i) (some v) kept (_, found) =
      let (more, grown) = kept.values in
      (refl, ap (λ l. get_elem? l i) grown ∙ get_elem?-append t.values more i v found)

  pub Stored-or :
      (t : Trie V) (r r' : Option ℕ) (v v' : Option V)
      → Stored t r v
      → Stored t r' v'
      → Stored t (or r r') (or v v')
  Stored-or t none r' none v' s s' = s'
  Stored-or t none r' (some x) v' s s' = cc
  Stored-or t (some i) r' none v' s s' = cc
  Stored-or t (some i) r' (some x) v' s s' = s

  -- The label at a range.
  abbrev pub Labelled : Trie V → IndexRange → Bytes → Type 0
  Labelled t r l =
      (a : Bytes) × (b : Bytes) × (t.labels ≡ a ++ (l ++ b))
      × (r.start ≡ length a)
      × (r.stop ≡ length a + length l)

  pub Labelled-Kept :
      (P : ℕ → Type 0) (t t' : Trie V) (r : IndexRange) (l : Bytes)
      → Kept P t t'
      → Labelled t r l
      → Labelled t' r l
  Labelled-Kept P t t' r l kept (a, b, e, first, last) =
      let (s, grown) = kept.labels in
      (
        a,
        b ++ s,
        grown
            ∙ ap (λ x. x ++ s) e
            ∙ append_assoc a (l ++ b) s
            ∙ ap (λ x. a ++ x) (append_assoc l b s),
        first,
        last,
      )

  pub slice-Labelled :
      (t : Trie V) (r : IndexRange) (l : Bytes) → Labelled t r l → slice r t.labels ≡ l
  slice-Labelled t r l (a, b, e, first, last) =
      let size : r.stop - r.start ≡ length l = omega (arith, first, last) in
      rw (size, e, first, drop-length-append) (take-length-append l b)

  -- Behind the nodes of `t` there is nothing to keep.
  pub Kept-of_lt :
      (P : ℕ → Type 0) (t u : Trie V) → Kept (λ j. P j × (j < length t.nodes)) t u → Kept P t u
  Kept-of_lt P t u h = record {
    nodes = λ j n p e. h.nodes j n (p, get_elem?-lt t.nodes j n e) e;
    count = h.count;
    labels = h.labels;
    values = h.values;
  }

  -- The label and the values of a node are in the vectors.
  abbrev pub IsWritten : Trie V → Bytes → Option V → Option V → Node → Type ℓ
  IsWritten t l v p n = Labelled t n.label l × Stored t n.value_exact v × Stored t n.value_prefix p

  pub IsWritten-Kept :
      (P : ℕ → Type 0) (t t' : Trie V) (l : Bytes) (v p : Option V) (n : Node)
      → Kept P t t'
      → IsWritten t l v p n
      → IsWritten t' l v p n
  IsWritten-Kept P t t' l v p n kept (label, exact, prefix) = (
    Labelled-Kept P t t' n.label l kept label,
    Stored-Kept P t t' n.value_exact v kept exact,
    Stored-Kept P t t' n.value_prefix p kept prefix,
  )
