-- ===== src/Trie/Flat/Answers.antt =====
-- pandora-module-utils/src/trie.rs: what `lookup` finds in the trie that `build` makes of a builder.
use mathlib.Core.Path.{subst}
use pandora_web_server.Base.{
  ℕ, zero, suc, ◌-◌, ◌≤◌, ◌≡◌, refl, sym, ap, ◌∙◌, inl, inr, Option-cases, Option, none, some, or,
  Bytes, List, [], ◌∷◌, ◌++◌, All, length, length-append, sort, Eq, arith,
}
use pandora_web_server.Trie.Builder.{BuilderNode, node, TrieBuilder}
use pandora_web_server.Trie.Builder.Counts.{IsCounted}
use pandora_web_server.Trie.Builder.Values.{strip, strip_sound, at, at_children, IsTree}
use pandora_web_server.Trie.Flat.{
  Trie, Node, LookupResult, empty_node, to_list, label_le, matched_if, follow, to_lookup_result,
  lookup_from, lookup, into_trie_node, build,
}
use pandora_web_server.Trie.Flat.Places.{All-sort, All-of_sort}
use pandora_web_server.Trie.Flat.Kept.{Stored, Stored-or}
use pandora_web_server.Trie.Flat.Written.{IsNode, into_trie_node_lem}
use pandora_web_server.Trie.Flat.Longest.{
  longest_from, longest_from-cong, longest_from-none, longest_from-after, longest_after, after,
}
use pandora_web_server.Trie.Flat.Leads.{Leads, to_list-Leads, at_children-NotAt}
use pandora_web_server.Trie.Flat.Chosen.{match_child-Chosen}
use pandora_web_server.Router.Path.Segments.{IsSegment}

All-of_append : (ps q : List Bytes) → All IsSegment (ps ++ q) → All IsSegment q
All-of_append [] q all = all
All-of_append (p ∷ ps) q (_, all) = All-of_append ps q all

module _ {ℓ} {V : Type ℓ} where
  abbrev pub value_of : Option (LookupResult V) → Option V
  value_of none = none
  value_of (some r) = some r.value

  to_lookup_result-Stored :
      (t : Trie V) (r : Option ℕ) (v : Option V)
      → Stored t r v
      → value_of (to_lookup_result t r) ≡ v
  unfolding to_lookup_result
  to_lookup_result-Stored t none none s = refl
  to_lookup_result-Stored t none (some v) s = cc
  to_lookup_result-Stored t (some i) none s = cc
  to_lookup_result-Stored t (some i) (some v) (_, found) = rw found refl

  -- The lookup goes on below the child `c`, if its label matches to its end.
  follow-matched_if :
      (t : Trie V) (up : Option ℕ) (best : Option V) (fuel : ℕ)
      (descend : Node → List Bytes → Option (LookupResult V)) (c : BuilderNode V) (m : Node)
      (ps q : List Bytes)
      → length q ≤ fuel
      → All IsSegment q
      → ((r : List Bytes)
          → length r ≤ fuel
          → All IsSegment r
          → value_of (descend m r) ≡ longest_from (at c) r best)
      → Stored t up best
      → value_of (follow t up descend (matched_if m (strip ps q)))
        ≡ longest_after (at c) (strip ps q) best
  unfolding follow
  follow-matched_if t up best fuel descend c m ps q fits seg below stored =
      elim (Option-cases (strip ps q)) [
        | inl other ↦ rw other (to_lookup_result-Stored t up best stored)
        | inr (r, e) ↦
            let whole = strip_sound ps q r e in
            rw e (
              below r (omega (arith, fits, ap length whole, length-append ps r))
                (All-of_append ps r (subst (All IsSegment) whole seg)))
      ]

  -- At a node whose tree is written, the lookup finds what the tree has.
  lookup_from-longest :
      (t : Trie V) (lo k fuel : ℕ) (c : BuilderNode V) (n : Node) (result : Option ℕ)
      (above : Option V) (q : List Bytes)
      → length q ≤ fuel
      → All IsSegment q
      → IsTree c
      → IsNode k t lo c n
      → Stored t result above
      → value_of (lookup_from t fuel n result q) ≡ longest_from (at c) q above
  unfolding lookup_from longest_from at IsNode IsTree
  lookup_from-longest t lo zero fuel c n result above q fits seg tree is s = cc is
  lookup_from-longest t lo (suc k) fuel (node l cs v p) n result above [] fits seg tree
        ((_, exact, prefix), _, _, _) s =
      to_lookup_result-Stored t (or n.value_exact (or n.value_prefix result)) (or v (or p above)) (
        Stored-or t n.value_exact (or n.value_prefix result) v (or p above) exact
          (Stored-or t n.value_prefix result p above prefix s))
  lookup_from-longest t lo k zero c n result above (s ∷ q) fits seg tree is st =
      absurd (omega (arith, fits))
  lookup_from-longest t lo (suc k) (suc fuel) (node l cs v p) n result above (s ∷ q) fits (h, seg)
        tree ((_, exact, prefix), from, to, row) st =
      let sorted = sort label_le (to_list cs) in
      let f : List Bytes → Option V × Option V = λ r. at_children cs (s ∷ r) in
      let up = or n.value_prefix result in
      let best = or p above in
      let stored : Stored t up best = Stored-or t n.value_prefix result p above prefix st in
      let leads = All-sort (Leads f s) label_le (to_list cs) (to_list-Leads cs s tree) in
      let count : n.children.stop - n.children.start ≡ length sorted = omega (arith, to) in
      rw (count, lookup_from)
        (elim (match_child-Chosen t k lo (Leads f s) sorted n.children.start s q
          (λ c leads. leads.0) h seg leads row) [
            | inl (others, missed) ↦
                ap (λ m. value_of (follow t up (λ child rest. lookup_from t fuel child up rest) m))
                  missed
                ∙ to_lookup_result-Stored t up best stored
                ∙ sym (
                    longest_from-none f q best (λ r.
                      at_children-NotAt cs s r tree (All-of_sort _ label_le (to_list cs) others)))
            | inr (c, m, ps, (label, sub, to_c), is, starts, e) ↦
                ap (λ m. value_of (follow t up (λ child rest. lookup_from t fuel child up rest) m))
                  e
                ∙ follow-matched_if t up best fuel (λ child rest. lookup_from t fuel child up rest)
                    c m ps q (omega (arith, fits)) seg
                    (λ r short all.
                      lookup_from-longest t lo k fuel c m up best r short all sub is stored)
                    stored
                ∙ sym (
                    longest_from-cong f (λ r. after (at c) (strip ps r)) q best (to_c ps starts)
                    ∙ longest_from-after (at c) ps q best)
          ])

module _ {ℓ} {V : Type ℓ} ⦃e : Eq V⦄ where
  pub lookup-longest :
      (b : TrieBuilder V) (t : Trie V) (q : List Bytes)
      → IsCounted b
      → IsTree b.root
      → All IsSegment q
      → build b ≡ some t
      → value_of (lookup t q) ≡ longest_from (at b.root) q none
  unfolding build lookup
  lookup-longest b t q counted tree seg built =
      let start : Trie V = record { nodes = empty_node ∷ []; values = []; labels = [] } in
      let (_, (m, found, is)) =
        into_trie_node_lem b.nodes b.root 0 start (omega (arith, counted.nodes)) refl in
      let w = into_trie_node b.nodes b.root 0 start in
      let same : w ≡ t = ground (arith, built) in
      subst (λ x. value_of (lookup x q) ≡ longest_from (at b.root) q none) same
        (rw (found, lookup)
          (lookup_from-longest w 1 b.nodes (length q) b.root m none none q (omega arith) seg tree is
            (refl, refl)))
