-- ===== src/Trie/Flat/Chosen.antt =====
-- pandora-module-utils/src/trie.rs: the child of a node that `lookup` goes on with.
use mathlib.Core.Path.{subst}
use pandora_web_server.Base.{
  ℕ, zero, suc, ◌+◌, ◌≡◌, refl, sym, ap, ◌∙◌, ◌⊎◌, true, Bool-cases, inl, inr, Bytes, List, [], ◌∷◌,
  ◌++◌, All, length, drop, bytes_eq, bytes_eq_iff, drop-length-append,
}
use pandora_web_server.Trie.Prefix.{common_prefix_length}
use pandora_web_server.Trie.Prefix.Joined.{behind, join-cons}
use pandora_web_server.Trie.Builder.{BuilderNode, node, label_of}
use pandora_web_server.Trie.Builder.Values.{strip, segs, IsLabel}
use pandora_web_server.Trie.Flat.{
  Trie, Node, ChildMatch, missed, matched_if, match_child, match_label, slice,
}
use pandora_web_server.Trie.Flat.Kept.{slice-Labelled}
use pandora_web_server.Trie.Flat.Written.{Row, IsNode, IsTreeAt}
use pandora_web_server.Trie.Flat.Longest.{
  common_prefix_length-segment, length-IsSegment, match_label-behind,
}
use pandora_web_server.Router.Path.Normal.{join}
use pandora_web_server.Router.Path.Segments.{IsSegment, segments_of, segments_of-IsSegment}
use pandora_web_server.Trie.Flat.Leads.{NotAt}

-- How a label of segments meets a segment.
module _ (l : Bytes) (s : Bytes) (q : List Bytes) (label : IsLabel l) (h : IsSegment s)
    (seg : All IsSegment q) where
  meets :
      (ls : List Bytes)
      → segments_of l ≡ ls
      → (NotAt s ls × (common_prefix_length s l ≡ 0))
        ⊎ ((ps : List Bytes) × (ls ≡ s ∷ ps)
            × (common_prefix_length s l ≡ length s)
            × (match_label (drop (length s) l) q ≡ strip ps q))
  meets [] e = absurd (label.1 e)
  meets (p ∷ ps) e =
      let all : All IsSegment (p ∷ ps) = subst (λ x. All IsSegment x) e (segments_of-IsSegment l) in
      let whole : l ≡ join (p ∷ ps) = sym (label.0) ∙ ap join e in
      let shared = common_prefix_length-segment s p ps h all in
      elim (Bool-cases (bytes_eq p s)) [
        | inr differ ↦ inl (
          (λ qs f.
              let same : bytes_eq p s ≡ true = (bytes_eq_iff p s).1 (cc f) in cc (same, differ)),
          ap (common_prefix_length s) whole ∙ rw differ at shared,
        )
        | inl same ↦
            let equal = (bytes_eq_iff p s).0 same in
            let left : drop (length s) l ≡ behind ps =
              ap (drop (length s)) (whole ∙ join-cons p ps)
              ∙ ap (λ x. drop (length s) (x ++ behind ps)) equal
              ∙ drop-length-append s (behind ps) in
            inr (
              ps,
              ap (λ x. x ∷ ps) equal,
              ap (common_prefix_length s) whole ∙ rw same at shared,
              ap (λ x. match_label x q) left ∙ match_label-behind ps q (all.1) seg,
            )
      ]

module _ {ℓ} {V : Type ℓ} (t : Trie V) where
  slice-IsNode :
      (k lo : ℕ) (c : BuilderNode V) (n : Node)
      → IsNode k t lo c n
      → slice n.label t.labels ≡ label_of c
  unfolding IsNode
  slice-IsNode zero lo c n is = cc is
  slice-IsNode (suc k) lo (node l cs v p) n ((label, _, _), _, _, _) =
      slice-Labelled t n.label l label

  -- What the loop over the children finds in a row of them.
  abbrev pub Chosen :
      ℕ
      → ℕ
      → (BuilderNode V → Type ℓ)
      → List (BuilderNode V)
      → Bytes
      → List Bytes
      → ChildMatch
      → Type ℓ
  Chosen k lo P cs s q m =
      (All (λ c. NotAt s (segs c)) cs × (m ≡ missed))
      ⊎ ((c : BuilderNode V) × (n : Node) × (ps : List Bytes) × P c
          × IsNode k t lo c n
          × (segs c ≡ s ∷ ps)
          × (m ≡ matched_if n (strip ps q)))

  pub match_child-Chosen :
      (k lo : ℕ) (P : BuilderNode V → Type ℓ) (cs : List (BuilderNode V)) (i : ℕ) (s : Bytes)
      (q : List Bytes)
      → ((c : BuilderNode V) → P c → IsLabel (label_of c))
      → IsSegment s
      → All IsSegment q
      → All P cs
      → Row (IsTreeAt k t lo) cs i
      → Chosen k lo P cs s q (match_child t (length cs) i s q)
  unfolding match_child Row
  match_child-Chosen k lo P [] i s q labels h seg all row = inl (tt, refl)
  match_child-Chosen k lo P (c ∷ cs) i s q labels h seg (p, all) ((n, found, is), row) =
      let label = slice-IsNode k lo c n is in
      elim (meets (label_of c) s q (labels c p) h seg (segs c) refl) [
        | inl (other, none_shared) ↦
            let on : match_child t (suc (length cs)) i s q ≡ match_child t (length cs) (i + 1) s q =
              rw (found, label, none_shared, match_child) refl in
            elim (match_child-Chosen k lo P cs (i + 1) s q labels h seg all row) [
              | inl (others, e) ↦ inl ((other, others), on ∙ e)
              | inr (d, m, ps, pd, is', e, f) ↦ inr (d, m, ps, pd, is', e, on ∙ f)
            ]
        | inr (ps, starts, shared, left) ↦ inr (
          c,
          n,
          ps,
          p,
          is,
          starts,
          rw (found, label, shared, length-IsSegment s h, left, match_child) refl,
        )
      ]
