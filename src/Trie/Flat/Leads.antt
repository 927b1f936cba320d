-- ===== src/Trie/Flat/Leads.antt =====
-- pandora-module-utils/src/trie.rs: the child of a builder's node that starts with a segment, and the
-- values behind that segment.
use mathlib.Core.Path.{subst}
use pandora_web_server.Base.{
  ◌≡◌, ◌≢◌, refl, ap, ◌∙◌, true, Bool-cases, Option-cases, inl, inr, none, Bytes, List, [], ◌∷◌,
  All, bytes_eq, bytes_eq_iff,
}
use pandora_web_server.Trie.Builder.{BuilderNode, BuilderNodes, nil, cons, label_of}
use pandora_web_server.Trie.Builder.Values.{
  strip, segs, at, at_children, Slot, Apart, ApartAll, IsLabel, IsTree, IsForest,
}
use pandora_web_server.Trie.Builder.Update.Split.{at_child-none, at_child-some}
use pandora_web_server.Trie.Flat.{to_list}
use pandora_web_server.Trie.Flat.Longest.{after}

strip-segment : (ps : List Bytes) (s : Bytes) (r : List Bytes) → strip (s ∷ ps) (s ∷ r) ≡ strip ps r
unfolding strip
strip-segment ps s r = rw ((bytes_eq_iff s s).1 refl) refl

-- The list does not start with the segment.
abbrev pub NotAt : Bytes → List Bytes → Type 0
NotAt s ls = (ps : List Bytes) → ls ≢ s ∷ ps

strip-NotAt :
    (ls : List Bytes) (s : Bytes) (r : List Bytes) → ls ≢ [] → NotAt s ls → strip ls (s ∷ r) ≡ none
unfolding strip
strip-NotAt [] s r some_segment other = absurd (some_segment refl)
strip-NotAt (p ∷ ps) s r some_segment other = elim (Bool-cases (bytes_eq p s)) [
  | inl same ↦ absurd (other ps (ap (λ x. x ∷ ps) ((bytes_eq_iff p s).0 same)))
  | inr differ ↦ rw differ refl
]

NotAt-of_Apart : (s : Bytes) (ps ls : List Bytes) → Apart (s ∷ ps) ls → NotAt s ls
unfolding Apart
NotAt-of_Apart s ps [] apart qs e = cc e
NotAt-of_Apart s ps (l ∷ ls) apart qs e =
    let same : bytes_eq s l ≡ true = (bytes_eq_iff s l).1 (cc e) in cc (same, apart)

Apart-NotAt : (s : Bytes) (ls ps : List Bytes) → Apart ls (s ∷ ps) → ls ≢ [] → NotAt s ls
unfolding Apart
Apart-NotAt s [] ps apart some_segment qs e = absurd (some_segment refl)
Apart-NotAt s (l ∷ ls) ps apart some_segment qs e =
    let same : bytes_eq l s ≡ true = (bytes_eq_iff l s).1 (cc e) in cc (same, apart)

module _ {ℓ} {V : Type ℓ} where
  -- No child starts with the segment, so there are no values behind it.
  pub at_children-NotAt :
      (cs : BuilderNodes V) (s : Bytes) (r : List Bytes)
      → IsForest cs
      → All (λ c. NotAt s (segs c)) (to_list cs)
      → at_children cs (s ∷ r) ≡ (none, none)
  unfolding at IsTree
  at_children-NotAt nil s r forest other = refl
  at_children-NotAt (cons c cs) s r ((_, some_segment), _, _, forest) (here, other) =
      at_child-none c (at_children cs (s ∷ r)) (s ∷ r) (strip-NotAt (segs c) s r some_segment here)
      ∙ at_children-NotAt cs s r forest other

  All-ApartAll :
      (s : Bytes) (ps : List Bytes) (cs : BuilderNodes V)
      → ApartAll (s ∷ ps) cs
      → All (λ c. NotAt s (segs c)) (to_list cs)
  unfolding ApartAll
  All-ApartAll s ps nil apart = tt
  All-ApartAll s ps (cons c cs) (here, apart) =
      (NotAt-of_Apart s ps (segs c) here, All-ApartAll s ps cs apart)

  -- If the child `c` starts with the segment `s`, the values behind that segment are its values.
  abbrev pub Leads : (List Bytes → Slot V) → Bytes → BuilderNode V → Type ℓ
  Leads f s c =
      IsLabel (label_of c)
      × IsTree c
      × ((ps : List Bytes) → segs c ≡ s ∷ ps → (r : List Bytes) → f r ≡ after (at c) (strip ps r))

  Leads-All :
      (f g : List Bytes → Slot V) (s : Bytes) (ls : List Bytes) (cs : BuilderNodes V)
      → ls ≢ []
      → ((r : List Bytes) → NotAt s ls → g r ≡ f r)
      → ApartAll ls cs
      → All (Leads f s) (to_list cs)
      → All (Leads g s) (to_list cs)
  unfolding ApartAll
  Leads-All f g s ls nil some_segment same apart leads = tt
  Leads-All f g s ls (cons c cs) some_segment same (apart, aparts) ((label, tree, to), leads) = (
    (
      label,
      tree,
      λ ps e r.
          same r (Apart-NotAt s ls ps (subst (λ x. Apart ls x) e apart) some_segment) ∙ to ps e r,
    ),
    Leads-All f g s ls cs some_segment same aparts leads,
  )

  pub to_list-Leads :
      (cs : BuilderNodes V) (s : Bytes)
      → IsForest cs
      → All (Leads (λ r. at_children cs (s ∷ r)) s) (to_list cs)
  unfolding at IsTree
  to_list-Leads nil s forest = tt
  to_list-Leads (cons c cs) s ((label, some_segment), apart, tree, forest) = (
    (
      (label, some_segment),
      tree,
      λ ps e r.
          let z = at_children cs (s ∷ r) in
          let starts = ap (λ x. strip x (s ∷ r)) e ∙ strip-segment ps s r in
          elim (Option-cases (strip ps r)) [
            | inl nothing ↦
                at_child-none c z (s ∷ r) (starts ∙ nothing)
                ∙ at_children-NotAt cs s r forest
                    (All-ApartAll s ps cs (subst (λ x. ApartAll x cs) e apart))
                ∙ rw nothing refl
            | inr (q, left) ↦ at_child-some c z (s ∷ r) q (starts ∙ left) ∙ rw left refl
          ],
    ),
    Leads-All (λ r. at_children cs (s ∷ r)) (λ r. at_children (cons c cs) (s ∷ r)) s (segs c) cs
        some_segment
        (λ r other.
          at_child-none c (at_children cs (s ∷ r)) (s ∷ r)
            (strip-NotAt (segs c) s r some_segment other))
        apart (to_list-Leads cs s forest),
  )
