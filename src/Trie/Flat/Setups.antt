-- ===== src/Trie/Flat/Setups.antt =====
-- pandora-module-utils/src/trie.rs: setting up a trie, compiling it and looking values up in it.
use pandora_web_server.Base.{
  ◌≡◌, refl, ap, ◌∙◌, Option, none, some, Bytes, List, [], ◌∷◌, All, Eq, if◌then◌else◌,
}
use pandora_web_server.Trie.Builder.{Setup, TrieBuilder, new, push, push_all}
use pandora_web_server.Trie.Builder.Counts.{new-IsCounted, push_all-IsCounted}
use pandora_web_server.Trie.Builder.Values.{same, Slot, at, IsTree}
use pandora_web_server.Trie.Builder.Update.Push.{push-at}
use pandora_web_server.Trie.Flat.{Trie, build, lookup}
use pandora_web_server.Trie.Flat.Sizes.{build_of_IsCounted}
use pandora_web_server.Trie.Flat.Longest.{longest_from, longest_from-cong}
use pandora_web_server.Trie.Flat.Answers.{value_of, lookup-longest}
use pandora_web_server.Router.Path.Normal.{join}
use pandora_web_server.Router.Path.Segments.{IsSegment}

-- A setup whose labels are given by their segments.
abbrev pub Keyed {ℓ} : Type ℓ → Type ℓ
Keyed V = List (List Bytes × V × Option V)

new-IsTree {ℓ} : (V : Type ℓ) → IsTree (new {V = V}).root
unfolding IsTree new
new-IsTree V = tt

module _ {ℓ} {V : Type ℓ} where
  abbrev pub labelled : Keyed V → Setup V
  labelled [] = []
  labelled ((key, v, p) ∷ s) = (join key, v, p) ∷ labelled s

  abbrev pub IsKeyed : Keyed V → Type 0
  IsKeyed [] = Unit
  IsKeyed ((key, v, p) ∷ s) = All IsSegment key × IsKeyed s

  -- The values at each list of segments, a later entry in place of an earlier one.
  unfoldable pub slots_from : (List Bytes → Slot V) → Keyed V → List Bytes → Slot V
  slots_from f [] = f
  slots_from f ((key, v, p) ∷ s) = slots_from (λ q. if same key q then (some v, p) else f q) s

  unfoldable pub slots_of : Keyed V → List Bytes → Slot V
  unfolding slots_from
  slots_of s = slots_from (λ q. (none, none)) s

  -- What a lookup has to find: the exact value at the list of segments, or else the prefix value
  -- at its longest start that has one.
  unfoldable pub longest : Keyed V → List Bytes → Option V
  unfolding longest_from
  longest s q = longest_from (slots_of s) q none

  slots_from-cong :
      (s : Keyed V) (f g : List Bytes → Slot V) (q : List Bytes)
      → ((r : List Bytes) → f r ≡ g r)
      → slots_from f s q ≡ slots_from g s q
  unfolding slots_from
  slots_from-cong [] f g q h = h q
  slots_from-cong ((key, v, p) ∷ s) f g q h =
      slots_from-cong s _ _ q (λ r. ap (λ x. if same key r then (some v, p) else x) (h r))

  at-push_all :
      (s : Keyed V) (b : TrieBuilder V)
      → IsKeyed s
      → IsTree b.root
      → IsTree (push_all b (labelled s)).root
        × ((q : List Bytes) → at (push_all b (labelled s)).root q ≡ slots_from (at b.root) s q)
  unfolding push_all slots_from
  at-push_all [] b keys tree = (tree, λ q. refl)
  at-push_all ((key, v, p) ∷ s) b (here, keys) tree =
      let (grown, values) = push-at v p b key tree here in
      let (all, rest) = at-push_all s (push b (join key) v p).0 keys grown in
      (all, λ q. rest q ∙ slots_from-cong s _ _ q values)

  at-new : (q : List Bytes) → at (new {V = V}).root q ≡ (none, none)
  unfolding at new
  at-new [] = refl
  at-new (s ∷ q) = refl

module _ {ℓ} {V : Type ℓ} ⦃e : Eq V⦄ where
  -- After any sequence of pushes whose labels are segments joined by separators, `build` returns a
  -- trie, and the lookup of any segments in it finds the exact value that was pushed last for
  -- them, or else the prefix value at their longest start that has one, or else nothing.
  pub lookup-push_all :
      (s : Keyed V)
      → IsKeyed s
      → (t : Trie V) × (build (push_all new (labelled s)) ≡ some t)
        × ((q : List Bytes) → All IsSegment q → value_of (lookup t q) ≡ longest s q)
  unfolding longest slots_of
  lookup-push_all s keys =
      let b : TrieBuilder V = push_all new (labelled s) in
      let counted = push_all-IsCounted new (labelled s) new-IsCounted in
      let (tree, values) = at-push_all s new keys (new-IsTree V) in
      let (t, built, _) = build_of_IsCounted b counted in
      (
        t,
        built,
        λ q seg.
            lookup-longest b t q counted tree seg built
            ∙ longest_from-cong _ _ q none (λ r. values r ∙ slots_from-cong s _ _ r at-new),
      )
