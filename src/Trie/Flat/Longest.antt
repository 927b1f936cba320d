-- ===== src/Trie/Flat/Longest.antt =====
-- pandora-module-utils/src/trie.rs: what a lookup has to find among values at lists of segments, and
-- the labels that `lookup` matches as lists of segments.
use pandora_web_server.Base.{
  ◌≡◌, refl, sym, ap, ◌∙◌, false, true, Bool-cases, inl, inr, Option, none, some, or, Bytes, List,
  [], ◌∷◌, ◌++◌, All, length, drop, ltb, lt→ltb, bytes_eq, bytes_eq_iff, drop-length-append,
  if◌then◌else◌, arith,
}
use pandora_web_server.Trie.Prefix.{common_prefix_length}
use pandora_web_server.Trie.Prefix.Joined.{behind, join-cons, common_prefix_length-join}
use pandora_web_server.Trie.Builder.Values.{strip, Slot}
use pandora_web_server.Trie.Flat.{match_label}
use pandora_web_server.Router.Path.Normal.{join}
use pandora_web_server.Router.Path.Segments.{IsSegment}

module _ {ℓ} {V : Type ℓ} where
  -- The exact value at the list of segments; if there is none, the prefix value at its longest
  -- start that has one; if there is none, `above`.
  unfoldable pub longest_from : (List Bytes → Slot V) → List Bytes → Option V → Option V
  longest_from f [] above = or (f []).0 (or (f []).1 above)
  longest_from f (s ∷ q) above = longest_from (λ r. f (s ∷ r)) q (or (f []).1 above)

  pub longest_from-cong :
      (f g : List Bytes → Slot V) (q : List Bytes) (above : Option V)
      → ((r : List Bytes) → f r ≡ g r)
      → longest_from f q above ≡ longest_from g q above
  unfolding longest_from
  longest_from-cong f g [] above h = rw (h []) refl
  longest_from-cong f g (s ∷ q) above h =
      ap (λ v. longest_from (λ r. f (s ∷ r)) q (or v.1 above)) (h [])
      ∙ longest_from-cong (λ r. f (s ∷ r)) (λ r. g (s ∷ r)) q (or (g []).1 above) (λ r. h (s ∷ r))

  pub longest_from-none :
      (f : List Bytes → Slot V) (q : List Bytes) (above : Option V)
      → ((r : List Bytes) → f r ≡ (none, none))
      → longest_from f q above ≡ above
  unfolding longest_from
  longest_from-none f [] above h = rw (h []) refl
  longest_from-none f (s ∷ q) above h =
      longest_from-none (λ r. f (s ∷ r)) q (or (f []).1 above) (λ r. h (s ∷ r))
      ∙ ap (λ v. or v.1 above) (h [])

  -- The values behind some segments.
  abbrev pub after : (List Bytes → Slot V) → Option (List Bytes) → Slot V
  after f none = (none, none)
  after f (some r) = f r

  abbrev pub longest_after : (List Bytes → Slot V) → Option (List Bytes) → Option V → Option V
  longest_after f none above = above
  longest_after f (some r) above = longest_from f r above

  pub longest_from-after :
      (f : List Bytes → Slot V) (ps q : List Bytes) (above : Option V)
      → longest_from (λ r. after f (strip ps r)) q above ≡ longest_after f (strip ps q) above
  unfolding longest_from strip
  longest_from-after f [] q above = refl
  longest_from-after f (p ∷ ps) [] above = refl
  longest_from-after f (p ∷ ps) (s ∷ q) above = elim (Bool-cases (bytes_eq p s)) [
    | inl same ↦
        longest_from-cong (λ r. after f (strip (p ∷ ps) (s ∷ r))) (λ r. after f (strip ps r)) q
          above (λ r. rw same refl)
        ∙ longest_from-after f ps q above
        ∙ rw same refl
    | inr differ ↦
        longest_from-none (λ r. after f (strip (p ∷ ps) (s ∷ r))) q above (λ r. rw differ refl)
        ∙ rw differ refl
  ]

bytes_eq_sym : (a b : Bytes) → bytes_eq a b ≡ bytes_eq b a
bytes_eq_sym a b = elim (Bool-cases (bytes_eq a b)) [
  | inl same ↦ let e = (bytes_eq_iff a b).0 same in same ∙ sym ((bytes_eq_iff b a).1 (sym e))
  | inr differ ↦ elim (Bool-cases (bytes_eq b a)) [
    | inl same ↦
        let e = (bytes_eq_iff a b).1 (sym ((bytes_eq_iff b a).0 same)) in
        let bad : true ≡ false = sym e ∙ differ in cc bad
    | inr differ' ↦ differ ∙ sym differ'
  ]
]

-- A segment and a label: what they share is the segment or nothing.
pub common_prefix_length-segment :
    (s p : Bytes) (ps : List Bytes)
    → IsSegment s
    → All IsSegment (p ∷ ps)
    → common_prefix_length s (join (p ∷ ps)) ≡ (if bytes_eq p s then length s else 0)
common_prefix_length-segment s p ps h all =
    common_prefix_length-join (s ∷ []) (p ∷ ps) (h, tt) all ∙ elim (Bool-cases (bytes_eq p s)) [
      | inl same ↦ rw (bytes_eq_sym s p, same) refl
      | inr differ ↦ rw (bytes_eq_sym s p, differ) refl
    ]

pub length-IsSegment : (s : Bytes) → IsSegment s → ltb 0 (length s) ≡ true
length-IsSegment [] h = cc (h.0)
length-IsSegment (b ∷ s) h = lt→ltb 0 (length (b ∷ s)) (omega arith)

-- What is left of a label behind its first segment is matched like its segments.
pub match_label-behind :
    (ps q : List Bytes)
    → All IsSegment ps
    → All IsSegment q
    → match_label (behind ps) q ≡ strip ps q
unfolding match_label strip
match_label-behind [] q all seg = refl
match_label-behind (p ∷ ps) [] all seg = refl
match_label-behind (p ∷ ps) (s ∷ q) (h, all) (k, seg) = elim (Bool-cases (bytes_eq p s)) [
  | inr differ ↦ rw (common_prefix_length-segment s p ps k (h, all), differ) refl
  | inl same ↦
      let left : drop (length s) (join (p ∷ ps)) ≡ behind ps =
        ap (drop (length s)) (join-cons p ps)
        ∙ ap (λ x. drop (length s) (x ++ behind ps)) ((bytes_eq_iff p s).0 same)
        ∙ drop-length-append s (behind ps) in
      rw (common_prefix_length-segment s p ps k (h, all), same, length-IsSegment s k)
        (ap (λ x. match_label x q) left ∙ match_label-behind ps q all seg)
]
