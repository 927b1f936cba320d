-- ===== src/Router/Path/Prefix.antt =====
-- `remove_prefix_from` takes the segments of its path off the front of another path.
use mathlib.Core.List.{append-nil}
use pandora_web_server.Base.{
  true, false, not, ◌||◌, ◌≡◌, refl, sym, ap, ◌∙◌, inl, inr, Option, none, some, Bytes, List, [],
  ◌∷◌, ◌++◌, All, starts_with, length, drop, get_elem?, ◌==◌, Bool-cases, is_empty, arith,
}
use pandora_web_server.Trie.Prefix.{separator}
use pandora_web_server.Router.Path.{
  normalize, skip_separators, goes_on, remove_segments, or_root, remove_prefix_from,
}
use pandora_web_server.Router.Path.Normal.{drop_empty}
use pandora_web_server.Router.Path.Segments.{
  segments_of, IsSegment, split_of_NoSlash, split-append, segments_of-IsSegment, split-normalize,
}

segments_of-skip_separators : (path : Bytes) → segments_of (skip_separators path) ≡ segments_of path
unfolding skip_separators
segments_of-skip_separators [] = refl
segments_of-skip_separators (b ∷ path) = elim (Bool-cases (b == separator)) [
  | inl slash ↦ rw slash (segments_of-skip_separators path)
  | inr plain ↦ rw plain (rw plain)
]

starts_with-append :
    (part path : Bytes) → starts_with part path ≡ true → path ≡ part ++ drop (length part) path
starts_with-append [] path h = refl
starts_with-append (b ∷ part) [] h = cc h
starts_with-append (b ∷ part) (c ∷ path) h = ground (arith, starts_with-append part path)

get_elem?-append : (part path : Bytes) → get_elem? (part ++ path) (length part) ≡ get_elem? path 0
get_elem?-append [] path = refl
get_elem?-append (b ∷ part) path = get_elem?-append part path

-- Behind a segment that ends there come the segments of the rest.
segments_of-append :
    (part path : Bytes)
    → IsSegment part
    → goes_on (get_elem? path 0) ≡ false
    → segments_of (part ++ path) ≡ part ∷ segments_of path
segments_of-append [] path (p, h) e = cc p
segments_of-append (b ∷ part) [] (_, h) e =
    ap (λ r. segments_of r) (append-nil (b ∷ part)) ∙ ap drop_empty (split_of_NoSlash (b ∷ part) h)
segments_of-append (b ∷ part) (c ∷ path) (_, h) e =
    let slash : c ≡ separator = ground arith in
    rw slash (ap drop_empty (split-append (b ∷ part) path h))

-- Where `remove_segments` succeeds, the segments were in front, and those of the rest remain.
remove_segments_sound :
    (segments : List Bytes) (path rest : Bytes)
    → All IsSegment segments
    → remove_segments segments path ≡ some rest
    → segments_of path ≡ segments ++ segments_of rest
unfolding remove_segments
remove_segments_sound [] path rest h e = cc e
remove_segments_sound (segment ∷ segments) path rest (here, later) e =
    let from = skip_separators path in
    let behind = drop (length segment) from in
    elim (Bool-cases
      (not (starts_with segment from) || goes_on (get_elem? from (length segment)))) [
        | inl failed ↦ let bad : none ≡ some rest = rw failed at e in cc bad
        | inr fits ↦
            let more : remove_segments segments behind ≡ some rest = rw fits at e in
            let parts = starts_with-append segment from (ground (arith, fits)) in
            let next =
              ap (λ f. get_elem? f (length segment)) parts ∙ get_elem?-append segment behind in
            let ends : goes_on (get_elem? behind 0) ≡ false = ground (arith, fits, next) in
            sym (segments_of-skip_separators path)
            ∙ ap segments_of parts
            ∙ segments_of-append segment behind here ends
            ∙ ap (λ r. segment ∷ r) (remove_segments_sound segments behind rest later more)
      ]

-- `/` has no segments, as the empty path.
or_root_sound :
    (found : Option Bytes) (rest : Bytes)
    → or_root found ≡ some rest
    → (path : Bytes) × (found ≡ some path)
      × (segments_of path ≡ segments_of rest)
      × (is_empty rest ≡ false)
or_root_sound none rest e = cc e
or_root_sound (some []) rest e = ([], refl, ground (arith, e), ground (arith, e))
or_root_sound (some (b ∷ path)) rest e = (b ∷ path, refl, ground (arith, e), ground (arith, e))

-- If a prefix is removed from a path, the segments of the path are those of the prefix, followed
-- by those of what is returned; and what is returned is not empty.
pub remove_prefix_from_sound :
    (prefix path rest : Bytes)
    → remove_prefix_from (normalize prefix) path ≡ some rest
    → (segments_of path ≡ segments_of prefix ++ segments_of rest) × (is_empty rest ≡ false)
unfolding remove_prefix_from
remove_prefix_from_sound prefix path rest e = elim (Bool-cases (is_empty (normalize prefix))) [
  | inl empty ↦ let bad : none ≡ some rest = rw empty at e in cc bad
  | inr filled ↦
      let parts = split-normalize prefix filled in
      let found : or_root (remove_segments (segments_of prefix) path) ≡ some rest =
        rw (filled, parts) at e in
      let (left, removed, same, kept) = or_root_sound _ rest found in
      (
        remove_segments_sound (segments_of prefix) path left (segments_of-IsSegment prefix) removed
            ∙ ap (λ r. segments_of prefix ++ r) same,
        kept,
      )
]
