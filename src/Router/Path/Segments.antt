-- ===== src/Router/Path/Segments.antt =====
-- The segments of a path: taking them apart again, and the paths that have the same ones.
use pandora_web_server.Base.{
  ℕ, false, ◌≡◌, refl, sym, ap, ◌∙◌, inl, inr, Bytes, List, [], ◌∷◌, ◌++◌, All, split, ◌==◌,
  Bool-cases, is_empty,
}
use pandora_web_server.Trie.Prefix.{separator}
use pandora_web_server.Router.Path.{normalize}
use pandora_web_server.Router.Path.Normal.{drop_empty, join, normalize_lem}

-- The segments of a path, as `make_key` of router.rs takes them.
abbrev pub segments_of : Bytes → List Bytes
segments_of path = drop_empty (split separator path)

abbrev pub NoSlash : Bytes → Type 0
NoSlash part = All (λ b. (b == separator) ≡ false) part

abbrev pub IsSegment : Bytes → Type 0
IsSegment part = (is_empty part ≡ false) × NoSlash part

abbrev cons_head : ℕ → List Bytes → List Bytes
cons_head b [] = (b ∷ []) ∷ []
cons_head b (part ∷ parts) = (b ∷ part) ∷ parts

All-cons_head :
    (b : ℕ) (parts : List Bytes)
    → (b == separator) ≡ false
    → All NoSlash parts
    → All NoSlash (cons_head b parts)
All-cons_head b [] h all = ((h, tt), tt)
All-cons_head b (part ∷ parts) h (p, all) = ((h, p), all)

split-NoSlash : (path : Bytes) → All NoSlash (split separator path)
split-NoSlash [] = (tt, tt)
split-NoSlash (b ∷ path) = elim (Bool-cases (b == separator)) [
  | inl slash ↦ rw slash (tt, split-NoSlash path)
  | inr plain ↦ rw plain (All-cons_head b (split separator path) plain (split-NoSlash path))
]

drop_empty-IsSegment : (parts : List Bytes) → All NoSlash parts → All IsSegment (drop_empty parts)
drop_empty-IsSegment [] h = tt
drop_empty-IsSegment ([] ∷ parts) (_, h) = drop_empty-IsSegment parts h
drop_empty-IsSegment ((b ∷ part) ∷ parts) (p, h) = ((refl, p), drop_empty-IsSegment parts h)

-- The segments of any path are not empty and hold no separator.
pub segments_of-IsSegment : (path : Bytes) → All IsSegment (segments_of path)
segments_of-IsSegment path = drop_empty-IsSegment (split separator path) (split-NoSlash path)

pub split_of_NoSlash : (part : Bytes) → NoSlash part → split separator part ≡ part ∷ []
split_of_NoSlash [] h = refl
split_of_NoSlash (b ∷ part) (plain, h) = rw plain (ap (cons_head b) (split_of_NoSlash part h))

pub split-append :
    (part path : Bytes)
    → NoSlash part
    → split separator (part ++ separator ∷ path) ≡ part ∷ split separator path
split-append [] path h = refl
split-append (b ∷ part) path (plain, h) = rw plain (ap (cons_head b) (split-append part path h))

-- Joined segments are split into the same segments.
split-join :
    (part : Bytes) (parts : List Bytes)
    → All IsSegment (part ∷ parts)
    → split separator (join (part ∷ parts)) ≡ part ∷ parts
split-join part [] ((_, h), _) = split_of_NoSlash part h
split-join part (next ∷ parts) ((_, h), all) =
    split-append part (join (next ∷ parts)) h ∙ ap (λ r. part ∷ r) (split-join next parts all)

drop_empty_of_IsSegment : (parts : List Bytes) → All IsSegment parts → drop_empty parts ≡ parts
drop_empty_of_IsSegment [] h = refl
drop_empty_of_IsSegment ([] ∷ parts) ((p, _), h) = cc p
drop_empty_of_IsSegment ((b ∷ part) ∷ parts) (_, h) =
    ap (λ r. (b ∷ part) ∷ r) (drop_empty_of_IsSegment parts h)

pub segments_of-join : (parts : List Bytes) → All IsSegment parts → segments_of (join parts) ≡ parts
segments_of-join [] h = refl
segments_of-join (part ∷ parts) h =
    ap drop_empty (split-join part parts h) ∙ drop_empty_of_IsSegment (part ∷ parts) h

-- A path and its normal form have the same segments, so a lookup sees no difference; and
-- normalizing a second time changes nothing.
pub normalize-segments :
    (path : Bytes)
    → (segments_of (normalize path) ≡ segments_of path)
      × (normalize (normalize path) ≡ normalize path)
normalize-segments path =
    let same =
      ap segments_of (normalize_lem path)
      ∙ segments_of-join (segments_of path) (segments_of-IsSegment path) in
    (same, normalize_lem (normalize path) ∙ ap join same ∙ sym (normalize_lem path))

-- The split of a normalized path that is not empty is its segments.
pub split-normalize :
    (path : Bytes)
    → is_empty (normalize path) ≡ false
    → split separator (normalize path) ≡ segments_of path
split-normalize path h =
    ap (split separator) (normalize_lem path)
    ∙ joined (segments_of path) (segments_of-IsSegment path)
        (ap is_empty (sym (normalize_lem path)) ∙ h)
  where
    joined :
        (parts : List Bytes)
        → All IsSegment parts
        → is_empty (join parts) ≡ false
        → split separator (join parts) ≡ parts
    joined [] all e = cc e
    joined (part ∷ parts) all e = split-join part parts all
