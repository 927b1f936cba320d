-- ===== src/Router/Path/Normal.antt =====
-- `Path::normalize` keeps the segments of a path and nothing else.
use pandora_web_server.Base.{
  ℕ, true, false, ◌≡◌, refl, sym, ap, ◌∙◌, ◌≢◌, inl, inr, Bytes, List, [], ◌∷◌, ◌++◌, split, ◌==◌,
  ==_iff, Bool-cases,
}
use pandora_web_server.Trie.Prefix.{separator}
use pandora_web_server.Router.Path.{filter_separators, pop_separator, normalize}

-- The parts of a path that are not empty, as `make_key` of router.rs filters them.
abbrev pub drop_empty : List Bytes → List Bytes
drop_empty [] = []
drop_empty ([] ∷ parts) = drop_empty parts
drop_empty ((b ∷ part) ∷ parts) = (b ∷ part) ∷ drop_empty parts

-- Segments with one separator between each two.
abbrev pub join : List Bytes → Bytes
join [] = []
join (segment ∷ []) = segment
join (segment ∷ next ∷ segments) = segment ++ separator ∷ join (next ∷ segments)

abbrev cons_head : ℕ → List Bytes → List Bytes
cons_head b [] = (b ∷ []) ∷ []
cons_head b (part ∷ parts) = (b ∷ part) ∷ parts

split_slash : (path : Bytes) → split separator (separator ∷ path) ≡ [] ∷ split separator path
split_slash path = refl

split_plain :
    (b : ℕ) (path : Bytes)
    → (b == separator) ≡ false
    → split separator (b ∷ path) ≡ cons_head b (split separator path)
split_plain b path h = rw h

join-cons_head :
    (b c : ℕ) (parts : List Bytes)
    → join (drop_empty (cons_head b (cons_head c parts)))
      ≡ b ∷ join (drop_empty (cons_head c parts))
join-cons_head b c [] = refl
join-cons_head b c (part ∷ parts) = under (drop_empty parts)
  where
    under : (rest : List Bytes) → join ((b ∷ c ∷ part) ∷ rest) ≡ b ∷ join ((c ∷ part) ∷ rest)
    under [] = refl
    under (next ∷ rest) = refl

-- The first byte that the filter keeps behind a separator is no separator.
abbrev StartsPlain : Bytes → Type 0
StartsPlain [] = Unit
StartsPlain (b ∷ path) = (b == separator) ≡ false

filter_separators-StartsPlain : (path : Bytes) → StartsPlain (filter_separators true path)
unfolding filter_separators
filter_separators-StartsPlain [] = tt
filter_separators-StartsPlain (b ∷ path) = elim (Bool-cases (b == separator)) [
  | inl slash ↦ rw slash (filter_separators-StartsPlain path)
  | inr plain ↦ rw plain plain
]

pop_separator-ne-nil :
    (b : ℕ) (path : Bytes) → (b == separator) ≡ false → pop_separator (b ∷ path) ≢ []
unfolding pop_separator
pop_separator-ne-nil b [] plain = rw plain (λ e. cc e)
pop_separator-ne-nil b (c ∷ path) plain = λ e. cc e

pub eq-nil_of_join : (parts : List Bytes) → join (drop_empty parts) ≡ [] → drop_empty parts ≡ []
eq-nil_of_join [] e = refl
eq-nil_of_join ([] ∷ parts) e = eq-nil_of_join parts e
eq-nil_of_join ((b ∷ part) ∷ parts) e = absurd (joined (drop_empty parts) e)
  where
    joined : (rest : List Bytes) → join ((b ∷ part) ∷ rest) ≢ []
    joined [] e = cc e
    joined (next ∷ rest) e = cc e

-- A separator stays exactly if a segment follows.
pop_separator_slash :
    (b : ℕ) (path : Bytes) (parts : List Bytes)
    → StartsPlain path
    → pop_separator path ≡ join (drop_empty parts)
    → pop_separator (b ∷ separator ∷ path) ≡ join ((b ∷ []) ∷ drop_empty parts)
unfolding pop_separator
pop_separator_slash b [] parts plain e = rw (eq-nil_of_join parts (sym e))
pop_separator_slash b (c ∷ path) parts plain e = follow (drop_empty parts) e
  where
    follow :
        (segments : List Bytes)
        → pop_separator (c ∷ path) ≡ join segments
        → b ∷ separator ∷ pop_separator (c ∷ path) ≡ join ((b ∷ []) ∷ segments)
    follow [] e = absurd (pop_separator-ne-nil c path plain e)
    follow (next ∷ segments) e = ap (λ r. b ∷ separator ∷ r) e

mutual
  unfolding filter_separators pop_separator

  behind_separator :
      (path : Bytes)
      → pop_separator (filter_separators true path) ≡ join (drop_empty (split separator path))
  behind_separator [] = refl
  behind_separator (b ∷ path) = elim (Bool-cases (b == separator)) [
    | inl slash ↦ rw slash (behind_separator path)
    | inr plain ↦ rw (plain) (inside_segment path b plain)
  ]

  inside_segment :
      (path : Bytes) (b : ℕ)
      → (b == separator) ≡ false
      → pop_separator (b ∷ filter_separators false path)
        ≡ join (drop_empty (cons_head b (split separator path)))
  inside_segment [] b plain = rw plain
  inside_segment (c ∷ path) b plain = elim (Bool-cases (c == separator)) [
    | inl slash ↦ rw ((==_iff c separator).0 slash) (
        pop_separator_slash b (filter_separators true path) (split separator path)
          (filter_separators-StartsPlain path) (behind_separator path))
    | inr other ↦ rw other (
        ap (λ r. b ∷ r) (inside_segment path c other)
        ∙ sym (join-cons_head b c (split separator path)))
  ]

-- A normalized path is the segments of the path, those that are not empty, with one separator
-- between each two.
pub normalize_lem : (path : Bytes) → normalize path ≡ join (drop_empty (split separator path))
unfolding normalize
normalize_lem path = behind_separator path
