-- ===== src/StaticFiles/Range/Bounds.antt =====
-- A valid range lies within the file, and the open forms of a range end at its last byte.
use mathlib.Core.Path.{subst}
use pandora_web_server.Base.{
  ℕ, ◌-◌, ◌≤◌, ◌<◌, ◌≡◌, Bool, true, false, ◌&&◌, inl, inr, Bool-cases, Option, none, some, ◌>>=◌,
  Bytes, codes, split_once, trim, is_empty, bytes_eq, parse_u64, u64_mod, ltb, leb, if◌then◌else◌,
  arith,
}
use pandora_web_server.StaticFiles.Metadata.{Metadata, Headers}
use pandora_web_server.StaticFiles.Range.{
  Range, valid, out_of_bounds, check_bounds, parse_suffix, parse_from, parse_between, parse_spec,
  parse, overruled, extract_range,
}

-- What a range that was resolved holds: a part of the file that is not empty, or nothing.
abbrev pub Within : ℕ → Option Range → Type 0
Within size none = Unit
Within size (some out_of_bounds) = Unit
Within size (some (valid start end)) = (start ≤ end) × (end < size)

check_bounds-Within : (size start end : ℕ) → Within size (some (check_bounds size start end))
check_bounds-Within size start end = elim (Bool-cases (leb size end)) [
  | inl past ↦ rw past tt
  | inr inside ↦ elim (Bool-cases (ltb end start)) [
    | inl crossed ↦ rw (inside, crossed) tt
    | inr ordered ↦ rw (inside, ordered) (ground arith, ground arith)
  ]
]

Within-bind {ℓ} :
    {A : Type ℓ} (size : ℕ) (o : Option A) (f : A → Option Range)
    → ((a : A) → Within size (f a))
    → Within size (o >>= f)
Within-bind size none f h = tt
Within-bind size (some a) f h = h a

Within-if :
    (size : ℕ) (b : Bool) (x y : Option Range)
    → Within size x
    → Within size y
    → Within size (if b then x else y)
Within-if size true x y h k = h
Within-if size false x y h k = k

parse_suffix-Within : (end : Bytes) (size : ℕ) → Within size (parse_suffix end size)
unfolding parse_suffix
parse_suffix-Within end size =
    Within-bind size (parse_u64 (trim end)) _
      λ len. Within-if size (ltb size len) (some out_of_bounds) _ tt (check_bounds-Within size _ _)

parse_from-Within : (start : Bytes) (size : ℕ) → Within size (parse_from start size)
unfolding parse_from
parse_from-Within start size =
    Within-bind size (parse_u64 (trim start)) _ (λ from. check_bounds-Within size from _)

parse_between-Within : (start end : Bytes) (size : ℕ) → Within size (parse_between start end size)
unfolding parse_between
parse_between-Within start end size =
    Within-bind size (parse_u64 (trim start)) _
      λ from. Within-bind size (parse_u64 (trim end)) _ (λ to. check_bounds-Within size from to)

parse_spec-Within : (spec : Bytes) (size : ℕ) → Within size (parse_spec spec size)
unfolding parse_spec
parse_spec-Within spec size = Within-bind size (split_once b'-' (trim spec)) _ λ (start, end).
    Within-if size (is_empty start) (parse_suffix end size) _ (parse_suffix-Within end size) (
      Within-if size (is_empty end) (parse_from start size) _ (parse_from-Within start size)
        (parse_between-Within start end size))

parse-Within : (range : Bytes) (size : ℕ) → Within size (parse range size)
unfolding parse
parse-Within range size = Within-bind size (split_once b'=' range) _ λ (units, spec).
    Within-if size (bytes_eq units (codes "bytes")) (parse_spec spec size) none
      (parse_spec-Within spec size) tt

-- A range that a request asks for and gets is not empty and lies within the file.
pub extract_range-Within :
    (headers : Headers) (meta : Metadata) (start end : ℕ)
    → extract_range headers meta ≡ some (valid start end)
    → (start ≤ end) × (end < meta.size)
unfolding extract_range
extract_range-Within headers meta start end e = subst (Within meta.size) e (
    Within-if meta.size (overruled (headers "if-range") meta) none _ tt
      (Within-bind meta.size (headers "range") _ (λ value. parse-Within value meta.size)))

-- For a size below 2 ^ 64, `-n` with a number `n` gives the positions of the last `n` bytes if
-- `n` is not 0 and at most the size, and is out of bounds otherwise.
pub parse_suffix-last :
    (end : Bytes) (size n : ℕ)
    → parse_u64 (trim end) ≡ some n
    → size < u64_mod
    → parse_suffix end size
      ≡ (if ltb 0 n && leb n size then some (valid (size - n) (size - 1)) else some out_of_bounds)
unfolding parse_suffix
parse_suffix-last end size n e fits = rw e (ground arith)
