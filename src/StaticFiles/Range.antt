-- ===== src/StaticFiles/Range.antt =====
-- static-files-module/src/range.rs: the `Range` and `If-Range` request headers.
pub mod Bounds
use pandora_web_server.Base.{
  ℕ, Bool, true, false, not, ◌&&◌, ◌||◌, String, Option, none, some, ◌>>=◌, Bytes, List, codes,
  split_once, trim, is_empty, bytes_eq, parse_u64, sub_u64, ltb, leb, if◌then◌else◌,
}
use pandora_web_server.StaticFiles.Metadata.{Metadata, Headers}

pub data Range : Type 0 where
  valid : ℕ → ℕ → Range
  out_of_bounds : Range

-- The test at the end of `parse`.
abbrev check_bounds : ℕ → ℕ → ℕ → Range
check_bounds file_size start end =
    if leb file_size end || ltb end start then out_of_bounds else valid start end

-- The three forms: the last bytes, from a position, and between two positions.
unfoldable pub parse_suffix : Bytes → ℕ → Option Range
parse_suffix end file_size = do
  len ← parse_u64 (trim end)
  if ltb file_size len
      then some out_of_bounds
      else some (check_bounds file_size (sub_u64 file_size len) (sub_u64 file_size 1))

unfoldable pub parse_from : Bytes → ℕ → Option Range
parse_from start file_size = do
  from ← parse_u64 (trim start)
  some (check_bounds file_size from (sub_u64 file_size 1))

unfoldable pub parse_between : Bytes → Bytes → ℕ → Option Range
parse_between start end file_size = do
  from ← parse_u64 (trim start)
  to ← parse_u64 (trim end)
  some (check_bounds file_size from to)

-- `Range::parse` behind the units.
unfoldable pub parse_spec : Bytes → ℕ → Option Range
unfolding parse_suffix parse_from parse_between
parse_spec spec file_size = do
  (start, end) ← split_once b'-' (trim spec)
  if is_empty start
      then parse_suffix end file_size
      else if is_empty end
      then parse_from start file_size
      else parse_between start end file_size

-- `Range::parse`.
unfoldable pub parse : Bytes → ℕ → Option Range
unfolding parse_spec
parse range file_size = do
  (units, spec) ← split_once b'=' range
  if bytes_eq units (codes "bytes") then parse_spec spec file_size else none

-- `If-Range` names another version of the file.
abbrev is_modified : Bytes → Option Bytes → Bool
is_modified value none = false
is_modified value (some modified) = bytes_eq modified value

abbrev overruled : Option Bytes → Metadata → Bool
overruled none meta = false
overruled (some value) meta =
    not (bytes_eq value meta.etag) && not (is_modified value meta.modified)

-- `extract_range`.
unfoldable pub extract_range : Headers → Metadata → Option Range
unfolding parse
extract_range headers meta =
    if overruled (headers "if-range") meta
    then none
    else do value ← headers "range"; parse value meta.size
