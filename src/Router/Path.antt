-- ===== src/Router/Path.antt =====
-- pandora-module-utils/src/router.rs: `Path`, a normalized list of segments.
pub mod Normal
pub mod Segments
pub mod Prefix
pub mod Parent
pub mod Ancestors
use pandora_web_server.Base.{
  ℕ, ◌+◌, Bool, true, false, not, ◌&&◌, ◌||◌, Option, none, some, Bytes, List, [], ◌∷◌, length,
  drop, get_elem?, split, starts_with, is_empty, codes, ◌==◌, if◌then◌else◌,
}
use pandora_web_server.Trie.Prefix.{separator, common_prefix_length}

-- The filter of `normalize`: `had_separator` is the variable that its closure changes.
filter_separators : Bool → Bytes → Bytes
filter_separators had_separator [] = []
filter_separators had_separator (b ∷ path) =
    let rest = filter_separators (b == separator) path in
    if b == separator && had_separator then rest else b ∷ rest

-- `if path.ends_with(&[SEPARATOR]) { path.pop(); }`
pop_separator : Bytes → Bytes
pop_separator [] = []
pop_separator (b ∷ []) = if b == separator then [] else b ∷ []
pop_separator (b ∷ c ∷ path) = b ∷ pop_separator (c ∷ path)

unfoldable pub normalize : Bytes → Bytes
unfolding filter_separators pop_separator
normalize path = pop_separator (filter_separators true path)

unfoldable pub is_prefix_of : Bytes → Bytes → Bool
is_prefix_of path other = common_prefix_length path other == length path

-- The `while let` of `remove_prefix_from`.
unfoldable pub skip_separators : Bytes → Bytes
skip_separators [] = []
skip_separators (b ∷ path) =
    let rest = skip_separators path in if b == separator then rest else b ∷ path

-- The byte behind a segment, if any, is no separator.
abbrev goes_on : Option ℕ → Bool
goes_on none = false
goes_on (some b) = not (b == separator)

unfoldable pub remove_segments : List Bytes → Bytes → Option Bytes
unfolding skip_separators
remove_segments [] path = some path
remove_segments (segment ∷ segments) path =
    let from = skip_separators path in
    let more = remove_segments segments (drop (length segment) from) in
    if not (starts_with segment from) || goes_on (get_elem? from (length segment))
    then none
    else more

abbrev or_root : Option Bytes → Option Bytes
or_root none = none
or_root (some path) = if is_empty path then some (codes "/") else some path

unfoldable pub remove_prefix_from : Bytes → Bytes → Option Bytes
unfolding remove_segments
remove_prefix_from prefix path =
    if is_empty prefix then none else or_root (remove_segments (split separator prefix) path)
