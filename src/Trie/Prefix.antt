-- ===== src/Trie/Prefix.antt =====
-- pandora-module-utils/src/trie.rs: `SEPARATOR` and `common_prefix_length`.
pub mod Longest
pub mod Joined
use pandora_web_server.Base.{ℕ, zero, suc, ◌+◌, ◌<◌, Bytes, List, [], ◌∷◌, ◌==◌, if◌then◌else◌}

abbrev pub separator : ℕ
separator = b'/'

-- The loop at index `i`, with what is left of both slices, and the tests behind it: `length` is
-- the longest boundary found so far. Where both slices end, or one ends at a separator of the
-- other, the result is the length of the shorter, which is `i`.
common_prefix_from : ℕ → ℕ → Bytes → Bytes → ℕ
common_prefix_from i length [] [] = i
common_prefix_from i length [] (y ∷ b) = if y == separator then i else length
common_prefix_from i length (x ∷ a) [] = if x == separator then i else length
common_prefix_from i length (x ∷ a) (y ∷ b) =
    let rest = common_prefix_from (i + 1) (if x == separator then i else length) a b in
    if x == y then rest else length

unfoldable pub common_prefix_length : Bytes → Bytes → ℕ
unfolding common_prefix_from
common_prefix_length a b = common_prefix_from 0 0 a b
