-- ===== src/StaticFiles/Encoding.antt =====
-- static-files-module/src/compression_algorithm.rs: the compression algorithms, and which of them
-- an `Accept-Encoding` header asks for.
pub mod Match
use pandora_web_server.Base.{
  ℕ, ◌*◌, ◌==◌, Bool, true, false, ◌&&◌, not, if◌then◌else◌, Option, none, some, List, [], ◌∷◌,
  ◌++◌, any, sort, leb, Bytes, codes, bytes_eq, split, split_once, trim,
}

-- The variants of `CompressionAlgorithm`.
pub data CompressionAlgorithm : Type 0 where
  gzip : CompressionAlgorithm
  deflate : CompressionAlgorithm
  compress : CompressionAlgorithm
  brotli : CompressionAlgorithm
  zstandard : CompressionAlgorithm

-- The derived `PartialEq` compares the discriminants.
abbrev pub discriminant : CompressionAlgorithm → ℕ
discriminant gzip = 0
discriminant deflate = 1
discriminant compress = 2
discriminant brotli = 3
discriminant zstandard = 4

abbrev pub same : CompressionAlgorithm → CompressionAlgorithm → Bool
same a b = discriminant a == discriminant b

abbrev pub ext : CompressionAlgorithm → Bytes
ext gzip = codes "gz"
ext deflate = codes "zz"
ext compress = codes "z"
ext brotli = codes "br"
ext zstandard = codes "zst"

abbrev pub from_ext : Bytes → Option CompressionAlgorithm
from_ext text =
    if bytes_eq text (codes "gz")
    then some gzip
    else if bytes_eq text (codes "zz")
    then some deflate
    else if bytes_eq text (codes "z")
    then some compress
    else if bytes_eq text (codes "br")
    then some brotli
    else if bytes_eq text (codes "zst")
    then some zstandard
    else none

abbrev pub name : CompressionAlgorithm → Bytes
name gzip = codes "gzip"
name deflate = codes "deflate"
name compress = codes "compress"
name brotli = codes "br"
name zstandard = codes "zstd"

abbrev pub from_name : Bytes → Option CompressionAlgorithm
from_name text =
    if bytes_eq text (codes "gzip")
    then some gzip
    else if bytes_eq text (codes "deflate")
    then some deflate
    else if bytes_eq text (codes "compress")
    then some compress
    else if bytes_eq text (codes "br")
    then some brotli
    else if bytes_eq text (codes "zstd")
    then some zstandard
    else none

-- `read_quality value` is `(f64::from_str(value)? * 1000.0) as u16`, if the number parses: the
-- floating-point numbers are the standard library's.
module _ (read_quality : Bytes → Option ℕ) where
  -- The quality behind one parameter, which was `quality` before it. 61 is `=`.
  abbrev pub with_param : Bytes → ℕ → ℕ
  with_param param quality = elim (split_once 61 param) [
    | none ↦ quality
    | some (key, value) ↦
        if bytes_eq (trim key) (codes "q")
        then elim (read_quality (trim value)) [ none ↦ quality | some q ↦ q ]
        else quality
  ]

  abbrev pub with_params : List Bytes → ℕ → ℕ
  with_params [] quality = quality
  with_params (param ∷ params) quality = with_params params (with_param param quality)

  -- `params.next()?` is never absent: a split has one part at least. 59 is `;`.
  unfoldable pub parse_encoding : Bytes → Option (Bytes × ℕ)
  parse_encoding encoding = elim (split 59 encoding) [
    | [] ↦ none
    | algorithm ∷ params ↦ some (trim algorithm, with_params params 1000)
  ]

  abbrev pub parse_all : List Bytes → List (Bytes × ℕ)
  unfolding parse_encoding
  parse_all [] = []
  parse_all (encoding ∷ encodings) = elim (parse_encoding encoding) [
    | none ↦ parse_all encodings
    | some parsed ↦ parsed ∷ parse_all encodings
  ]

-- The order of the keys `-(quality as i32)`.
abbrev pub quality_le : Bytes × ℕ → Bytes × ℕ → Bool
quality_le (_, q) (_, r) = leb r q

abbrev pub contains : List CompressionAlgorithm → CompressionAlgorithm → Bool
contains algorithms a = any (same a) algorithms

abbrev pub add_new : CompressionAlgorithm → List CompressionAlgorithm → List CompressionAlgorithm
add_new a result = if contains result a then result else result ++ a ∷ []

-- The loop behind `*`.
abbrev pub add_supported :
    List CompressionAlgorithm → List CompressionAlgorithm → List CompressionAlgorithm
add_supported [] result = result
add_supported (a ∷ supported) result = add_supported supported (add_new a result)

abbrev pub add_one :
    List CompressionAlgorithm
    → Option CompressionAlgorithm
    → List CompressionAlgorithm
    → List CompressionAlgorithm
add_one supported none result = result
add_one supported (some a) result = if contains supported a then add_new a result else result

-- The loop over the requests, by descending quality. 42 is `*`.
abbrev pub add_requested :
    List CompressionAlgorithm
    → List (Bytes × ℕ)
    → List CompressionAlgorithm
    → List CompressionAlgorithm
add_requested supported [] result = result
add_requested supported ((algorithm, _) ∷ requested) result =
    let rest = add_requested supported requested (add_one supported (from_name algorithm) result) in
    if bytes_eq algorithm (codes "*") then add_supported supported result else rest

unfoldable pub find_matches :
    (Bytes → Option ℕ) → Bytes → List CompressionAlgorithm → List CompressionAlgorithm
unfolding parse_encoding
find_matches read_quality requested supported =
    add_requested supported (sort quality_le (parse_all read_quality (split 44 requested))) []
