-- ===== src/StaticFiles/Tests.antt =====
-- Ranges, conditions, encodings and responses on concrete inputs, and the theorems at such inputs.
use pandora_web_server.Base.{
  ℕ, ◌+◌, ◌-◌, ◌≤◌, ◌<◌, min, ◌≡◌, refl, ◌&&◌, String, Option, none, some, Bytes, [], ◌∷◌, any,
  take, drop, length, codes, Bool, true, false, List, bytes_instance, split, split_once, trim,
  parse_u64, u64_mod, bytes_eq, if◌then◌else◌, arith,
}
use pandora_web_server.StaticFiles.Range.{
  valid, out_of_bounds, parse, parse_suffix, parse_from, parse_between, parse_spec, extract_range,
}
use pandora_web_server.StaticFiles.Range.Bounds.{extract_range-Within}
use pandora_web_server.StaticFiles.Metadata.{
  Metadata, Headers, has_failed_precondition, is_not_modified,
}
use pandora_web_server.StaticFiles.Mime.{
  MimeType, MimeMatch, exact, type_, prefix, suffix, try_from, no_patterns, add_pattern,
  mime_matches,
}
use pandora_web_server.StaticFiles.Mime.Add.{add_all}
use pandora_web_server.StaticFiles.FileWriter.{file_response}
use pandora_web_server.StaticFiles.FileWriter.Complete.{Reads, Sent, file_response-Sent}
use pandora_web_server.StaticFiles.Encoding.{
  CompressionAlgorithm, gzip, brotli, zstandard, name, contains, parse_all, parse_encoding,
  find_matches,
}
use pandora_web_server.StaticFiles.Encoding.Match.{Distinct, asks_for, find_matches-contains}

static_files : Unit {0}
unfolding parse_u64 parse parse_suffix parse_from parse_between parse_spec extract_range
    has_failed_precondition is_not_modified parse_encoding find_matches
static_files = tt

abbrev meta : Metadata
meta = record {
  mime = codes "text/html";
  size = 1000;
  modified = some (codes "Fri, 15 May 2015 15:34:21 GMT");
  etag = codes "\"abc\"";
}

-- The headers of a request that has one of them.
abbrev header : String → Bytes → Headers
header name value other = if bytes_eq (codes name) (codes other) then some value else none

parse_tests :
    (parse (codes "bytes=0-499") 1000 ≡ some (valid 0 499))
    × (parse (codes "bytes=500-") 1000 ≡ some (valid 500 999))
    × (parse (codes "bytes=-300") 1000 ≡ some (valid 700 999))
    × (parse (codes "bytes=-1001") 1000 ≡ some out_of_bounds)
    × (parse (codes "bytes=5-4") 1000 ≡ some out_of_bounds)
    × (parse (codes "bytes=0-1000") 1000 ≡ some out_of_bounds)
    × (parse (codes "lines=0-4") 1000 ≡ none)
unfolding static_files
parse_tests = (refl, refl, refl, refl, refl, refl, refl)

extracted : extract_range (header "range" (codes "bytes=-300")) meta ≡ some (valid 700 999)
unfolding static_files
extracted = refl

extract_range-Within_example : (700 ≤ 999) × (999 < meta.size)
extract_range-Within_example =
    extract_range-Within (header "range" (codes "bytes=-300")) meta 700 999 extracted

three_hundred : parse_u64 (trim (codes "300")) ≡ some 300
unfolding static_files
three_hundred = refl

size_fits : 1000 < u64_mod
size_fits = omega arith

abbrev file : Bytes
file = codes "Hello, world"

-- Reads that return at most five bytes.
abbrev read : ℕ → ℕ → ℕ
read position wanted = min 5 (min wanted (length file - position))

read-Reads : Reads file read
read-Reads = record {
  at_most = λ position wanted. omega arith;
  some_bytes = λ position wanted h k. omega arith;
}

file_fits : length file < u64_mod
file_fits = omega arith

in_order : 1 ≤ 10
in_order = omega arith

inside : 10 < length file
inside = omega arith

file_response-Sent_example : Sent (take (10 - 1 + 1) (drop 1 file)) (file_response file read 1 10)
file_response-Sent_example = file_response-Sent file read read-Reads 1 10 file_fits in_order inside

abbrev quality : Bytes → Option ℕ
quality value =
    if bytes_eq value (codes "0.5")
    then some 500
    else if bytes_eq value (codes "0")
    then some 0
    else none

find_matches_tests :
    (find_matches quality (codes "gzip;q=0.5, br , identity") (gzip ∷ brotli ∷ zstandard ∷ [])
      ≡ brotli ∷ gzip ∷ [])
    × (find_matches quality (codes "*, zstd;q=0.5") (gzip ∷ brotli ∷ []) ≡ gzip ∷ brotli ∷ [])
    × (find_matches quality (codes "gzip;q=0") (gzip ∷ brotli ∷ []) ≡ gzip ∷ [])
unfolding static_files
find_matches_tests = (refl, refl, refl)

find_matches-contains_example :
    Distinct (find_matches quality (codes "gzip;q=0.5, br") (gzip ∷ brotli ∷ []))
    × ((a : CompressionAlgorithm)
        → contains (find_matches quality (codes "gzip;q=0.5, br") (gzip ∷ brotli ∷ [])) a
          ≡ contains (gzip ∷ brotli ∷ []) a
            && any (asks_for a) (parse_all quality (split 44 (codes "gzip;q=0.5, br"))))
find_matches-contains_example =
    find_matches-contains quality (codes "gzip;q=0.5, br") (gzip ∷ brotli ∷ [])

-- MIME types as their texts.
abbrev mimes : MimeType Bytes
mimes = record {
  parse = λ text. some text;
  as_ref = λ mime. mime;
  type_of = λ mime. elim (split_once 47 mime) [ none ↦ [] | some (name, sub) ↦ name ];
}

abbrev patterns : List (MimeMatch Bytes)
patterns =
    type_ (codes "text")
    ∷ exact (codes "application/javascript")
    ∷ suffix (codes "+xml")
    ∷ prefix (codes "dummy")
    ∷ []

try_from_tests :
    (try_from mimes (codes "text/*") ≡ some (type_ (codes "text")))
    × (try_from mimes (codes "application/javascript")
        ≡ some (exact (codes "application/javascript")))
    × (try_from mimes (codes "*+xml") ≡ some (suffix (codes "+xml")))
    × (try_from mimes (codes "dummy*") ≡ some (prefix (codes "dummy")))
unfolding try_from
try_from_tests = (refl, refl, refl, refl)

abbrev covered : Bytes → Bool
covered mime = mime_matches mimes (add_all no_patterns patterns) mime

mime_matches_tests :
    (covered (codes "text/html") ≡ true)
    × (covered (codes "text2/xml") ≡ false)
    × (covered (codes "text2/anything+xml") ≡ true)
    × (covered (codes "application/javascript+png") ≡ false)
    × (covered (codes "dummys/html") ≡ true)
    × (covered (codes "application/dummy") ≡ false)
unfolding mime_matches add_all add_pattern
mime_matches_tests = (refl, refl, refl, refl, refl, refl)
