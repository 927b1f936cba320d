-- ===== src/StaticFiles/ResponseHeaders.antt =====
-- static-files-module/src/metadata.rs and compression.rs: the response headers of a file.
use pandora_web_server.Base.{
  ℕ, Bool, not, ◌||◌, ◌&&◌, Option, none, some, Bytes, List, [], ◌∷◌, ◌++◌, codes, is_empty,
  add_u64, sub_u64, ◌==◌, if◌then◌else◌,
}
use pandora_web_server.StandardResponse.{to_string, append_if_some}
use pandora_web_server.StaticFiles.Metadata.{Metadata}
use pandora_web_server.StaticFiles.Encoding.{CompressionAlgorithm, name, ext, find_matches}

-- The status and the headers.
pub record ResponseHeader : Type 0 where
  pub status : ℕ
  pub headers : List (Bytes × Bytes)

abbrev content_type : Metadata → Option Bytes → Bytes × Bytes
content_type meta none = (codes "Content-Type", meta.mime)
content_type meta (some charset) = (codes "Content-Type", meta.mime ++ codes ";charset=" ++ charset)

-- `add_etag`.
abbrev etag_headers : Metadata → List (Bytes × Bytes)
etag_headers meta =
    append_if_some (codes "Last-Modified") meta.modified ++ (codes "ETag", meta.etag) ∷ []

unfoldable pub to_response_header : Metadata → Option Bytes → ResponseHeader
unfolding to_string
to_response_header meta charset = record {
  status = 200;
  headers =
      (codes "Content-Length", to_string meta.size)
      ∷ (codes "Accept-Ranges", codes "bytes")
      ∷ content_type meta charset
      ∷ etag_headers meta;
}

unfoldable pub to_partial_content_header : Metadata → Option Bytes → ℕ → ℕ → ResponseHeader
unfolding to_string
to_partial_content_header meta charset start end = record {
  status = 206;
  headers =
      (codes "Content-Length", to_string (add_u64 (sub_u64 end start) 1))
      ∷ (
        codes "Content-Range",
        codes "bytes "
            ++ to_string start
            ++ codes "-"
            ++ to_string end
            ++ codes "/"
            ++ to_string meta.size,
      )
      ∷ content_type meta charset
      ∷ etag_headers meta;
}

unfoldable pub to_not_satisfiable_header : Metadata → Option Bytes → ResponseHeader
unfolding to_string
to_not_satisfiable_header meta charset = record {
  status = 416;
  headers =
      (codes "Content-Range", codes "bytes */" ++ to_string meta.size)
      ∷ content_type meta charset
      ∷ etag_headers meta;
}

unfoldable pub to_custom_header : Metadata → ℕ → ResponseHeader
to_custom_header meta status = record { status = status; headers = etag_headers meta }

-- `Compression`: `insert` is the response's `insert_header`, which replaces a header's values.
pub record Compression : Type 0 where
  pub precompressed : List CompressionAlgorithm
  pub precompressed_active : Option CompressionAlgorithm
  pub dynamic : Bool

module _ (insert : Bytes → Bytes → List (Bytes × Bytes) → List (Bytes × Bytes)) where
  abbrev encoded : ResponseHeader → Option CompressionAlgorithm → ResponseHeader
  encoded header none = header
  encoded header (some algorithm) = record header {
    headers = insert (codes "Content-Encoding") (name algorithm) header.headers;
  }

  -- `transform_header`.
  unfoldable pub transform_header : Compression → ResponseHeader → ResponseHeader
  transform_header compression header =
      let changed =
        if not (header.status == 200) && not (header.status == 206)
        then header
        else encoded header compression.precompressed_active in
      if not (is_empty compression.precompressed) || compression.dynamic
      then record changed {
        headers = insert (codes "Vary") (codes "Accept-Encoding") changed.headers;
      }
      else changed

-- The path of the compressed version of a file: a file name has no slash, so what `set_file_name`
-- makes of it is the path with the extension behind it.
abbrev pub with_ext : Bytes → CompressionAlgorithm → Bytes
with_ext path algorithm = path ++ codes "." ++ ext algorithm

-- The loop of `rewrite_path`.
unfoldable pub first_file :
    (Bytes → Bool) → Bytes → List CompressionAlgorithm → Option (CompressionAlgorithm × Bytes)
first_file is_file path [] = none
first_file is_file path (algorithm ∷ overlap) =
    let later = first_file is_file path overlap in
    if is_file (with_ext path algorithm) then some (algorithm, with_ext path algorithm) else later

-- `rewrite_path`: `accepted` is the Accept-Encoding header, if it can be converted, and
-- `has_name` whether the path has a file name.
unfoldable pub rewrite_path :
    (Bytes → Option ℕ)
    → (Bytes → Bool)
    → Bool
    → Option Bytes
    → List CompressionAlgorithm
    → Bytes
    → Option (CompressionAlgorithm × Bytes)
unfolding first_file find_matches
rewrite_path read_quality is_file has_name none precompressed path = none
rewrite_path read_quality is_file has_name (some accepted) precompressed path =
    if is_empty precompressed || not has_name
    then none
    else first_file is_file path (find_matches read_quality accepted precompressed)
