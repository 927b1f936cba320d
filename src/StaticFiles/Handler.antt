-- ===== src/StaticFiles/Handler.antt =====
-- static-files-module/src/handler.rs: `request_filter`.
pub mod Found
pub mod Confined
mod Tests
use pandora_web_server.Base.{
  ℕ, Bool, true, false, not, ◌&&◌, ◌||◌, Option, none, some, ◌>>=◌, Bytes, List, [], ◌∷◌, ◌++◌,
  codes, strip_suffix, is_empty, bytes_eq, sub_u64, if◌then◌else◌,
}
use pandora_web_server.StandardResponse.{Response, error_response, redirect_response}
use pandora_web_server.StaticFiles.Encoding.{CompressionAlgorithm}
use pandora_web_server.StaticFiles.Metadata.{
  Metadata, Headers, has_failed_precondition, is_not_modified,
}
use pandora_web_server.StaticFiles.Range.{Range, valid, out_of_bounds, extract_range}
use pandora_web_server.StaticFiles.Range
use pandora_web_server.StaticFiles.Paths.{
  ErrorKind, not_found, permission_denied, invalid_input, invalid_data, other_error, Resolved, ok,
  err, FileSystem, push, resolve_uri, path_to_uri,
}
use pandora_web_server.StaticFiles.ResponseHeaders.{
  ResponseHeader, Compression, to_response_header, to_partial_content_header,
  to_not_satisfiable_header, to_custom_header, transform_header, rewrite_path,
}

pub record StaticFilesHandler : Type 0 where
  pub root : Option Bytes
  pub canonicalize_uri : Bool
  pub index_file : List Bytes
  pub page_404 : Option Bytes
  pub precompressed : List CompressionAlgorithm
  pub declare_charset : Bytes
  pub declare_charset_matches : Bytes → Bool

pub record Request : Type 0 where
  pub method : Bytes
  pub path : Bytes
  pub query : Option Bytes
  pub original_path : Bytes
  pub headers : Headers
  -- whether the session compresses responses
  pub dynamic : Bool

pub data MetadataResult : Type 0 where
  metadata : Metadata → MetadataResult
  failed : ErrorKind → MetadataResult

-- `Metadata::from_path`, `Path::file_name`, the parsing of qualities, the pages, and the
-- `insert_header` of a response.
pub record Services : Type 0 where
  pub system : FileSystem
  pub from_path : Bytes → Option Bytes → MetadataResult
  pub has_name : Bytes → Bool
  pub read_quality : Bytes → Option ℕ
  pub page : ℕ → Bytes
  pub insert : Bytes → Bytes → List (Bytes × Bytes) → List (Bytes × Bytes)

-- How the handler ends.
pub data Outcome : Type 0 where
  unhandled : Outcome
  -- a page or a redirect was sent
  sent : Response → Outcome
  -- a header alone was sent
  header_sent : ResponseHeader → Outcome
  -- a header was sent, and with `true` the bytes of the file between two positions
  file_sent : ResponseHeader → Bytes → ℕ → ℕ → Bool → Outcome

-- The loop over the index files: a file that is found is the path that the next name is joined to.
unfoldable pub find_index : (Bytes → Bool) → List Bytes → Bytes → Bytes
find_index is_file [] path = path
find_index is_file (filename ∷ filenames) path =
    find_index is_file filenames (if is_file (push path filename) then push path filename else path)

abbrev with_query : Bytes → Option Bytes → Bytes
with_query uri none = uri
with_query uri (some query) = uri ++ codes "?" ++ query

abbrev with_prefix : Option Bytes → Bytes → Bytes
with_prefix none uri = uri
with_prefix (some prefix) uri = prefix ++ uri

abbrev is_head : Request → Bool
is_head request = bytes_eq request.method (codes "HEAD")

-- The status of an error of `resolve_uri` other than `NotFound`.
abbrev pub error_status : ErrorKind → ℕ
error_status invalid_input = 400
error_status invalid_data = 400
error_status permission_denied = 403
error_status not_found = 500
error_status other_error = 500

module _ (services : Services) (handler : StaticFilesHandler) (request : Request) where
  unfoldable pub error_page : ℕ → Outcome
  unfolding error_response
  error_page status = sent (error_response services.page (is_head request) status)

  -- What follows the header of a file: its status if the path was not found, and the body.
  abbrev pub send_file : Bool → ResponseHeader → Bytes → ℕ → ℕ → Outcome
  send_file missing header path start end =
      file_sent (if missing then record header { status = 404 } else header) path start end
        (not (is_head request))

  -- The choice of the range. In a release build `meta.size - 1` wraps around for an empty file.
  unfoldable pub send_range :
      Compression → Metadata → Option Bytes → Bool → Bytes → Option Range → Outcome
  unfolding transform_header to_partial_content_header to_not_satisfiable_header to_response_header
  send_range compression meta charset missing path (some (valid start end)) =
      send_file missing
        (transform_header services.insert compression
          (to_partial_content_header meta charset start end))
        path start end
  send_range compression meta charset missing path (some out_of_bounds) =
      header_sent
        (transform_header services.insert compression (to_not_satisfiable_header meta charset))
  send_range compression meta charset missing path none =
      send_file missing
        (transform_header services.insert compression (to_response_header meta charset)) path 0
        (sub_u64 meta.size 1)

  -- From the conditions on.
  unfoldable pub respond : Compression → Bool → Bytes → MetadataResult → Outcome
  unfolding error_page send_range has_failed_precondition is_not_modified extract_range
  respond compression missing path (failed kind) =
      error_page (elim kind [ invalid_input ↦ 403 | _ ↦ 500 ])
  respond compression missing path (metadata meta) =
      let header : ℕ → Outcome = λ status.
        header_sent (transform_header services.insert compression (to_custom_header meta status)) in
      let charset =
        if handler.declare_charset_matches meta.mime then some handler.declare_charset else none in
      let ranged =
        send_range compression meta charset missing path (extract_range request.headers meta) in
      if has_failed_precondition meta request.headers
      then header 412
      else (if is_not_modified meta request.headers then header 304 else ranged)

  abbrev pub compression_with : Option CompressionAlgorithm → Compression
  compression_with active = record {
    precompressed = handler.precompressed;
    precompressed_active = active;
    dynamic = request.dynamic;
  }

  -- From the test of the method on.
  unfoldable pub respond_for : Bool → Bytes → Outcome
  unfolding error_page respond rewrite_path
  respond_for missing path =
      let answer : Outcome =
        elim (rewrite_path services.read_quality services.system.is_file (services.has_name path)
          (request.headers "accept-encoding") handler.precompressed path) [
            | none ↦ respond (compression_with none) missing path (services.from_path path none)
            | some (algorithm, compressed) ↦
                respond (compression_with (some algorithm)) missing compressed
                  (services.from_path compressed (some path))
          ] in
      if bytes_eq request.method (codes "GET") || is_head request then answer else error_page 405

  abbrev non_empty : Option Bytes → Option Bytes
  non_empty none = none
  non_empty (some text) = if is_empty text then none else some text

  -- The address to redirect to, if the path has another one.
  unfoldable pub canonical_target : Bytes → Bytes → Option Bytes
  unfolding path_to_uri
  canonical_target path root = path_to_uri services.system path root >>= λ canonical.
      if bytes_eq canonical request.path
      then none
      else some (
          with_prefix (non_empty (strip_suffix request.path request.original_path))
            (with_query canonical request.query))

  -- The index file, for a directory that has one.
  unfoldable pub file_of : Bytes → Bytes
  unfolding find_index
  file_of path =
      if services.system.is_dir path
      then find_index services.system.is_file handler.index_file path
      else path

  -- With the path of a file or a directory; `missing` is whether it is that of the error page.
  unfoldable pub serve : Bool → Bytes → Bytes → Outcome
  unfolding file_of respond_for canonical_target redirect_response
  serve missing path root =
      let target =
        if handler.canonicalize_uri && not missing then canonical_target path root else none in
      elim target [
        | some uri ↦ sent (redirect_response services.page (is_head request) 308 uri)
        | none ↦ respond_for missing (file_of path)
      ]

  -- The error page's path, if there is one that can be resolved.
  unfoldable pub resolved_404 : Bytes → Option Bytes → Option Bytes
  unfolding resolve_uri
  resolved_404 root none = none
  resolved_404 root (some page) = elim (resolve_uri services.system page root) [
    | ok path ↦ some path
    | err kind ↦ none
  ]

  unfoldable pub serve_404 : Bytes → Option Bytes → Outcome
  unfolding error_page serve
  serve_404 root none = error_page 404
  serve_404 root (some path) = serve true path root

  unfoldable pub serve_resolved : Bytes → Resolved → Outcome
  unfolding error_page serve resolved_404 serve_404
  serve_resolved root (ok path) = serve false path root
  serve_resolved root (err not_found) = serve_404 root (resolved_404 root handler.page_404)
  serve_resolved root (err permission_denied) = error_page (error_status permission_denied)
  serve_resolved root (err invalid_input) = error_page (error_status invalid_input)
  serve_resolved root (err invalid_data) = error_page (error_status invalid_data)
  serve_resolved root (err other_error) = error_page (error_status other_error)

  unfoldable pub request_filter : Outcome
  unfolding serve_resolved resolve_uri
  request_filter = elim handler.root [
    | none ↦ unhandled
    | some root ↦ serve_resolved root (resolve_uri services.system request.path root)
  ]
