-- ===== src/StaticFiles/Handler/Tests.antt =====
-- The handler of static files on a concrete file system, and its theorem there.
use pandora_web_server.Base.{◌≡◌, refl, true, false, none, some, Bytes, [], ◌∷◌, codes, bytes_eq}
use pandora_web_server.StandardResponse.{
  to_string, digits, response, redirect_response, error_response,
}
use pandora_web_server.StaticFiles.Encoding.{find_matches, parse_encoding}
use pandora_web_server.StaticFiles.Metadata.{has_failed_precondition, is_not_modified}
use pandora_web_server.StaticFiles.Range.{extract_range}
use pandora_web_server.StaticFiles.Paths.{
  ok, is_below, push_all, check_below, resolve_uri, path_to_uri,
}
use pandora_web_server.StaticFiles.ResponseHeaders.{
  ResponseHeader, to_response_header, to_partial_content_header, to_not_satisfiable_header,
  to_custom_header, transform_header, first_file, rewrite_path,
}
use pandora_web_server.StaticFiles.Handler.{
  StaticFilesHandler, Request, Services, metadata, sent, file_sent, find_index, file_of, error_page,
  send_range, respond, respond_for, canonical_target, serve, resolved_404, serve_404,
  serve_resolved, request_filter,
}
use pandora_web_server.StaticFiles.Handler.Confined.{Serves, request_filter-is_below}

abbrev services : Services
services = record {
  system = record {
    canonicalize = λ path. ok path;
    is_dir = λ path. bytes_eq path (codes "/srv/dir");
    is_file = λ path. bytes_eq path (codes "/srv/dir/index.html");
    percent_decode = λ text. text;
    percent_encode = λ text. text;
  };
  from_path = λ path original.
      metadata (record { mime = codes "text/html"; size = 10; modified = none; etag = codes "e" });
  has_name = λ path. true;
  read_quality = λ text. none;
  page = λ status. codes "page";
  insert = λ name value headers. (name, value) ∷ headers;
}

abbrev handler : StaticFilesHandler
handler = record {
  root = some (codes "/srv");
  canonicalize_uri = true;
  index_file = codes "index.html" ∷ codes "index.htm" ∷ [];
  page_404 = none;
  precompressed = [];
  declare_charset = codes "utf-8";
  declare_charset_matches = λ mime. true;
}

abbrev request : Request
request = record {
  method = codes "GET";
  path = codes "/dir/";
  query = some (codes "a=b");
  original_path = codes "/sub/dir/";
  headers = λ name. none;
  dynamic = false;
}

abbrev file_header : ResponseHeader
file_header = record {
  status = 200;
  headers =
      (codes "Content-Length", codes "10")
      ∷ (codes "Accept-Ranges", codes "bytes")
      ∷ (codes "Content-Type", codes "text/html;charset=utf-8")
      ∷ (codes "ETag", codes "e")
      ∷ [];
}

static_files : Unit {0}
unfolding request_filter serve_resolved serve_404 resolved_404 serve canonical_target respond_for
    respond send_range error_page file_of find_index rewrite_path first_file transform_header
    to_custom_header to_not_satisfiable_header to_partial_content_header to_response_header
    resolve_uri check_below push_all path_to_uri is_below extract_range has_failed_precondition
    is_not_modified to_string digits response redirect_response error_response find_matches
    parse_encoding
static_files = tt

request_sent :
    request_filter services handler request
    ≡ file_sent file_header (codes "/srv/dir/index.html") 0 9 true
unfolding static_files
request_sent = refl

-- A directory's address without the last slash is redirected, with the prefix that was removed.
redirect_test :
    request_filter services handler
      (record request { path = codes "/dir"; original_path = codes "/sub/dir" })
    ≡ sent (redirect_response (λ status. codes "page") false 308 (codes "/sub/dir/?a=b"))
unfolding static_files
redirect_test = refl

request_filter-is_below_example :
    (root resolved : Bytes) × (handler.root ≡ some root)
    × (is_below resolved root ≡ true)
    × Serves services handler request resolved (codes "/srv/dir/index.html")
request_filter-is_below_example =
    request_filter-is_below services handler request file_header (codes "/srv/dir/index.html") 0 9
      true request_sent
