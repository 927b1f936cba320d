-- ===== src/StaticFiles/Handler/Confined.antt =====
-- Which files are sent.
use mathlib.Core.Path.{subst}
use pandora_web_server.Base.{
  strip_prefix, ℕ, ◌≡◌, refl, ◌∙◌, ◌⊎◌, inl, inr, Bool, true, false, Bool-cases, Option-cases, ◌||◌,
  ◌&&◌, not, Option, none, some, Bytes, codes, bytes_eq, if◌then◌else◌,
}
use pandora_web_server.StaticFiles.Encoding.{CompressionAlgorithm}
use pandora_web_server.StaticFiles.Metadata.{Metadata, has_failed_precondition, is_not_modified}
use pandora_web_server.StaticFiles.Range.{Range, valid, out_of_bounds, extract_range}
use pandora_web_server.StaticFiles.Paths.{
  not_found, permission_denied, invalid_input, invalid_data, other_error, Resolved, ok, err,
  is_below, check_below, resolve_uri,
}
use pandora_web_server.StaticFiles.ResponseHeaders.{
  ResponseHeader, Compression, with_ext, rewrite_path,
}
use pandora_web_server.StaticFiles.Handler.{
  StaticFilesHandler, Request, Services, MetadataResult, metadata, failed, file_sent, send_range,
  respond, respond_for, canonical_target, error_page, file_of, compression_with, serve, serve_404,
  serve_resolved, resolved_404, request_filter,
}
use pandora_web_server.StaticFiles.Handler.Found.{
  IsIndex, itself, find_index-IsIndex, rewrite_path-with_ext,
}

module _ (services : Services) (handler : StaticFilesHandler) (request : Request) where
  -- The file of an address, or its index file, or the compressed version of one of these.
  abbrev pub Serves : Bytes → Bytes → Type 0
  Serves resolved path =
      (file : Bytes) × IsIndex services.system.is_file handler.index_file resolved file
      × ((path ≡ file) ⊎ ((algorithm : CompressionAlgorithm) × (path ≡ with_ext file algorithm)))

  send_range-path :
      (c : Compression) (meta : Metadata) (charset : Option Bytes) (missing : Bool) (path : Bytes)
      (range : Option Range) (h : ResponseHeader) (file : Bytes) (start end : ℕ) (body : Bool)
      → send_range services handler request c meta charset missing path range
        ≡ file_sent h file start end body
      → file ≡ path
  unfolding send_range
  send_range-path c meta charset missing path none h file start end body e = cc e
  send_range-path c meta charset missing path (some (valid from to)) h file start end body e = cc e
  send_range-path c meta charset missing path (some out_of_bounds) h file start end body e =
      absurd (cc e)

  respond-path :
      (c : Compression) (missing : Bool) (path : Bytes) (result : MetadataResult)
      (h : ResponseHeader) (file : Bytes) (start end : ℕ) (body : Bool)
      → respond services handler request c missing path result ≡ file_sent h file start end body
      → file ≡ path
  unfolding respond error_page
  respond-path c missing path (failed kind) h file start end body e = absurd (cc e)
  respond-path c missing path (metadata meta) h file start end body e =
      elim (Bool-cases (has_failed_precondition meta request.headers)) [
        | inl f ↦ absurd (cc (rw (f, respond) at e))
        | inr f ↦ elim (Bool-cases (is_not_modified meta request.headers)) [
          | inl g ↦ absurd (cc (rw (f, g, respond) at e))
          | inr g ↦
              send_range-path c meta _ missing path (extract_range request.headers meta) h file
                start end body (rw (f, g, respond) at e)
        ]
      ]

  respond_for-Serves :
      (missing : Bool) (resolved file : Bytes) (h : ResponseHeader) (path : Bytes) (start end : ℕ)
      (body : Bool)
      → IsIndex services.system.is_file handler.index_file resolved file
      → respond_for services handler request missing file ≡ file_sent h path start end body
      → Serves resolved path
  unfolding respond_for error_page rewrite_path
  respond_for-Serves missing resolved file h path start end body found e =
      elim (Bool-cases
        (bytes_eq request.method (codes "GET") || bytes_eq request.method (codes "HEAD"))) [
          | inr denied ↦ absurd (cc (rw (denied, respond_for) at e))
          | inl allowed ↦
              elim (Option-cases (
                rewrite_path services.read_quality services.system.is_file (services.has_name file)
                  (request.headers "accept-encoding") handler.precompressed file)) [
                    | inl f ↦ (
                      file,
                      found,
                      inl (
                          respond-path (compression_with services handler request none) missing file
                            (services.from_path file none) h path start end body
                            (rw (allowed, f, respond_for) at e)),
                    )
                    | inr ((algorithm, compressed), f) ↦
                        let named =
                          rewrite_path-with_ext services.read_quality services.system.is_file
                            (services.has_name file) (request.headers "accept-encoding")
                            handler.precompressed file algorithm compressed f in
                        (
                          file,
                          found,
                          inr (
                            algorithm,
                            respond-path
                                  (compression_with services handler request (some algorithm))
                                  missing compressed (services.from_path compressed (some file)) h
                                  path start end body (rw (allowed, f, respond_for) at e)
                                ∙ named,
                          ),
                        )
                  ]
        ]

  file_of-IsIndex :
      (resolved : Bytes)
      → IsIndex services.system.is_file handler.index_file resolved
          (file_of services handler request resolved)
  unfolding file_of
  file_of-IsIndex resolved = elim (Bool-cases (services.system.is_dir resolved)) [
    | inl e ↦
        rw (e, file_of)
          (find_index-IsIndex services.system.is_file handler.index_file resolved handler.index_file
            resolved (λ name given. given) itself)
    | inr e ↦ rw (e, file_of) itself
  ]

  serve-Serves :
      (missing : Bool) (resolved root : Bytes) (h : ResponseHeader) (path : Bytes) (start end : ℕ)
      (body : Bool)
      → serve services handler request missing resolved root ≡ file_sent h path start end body
      → Serves resolved path
  unfolding serve
  serve-Serves missing resolved root h path start end body e =
      elim (Option-cases (
        if handler.canonicalize_uri && not missing
        then canonical_target services handler request resolved root
        else none)) [
          | inr (uri, f) ↦ absurd (cc (rw (f, serve) at e))
          | inl f ↦
              respond_for-Serves missing resolved (file_of services handler request resolved) h path
                start end body (file_of-IsIndex resolved) (rw (f, serve) at e)
        ]

  check_below-is_below :
      (root : Bytes) (r : Resolved) (path : Bytes)
      → check_below services.system root r ≡ ok path
      → is_below path root ≡ true
  unfolding check_below
  check_below-is_below root (err kind) path h = absurd (cc h)
  check_below-is_below root (ok p) path h = elim (Bool-cases (is_below p root)) [
    | inl e ↦
        let same : ok p ≡ ok path = rw (e, check_below) at h in
        let equal : p ≡ path = cc same in subst (λ x. is_below x root ≡ true) equal e
    | inr e ↦ let bad : err invalid_data ≡ ok path = rw (e, check_below) at h in absurd (cc bad)
  ]

  resolve_uri-is_below :
      (uri root path : Bytes)
      → resolve_uri services.system uri root ≡ ok path
      → is_below path root ≡ true
  unfolding resolve_uri
  resolve_uri-is_below uri root path h = elim (Option-cases (strip_prefix (codes "/") uri)) [
    | inl e ↦ let bad : err invalid_input ≡ ok path = rw (e, resolve_uri) at h in absurd (cc bad)
    | inr (text, e) ↦ check_below-is_below root _ path (rw (e, resolve_uri) at h)
  ]

  module _ (h : ResponseHeader) (path : Bytes) (start end : ℕ) (body : Bool) (root : Bytes) where
    serve_404-Serves :
        (page : Option Bytes)
        → serve_404 services handler request root (resolved_404 services handler request root page)
          ≡ file_sent h path start end body
        → (resolved : Bytes) × (is_below resolved root ≡ true) × Serves resolved path
    unfolding serve_404 resolved_404 error_page
    serve_404-Serves none e = absurd (cc e)
    serve_404-Serves (some page) e = go (resolve_uri services.system page root) refl e
      where
        go :
            (r : Resolved)
            → resolve_uri services.system page root ≡ r
            → serve_404 services handler request root (elim r [ ok p ↦ some p | err kind ↦ none ])
              ≡ file_sent h path start end body
            → (resolved : Bytes) × (is_below resolved root ≡ true) × Serves resolved path
        go (ok p) f k = (
          p,
          resolve_uri-is_below page root p f,
          serve-Serves true p root h path start end body k,
        )
        go (err kind) f k = absurd (cc k)

    serve_resolved-Serves :
        (r : Resolved)
        → resolve_uri services.system request.path root ≡ r
        → serve_resolved services handler request root r ≡ file_sent h path start end body
        → (resolved : Bytes) × (is_below resolved root ≡ true) × Serves resolved path
    unfolding serve_resolved error_page
    serve_resolved-Serves (ok p) f e = (
      p,
      resolve_uri-is_below request.path root p f,
      serve-Serves false p root h path start end body e,
    )
    serve_resolved-Serves (err not_found) f e = serve_404-Serves handler.page_404 e
    serve_resolved-Serves (err permission_denied) f e = absurd (cc e)
    serve_resolved-Serves (err invalid_input) f e = absurd (cc e)
    serve_resolved-Serves (err invalid_data) f e = absurd (cc e)
    serve_resolved-Serves (err other_error) f e = absurd (cc e)

  -- If `request_filter` sends a file, then the handler has a root, and the file is one that a path
  -- below the root was resolved to, or an index file joined to it, or the compressed version of
  -- one of these.
  pub request_filter-is_below :
      (h : ResponseHeader) (path : Bytes) (start end : ℕ) (body : Bool)
      → request_filter services handler request ≡ file_sent h path start end body
      → (root resolved : Bytes) × (handler.root ≡ some root)
        × (is_below resolved root ≡ true)
        × Serves resolved path
  unfolding request_filter
  request_filter-is_below h path start end body e = elim (Option-cases handler.root) [
    | inl f ↦ absurd (cc (rw (f, request_filter) at e))
    | inr (root, f) ↦
        let (resolved, below, serves) =
          serve_resolved-Serves h path start end body root
            (resolve_uri services.system request.path root) refl (rw (f, request_filter) at e) in
        (root, resolved, f, below, serves)
  ]
