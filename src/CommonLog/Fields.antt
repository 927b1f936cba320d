-- ===== src/CommonLog/Fields.antt =====
-- common-log-module/src/configuration.rs: the fields of the log, and the settings.
use pandora_web_server.Base.{
  Option, none, some, ◌>>=◌, Bytes, List, [], ◌∷◌, map, codes, bytes_eq, strip_prefix, is_empty,
  ◌==◌, if◌then◌else◌,
}

pub data LogField (H : Type 0) : Type 0 where
  skipped : LogField H
  remote_addr : LogField H
  remote_port : LogField H
  remote_name : LogField H
  time_local : LogField H
  time_iso : LogField H
  request : LogField H
  status : LogField H
  bytes_sent : LogField H
  processing_time : LogField H
  request_header : H → LogField H
  response_header : H → LogField H

-- `replace('_', "-")`: 95 is the underscore, 45 the dash.
abbrev dashes : Bytes → Bytes
dashes name = map (λ c. if c == 95 then 45 else c) name

-- The fields with a fixed name.
abbrev pub named_fields : {H : Type 0} → List (Bytes × LogField H)
named_fields =
    (codes "-", skipped)
    ∷ (codes "remote_addr", remote_addr)
    ∷ (codes "remote_port", remote_port)
    ∷ (codes "remote_name", remote_name)
    ∷ (codes "time_local", time_local)
    ∷ (codes "time_iso8601", time_iso)
    ∷ (codes "request", request)
    ∷ (codes "status", status)
    ∷ (codes "bytes_sent", bytes_sent)
    ∷ (codes "processing_time", processing_time)
    ∷ []

abbrev find_named : {H : Type 0} → Bytes → List (Bytes × LogField H) → Option (LogField H)
find_named text [] = none
find_named text ((name, field) ∷ fields) =
    let later = find_named text fields in if bytes_eq text name then some field else later

-- `header_name` is the crate http's conversion of a text to a header's name.
module _ {H : Type 0} (header_name : Bytes → Option H) where
  abbrev header_field : Bytes → Option (LogField H)
  header_field text = elim (strip_prefix (codes "http_") text) [
    | some header ↦ header_name (dashes header) >>= λ name. some (request_header name)
    | none ↦ elim (strip_prefix (codes "sent_http_") text) [
      | some header ↦ header_name (dashes header) >>= λ name. some (response_header name)
      | none ↦ none
    ]
  ]

  -- `LogField::try_from`.
  unfoldable pub field_of : Bytes → Option (LogField H)
  field_of text = elim (find_named text named_fields) [
    | some field ↦ some field
    | none ↦ header_field text
  ]

pub record CommonLogConf (H : Type 0) : Type 0 where
  pub log_file : Bytes
  pub log_format : List (LogField H)

-- The default of `try_from` for a format without fields.
unfoldable pub default_format : {H : Type 0} → H → H → List (LogField H)
default_format referer user_agent =
    remote_addr
    ∷ skipped
    ∷ remote_name
    ∷ time_local
    ∷ request
    ∷ status
    ∷ bytes_sent
    ∷ request_header referer
    ∷ request_header user_agent
    ∷ []

-- `CommonLogHandler::try_from`: `normalize_path` is the file system's part, which may fail.
unfoldable pub try_from :
    {H : Type 0} → (Bytes → Option Bytes) → H → H → CommonLogConf H → Option (CommonLogConf H)
unfolding default_format
try_from normalize_path referer user_agent conf = normalize_path conf.log_file >>= λ log_file.
    some (record {
      log_file = log_file;
      log_format =
          if is_empty conf.log_format then default_format referer user_agent else conf.log_format;
    })
