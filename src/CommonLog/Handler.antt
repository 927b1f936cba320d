-- ===== src/CommonLog/Handler.antt =====
-- common-log-module/src/handler.rs: the tokens of a log line, collected in two phases.
pub mod Complete
use pandora_web_server.Base.{
  ℕ, Bool, Option, none, some, ◌>>=◌, Bytes, List, [], ◌∷◌, ◌++◌, codes, is_empty, if◌then◌else◌,
}
use pandora_web_server.CommonLog.Fields.{
  LogField, skipped, remote_addr, remote_port, remote_name, time_local, time_iso, request, status,
  bytes_sent, processing_time, request_header, response_header, CommonLogConf,
}

-- `LogToken`, with the type of socket addresses and that of times.
pub data LogToken (A T : Type 0) : Type 0 where
  no_value : LogToken A T
  address : A → LogToken A T
  port : A → LogToken A T
  name : Bytes → LogToken A T
  local : LogToken A T
  iso : LogToken A T
  request_line : Bytes → LogToken A T
  status_code : ℕ → LogToken A T
  sent : ℕ → LogToken A T
  duration : T → LogToken A T
  header : Bytes → LogToken A T

-- What the session has when the request arrives.
pub record Arrived (H A : Type 0) : Type 0 where
  pub client_addr : Option A
  pub method : Bytes
  pub original_path_and_query : Option Bytes
  pub version : Bytes
  pub request_header_value : H → Option Bytes

-- What the session has at its end: the response's status and headers if one was written.
pub record Finished (H T : Type 0) : Type 0 where
  pub remote_user : Option Bytes
  pub response_status : Option ℕ
  pub response_header_value : H → Option Bytes
  pub body_bytes_sent : ℕ
  pub elapsed : Option T

abbrev token_of : {A T V : Type 0} → (V → LogToken A T) → Option V → LogToken A T
token_of make none = no_value
token_of make (some value) = make value

abbrev or_empty : Option Bytes → Bytes
or_empty none = []
or_empty (some text) = text

-- `format!("{method} {uri} {version:?}")`.
abbrev line_of : {H A : Type 0} → Arrived H A → Bytes
line_of session =
    session.method
    ++ codes " "
    ++ or_empty session.original_path_and_query
    ++ codes " "
    ++ session.version

-- `existing_tokens.next().unwrap()`: `none` is the panic.
abbrev next_token :
    {A T : Type 0} → List (LogToken A T) → Option (LogToken A T × List (LogToken A T))
next_token [] = none
next_token (token ∷ tokens) = some (token, tokens)

module _ {H A T : Type 0} where
  -- The body of the loop of `request_filter`; `none` is `continue`.
  unfoldable pub early_token : Arrived H A → LogField H → Option (LogToken A T)
  early_token session skipped = some no_value
  early_token session remote_addr = some (token_of address session.client_addr)
  early_token session remote_port = some (token_of port session.client_addr)
  early_token session time_local = some local
  early_token session time_iso = some iso
  early_token session request = some (request_line (line_of session))
  early_token session (request_header h) = some (token_of header (session.request_header_value h))
  early_token session remote_name = none
  early_token session status = none
  early_token session bytes_sent = none
  early_token session processing_time = none
  early_token session (response_header h) = none

  unfoldable pub early_tokens : Arrived H A → List (LogField H) → List (LogToken A T)
  unfolding early_token
  early_tokens session [] = []
  early_tokens session (field ∷ fields) =
      let rest = early_tokens session fields in
      elim (early_token session field) [ none ↦ rest | some token ↦ token ∷ rest ]

  -- `request_filter`: the tokens in the context. Without a file nothing is logged.
  unfoldable pub request_filter : CommonLogConf H → Arrived H A → List (LogToken A T)
  unfolding early_tokens
  request_filter conf session =
      if is_empty conf.log_file then [] else early_tokens session conf.log_format

  -- The fields that `logging` adds; `none` is a token that was added before.
  unfoldable pub late_token : Finished H T → LogField H → Option (LogToken A T)
  late_token session remote_name = some (token_of name session.remote_user)
  late_token session status = some (token_of status_code session.response_status)
  late_token session bytes_sent = some (sent session.body_bytes_sent)
  late_token session processing_time = some (token_of duration session.elapsed)
  late_token session (response_header h) = some (token_of header (session.response_header_value h))
  late_token session skipped = none
  late_token session remote_addr = none
  late_token session remote_port = none
  late_token session time_local = none
  late_token session time_iso = none
  late_token session request = none
  late_token session (request_header h) = none

  -- The loop of `logging`.
  unfoldable pub all_tokens :
      Finished H T → List (LogField H) → List (LogToken A T) → Option (List (LogToken A T))
  unfolding late_token
  all_tokens session [] existing = some []
  all_tokens session (field ∷ fields) existing = elim (late_token session field) [
    | some token ↦ all_tokens session fields existing >>= λ tokens. some (token ∷ tokens)
    | none ↦ next_token existing >>= λ next.
        all_tokens session fields next.1 >>= λ tokens. some (next.0 ∷ tokens)
  ]

-- What `logging` does.
pub data Logged (A T : Type 0) : Type 0 where
  disabled : Logged A T
  panicked : Logged A T
  -- the message to the writer
  line : Bytes → List (LogToken A T) → Logged A T

abbrev message : {A T : Type 0} → Bytes → Option (List (LogToken A T)) → Logged A T
message log_file none = panicked
message log_file (some tokens) = line log_file tokens

module _ {H A T : Type 0} where
  unfoldable pub logging : CommonLogConf H → Finished H T → List (LogToken A T) → Logged A T
  unfolding all_tokens
  logging conf session tokens =
      if is_empty conf.log_file
      then disabled
      else message conf.log_file (all_tokens session conf.log_format tokens)
