-- ===== src/CommonLog/Tests.antt =====
-- Log lines on concrete inputs, and the theorems at such inputs.
use pandora_web_server.Base.{ℕ, ◌<◌, ◌≡◌, refl, none, some, Bytes, [], ◌∷◌, ◌++◌, codes, All, arith}
use pandora_web_server.StandardResponse.{to_string, digits}
use pandora_web_server.CommonLog.Fields.{
  remote_addr, request_header, field_of, CommonLogConf, default_format,
}
use pandora_web_server.CommonLog.Handler.{
  name, status_code, no_value, Arrived, Finished, request_filter, logging, line,
}
use pandora_web_server.CommonLog.Handler.Complete.{field_tokens, logging-request_filter}
use pandora_web_server.CommonLog.Writer.{
  SocketAddr, inet, Formats, is_allowed, escape_byte, escape_bytes, write_escaped, stringify_token,
  stringify_tokens, stringify_data,
}
use pandora_web_server.CommonLog.Writer.Escapes.{
  read_quoted, IsPrintable, read_quoted-write_escaped,
}

escape_tests :
    (write_escaped (codes "abcd") ≡ (34 ∷ codes "abcd") ++ (34 ∷ []))
    × (write_escaped (0 ∷ 34 ∷ 255 ∷ []) ≡ (34 ∷ codes "\\x00\\x22\\xff") ++ (34 ∷ []))
unfolding write_escaped escape_bytes escape_byte is_allowed
escape_tests = (refl, refl)

field_tests :
    (field_of {H = Bytes} (λ text. some text) (codes "remote_addr") ≡ some remote_addr)
    × (field_of {H = Bytes} (λ text. some text) (codes "http_user_agent")
        ≡ some (request_header (codes "user-agent")))
unfolding field_of
field_tests = (refl, refl)

abbrev arrived : Arrived Bytes SocketAddr
arrived = record {
  client_addr = some (inet (codes "127.0.0.1") 8080);
  method = codes "GET";
  original_path_and_query = some (codes "/");
  version = codes "HTTP/1.1";
  request_header_value = λ header. none;
}

abbrev finished : Finished Bytes ℕ
finished = record {
  remote_user = some (codes "me");
  response_status = some 200;
  response_header_value = λ header. none;
  body_bytes_sent = 876;
  elapsed = some 12;
}

abbrev conf : CommonLogConf Bytes
conf = record {
  log_file = codes "-";
  log_format = default_format (codes "referer") (codes "user-agent");
}

logging-request_filter_example :
    logging conf finished (request_filter conf arrived)
    ≡ line (codes "-") (field_tokens arrived finished conf.log_format)
logging-request_filter_example = logging-request_filter arrived finished conf refl

abbrev formats : Formats ℕ
formats = record {
  time_local = λ time. codes "now";
  time_iso = λ time. codes "now";
  milliseconds = λ time. codes "12.000";
}

line_test :
    stringify_data formats 0 (name (codes "me") ∷ no_value ∷ status_code 200 ∷ [])
    ≡ (34 ∷ codes "me") ++ (34 ∷ codes " - 200") ++ (10 ∷ [])
unfolding stringify_data stringify_tokens stringify_token write_escaped escape_bytes escape_byte
    is_allowed to_string digits
line_test = refl

abbrev agent : Bytes
agent = 10 ∷ 34 ∷ 92 ∷ 200 ∷ codes "a"

agent-bytes : All (λ byte. byte < 256) agent
agent-bytes = (omega arith, (omega arith, (omega arith, (omega arith, (omega arith, tt)))))

read_quoted-write_escaped_example :
    (read_quoted (write_escaped agent ++ codes " 200") ≡ some (agent, codes " 200"))
    × All IsPrintable (write_escaped agent)
read_quoted-write_escaped_example = read_quoted-write_escaped agent (codes " 200") agent-bytes
