-- ===== src/CommonLog/Writer.antt =====
-- common-log-module/src/writer.rs: the text of a log line, and the writer's files.
pub mod Escapes
use pandora_web_server.Base.{
  ℕ, ◌+◌, ◌/◌, ◌%◌, Bool, not, ◌&&◌, Option, none, some, Bytes, List, [], ◌∷◌, ◌++◌, codes,
  is_empty, ltb, leb, bytes_eq, ◌==◌, if◌then◌else◌,
}
use pandora_web_server.StandardResponse.{to_string}
use pandora_web_server.CommonLog.Handler.{
  LogToken, no_value, address, port, name, local, iso, request_line, status_code, sent, duration,
  header,
}

abbrev pub hex_digit : ℕ → ℕ
hex_digit d = if ltb d 10 then d + 48 else d + 87

-- 34 is the quotation mark and 92 the backslash.
unfoldable pub is_allowed : ℕ → Bool
is_allowed byte = leb 32 byte && leb byte 126 && not (byte == 34) && not (byte == 92)

-- `write!(buf, "\\x{byte:02x}")`.
unfoldable pub escape_byte : ℕ → Bytes
escape_byte byte = 92 ∷ b'x' ∷ hex_digit (byte / 16) ∷ hex_digit (byte % 16) ∷ []

unfoldable pub escape_bytes : Bytes → Bytes
unfolding is_allowed escape_byte
escape_bytes [] = []
escape_bytes (byte ∷ bytes) =
    let rest = escape_bytes bytes in
    if is_allowed byte then byte ∷ rest else escape_byte byte ++ rest

-- `write_escaped`: what it adds to the buffer.
unfoldable pub write_escaped : Bytes → Bytes
unfolding escape_bytes
write_escaped bytes = (34 ∷ escape_bytes bytes) ++ (34 ∷ [])

-- The texts of the standard library and of the crate chrono: an address is an IP address and
-- a port, or the path of a Unix socket if it has one.
pub data SocketAddr : Type 0 where
  inet : Bytes → ℕ → SocketAddr
  unix : Option Bytes → SocketAddr

pub record Formats (T : Type 0) : Type 0 where
  pub time_local : T → Bytes
  pub time_iso : T → Bytes
  pub milliseconds : T → Bytes

abbrev or_dash : Option Bytes → Bytes
or_dash none = codes "-"
or_dash (some text) = text

module _ {T : Type 0} (formats : Formats T) (time : T) where
  unfoldable pub stringify_token : LogToken SocketAddr T → Bytes
  unfolding to_string write_escaped
  stringify_token no_value = codes "-"
  stringify_token (address (inet ip number)) = ip
  stringify_token (address (unix path)) = or_dash path
  stringify_token (port (inet ip number)) = to_string number
  stringify_token (port (unix path)) = codes "-"
  stringify_token (name text) = write_escaped text
  stringify_token local = codes "[" ++ formats.time_local time ++ codes "]"
  stringify_token iso = codes "[" ++ formats.time_iso time ++ codes "]"
  stringify_token (request_line text) = write_escaped text
  stringify_token (status_code number) = to_string number
  stringify_token (sent number) = to_string number
  stringify_token (duration elapsed) = formats.milliseconds elapsed
  stringify_token (header text) = write_escaped text

  -- The loop, with the buffer: a space is in front of every token but the first.
  unfoldable pub stringify_tokens : Bytes → List (LogToken SocketAddr T) → Bytes
  unfolding stringify_token
  stringify_tokens buf [] = buf
  stringify_tokens buf (token ∷ tokens) =
      stringify_tokens ((if is_empty buf then buf else buf ++ codes " ") ++ stringify_token token)
        tokens

  -- `stringify_data`; 10 is the line feed.
  unfoldable pub stringify_data : List (LogToken SocketAddr T) → Bytes
  unfolding stringify_tokens
  stringify_data tokens = stringify_tokens [] tokens ++ (10 ∷ [])

pub data WriterMessage (T : Type 0) : Type 0 where
  reopen : WriterMessage T
  log_data : T → Bytes → List (LogToken SocketAddr T) → WriterMessage T

-- The open files of the writer, by path, and what was written to the disk. `open_file` and `write`
-- are the file system's: `open_file` gives a handle of type `W`.
pub record FileSystem (W D : Type 0) : Type 0 where
  pub open_file : Bytes → D → W × D
  pub write : W → Bytes → D → D

module _ {T W D : Type 0} (formats : Formats T) (system : FileSystem W D) where
  abbrev get : Bytes → List (Bytes × W) → Option W
  get path [] = none
  get path ((own, file) ∷ files) =
      let later = get path files in if bytes_eq own path then some file else later

  -- `files.entry(path).or_insert_with_key(open_file)`.
  abbrev entry : Bytes → List (Bytes × W) → D → W × List (Bytes × W) × D
  entry path files disk = elim (get path files) [
    | some file ↦ (file, files, disk)
    | none ↦ let (file, disk') = system.open_file path disk in (file, (path, file) ∷ files, disk')
  ]

  -- A turn of the loop of `log_writer`.
  unfoldable pub write_message : WriterMessage T → List (Bytes × W) × D → List (Bytes × W) × D
  unfolding stringify_data
  write_message reopen (files, disk) = ([], disk)
  write_message (log_data time path tokens) (files, disk) =
      let (file, files', disk') = entry path files disk in
      (files', system.write file (stringify_data formats time tokens) disk')

  unfoldable pub log_writer : List (WriterMessage T) → List (Bytes × W) × D → List (Bytes × W) × D
  unfolding write_message
  log_writer [] state = state
  log_writer (m ∷ messages) state = log_writer messages (write_message m state)
