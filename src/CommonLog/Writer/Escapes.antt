-- ===== src/CommonLog/Writer/Escapes.antt =====
-- Escaped texts can be read back.
use mathlib.Core.List.{append_assoc}
use pandora_web_server.Base.{
  ℕ, ◌+◌, ◌-◌, ◌*◌, ◌/◌, ◌%◌, ◌<◌, ◌≤◌, ◌≡◌, refl, ap, ◌∙◌, inl, inr, true, false, Bool-cases,
  Option, none, some, Bytes, List, [], ◌∷◌, ◌++◌, All, ltb, ◌==◌, if◌then◌else◌, arith,
}
use pandora_web_server.CommonLog.Writer.{
  hex_digit, is_allowed, escape_byte, escape_bytes, write_escaped,
}

-- The value of a hexadecimal digit in lower case.
abbrev pub digit_value : ℕ → ℕ
digit_value c = if ltb c 58 then c - 48 else c - 87

-- Where a reader is: between characters, behind a backslash, behind its `x`, or behind the first
-- digit, with its value.
pub data Place : Type 0 where
  between : Place
  slash : Place
  high : Place
  low : ℕ → Place

abbrev with_byte : ℕ → Option (Bytes × Bytes) → Option (Bytes × Bytes)
with_byte byte none = none
with_byte byte (some (bytes, rest)) = some (byte ∷ bytes, rest)

-- Reads what is behind a quotation mark, up to the next one: the text, and what follows.
unfoldable pub read : Place → Bytes → Option (Bytes × Bytes)
read place [] = none
read between (c ∷ text) =
    let escaped = read slash text in
    let plain = with_byte c (read between text) in
    if c == 34 then some ([], text) else (if c == 92 then escaped else plain)
read slash (c ∷ text) = let digits = read high text in if c == b'x' then digits else none
read high (c ∷ text) = read (low (digit_value c)) text
read (low n) (c ∷ text) = with_byte (n * 16 + digit_value c) (read between text)

unfoldable pub read_quoted : Bytes → Option (Bytes × Bytes)
unfolding read
read_quoted [] = none
read_quoted (c ∷ text) = let rest = read between text in if c == 34 then rest else none

-- A printable character of ASCII.
abbrev pub IsPrintable : ℕ → Type 0
IsPrintable c = (32 ≤ c) × (c ≤ 126)

digit_value-hex_digit : (d : ℕ) → d < 16 → digit_value (hex_digit d) ≡ d
digit_value-hex_digit d h = ground arith

hex_digit-IsPrintable : (d : ℕ) → d < 16 → IsPrintable (hex_digit d)
hex_digit-IsPrintable d h = (ground arith, ground arith)

byte_digits :
    (byte : ℕ)
    → byte < 256
    → (byte / 16 < 16) × (byte % 16 < 16) × (byte / 16 * 16 + byte % 16 ≡ byte)
byte_digits byte h = (omega arith, omega arith, omega arith)

read-escape_byte :
    (byte : ℕ) (text : Bytes)
    → byte < 256
    → read between (escape_byte byte ++ text) ≡ with_byte byte (read between text)
unfolding read escape_byte
read-escape_byte byte text h =
    let (high_fits, low_fits, e) = byte_digits byte h in
    rw (digit_value-hex_digit (byte / 16) high_fits, digit_value-hex_digit (byte % 16) low_fits, e)
      refl

read-allowed :
    (byte : ℕ) (text : Bytes)
    → is_allowed byte ≡ true
    → read between (byte ∷ text) ≡ with_byte byte (read between text)
unfolding read is_allowed
read-allowed byte text h =
    let quote : (byte == 34) ≡ false = ground arith in
    let backslash : (byte == 92) ≡ false = ground arith in rw (quote, backslash) refl

read-escape_bytes :
    (bytes rest : Bytes)
    → All (λ byte. byte < 256) bytes
    → read between (escape_bytes bytes ++ 34 ∷ rest) ≡ some (bytes, rest)
unfolding read escape_bytes
read-escape_bytes [] rest all = refl
read-escape_bytes (byte ∷ bytes) rest (fits, all) =
    let later = read-escape_bytes bytes rest all in
    elim (Bool-cases (is_allowed byte)) [
      | inl h ↦
          rw h (read-allowed byte (escape_bytes bytes ++ 34 ∷ rest) h ∙ ap (with_byte byte) later)
      | inr h ↦
          rw h (
            read-escape_byte byte (escape_bytes bytes ++ 34 ∷ rest) fits
            ∙ ap (with_byte byte) later)
    ]

escape_bytes-IsPrintable :
    (bytes : Bytes) → All (λ byte. byte < 256) bytes → All IsPrintable (escape_bytes bytes)
unfolding escape_bytes is_allowed escape_byte
escape_bytes-IsPrintable [] all = tt
escape_bytes-IsPrintable (byte ∷ bytes) (fits, all) =
    let later = escape_bytes-IsPrintable bytes all in
    let (high_fits, low_fits, _) = byte_digits byte fits in
    elim (Bool-cases (is_allowed byte)) [
      | inl h ↦ rw h ((ground arith, ground arith), later)
      | inr h ↦ rw h (
        (omega arith, omega arith),
        (
          (omega arith, omega arith),
          (
            hex_digit-IsPrintable (byte / 16) high_fits,
            (hex_digit-IsPrintable (byte % 16) low_fits, later),
          ),
        ),
      )
    ]

All-append : {A : Type 0} (P : A → Type 0) (a b : List A) → All P a → All P b → All P (a ++ b)
All-append P [] b p q = q
All-append P (x ∷ a) b (h, p) q = (h, All-append P a b p q)

-- What `write_escaped` writes for any bytes has printable characters of ASCII only, and a reader
-- of it gets the bytes back and stops where it ends, whatever follows.
pub read_quoted-write_escaped :
    (bytes rest : Bytes)
    → All (λ byte. byte < 256) bytes
    → (read_quoted (write_escaped bytes ++ rest) ≡ some (bytes, rest))
      × All IsPrintable (write_escaped bytes)
unfolding write_escaped read_quoted
read_quoted-write_escaped bytes rest all = (
  ap (read between) (append_assoc (escape_bytes bytes) (34 ∷ []) rest)
      ∙ read-escape_bytes bytes rest all,
  (
    (omega arith, omega arith),
    All-append IsPrintable (escape_bytes bytes) (34 ∷ []) (escape_bytes-IsPrintable bytes all)
        ((omega arith, omega arith), tt),
  ),
)
