-- ===== src/Base/Integers.antt =====
-- Unsigned 64-bit integers: their decimal form, and subtraction.
use Prim.Native.Nat.{ℕ, ◌+◌, ◌*◌, ◌-◌, ◌%◌, ◌<◌}
use mathlib.Core.Path.{◌≡◌}
use mathlib.Core.Bool.{◌&&◌}
use mathlib.Core.List.{[], ◌∷◌}
use mathlib.Core.Option.{Option, none, some}
use native.Mathlib.Omega.{arith}
use pandora_web_server.Base.Tests.{ltb, leb, ◌==◌, if◌then◌else◌}
use pandora_web_server.Base.Text.{Bytes}

abbrev pub u64_mod : ℕ
u64_mod = 18446744073709551616

-- `a - b` on `u64` in a release build, where it wraps around.
abbrev pub sub_u64 : ℕ → ℕ → ℕ
sub_u64 a b = (a + u64_mod - b) % u64_mod

abbrev pub add_u64 : ℕ → ℕ → ℕ
add_u64 a b = (a + b) % u64_mod

-- The digits of `from_str`, behind the sign; an overflow is an error.
unfoldable pub digits_u64 : ℕ → Bytes → Option ℕ
digits_u64 n [] = some n
digits_u64 n (c ∷ text) =
    let m = n * 10 + (c - b'0') in
    let more = digits_u64 m text in if leb b'0' c && leb c b'9' && ltb m u64_mod then more else none

-- `u64::from_str(text).ok()`: at least one digit, behind an optional `+`.
unfoldable pub parse_u64 : Bytes → Option ℕ
unfolding digits_u64
parse_u64 [] = none
parse_u64 (c ∷ []) = digits_u64 0 (c ∷ [])
parse_u64 (c ∷ d ∷ text) =
    if c == b'+' then digits_u64 0 (d ∷ text) else digits_u64 0 (c ∷ d ∷ text)

digits_u64-lt :
    (n : ℕ) (text : Bytes) (m : ℕ) → n < u64_mod → digits_u64 n text ≡ some m → m < u64_mod
unfolding digits_u64
digits_u64-lt n [] m h e = ground arith
digits_u64-lt n (c ∷ text) m h e = ground (arith, digits_u64-lt (n * 10 + (c - b'0')) text m)

-- A parsed number fits 64 bits.
pub parse_u64-lt : (text : Bytes) (m : ℕ) → parse_u64 text ≡ some m → m < u64_mod
unfolding parse_u64
parse_u64-lt [] m e = ground arith
parse_u64-lt (c ∷ []) m e = digits_u64-lt 0 (c ∷ []) m (omega arith) e
parse_u64-lt (c ∷ d ∷ text) m e =
    ground (arith, digits_u64-lt 0 (d ∷ text) m, digits_u64-lt 0 (c ∷ d ∷ text) m)
