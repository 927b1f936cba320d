-- ===== src/Base/Text.antt =====
-- Byte slices and `str` as lists of numbers (bytes, or code points), and the methods of `str`
-- that the program calls.
use Prim.Native.Nat.{ℕ}
use Prim.Native.Char.{code}
use Prim.Native.String.{String}
use mathlib.Core.Path.{◌≡◌, refl}
use mathlib.Core.Logic.{◌↔◌}
use mathlib.Core.Bool.{Bool, true, false, ◌&&◌, ◌||◌}
use mathlib.Core.List.{List, [], ◌∷◌, reverse}
use mathlib.Core.Option.{Option, none, some}
use native.Mathlib.Omega.{arith}
use pandora_web_server.Base.Tests.{ltb, leb, ◌==◌, if◌then◌else◌, Eq}

abbrev pub Bytes : Type 0
Bytes = List ℕ

-- The code points of a literal: its bytes, as every literal here is ASCII.
abbrev pub codes : String → Bytes
codes String.[] = []
codes (String.◌∷◌ c s) = code c ∷ codes s

abbrev pub bytes_eq : Bytes → Bytes → Bool
bytes_eq [] [] = true
bytes_eq [] (y ∷ ys) = false
bytes_eq (x ∷ xs) [] = false
bytes_eq (x ∷ xs) (y ∷ ys) = x == y && bytes_eq xs ys

pub bytes_eq_iff : (a b : Bytes) → (bytes_eq a b ≡ true) ↔ (a ≡ b)
bytes_eq_iff [] [] = ground arith
bytes_eq_iff [] (y ∷ ys) = ground arith
bytes_eq_iff (x ∷ xs) [] = ground arith
bytes_eq_iff (x ∷ xs) (y ∷ ys) = ground (arith, bytes_eq_iff xs ys)

instance abbrev pub bytes_instance : Eq Bytes
bytes_instance = record { beq = bytes_eq; beq_iff = bytes_eq_iff }

-- `a <= b` in the order of slices: lexicographic.
abbrev pub bytes_le : Bytes → Bytes → Bool
bytes_le [] b = true
bytes_le (x ∷ a) [] = false
bytes_le (x ∷ a) (y ∷ b) = ltb x y || (x == y && bytes_le a b)

pub bytes_le_total : (a b : Bytes) → bytes_le a b ≡ false → bytes_le b a ≡ true
bytes_le_total [] b h = absurd (ground (arith, h))
bytes_le_total (x ∷ a) [] h = refl
bytes_le_total (x ∷ a) (y ∷ b) h = ground (arith, h, bytes_le_total a b)

pub bytes_le_trans :
    (a b c : Bytes) → bytes_le a b ≡ true → bytes_le b c ≡ true → bytes_le a c ≡ true
bytes_le_trans [] b c h k = refl
bytes_le_trans (x ∷ a) [] c h k = absurd (ground (arith, h))
bytes_le_trans (x ∷ a) (y ∷ b) [] h k = absurd (ground (arith, k))
bytes_le_trans (x ∷ a) (y ∷ b) (z ∷ c) h k = ground (arith, h, k, bytes_le_trans a b c)

pub bytes_le_antisym :
    (a b : Bytes) → bytes_le a b ≡ true → bytes_le b a ≡ true → bytes_eq a b ≡ true
bytes_le_antisym [] [] h k = refl
bytes_le_antisym [] (y ∷ b) h k = absurd (ground (arith, k))
bytes_le_antisym (x ∷ a) [] h k = absurd (ground (arith, h))
bytes_le_antisym (x ∷ a) (y ∷ b) h k = ground (arith, h, k, bytes_le_antisym a b)

-- `is_empty`.
abbrev pub is_empty {ℓ} : {A : Type ℓ} → List A → Bool
is_empty [] = true
is_empty (x ∷ xs) = false

-- `split(separator)`: always at least one part.
abbrev cons_head : ℕ → List Bytes → List Bytes
cons_head c [] = (c ∷ []) ∷ []
cons_head c (p ∷ ps) = (c ∷ p) ∷ ps

abbrev pub split : ℕ → Bytes → List Bytes
split sep [] = [] ∷ []
split sep (c ∷ s) = let rest = split sep s in if c == sep then [] ∷ rest else cons_head c rest

-- `split_once(separator)`: the text before and behind the first separator.
abbrev pub before : ℕ → Option (Bytes × Bytes) → Option (Bytes × Bytes)
before c none = none
before c (some (a, b)) = some (c ∷ a, b)

abbrev pub split_once : ℕ → Bytes → Option (Bytes × Bytes)
split_once sep [] = none
split_once sep (c ∷ s) = if c == sep then some ([], s) else before c (split_once sep s)

abbrev pub strip_prefix : Bytes → Bytes → Option Bytes
strip_prefix [] s = some s
strip_prefix (p ∷ ps) [] = none
strip_prefix (p ∷ ps) (c ∷ s) = if p == c then strip_prefix ps s else none

abbrev pub starts_with : Bytes → Bytes → Bool
starts_with [] s = true
starts_with (p ∷ ps) [] = false
starts_with (p ∷ ps) (c ∷ s) = p == c && starts_with ps s

-- `strip_suffix(p)`: the text before an ending `p`.
abbrev pub strip_suffix : Bytes → Bytes → Option Bytes
strip_suffix p [] = if bytes_eq [] p then some [] else none
strip_suffix p (c ∷ s) =
    let rest = strip_suffix p s in
    if bytes_eq (c ∷ s) p then some [] else elim rest [ none ↦ none | some r ↦ some (c ∷ r) ]

-- `char::is_whitespace`.
abbrev pub is_whitespace : ℕ → Bool
is_whitespace c =
    (leb 9 c && leb c 13)
    || c == 32
    || c == 0x85
    || c == 0xA0
    || c == 0x1680
    || (leb 0x2000 c && leb c 0x200A)
    || c == 0x2028
    || c == 0x2029
    || c == 0x202F
    || c == 0x205F
    || c == 0x3000

abbrev pub trim_start : Bytes → Bytes
trim_start [] = []
trim_start (c ∷ s) = if is_whitespace c then trim_start s else c ∷ s

abbrev pub trim : Bytes → Bytes
trim s = reverse (trim_start (reverse (trim_start s)))
