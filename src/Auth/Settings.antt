-- ===== src/Auth/Settings.antt =====
-- auth-module/src/lib.rs: the values of the session's settings, and the command line options.
use pandora_web_server.Base.{
  ℕ, ◌+◌, ◌-◌, ◌*◌, ◌%◌, Bool, true, ◌&&◌, Option, none, some, ◌>>=◌, Bytes, List, [], ◌∷◌, codes,
  bytes_eq, leb, strip_suffix, split_once, parse_u64, u64_mod, ◌==◌, if◌then◌else◌,
}

-- A hexadecimal digit in upper or lower case.
abbrev digit_of : ℕ → Option ℕ
digit_of c =
    if leb b'0' c && leb c b'9'
    then some (c - b'0')
    else (if leb b'a' c && leb c b'f'
        then some (c - b'a' + 10)
        else (if leb b'A' c && leb c b'F' then some (c - b'A' + 10) else none))

-- `u8::from_str_radix(text, 16)` for a text of two characters: the first one may be a plus sign.
unfoldable pub byte_of : ℕ → ℕ → Option ℕ
byte_of c d =
    let digits = digit_of c >>= λ high. digit_of d >>= λ low. some (high * 16 + low) in
    if c == b'+' then digit_of d else digits

-- `deserialize_hex` for a text of ASCII characters: other characters may make a slice panic.
unfoldable pub deserialize_hex : Bytes → Option Bytes
unfolding byte_of
deserialize_hex [] = some []
deserialize_hex (c ∷ []) = none
deserialize_hex (c ∷ d ∷ text) =
    byte_of c d >>= λ byte. deserialize_hex text >>= λ bytes. some (byte ∷ bytes)

-- `deserialize_interval` in seconds: `interval * factor` wraps around in a release build.
abbrev seconds : ℕ → Bytes → Option ℕ
seconds factor text = parse_u64 text >>= λ interval. some ((interval * factor) % u64_mod)

unfoldable pub deserialize_interval : Bytes → Option ℕ
deserialize_interval text = elim (strip_suffix (codes "h") text) [
  | some hours ↦ seconds 3600 hours
  | none ↦ elim (strip_suffix (codes "d") text) [
    | some days ↦ seconds 86400 days
    | none ↦ seconds 86400 text
  ]
]

pub record AuthOpt (M : Type 0) : Type 0 where
  pub opt_display_hash : Bool
  pub opt_credentials : Option (List Bytes)
  pub opt_mode : Option M
  pub opt_realm : Option Bytes

-- The settings that options change; the credentials are a function of the user's name.
pub record Settings (M : Type 0) : Type 0 where
  pub display_hash : Bool
  pub credentials : Bytes → Option Bytes
  pub mode : M
  pub realm : Bytes

-- `insert` of a map.
unfoldable pub insert : Bytes → Bytes → (Bytes → Option Bytes) → Bytes → Option Bytes
insert user hash credentials name = if bytes_eq name user then some hash else credentials name

-- The loop over the credentials; an entry without a colon, which is 58, is skipped.
unfoldable pub insert_all : List Bytes → (Bytes → Option Bytes) → Bytes → Option Bytes
unfolding insert
insert_all [] credentials = credentials
insert_all (entry ∷ entries) credentials = insert_all entries (elim (split_once 58 entry) [
  | none ↦ credentials
  | some (user, hash) ↦ insert user hash credentials
])

abbrev entries_of : Option (List Bytes) → List Bytes
entries_of none = []
entries_of (some entries) = entries

abbrev given {ℓ} : {A : Type ℓ} → Option A → A → A
given none a = a
given (some b) a = b

-- `AuthConf::merge_with_opt`.
unfoldable pub merge_with_opt : {M : Type 0} → Settings M → AuthOpt M → Settings M
unfolding insert_all
merge_with_opt conf opt = record {
  display_hash = if opt.opt_display_hash then true else conf.display_hash;
  credentials = insert_all (entries_of opt.opt_credentials) conf.credentials;
  mode = given opt.opt_mode conf.mode;
  realm = given opt.opt_realm conf.realm;
}
