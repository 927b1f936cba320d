-- ===== src/StaticFiles/Mime.antt =====
-- static-files-module/src/configuration.rs and mime_matcher.rs: MIME type patterns, and the
-- matcher that collects them.
pub mod Add
use pandora_web_server.Base.{
  ℕ, Bool, true, false, ◌||◌, Option, none, some, is_some, Bytes, List, [], ◌∷◌, ◌++◌, any, codes,
  bytes_eq, starts_with, strip_prefix, strip_suffix, Eq,
}

-- The type `Mime` of the crate mime: parsing, `as_ref` and `type_`.
pub record MimeType (M : Type 0) : Type 0 where
  pub parse : Bytes → Option M
  pub as_ref : M → Bytes
  pub type_of : M → Bytes

pub data MimeMatch (M : Type 0) : Type 0 where
  exact : M → MimeMatch M
  type_ : Bytes → MimeMatch M
  prefix : Bytes → MimeMatch M
  suffix : Bytes → MimeMatch M

pub record MimeMatcher (M : Type 0) : Type 0 where
  pub exacts : List M
  pub types : List Bytes
  pub prefixes : List Bytes
  pub suffixes : List Bytes

module _ {M : Type 0} (mimes : MimeType M) where
  abbrev exact_of : Option M → Option (MimeMatch M)
  exact_of none = none
  exact_of (some mime) = some (exact mime)

  -- `MimeMatch::try_from`.
  unfoldable pub try_from : Bytes → Option (MimeMatch M)
  try_from value = elim (strip_suffix (codes "*") value) [
    | some start ↦ elim (strip_suffix (codes "/") start) [
      | some type_name ↦ some (type_ type_name)
      | none ↦ some (prefix start)
    ]
    | none ↦ elim (strip_prefix (codes "*") value) [
      | some ending ↦ some (suffix ending)
      | none ↦ exact_of (mimes.parse value)
    ]
  ]

-- `MimeMatcher::new`.
abbrev pub no_patterns : {M : Type 0} → MimeMatcher M
no_patterns = record { exacts = []; types = []; prefixes = []; suffixes = [] }

-- `MimeMatcher::add`. The sets are lists.
unfoldable pub add_pattern : {M : Type 0} → MimeMatcher M → MimeMatch M → MimeMatcher M
add_pattern matcher (exact mime) = record matcher { exacts = mime ∷ matcher.exacts }
add_pattern matcher (type_ name) = record matcher { types = name ∷ matcher.types }
add_pattern matcher (prefix start) = record matcher { prefixes = matcher.prefixes ++ start ∷ [] }
add_pattern matcher (suffix ending) = record matcher { suffixes = matcher.suffixes ++ ending ∷ [] }

abbrev pub ends_with : Bytes → Bytes → Bool
ends_with ending text = is_some (strip_suffix ending text)

-- `MimeMatcher::matches`.
unfoldable pub mime_matches : {M : Type 0} ⦃e : Eq M⦄ → MimeType M → MimeMatcher M → M → Bool
mime_matches ⦃e⦄ mimes matcher mime =
    any (λ own. e.beq own mime) matcher.exacts
    || any (λ own. bytes_eq own (mimes.type_of mime)) matcher.types
    || any (λ start. starts_with start (mimes.as_ref mime)) matcher.prefixes
    || any (λ ending. ends_with ending (mimes.as_ref mime)) matcher.suffixes
