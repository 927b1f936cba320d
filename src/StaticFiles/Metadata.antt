-- ===== src/StaticFiles/Metadata.antt =====
-- static-files-module/src/metadata.rs: the conditional request headers. `Metadata::from_path` asks
-- the file system and is left out: a `Metadata` is given.
pub mod Conditions
use mathlib.Core.Path.{◌≡◌}
use pandora_web_server.Base.{
  ℕ, Bool, true, false, not, ◌&&◌, ◌||◌, String, Option, none, some, Bytes, List, map, any, all,
  codes, split, trim, bytes_eq, if◌then◌else◌,
}

pub record Metadata : Type 0 where
  pub mime : Bytes
  pub size : ℕ
  pub modified : Option Bytes
  pub etag : Bytes

-- The request headers, as `headers.get(name).and_then(|value| value.to_str().ok())` reads them.
abbrev pub Headers : Type 0
Headers = String → Option Bytes

-- The entity tags of a list.
abbrev tags_of : Bytes → List Bytes
tags_of value = map trim (split b',' value)

unfoldable pub has_failed_precondition : Metadata → Headers → Bool
has_failed_precondition meta headers = elim (headers "if-match") [
  | some value ↦
      not (bytes_eq value (codes "*")) && all (λ tag. not (bytes_eq tag meta.etag)) (tags_of value)
  | none ↦ elim (headers "if-unmodified-since") [
    | some value ↦ elim meta.modified [
      | some modified ↦ not (bytes_eq modified value)
      | none ↦ false
    ]
    | none ↦ false
  ]
]

unfoldable pub is_not_modified : Metadata → Headers → Bool
is_not_modified meta headers = elim (headers "if-none-match") [
  | some value ↦ bytes_eq value (codes "*") || any (λ tag. bytes_eq tag meta.etag) (tags_of value)
  | none ↦ elim (headers "if-modified-since") [
    | some value ↦ elim meta.modified [ some modified ↦ bytes_eq modified value | none ↦ false ]
    | none ↦ false
  ]
]
