-- ===== src/Rewrite/Interpolation.antt =====
-- rewrite-module/src/configuration.rs: the text with variables of a rule's field `to`.
pub mod Leftmost
pub mod Suffix
pub mod Scan
pub mod Reads
use pandora_web_server.Base.{
  ℕ, suc, zero, ◌+◌, ◌-◌, Bool, ◌>>=◌, Option, none, some, Bytes, List, [], ◌∷◌, ◌++◌, codes, map,
  length, take, drop, starts_with, strip_prefix, is_empty, bytes_eq, ◌==◌, if◌then◌else◌,
}

pub data Variable (H : Type 0) : Type 0 where
  tail : Variable H
  query : Variable H
  header : H → Variable H

pub data Part (H : Type 0) : Type 0 where
  literal : Bytes → Part H
  variable : Variable H → Part H

abbrev pub variable_prefix : Bytes
variable_prefix = codes "${"

abbrev pub variable_suffix : Bytes
variable_suffix = codes "}"

-- `str::find`: the index of the first occurrence.
abbrev pub find : Bytes → Bytes → Option ℕ
find pattern [] = if is_empty pattern then some 0 else none
find pattern (c ∷ s) =
    let later = find pattern s in
    if starts_with pattern (c ∷ s) then some 0 else later >>= λ i. some (suc i)

-- `find_at`: the index counts from the start of the text.
abbrev pub find_at : Bytes → Bytes → ℕ → Option ℕ
find_at value pattern start = find pattern (drop start value) >>= λ index. some (index + start)

-- `name.replace('_', "-")`.
abbrev pub dashes : Bytes → Bytes
dashes name = map (λ c. if c == 95 then 45 else c) name

-- `header_name` is the crate http's conversion of a text to a header's name.
module _ {H : Type 0} (header_name : Bytes → Option H) where
  -- The variable of a name, if it is one.
  unfoldable pub variable_of : Bytes → Option (Variable H)
  variable_of name =
      let other = strip_prefix (codes "http_") name >>= λ n.
      header_name (dashes n) >>= λ h. some (header h) in
      if bytes_eq name (codes "tail")
      then some tail
      else (if bytes_eq name (codes "query") then some query else other)

  -- The inner loop: `search_start` moves behind every beginning that is no variable's. The result
  -- is where the first variable begins and where its suffix is.
  unfoldable pub scan : ℕ → Bytes → ℕ → Option (ℕ × ℕ × Variable H)
  scan zero value search_start = none
  scan (suc fuel) value search_start = elim (find_at value variable_prefix search_start) [
    | none ↦ none
    | some start ↦ elim (find_at value variable_suffix start) [
      | none ↦ none
      | some end ↦ elim (variable_of (take (end - (start + 2)) (drop (start + 2) value))) [
        | none ↦ scan fuel value (start + 2)
        | some v ↦ some (start, end, v)
      ]
    ]
  ]

  -- `if start > 0 { parts.push(Literal(..)) }`
  abbrev pub push_literal : Bytes → List (Part H) → List (Part H)
  push_literal [] parts = parts
  push_literal (c ∷ text) parts = literal (c ∷ text) ∷ parts

  -- The outer loop, `while !value.is_empty()`.
  unfoldable pub parts_of : ℕ → Bytes → List (Part H)
  unfolding scan
  parts_of fuel [] = []
  parts_of zero (c ∷ s) = []
  parts_of (suc fuel) (c ∷ s) = elim (scan (suc (length (c ∷ s))) (c ∷ s) 0) [
    | none ↦ literal (c ∷ s) ∷ []
    | some (start, end, v) ↦
        push_literal (take start (c ∷ s)) (variable v ∷ parts_of fuel (drop (suc end) (c ∷ s)))
  ]

  -- `VariableInterpolation::from`. Every turn of the loops shortens what is left.
  unfoldable pub from_str : Bytes → List (Part H)
  unfolding parts_of
  from_str value = parts_of (length value) value

module _ {H : Type 0} where
  -- `interpolate`: `lookup` is what the closure adds for a variable.
  unfoldable pub interpolate : (Variable H → Bytes) → List (Part H) → Bytes
  interpolate lookup [] = []
  interpolate lookup (literal text ∷ parts) = text ++ interpolate lookup parts
  interpolate lookup (variable v ∷ parts) = lookup v ++ interpolate lookup parts
