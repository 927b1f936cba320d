-- ===== src/Deserialize.antt =====
-- pandora-module-utils/src/deserialize.rs: the values that are merged from several configuration
-- files, and pandora-module-utils-macros/src/derive_deserialize_map.rs: the visitor that is derived
-- for a struct.
mod Tests
pub mod Merged
use pandora_web_server.Base.{
  ◌≡◌, refl, Bool, true, false, ◌||◌, Option, none, some, Bytes, List, [], ◌∷◌, ◌++◌, any, bytes_eq,
  sort, if◌then◌else◌, Eq,
}
use pandora_web_server.Modules.{Result, ok, err}

-- A value of a configuration, as a deserializer presents it to a visitor: a list, a text, a map, or
-- something else. `other` is an error for the visitors here.
mutual
  pub data Value : Type 0 where
    seq : Values → Value
    text : Bytes → Value
    object : Fields → Value
    other : Value

  pub data Values : Type 0 where
    nil : Values
    cons : Value → Values → Values

  pub data Fields : Type 0 where
    end : Fields
    field : Bytes → Value → Fields → Fields

-- `custom` makes the error of a value of a wrong type.
module _ {E T : Type 0} (wrong_type : E) (deserialize : Value → Result E T) where
  abbrev push_result : List T → Result E T → Result E (List T)
  push_result list (err e) = err e
  push_result list (ok entry) = ok (list ++ entry ∷ [])

  -- `visit_seq`: the loop over the elements.
  unfoldable pub push_elements : List T → Values → Result E (List T)
  push_elements list nil = ok list
  push_elements list (cons value values) = elim (deserialize value) [
    | err e ↦ err e
    | ok entry ↦ push_elements (list ++ entry ∷ []) values
  ]

  -- `OneOrMany::deserialize` on a list that has elements already.
  unfoldable pub one_or_many : List T → Value → Result E (List T)
  unfolding push_elements
  one_or_many seed (seq values) = push_elements seed values
  one_or_many seed (text t) = push_result seed (deserialize (text t))
  one_or_many seed (object fields) = push_result seed (deserialize (object fields))
  one_or_many seed other = err wrong_type

-- `deserialize_merge` of a type without special support: the new value.
unfoldable pub merge_plain : {E T : Type 0} → (Value → Result E T) → T → Value → Result E T
merge_plain deserialize initial value = deserialize value

-- `unwrap_or_default`.
abbrev or_default : {T : Type 0} → T → Option T → T
or_default default none = default
or_default default (some t) = t

-- `deserialize_merge` of `Option<T>`, where `seed` is the `DeserializeSeed` of the type.
unfoldable pub merge_option :
    {E T : Type 0} → T → (T → Value → Result E T) → Option T → Value → Result E (Option T)
merge_option default seed initial value = elim (seed (or_default default initial) value) [
  | err e ↦ err e
  | ok t ↦ ok (some t)
]

-- Maps are lists of entries with different keys.
module _ {ℓ} {T : Type ℓ} where
  -- `HashMap::remove`: the value of the key, and the other entries.
  unfoldable pub remove : Bytes → List (Bytes × T) → Option T × List (Bytes × T)
  remove key [] = (none, [])
  remove key ((k, t) ∷ entries) =
      let (found, rest) = remove key entries in
      if bytes_eq k key then (some t, entries) else (found, (k, t) ∷ rest)

module _ {E T : Type 0} (wrong_type : E) (default : T) (seed : T → Value → Result E T) where
  -- The loop of `visit_map` of a map whose values take a seed: a key that is there has its value
  -- merged. The keys are texts.
  unfoldable pub merge_entries : List (Bytes × T) → Fields → Result E (List (Bytes × T))
  unfolding remove
  merge_entries inner end = ok inner
  merge_entries inner (field key value fields) =
      let (found, rest) = remove key inner in
      elim (seed (or_default default found) value) [
        | err e ↦ err e
        | ok t ↦ merge_entries ((key, t) ∷ rest) fields
      ]

  -- `deserialize_merge` of such a map.
  unfoldable pub merge_map : List (Bytes × T) → Value → Result E (List (Bytes × T))
  unfolding merge_entries
  merge_map initial (object fields) = merge_entries initial fields
  merge_map initial (seq values) = err wrong_type
  merge_map initial (text t) = err wrong_type
  merge_map initial other = err wrong_type

-- A field of a struct `S` as the macro sees it: the names that it has in a configuration, and how a
-- value changes it.
pub record Field (S E : Type 0) : Type 0 where
  pub names : List Bytes
  pub deserialize : S → Value → Result E S

-- A flattened field, with the visitor of its own type.
pub record Flattened (S E : Type 0) : Type 0 where
  pub accepts_field : Bytes → Bool
  pub visit_field : S → Bytes → Value → Result E S

-- `MapVisitor` of a struct.
pub record MapVisitor (S E : Type 0) : Type 0 where
  pub accepts_field : Bytes → Bool
  pub visit_field : S → Bytes → Value → Result E S

abbrev pub contains : List Bytes → Bytes → Bool
contains names name = any (λ n. bytes_eq n name) names

module _ {S E : Type 0} (unknown_field : Bytes → E) where
  -- The flattened fields, for a name that no other field has.
  unfoldable pub visit_flattened : List (Flattened S E) → S → Bytes → Value → Result E S
  visit_flattened [] struct name value = err (unknown_field name)
  visit_flattened (f ∷ flattened) struct name value =
      let later = visit_flattened flattened struct name value in
      if f.accepts_field name then f.visit_field struct name value else later

  -- The `match` of `visit_field`.
  unfoldable pub visit_regular :
      List (Field S E) → List (Flattened S E) → S → Bytes → Value → Result E S
  unfolding visit_flattened
  visit_regular [] flattened struct name value = visit_flattened flattened struct name value
  visit_regular (f ∷ fields) flattened struct name value =
      let later = visit_regular fields flattened struct name value in
      if contains f.names name then f.deserialize struct value else later

  -- `__FIELDS.contains(&field)`.
  abbrev is_regular : List (Field S E) → Bytes → Bool
  is_regular fields name = any (λ f. contains f.names name) fields

  -- The derived visitor.
  unfoldable pub derived : List (Field S E) → List (Flattened S E) → MapVisitor S E
  unfolding visit_regular
  derived fields flattened = record {
    accepts_field = λ name. is_regular fields name || any (λ f. f.accepts_field name) flattened;
    visit_field = visit_regular fields flattened;
  }

module _ {S E : Type 0} (wrong_type : E) (visitor : MapVisitor S E) where
  -- The loop of the derived `visit_map`.
  unfoldable pub visit_map : S → Fields → Result E S
  visit_map struct end = ok struct
  visit_map struct (field name value fields) = elim (visitor.visit_field struct name value) [
    | err e ↦ err e
    | ok changed ↦ visit_map changed fields
  ]

  -- The derived `DeserializeSeed`.
  unfoldable pub deserialize_seed : S → Value → Result E S
  unfolding visit_map
  deserialize_seed struct (object fields) = visit_map struct fields
  deserialize_seed struct (seq values) = err wrong_type
  deserialize_seed struct (text t) = err wrong_type
  deserialize_seed struct other = err wrong_type

  -- `try_fold` over the files: `read` opens a file and parses its value.
  unfoldable pub merge_files : {F : Type 0} → (F → Result E Value) → S → List F → Result E S
  unfolding deserialize_seed
  merge_files read conf [] = ok conf
  merge_files read conf (file ∷ files) = elim (read file) [
    | err e ↦ err e
    | ok value ↦ elim (deserialize_seed conf value) [
      | err e ↦ err e
      | ok merged ↦ merge_files read merged files
    ]
  ]

-- The paths of a glob pattern: `none` if the pattern is invalid, and in it where a path cannot be
-- resolved. These are left out.
abbrev resolved : List (Option Bytes) → List Bytes
resolved [] = []
resolved (none ∷ paths) = resolved paths
resolved (some path ∷ paths) = path ∷ resolved paths

unfoldable pub all_files : (Bytes → Option (List (Option Bytes))) → List Bytes → List Bytes
all_files glob [] = []
all_files glob (pattern ∷ patterns) = elim (glob pattern) [
  | none ↦ all_files glob patterns
  | some paths ↦ resolved paths ++ all_files glob patterns
]

-- `load_from_files` for a struct with the derived visitor and the default value `default`: the
-- files are merged in the order of their paths, `path_le`.
unfoldable pub load_from_files :
    {S E : Type 0}
    → E
    → MapVisitor S E
    → S
    → (Bytes → Bytes → Bool)
    → (Bytes → Option (List (Option Bytes)))
    → (Bytes → Result E Value)
    → List Bytes
    → Result E S
unfolding merge_files all_files
load_from_files wrong_type visitor default path_le glob read patterns =
    merge_files wrong_type visitor read default (sort path_le (all_files glob patterns))
