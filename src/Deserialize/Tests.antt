-- ===== src/Deserialize/Tests.antt =====
-- Configurations on concrete values.
use pandora_web_server.Base.{
  ◌≡◌, refl, Option, none, some, Bytes, List, [], ◌∷◌, All, codes, bytes_eq, bytes_le, sort,
}
use pandora_web_server.Modules.{Result, ok, err}
use pandora_web_server.Deserialize.{
  Value, seq, text, object, other, nil, cons, Fields, end, field, one_or_many, push_elements,
  merge_map, merge_entries, remove, Field, Flattened, MapVisitor, derived, visit_regular,
  visit_flattened, visit_map, deserialize_seed, merge_files, all_files, load_from_files,
}
use pandora_web_server.Deserialize.Merged.{all_fields, load_from_files-all_fields}

abbrev text_of : Value → Result Bytes Bytes
text_of (text t) = ok t
text_of (seq values) = err (codes "type")
text_of (object fields) = err (codes "type")
text_of other = err (codes "type")

abbrev wrong_type : Bytes
wrong_type = codes "type"

one_or_many_tests :
    (one_or_many wrong_type text_of (codes "a" ∷ []) (text (codes "b"))
      ≡ ok (codes "a" ∷ codes "b" ∷ []))
    × (one_or_many wrong_type text_of [] (seq (cons (text (codes "b")) nil)) ≡ ok (codes "b" ∷ []))
    × (one_or_many wrong_type text_of [] other ≡ err wrong_type)
unfolding one_or_many push_elements
one_or_many_tests = (refl, refl, refl)

abbrev seed : List Bytes → Value → Result Bytes (List Bytes)
seed list value = one_or_many wrong_type text_of list value

merge_map_tests :
    merge_map wrong_type [] seed
      ((codes "x", codes "a" ∷ []) ∷ [])
      (object (field (codes "x") (text (codes "b")) end))
    ≡ ok ((codes "x", codes "a" ∷ codes "b" ∷ []) ∷ [])
unfolding merge_map merge_entries remove one_or_many push_elements
merge_map_tests = refl

-- A struct of a list and a flattened text.
abbrev fields : List (Field (List Bytes × Bytes) Bytes)
fields =
    record {
      names = codes "list" ∷ codes "all" ∷ [];
      deserialize = λ (list, own) value. elim (one_or_many wrong_type text_of list value) [
        | err e ↦ err e
        | ok merged ↦ ok (merged, own)
      ];
    }
    ∷ []

abbrev flattened : List (Flattened (List Bytes × Bytes) Bytes)
flattened =
    record {
      accepts_field = λ name. bytes_eq name (codes "own");
      visit_field =
          λ (list, own) name value. elim (text_of value) [ err e ↦ err e | ok t ↦ ok (list, t) ];
    }
    ∷ []

abbrev visitor : MapVisitor (List Bytes × Bytes) Bytes
unfolding derived
visitor = derived (λ name. name) fields flattened

abbrev fields_of : Bytes → Fields
fields_of file = field (codes "all") (text file) (field (codes "own") (text file) end)

abbrev read : Bytes → Result Bytes Value
read file = ok (object (fields_of file))

abbrev glob : Bytes → Option (List (Option Bytes))
glob pattern = some (some (codes "b") ∷ none ∷ some (codes "a") ∷ [])

loaded :
    load_from_files wrong_type visitor ([], []) bytes_le glob read (codes "*" ∷ [])
    ≡ ok (codes "a" ∷ codes "b" ∷ [], codes "b")
unfolding load_from_files merge_files all_files deserialize_seed visit_map derived visit_regular
    visit_flattened one_or_many push_elements
loaded = refl

reads :
    All
      (λ file. read file ≡ ok (object (fields_of file)))
      (sort bytes_le (all_files glob (codes "*" ∷ [])))
unfolding all_files
reads = (refl, (refl, tt))

load_from_files-all_fields_example :
    load_from_files wrong_type visitor ([], []) bytes_le glob read (codes "*" ∷ [])
    ≡ deserialize_seed wrong_type visitor
        ([], [])
        (object (all_fields fields_of (sort bytes_le (all_files glob (codes "*" ∷ [])))))
load_from_files-all_fields_example =
    load_from_files-all_fields wrong_type visitor ([], []) bytes_le glob read fields_of
      (codes "*" ∷ []) reads
