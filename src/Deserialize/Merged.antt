-- ===== src/Deserialize/Merged.antt =====
-- Configurations that are merged from several files.
use pandora_web_server.Base.{
  Bool, ◌≡◌, refl, inl, inr, Option, Bytes, List, [], ◌∷◌, ◌++◌, All, sort,
}
use pandora_web_server.Modules.{Result, ok, err, Result-cases}
use pandora_web_server.Deserialize.{
  Value, object, Values, nil, cons, Fields, end, field, push_elements, MapVisitor, visit_map,
  deserialize_seed, merge_files, all_files, load_from_files,
}

-- The rest of a computation that has not failed.
abbrev and_then : {E A B : Type 0} → Result E A → (A → Result E B) → Result E B
and_then (err e) f = err e
and_then (ok a) f = f a

unfoldable pub append : Fields → Fields → Fields
append end more = more
append (field name value fields) more = field name value (append fields more)

unfoldable pub append_values : Values → Values → Values
append_values nil more = more
append_values (cons value values) more = cons value (append_values values more)

-- The fields of all files, one behind the other.
unfoldable pub all_fields : {F : Type 0} → (F → Fields) → List F → Fields
unfolding append
all_fields fields_of [] = end
all_fields fields_of (file ∷ files) = append (fields_of file) (all_fields fields_of files)

module _ {E T : Type 0} (wrong_type : E) (deserialize : Value → Result E T) where
  push_elements-append :
      (list : List T) (a b : Values)
      → push_elements wrong_type deserialize list (append_values a b)
        ≡ and_then
            (push_elements wrong_type deserialize list a)
            (λ l. push_elements wrong_type deserialize l b)
  unfolding push_elements append_values
  push_elements-append list nil b = refl
  push_elements-append list (cons value a) b = elim (Result-cases (deserialize value)) [
    | inl (e, f) ↦ rw (f, push_elements) refl
    | inr (entry, f) ↦ rw (f, push_elements) (push_elements-append (list ++ entry ∷ []) a b)
  ]

module _ {S E : Type 0} (wrong_type : E) (visitor : MapVisitor S E) where
  visit_map-append :
      (struct : S) (a b : Fields)
      → visit_map wrong_type visitor struct (append a b)
        ≡ and_then (visit_map wrong_type visitor struct a) (λ s. visit_map wrong_type visitor s b)
  unfolding visit_map append
  visit_map-append struct end b = refl
  visit_map-append struct (field name value a) b =
      elim (Result-cases (visitor.visit_field struct name value)) [
        | inl (e, f) ↦ rw (f, visit_map) refl
        | inr (changed, f) ↦ rw (f, visit_map) (visit_map-append changed a b)
      ]

  merge_files-all_fields :
      {F : Type 0} (read : F → Result E Value) (fields_of : F → Fields) (conf : S) (files : List F)
      → All (λ file. read file ≡ ok (object (fields_of file))) files
      → merge_files wrong_type visitor read conf files
        ≡ deserialize_seed wrong_type visitor conf (object (all_fields fields_of files))
  unfolding merge_files deserialize_seed visit_map all_fields
  merge_files-all_fields read fields_of conf [] reads = refl
  merge_files-all_fields read fields_of conf (file ∷ files) (here, reads) =
      rw (here, merge_files, visit_map-append conf (fields_of file) (all_fields fields_of files))
        (elim (Result-cases (visit_map wrong_type visitor conf (fields_of file))) [
          | inl (e, f) ↦ rw f refl
          | inr (merged, f) ↦ rw f (merge_files-all_fields read fields_of merged files reads)
        ])

  -- If every one of the files can be read and has a map, then the configuration that is loaded
  -- from them is that of a single file which has the fields of all of them, in the order of the
  -- files' paths: an error of a field included.
  pub load_from_files-all_fields :
      (default : S) (path_le : Bytes → Bytes → Bool) (glob : Bytes → Option (List (Option Bytes)))
      (read : Bytes → Result E Value) (fields_of : Bytes → Fields) (patterns : List Bytes)
      → All
          (λ file. read file ≡ ok (object (fields_of file)))
          (sort path_le (all_files glob patterns))
      → load_from_files wrong_type visitor default path_le glob read patterns
        ≡ deserialize_seed wrong_type visitor default
            (object (all_fields fields_of (sort path_le (all_files glob patterns))))
  unfolding load_from_files
  load_from_files-all_fields default path_le glob read fields_of patterns reads =
      merge_files-all_fields read fields_of default (sort path_le (all_files glob patterns)) reads
