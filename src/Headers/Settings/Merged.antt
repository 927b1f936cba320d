-- ===== src/Headers/Settings/Merged.antt =====
-- The settings that result for a path, field by field.
use pandora_web_server.Base.{
  ℕ, ◌≡◌, refl, sym, ◌∙◌, Bool, true, false, ◌||◌, Option, none, some, or, Bytes, List, [], ◌∷◌,
  ◌++◌, is_empty, if◌then◌else◌,
}
use mathlib.Core.List.{append_assoc, append-nil}
use pandora_web_server.Headers.Settings.{
  Kind, number, flag, text, texts, Value, Fields, Conf, default_value, default_conf, merge_value,
  merge_with,
}

-- The values of the first field, and the other fields, of a list of settings.
abbrev firsts : {A B : Type 0} → List (A × B) → List A
firsts [] = []
firsts ((a, b) ∷ l) = a ∷ firsts l

abbrev others : {A B : Type 0} → List (A × B) → List B
others [] = []
others ((a, b) ∷ l) = b ∷ others l

-- The last number that is set, the last text that is not empty, whether any flag is set, and all
-- texts in their order.
abbrev pub combined : (kind : Kind) → List (Value kind) → Value kind
combined number [] = none
combined number (value ∷ values) = or (combined number values) value
combined flag [] = false
combined flag (value ∷ values) = value || combined flag values
combined text [] = []
combined text (value ∷ values) =
    let later = combined text values in if is_empty later then value else later
combined texts [] = []
combined texts (value ∷ values) = value ++ combined texts values

-- Every field of the settings, independently of the others.
unfoldable pub combined_conf : (fields : Fields) → List (Conf fields) → Conf fields
combined_conf [] confs = tt
combined_conf ((name, kind) ∷ fields) confs =
    (combined kind (firsts confs), combined_conf fields (others confs))

-- The loop of `merge_rules`.
unfoldable pub merge_all : (fields : Fields) → Conf fields → List (Conf fields) → Conf fields
unfolding merge_with
merge_all fields conf [] = conf
merge_all fields conf (other ∷ confs) = merge_all fields (merge_with fields conf other) confs

or_assoc : (a b c : Option ℕ) → or a (or b c) ≡ or (or a b) c
or_assoc none b c = refl
or_assoc (some n) b c = refl

or_flags :
    (value other later : Bool)
    → ((if other then other else value) || later) ≡ (value || (other || later))
or_flags true true later = refl
or_flags true false later = refl
or_flags false true later = refl
or_flags false false later = refl

last_text :
    (value other later : Bytes)
    → (if is_empty later then (if is_empty other then value else other) else later) ≡ (
        if is_empty (if is_empty later then other else later)
        then value
        else (if is_empty later then other else later))
last_text value [] [] = refl
last_text value (c ∷ other) [] = refl
last_text value other (c ∷ later) = refl

merge_value-combined :
    (kind : Kind) (value other : Value kind) (values : List (Value kind))
    → combined kind (merge_value kind value other ∷ values) ≡ combined kind (value ∷ other ∷ values)
unfolding merge_value
merge_value-combined number value other values = or_assoc (combined number values) other value
merge_value-combined flag value other values = or_flags value other (combined flag values)
merge_value-combined text value other values = last_text value other (combined text values)
merge_value-combined texts value other values = append_assoc value other (combined texts values)

pair_eq : {A B : Type 0} {a a' : A} {b b' : B} → a ≡ a' → b ≡ b' → ◌≡◌ {A = A × B} (a, b) (a', b')
pair_eq e f = λ i. (e i, f i)

merge_with-combined :
    (fields : Fields) (conf other : Conf fields) (confs : List (Conf fields))
    → combined_conf fields (merge_with fields conf other ∷ confs)
      ≡ combined_conf fields (conf ∷ other ∷ confs)
unfolding merge_with combined_conf
merge_with-combined [] conf other confs = refl
merge_with-combined ((name, kind) ∷ fields) (value, conf) (value', other) confs =
    pair_eq (merge_value-combined kind value value' (firsts confs))
      (merge_with-combined fields conf other (others confs))

combined_single : (kind : Kind) (value : Value kind) → combined kind (value ∷ []) ≡ value
combined_single number value = refl
combined_single flag true = refl
combined_single flag false = refl
combined_single text value = refl
combined_single texts value = append-nil value

combined_conf_single :
    (fields : Fields) (conf : Conf fields) → combined_conf fields (conf ∷ []) ≡ conf
unfolding combined_conf
combined_conf_single [] conf = refl
combined_conf_single ((name, kind) ∷ fields) (value, conf) =
    pair_eq (combined_single kind value) (combined_conf_single fields conf)

combined_default :
    (kind : Kind) (values : List (Value kind))
    → combined kind (default_value kind ∷ values) ≡ combined kind values
combined_default number values = or_none (combined number values)
  where
    or_none : (o : Option ℕ) → or o none ≡ o
    or_none none = refl
    or_none (some n) = refl
combined_default flag values = refl
combined_default text values = if_empty (combined text values)
  where
    if_empty : (t : Bytes) → (if is_empty t then [] else t) ≡ t
    if_empty [] = refl
    if_empty (c ∷ t) = refl
combined_default texts values = refl

combined_conf_default :
    (fields : Fields) (confs : List (Conf fields))
    → combined_conf fields (default_conf fields ∷ confs) ≡ combined_conf fields confs
unfolding combined_conf
combined_conf_default [] confs = refl
combined_conf_default ((name, kind) ∷ fields) confs =
    pair_eq (combined_default kind (firsts confs)) (combined_conf_default fields (others confs))

merge_all-combined :
    (fields : Fields) (conf : Conf fields) (confs : List (Conf fields))
    → merge_all fields conf confs ≡ combined_conf fields (conf ∷ confs)
unfolding merge_all
merge_all-combined fields conf [] = sym (combined_conf_single fields conf)
merge_all-combined fields conf (other ∷ confs) =
    merge_all-combined fields (merge_with fields conf other) confs
    ∙ merge_with-combined fields conf other confs

-- For any fields, merging settings one after another into the default ones gives in each field,
-- independently of the others, the last number that is set, whether any flag is set, the last
-- text that is not empty, or all the texts in their order.
pub merge_all-combined_conf :
    (fields : Fields) (confs : List (Conf fields))
    → merge_all fields (default_conf fields) confs ≡ combined_conf fields confs
merge_all-combined_conf fields confs =
    merge_all-combined fields (default_conf fields) confs ∙ combined_conf_default fields confs
