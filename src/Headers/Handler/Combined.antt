-- ===== src/Headers/Handler/Combined.antt =====
-- The headers that result from several lists of headers.
use mathlib.Core.List.{append_assoc}
use pandora_web_server.Base.{
  ◌≡◌, refl, sym, ap, ◌∙◌, inl, inr, true, false, Bool-cases, Option-cases, Bytes, List, [], ◌∷◌,
  ◌++◌, codes, bytes_eq, bytes_eq_iff, position, if◌then◌else◌,
}
use pandora_web_server.Headers.Settings.{Header, join}
use pandora_web_server.Headers.Handler.{add_header, add_headers, combine_from, combine}

-- The values of a header, in their order.
abbrev pub values_of : Bytes → List Header → List Bytes
values_of name [] = []
values_of name ((own, value) ∷ headers) =
    let rest = values_of name headers in if bytes_eq own name then value ∷ rest else rest

abbrev pub concat : List (List Header) → List Header
concat [] = []
concat (headers ∷ values) = headers ++ concat values

-- The values as one, if there are any.
abbrev pub joined : List Bytes → List Bytes
joined [] = []
joined (value ∷ values) = join (codes ", ") (value ∷ values) ∷ []

-- A header's values together with one more.
abbrev pub with_value : List Bytes → Bytes → List Bytes
with_value [] value = value ∷ []
with_value (existing ∷ values) value = (existing ++ codes ", " ++ value) ∷ values

add_header-here :
    (own existing name value : Bytes) (result : List Header)
    → bytes_eq own name ≡ true
    → add_header ((own, existing) ∷ result) (name, value)
      ≡ (own, existing ++ codes ", " ++ value) ∷ result
unfolding add_header
add_header-here own existing name value result h = rw (h, add_header) refl

add_header-later :
    (own existing name value : Bytes) (result : List Header)
    → bytes_eq own name ≡ false
    → add_header ((own, existing) ∷ result) (name, value)
      ≡ (own, existing) ∷ add_header result (name, value)
unfolding add_header
add_header-later own existing name value result h =
    elim (Option-cases (position (λ (p : Header). bytes_eq p.0 name) result)) [
      | inl e ↦ rw (h, e, add_header) refl
      | inr (index, e) ↦ rw (h, e, add_header) refl
    ]

values_of-own :
    (name value : Bytes) (headers : List Header)
    → values_of name ((name, value) ∷ headers) ≡ value ∷ values_of name headers
values_of-own name value headers = rw ((bytes_eq_iff name name).1 refl) refl

add_header-same :
    (name value : Bytes) (result : List Header)
    → values_of name (add_header result (name, value)) ≡ with_value (values_of name result) value
unfolding add_header
add_header-same name value [] = values_of-own name value []
add_header-same name value ((own, existing) ∷ result) = elim (Bool-cases (bytes_eq own name)) [
  | inl h ↦ ap (values_of name) (add_header-here own existing name value result h) ∙ rw h refl
  | inr h ↦
      ap (values_of name) (add_header-later own existing name value result h)
      ∙ rw h (add_header-same name value result)
]

not_both :
    (own name other : Bytes)
    → bytes_eq own name ≡ true
    → bytes_eq name other ≡ false
    → bytes_eq own other ≡ false
not_both own name other h k = rw ((bytes_eq_iff own name).0 h) k

add_header-other :
    (other name value : Bytes) (result : List Header)
    → bytes_eq name other ≡ false
    → values_of other (add_header result (name, value)) ≡ values_of other result
unfolding add_header
add_header-other other name value [] h = rw h refl
add_header-other other name value ((own, existing) ∷ result) h =
    elim (Bool-cases (bytes_eq own name)) [
      | inl k ↦
          let apart = not_both own name other k h in
          ap (values_of other) (add_header-here own existing name value result k) ∙ rw apart refl
      | inr k ↦
          ap (values_of other) (add_header-later own existing name value result k)
          ∙ rw (add_header-other other name value result h) refl
    ]

-- All values added, one after another.
abbrev with_values : List Bytes → List Bytes → List Bytes
with_values start [] = start
with_values start (value ∷ values) = with_values (with_value start value) values

with_values-append :
    (start a b : List Bytes) → with_values start (a ++ b) ≡ with_values (with_values start a) b
with_values-append start [] b = refl
with_values-append start (value ∷ a) b = with_values-append (with_value start value) a b

add_headers-values_of :
    (name : Bytes) (result headers : List Header)
    → values_of name (add_headers result headers)
      ≡ with_values (values_of name result) (values_of name headers)
unfolding add_headers
add_headers-values_of name result [] = refl
add_headers-values_of name result ((own, value) ∷ headers) =
    let rest = add_headers-values_of name (add_header result (own, value)) headers in
    elim (Bool-cases (bytes_eq own name)) [
      | inl h ↦
          let same : values_of name (add_header result (own, value))
              ≡ with_value (values_of name result) value =
            rw ((bytes_eq_iff own name).0 h) (add_header-same name value result) in
          rest ∙ rw (h, same) refl
      | inr h ↦ rest ∙ rw (h, add_header-other name own value result h) refl
    ]

values_of-append :
    (name : Bytes) (a b : List Header)
    → values_of name (a ++ b) ≡ values_of name a ++ values_of name b
values_of-append name [] b = refl
values_of-append name ((own, value) ∷ a) b = elim (Bool-cases (bytes_eq own name)) [
  | inl h ↦ rw (h, values_of-append name a b) refl
  | inr h ↦ rw (h, values_of-append name a b) refl
]

combine_from-values_of :
    (name : Bytes) (result : List Header) (values : List (List Header))
    → values_of name (combine_from result values)
      ≡ with_values (values_of name result) (values_of name (concat values))
unfolding combine_from
combine_from-values_of name result [] = refl
combine_from-values_of name result (headers ∷ values) =
    combine_from-values_of name (add_headers result headers) values
    ∙ ap (λ s. with_values s (values_of name (concat values)))
        (add_headers-values_of name result headers)
    ∙ sym (
        with_values-append (values_of name result) (values_of name headers)
          (values_of name (concat values)))
    ∙ ap (with_values (values_of name result)) (sym (values_of-append name headers (concat values)))

join-extended :
    (a v : Bytes) (vs : List Bytes)
    → join (codes ", ") ((a ++ codes ", " ++ v) ∷ vs) ≡ join (codes ", ") (a ∷ v ∷ vs)
join-extended a v [] = refl
join-extended a v (w ∷ vs) =
    ap (λ t. t ++ join (codes ", ") (w ∷ vs)) (append_assoc (a ++ codes ", ") v (codes ", "))
    ∙ append_assoc (a ++ codes ", ") (v ++ codes ", ") (join (codes ", ") (w ∷ vs))

with_values-joined :
    (a : Bytes) (values : List Bytes)
    → with_values (a ∷ []) values ≡ join (codes ", ") (a ∷ values) ∷ []
with_values-joined a [] = refl
with_values-joined a (v ∷ values) =
    with_values-joined (a ++ codes ", " ++ v) values ∙ ap (λ t. t ∷ []) (join-extended a v values)

-- The combined headers have each header that the lists have exactly once, and no other one: its
-- value is the values that the lists have for it, in their order, separated by commas.
pub combine-values_of :
    (name : Bytes) (values : List (List Header))
    → values_of name (combine values) ≡ joined (values_of name (concat values))
unfolding combine
combine-values_of name values =
    combine_from-values_of name [] values ∙ from_nothing (values_of name (concat values))
  where
    from_nothing : (vs : List Bytes) → with_values [] vs ≡ joined vs
    from_nothing [] = refl
    from_nothing (v ∷ vs) = with_values-joined v vs
