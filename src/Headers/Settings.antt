-- ===== src/Headers/Settings.antt =====
-- headers-module/src/configuration.rs: the headers' settings, their merging and their text. What
-- the macro `impl_conf` generates for a list of fields is a function of that list.
pub mod Merged
use pandora_web_server.Base.{
  ℕ, Bool, true, false, Option, none, some, or, Bytes, List, [], ◌∷◌, ◌++◌, codes, is_empty,
  bytes_eq, if◌then◌else◌,
}
use pandora_web_server.StandardResponse.{to_string}

-- The types of fields: `Option<usize>`, `bool`, `String` and `OneOrMany<String>`.
pub data Kind : Type 0 where
  number : Kind
  flag : Kind
  text : Kind
  texts : Kind

abbrev pub Value : Kind → Type 0
Value number = Option ℕ
Value flag = Bool
Value text = Bytes
Value texts = List Bytes

abbrev pub Fields : Type 0
Fields = List (Bytes × Kind)

-- The struct with these fields.
abbrev pub Conf : Fields → Type 0
Conf [] = Unit
Conf ((name, kind) ∷ fields) = Value kind × Conf fields

abbrev pub default_value : (kind : Kind) → Value kind
default_value number = none
default_value flag = false
default_value text = []
default_value texts = []

abbrev pub default_conf : (fields : Fields) → Conf fields
default_conf [] = tt
default_conf ((name, kind) ∷ fields) = (default_value kind, default_conf fields)

-- `impl_conf!(merge(..))`.
unfoldable pub merge_value : (kind : Kind) → Value kind → Value kind → Value kind
merge_value number into from = or from into
merge_value flag into from = if from then from else into
merge_value text into from = if is_empty from then into else from
merge_value texts into from = into ++ from

-- `IntoHeaders::merge_with`.
unfoldable pub merge_with : (fields : Fields) → Conf fields → Conf fields → Conf fields
unfolding merge_value
merge_with [] conf other = conf
merge_with ((name, kind) ∷ fields) (value, conf) (other_value, other) =
    (merge_value kind value other_value, merge_with fields conf other)

-- `join` of a slice of strings.
abbrev pub join : Bytes → List Bytes → Bytes
join sep [] = []
join sep (s ∷ []) = s
join sep (s ∷ t ∷ rest) = s ++ sep ++ join sep (t ∷ rest)

-- `impl_conf!(push(..))`: a number behind `=`, as Cache-Control has it, and texts behind a space,
-- as Content-Security-Policy has them.
unfoldable pub push : Bytes → (kind : Kind) → Value kind → List Bytes
unfolding to_string
push name number none = []
push name number (some n) = (name ++ codes "=" ++ to_string n) ∷ []
push name flag set = if set then name ∷ [] else []
push name text value = if is_empty value then [] else (name ++ codes " " ++ value) ∷ []
push name texts values =
    if is_empty values then [] else (name ++ codes " " ++ join (codes " ") values) ∷ []

unfoldable pub entries : (fields : Fields) → Conf fields → List Bytes
unfolding push
entries [] conf = []
entries ((name, kind) ∷ fields) (value, conf) = push name kind value ++ entries fields conf

abbrev pub Header : Type 0
Header = Bytes × Bytes

-- `IntoHeaders::into_headers`, with the header's name and the separator of `finalize`.
unfoldable pub into_headers : Bytes → Bytes → (fields : Fields) → Conf fields → List Header
unfolding entries
into_headers header sep fields conf =
    let list = entries fields conf in if is_empty list then [] else (header, join sep list) ∷ []

abbrev pub cache_control : Fields
cache_control =
    (codes "max-age", number)
    ∷ (codes "s-maxage", number)
    ∷ (codes "no-cache", flag)
    ∷ (codes "no-storage", flag)
    ∷ (codes "no-transform", flag)
    ∷ (codes "must-revalidate", flag)
    ∷ (codes "proxy-revalidate", flag)
    ∷ (codes "must-understand", flag)
    ∷ (codes "private", flag)
    ∷ (codes "public", flag)
    ∷ (codes "immutable", flag)
    ∷ (codes "stale-while-revalidate", number)
    ∷ (codes "stale-if-error", number)
    ∷ []

abbrev pub content_security_policy : Fields
content_security_policy =
    (codes "connect-src", texts)
    ∷ (codes "default-src", texts)
    ∷ (codes "fenced-frame-src", texts)
    ∷ (codes "font-src", texts)
    ∷ (codes "frame-src", texts)
    ∷ (codes "img-src", texts)
    ∷ (codes "manifest-src", texts)
    ∷ (codes "media-src", texts)
    ∷ (codes "object-src", texts)
    ∷ (codes "prefetch-src", texts)
    ∷ (codes "script-src", texts)
    ∷ (codes "script-src-elem", texts)
    ∷ (codes "script-src-attr", texts)
    ∷ (codes "style-src", texts)
    ∷ (codes "style-src-elem", texts)
    ∷ (codes "style-src-attr", texts)
    ∷ (codes "worker-src", texts)
    ∷ (codes "base-uri", texts)
    ∷ (codes "sandbox", texts)
    ∷ (codes "form-action", texts)
    ∷ (codes "frame-ancestors", texts)
    ∷ (codes "report-uri", text)
    ∷ (codes "report-to", text)
    ∷ (codes "require-trusted-types-for", texts)
    ∷ (codes "trusted-types", texts)
    ∷ (codes "upgrade-insecure-requests", flag)
    ∷ []

-- `CustomHeadersConf::merge_with`: `extend` of a map, whose headers are in the order of its
-- iteration; a value replaces an earlier one.
unfoldable pub insert_header : Header → List Header → List Header
insert_header header [] = header ∷ []
insert_header (name, value) ((own, existing) ∷ headers) =
    let later = insert_header (name, value) headers in
    if bytes_eq own name then (own, value) ∷ headers else (own, existing) ∷ later

unfoldable pub merge_custom : List Header → List Header → List Header
unfolding insert_header
merge_custom headers [] = headers
merge_custom headers (header ∷ other) = merge_custom (insert_header header headers) other
