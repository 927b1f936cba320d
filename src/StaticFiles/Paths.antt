-- ===== src/StaticFiles/Paths.antt =====
-- static-files-module/src/path.rs: the file for the path of an address, on Unix. A path is a text.
use pandora_web_server.Base.{
  Bool, not, ◌&&◌, ◌||◌, Option, none, some, ◌>>=◌, is_some, Bytes, List, [], ◌∷◌, ◌++◌, codes,
  split, strip_prefix, strip_suffix, starts_with, is_empty, bytes_eq, if◌then◌else◌,
}

pub data ErrorKind : Type 0 where
  not_found : ErrorKind
  permission_denied : ErrorKind
  invalid_input : ErrorKind
  invalid_data : ErrorKind
  other_error : ErrorKind

pub data Resolved : Type 0 where
  ok : Bytes → Resolved
  err : ErrorKind → Resolved

-- `PathBuf::push` and `Path::join`: an absolute path replaces the one before.
abbrev pub push : Bytes → Bytes → Bytes
push path component =
    if starts_with (codes "/") component
    then component
    else (if is_empty path || is_some (strip_suffix (codes "/") path)
        then path ++ component
        else path ++ codes "/" ++ component)

-- `Path::components` behind the root, without `..`, which canonical paths do not have; 47 is the
-- slash.
abbrev drop_current : List Bytes → List Bytes
drop_current [] = []
drop_current (part ∷ parts) =
    let rest = drop_current parts in
    if is_empty part || bytes_eq part (codes ".") then rest else part ∷ rest

abbrev pub components : Bytes → List Bytes
components path = drop_current (split 47 path)

-- `strip_prefix` of paths: whole components.
abbrev pub strip_components : List Bytes → List Bytes → Option (List Bytes)
strip_components [] path = some path
strip_components (r ∷ root) [] = none
strip_components (r ∷ root) (c ∷ path) =
    let rest = strip_components root path in if bytes_eq r c then rest else none

unfoldable pub is_below : Bytes → Bytes → Bool
is_below path root = is_some (strip_components (components root) (components path))

-- The file system, and the crate percent_encoding.
pub record FileSystem : Type 0 where
  pub canonicalize : Bytes → Resolved
  pub is_dir : Bytes → Bool
  pub is_file : Bytes → Bool
  pub percent_decode : Bytes → Bytes
  pub percent_encode : Bytes → Bytes

module _ (system : FileSystem) where
  unfoldable pub push_all : Bytes → List Bytes → Bytes
  push_all path [] = path
  push_all path (component ∷ rest) = push_all (push path (system.percent_decode component)) rest

  abbrev or_whole : Option Bytes → Bytes → Bytes
  or_whole none text = text
  or_whole (some stripped) text = stripped

  -- The test behind `canonicalize`.
  unfoldable pub check_below : Bytes → Resolved → Resolved
  unfolding is_below
  check_below root (err kind) = err kind
  check_below root (ok path) = if is_below path root then ok path else err invalid_data

  -- `resolve_uri`.
  unfoldable pub resolve_uri : Bytes → Bytes → Resolved
  unfolding check_below push_all
  resolve_uri uri_path root = elim (strip_prefix (codes "/") uri_path) [
    | none ↦ err invalid_input
    | some text ↦ check_below root (
        system.canonicalize
          (push_all root (split 47 (or_whole (strip_suffix (codes "/") text) text))))
  ]

  abbrev encode_all : List Bytes → Bytes
  encode_all [] = []
  encode_all (component ∷ rest) = system.percent_encode component ++ codes "/" ++ encode_all rest

  -- `path_to_uri`: the last slash is kept for a directory, and for the root itself.
  unfoldable pub path_to_uri : Bytes → Bytes → Option Bytes
  path_to_uri path root = strip_components (components root) (components path) >>= λ rest.
      let uri = codes "/" ++ encode_all rest in
      some (
        if not (system.is_dir path) && not (is_empty rest)
        then or_whole (strip_suffix (codes "/") uri) uri
        else uri)
