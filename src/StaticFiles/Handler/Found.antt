-- ===== src/StaticFiles/Handler/Found.antt =====
-- The index files and the compressed versions that are found.
use pandora_web_server.Base.{
  ℕ, ◌≡◌, refl, inl, inr, Bool, true, Bool-cases, ◌||◌, not, Option, none, some, Bytes, List, [],
  ◌∷◌, any, bytes_eq, bytes_eq_iff, is_empty, arith,
}
use pandora_web_server.StaticFiles.Encoding.{CompressionAlgorithm}
use pandora_web_server.StaticFiles.Paths.{push}
use pandora_web_server.StaticFiles.ResponseHeaders.{with_ext, first_file, rewrite_path}
use pandora_web_server.StaticFiles.Handler.{find_index}

-- A path to which names of index files were joined, each of which gave a file.
pub data IsIndex (is_file : Bytes → Bool) (names : List Bytes) (path : Bytes) : Bytes → Type 0 where
  itself : IsIndex is_file names path path
  index :
      (file name : Bytes)
      → IsIndex is_file names path file
      → any (bytes_eq name) names ≡ true
      → is_file (push file name) ≡ true
      → IsIndex is_file names path (push file name)

pub find_index-IsIndex :
    (is_file : Bytes → Bool) (names : List Bytes) (path : Bytes) (left : List Bytes) (file : Bytes)
    → ((name : Bytes) → any (bytes_eq name) left ≡ true → any (bytes_eq name) names ≡ true)
    → IsIndex is_file names path file
    → IsIndex is_file names path (find_index is_file left file)
unfolding find_index
find_index-IsIndex is_file names path [] file within so_far = so_far
find_index-IsIndex is_file names path (name ∷ left) file within so_far =
    let later : (other : Bytes)
        → any (bytes_eq other) left ≡ true
        → any (bytes_eq other) names ≡ true =
      λ other h. within other (ground (arith, h)) in
    let own = within name (ground (arith, (bytes_eq_iff name name).1 refl)) in
    elim (Bool-cases (is_file (push file name))) [
      | inl e ↦ rw e (
          find_index-IsIndex is_file names path left (push file name) later
            (index file name so_far own e))
      | inr e ↦ rw e (find_index-IsIndex is_file names path left file later so_far)
    ]

first_file-with_ext :
    (is_file : Bytes → Bool) (path : Bytes) (overlap : List CompressionAlgorithm)
    (algorithm : CompressionAlgorithm) (compressed : Bytes)
    → first_file is_file path overlap ≡ some (algorithm, compressed)
    → compressed ≡ with_ext path algorithm
unfolding first_file
first_file-with_ext is_file path [] algorithm compressed h = absurd (cc h)
first_file-with_ext is_file path (a ∷ overlap) algorithm compressed h =
    elim (Bool-cases (is_file (with_ext path a))) [
      | inl e ↦
          let same : some (a, with_ext path a) ≡ some (algorithm, compressed) =
            rw (e, first_file) at h in
          cc same
      | inr e ↦
          first_file-with_ext is_file path overlap algorithm compressed (rw (e, first_file) at h)
    ]

pub rewrite_path-with_ext :
    (read_quality : Bytes → Option ℕ) (is_file : Bytes → Bool) (has_name : Bool)
    (accepted : Option Bytes) (supported : List CompressionAlgorithm) (path : Bytes)
    (algorithm : CompressionAlgorithm) (compressed : Bytes)
    → rewrite_path read_quality is_file has_name accepted supported path
      ≡ some (algorithm, compressed)
    → compressed ≡ with_ext path algorithm
unfolding rewrite_path
rewrite_path-with_ext read_quality is_file has_name none supported path algorithm compressed h =
    absurd (cc h)
rewrite_path-with_ext read_quality is_file has_name (some accepted) supported path algorithm
      compressed h =
    elim (Bool-cases (is_empty supported || not has_name)) [
      | inl e ↦
          let bad : ◌≡◌ {A = Option (CompressionAlgorithm × Bytes)} none
              (some (algorithm, compressed)) =
            rw (e, rewrite_path) at h in
          absurd (cc bad)
      | inr e ↦ first_file-with_ext is_file path _ algorithm compressed (rw (e, rewrite_path) at h)
    ]
