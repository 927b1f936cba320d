-- ===== src/StaticFiles/Metadata/Conditions.antt =====
-- How the conditional headers relate.
use pandora_web_server.Base.{
  Bool, not, ◌≡◌, refl, none, some, Bytes, List, [], ◌∷◌, any, all, bytes_eq, arith,
}
use pandora_web_server.StaticFiles.Metadata.{
  Metadata, Headers, tags_of, has_failed_precondition, is_not_modified,
}

all-not-any {ℓ} :
    {A : Type ℓ} (p : A → Bool) (xs : List A) → all (λ x. not (p x)) xs ≡ not (any p xs)
all-not-any p [] = refl
all-not-any p (x ∷ xs) = ground (arith, all-not-any p xs)

-- A list of entity tags fails as `If-Match` exactly if it does not match as `If-None-Match`,
-- whatever else the two requests have.
pub if_match-if_none_match :
    (meta : Metadata) (h k : Headers) (value : Bytes)
    → h "if-match" ≡ some value
    → k "if-none-match" ≡ some value
    → has_failed_precondition meta h ≡ not (is_not_modified meta k)
unfolding has_failed_precondition is_not_modified
if_match-if_none_match meta h k value p q =
    rw (p, q, has_failed_precondition, is_not_modified)
      (ground (arith, all-not-any (λ tag. bytes_eq tag meta.etag) (tags_of value)))

-- Without `If-Match` in one request and `If-None-Match` in another one, and for a file with a
-- modification date: a date fails as `If-Unmodified-Since` exactly if it does not answer with Not
-- Modified as `If-Modified-Since`.
pub dates_exclude :
    (meta : Metadata) (h k : Headers) (value modified : Bytes)
    → h "if-match" ≡ none
    → k "if-none-match" ≡ none
    → h "if-unmodified-since" ≡ some value
    → k "if-modified-since" ≡ some value
    → meta.modified ≡ some modified
    → has_failed_precondition meta h ≡ not (is_not_modified meta k)
unfolding has_failed_precondition is_not_modified
dates_exclude meta h k value modified p q r s m =
    rw (p, q, r, s, m, has_failed_precondition, is_not_modified)
