-- ===== src/StaticFiles/Mime/Add.antt =====
-- A matcher matches what one of its patterns matches.
use pandora_web_server.Base.{
  ◌≡◌, ◌∙◌, Bool, ◌||◌, Bytes, List, [], ◌∷◌, ◌++◌, any, bytes_eq, starts_with, Eq, arith,
}
use pandora_web_server.StaticFiles.Mime.{
  MimeType, MimeMatch, exact, type_, prefix, suffix, MimeMatcher, no_patterns, add_pattern,
  ends_with, mime_matches,
}

-- What a single pattern matches: one MIME type, all of a type, those with a beginning or an end.
unfoldable pub covers : {M : Type 0} ⦃e : Eq M⦄ → MimeType M → MimeMatch M → M → Bool
covers ⦃e⦄ mimes (exact own) mime = e.beq own mime
covers mimes (type_ name) mime = bytes_eq name (mimes.type_of mime)
covers mimes (prefix start) mime = starts_with start (mimes.as_ref mime)
covers mimes (suffix ending) mime = ends_with ending (mimes.as_ref mime)

any-snoc : (p : Bytes → Bool) (xs : List Bytes) (x : Bytes) → any p (xs ++ x ∷ []) ≡ any p xs || p x
any-snoc p [] x = ground arith
any-snoc p (y ∷ xs) x = ground (arith, any-snoc p xs x)

unfoldable pub add_all : {M : Type 0} → MimeMatcher M → List (MimeMatch M) → MimeMatcher M
unfolding add_pattern
add_all matcher [] = matcher
add_all matcher (pattern ∷ patterns) = add_all (add_pattern matcher pattern) patterns

mime_matches-add_pattern :
    {M : Type 0} ⦃e : Eq M⦄ (mimes : MimeType M) (matcher : MimeMatcher M) (pattern : MimeMatch M)
    (mime : M)
    → mime_matches mimes (add_pattern matcher pattern) mime
      ≡ mime_matches mimes matcher mime || covers mimes pattern mime
unfolding mime_matches add_pattern covers
mime_matches-add_pattern mimes matcher (exact own) mime = ground arith
mime_matches-add_pattern mimes matcher (type_ name) mime = ground arith
mime_matches-add_pattern mimes matcher (prefix start) mime =
    ground (arith, any-snoc (λ s. starts_with s (mimes.as_ref mime)) matcher.prefixes start)
mime_matches-add_pattern mimes matcher (suffix ending) mime =
    ground (arith, any-snoc (λ s. ends_with s (mimes.as_ref mime)) matcher.suffixes ending)

mime_matches-add_all :
    {M : Type 0} ⦃e : Eq M⦄ (mimes : MimeType M) (matcher : MimeMatcher M)
    (patterns : List (MimeMatch M)) (mime : M)
    → mime_matches mimes (add_all matcher patterns) mime
      ≡ mime_matches mimes matcher mime || any (λ pattern. covers mimes pattern mime) patterns
unfolding add_all
mime_matches-add_all mimes matcher [] mime = ground arith
mime_matches-add_all mimes matcher (own ∷ patterns) mime =
    mime_matches-add_all mimes (add_pattern matcher own) patterns mime
    ∙ ground (arith, mime_matches-add_pattern mimes matcher own mime)

-- The matcher of a list of patterns matches a MIME type exactly if one of the patterns does.
pub mime_matches-any :
    {M : Type 0} ⦃e : Eq M⦄ (mimes : MimeType M) (patterns : List (MimeMatch M)) (mime : M)
    → mime_matches mimes (add_all no_patterns patterns) mime
      ≡ any (λ pattern. covers mimes pattern mime) patterns
unfolding mime_matches
mime_matches-any mimes patterns mime = mime_matches-add_all mimes no_patterns patterns mime
