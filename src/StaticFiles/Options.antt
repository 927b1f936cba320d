-- ===== src/StaticFiles/Options.antt =====
-- static-files-module/src/configuration.rs and handler.rs: the settings, the command line options
-- and the handler that they make.
use pandora_web_server.Base.{Bool, true, Option, none, some, ◌>>=◌, Bytes, List, [], ◌∷◌, codes, Eq}
use pandora_web_server.StaticFiles.Encoding.{CompressionAlgorithm}
use pandora_web_server.StaticFiles.Mime.{
  MimeType, MimeMatch, MimeMatcher, no_patterns, mime_matches,
}
use pandora_web_server.StaticFiles.Mime
use pandora_web_server.StaticFiles.Mime.Add.{add_all}
use pandora_web_server.StaticFiles.Handler.{StaticFilesHandler}

pub record StaticFilesOpt (M : Type 0) : Type 0 where
  pub root : Option Bytes
  pub canonicalize_uri : Option Bool
  pub index_file : Option (List Bytes)
  pub page_404 : Option Bytes
  pub precompressed : Option (List CompressionAlgorithm)
  pub declare_charset : Option Bytes
  pub declare_charset_types : Option (List (MimeMatch M))

pub record StaticFilesConf (M : Type 0) : Type 0 where
  pub root : Option Bytes
  pub canonicalize_uri : Bool
  pub index_file : List Bytes
  pub page_404 : Option Bytes
  pub precompressed : List CompressionAlgorithm
  pub declare_charset : Bytes
  pub declare_charset_types : List (MimeMatch M)

-- `StaticFilesConf::default`.
unfoldable pub default : {M : Type 0} → StaticFilesConf M
default = record {
  root = none;
  canonicalize_uri = true;
  index_file = [];
  page_404 = none;
  precompressed = [];
  declare_charset = codes "utf-8";
  declare_charset_types = [];
}

-- `if let Some(…) = opt.… { self.… = … }`
abbrev given {ℓ} : {A : Type ℓ} → A → Option A → A
given conf none = conf
given conf (some opt) = opt

-- `if opt.….is_some() { self.… = opt.… }`
abbrev given_some {ℓ} : {A : Type ℓ} → Option A → Option A → Option A
given_some conf none = conf
given_some conf (some opt) = some opt

-- `merge_with_opt`.
unfoldable pub merge_with_opt :
    {M : Type 0} → StaticFilesConf M → StaticFilesOpt M → StaticFilesConf M
merge_with_opt conf opt = record {
  root = given_some conf.root opt.root;
  canonicalize_uri = given conf.canonicalize_uri opt.canonicalize_uri;
  index_file = given conf.index_file opt.index_file;
  page_404 = given_some conf.page_404 opt.page_404;
  precompressed = given conf.precompressed opt.precompressed;
  declare_charset = given conf.declare_charset opt.declare_charset;
  declare_charset_types = given conf.declare_charset_types opt.declare_charset_types;
}

-- `DEFAULT_TEXT_TYPES`.
abbrev pub default_text_types : List Bytes
default_text_types =
    codes "text/*"
    ∷ codes "*+xml"
    ∷ codes "*+json"
    ∷ codes "application/javascript"
    ∷ codes "application/json"
    ∷ codes "application/json5"
    ∷ []

module _ {M : Type 0} (mimes : MimeType M) where
  -- `try_into().unwrap()` of each; `none` is a panic.
  unfoldable pub patterns_of : List Bytes → Option (List (MimeMatch M))
  unfolding Mime.try_from
  patterns_of [] = some []
  patterns_of (text ∷ texts) = do
    pattern ← Mime.try_from mimes text
    patterns ← patterns_of texts
    some (pattern ∷ patterns)

  abbrev text_types : List (MimeMatch M) → Option (List (MimeMatch M))
  unfolding patterns_of
  text_types [] = patterns_of default_text_types
  text_types (pattern ∷ patterns) = some (pattern ∷ patterns)

module _ {M : Type 0} (mimes : MimeType M) ⦃e : Eq M⦄ (canonicalize : Bytes → Option Bytes)
    (mime_of : Bytes → M) where
  abbrev root_of : Option Bytes → Option (Option Bytes)
  root_of none = some none
  root_of (some root) = canonicalize root >>= λ path. some (some path)

  -- `StaticFilesHandler::try_from`: `canonicalize` is that of the file system, and `mime_of` is the
  -- type that the text of a content type stands for. `none` is an error.
  unfoldable pub try_from : StaticFilesConf M → Option StaticFilesHandler
  unfolding text_types
  try_from conf = do
    root ← root_of conf.root
    patterns ← text_types mimes conf.declare_charset_types
    some (record {
      root = root;
      canonicalize_uri = conf.canonicalize_uri;
      index_file = conf.index_file;
      page_404 = conf.page_404;
      precompressed = conf.precompressed;
      declare_charset = conf.declare_charset;
      declare_charset_matches =
          λ text. mime_matches mimes (add_all no_patterns patterns) (mime_of text);
    })
