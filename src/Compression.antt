-- ===== src/Compression.antt =====
-- compression-module/src/lib.rs: the dynamic compression of responses.
use pandora_web_server.Base.{ℕ, Bool, true, Option, none, some, if◌then◌else◌}

pub data Algorithm : Type 0 where
  gzip : Algorithm
  brotli : Algorithm
  zstd : Algorithm

pub record CompressionOpt : Type 0 where
  pub compression_level_gzip : Option ℕ
  pub compression_level_brotli : Option ℕ
  pub compression_level_zstd : Option ℕ
  pub decompress_upstream : Bool

pub record CompressionConf : Type 0 where
  pub compression_level_gzip : Option ℕ
  pub compression_level_brotli : Option ℕ
  pub compression_level_zstd : Option ℕ
  pub decompress_upstream : Bool

-- `if opt.…is_some() { self.… = opt.…; }`
abbrev set_if_some {ℓ} : {A : Type ℓ} → Option A → Option A → Option A
set_if_some conf none = conf
set_if_some conf (some a) = some a

-- `merge_with_opt`.
unfoldable pub merge_with_opt : CompressionConf → CompressionOpt → CompressionConf
merge_with_opt conf opt = record {
  compression_level_gzip = set_if_some conf.compression_level_gzip opt.compression_level_gzip;
  compression_level_brotli = set_if_some conf.compression_level_brotli opt.compression_level_brotli;
  compression_level_zstd = set_if_some conf.compression_level_zstd opt.compression_level_zstd;
  decompress_upstream =
      if opt.decompress_upstream then opt.decompress_upstream else conf.decompress_upstream;
}

-- The session's modules for compression, which are pingora's.
pub record Compressor (S : Type 0) : Type 0 where
  pub enable : ℕ → S → S
  pub adjust_algorithm_level : Algorithm → ℕ → S → S
  pub adjust_decompression : Bool → S → S

module _ {S : Type 0} (compressor : Compressor S) where
  unfoldable pub init_downstream_modules : S → S
  init_downstream_modules session = compressor.enable 0 session

  -- The macro `enable_compression`.
  unfoldable pub enable_compression : Algorithm → Option ℕ → S → S
  enable_compression algorithm none session = session
  enable_compression algorithm (some level) session =
      compressor.adjust_algorithm_level algorithm level session

  -- `early_request_filter`.
  unfoldable pub early_request_filter : CompressionConf → S → S
  unfolding enable_compression
  early_request_filter conf session =
      let compressed = enable_compression zstd conf.compression_level_zstd (
        enable_compression brotli conf.compression_level_brotli
          (enable_compression gzip conf.compression_level_gzip session)) in
      if conf.decompress_upstream
      then compressor.adjust_decompression true compressed
      else compressed
