-- ===== src/StaticFiles.antt =====
-- static-files-module: byte ranges, conditional requests, the file writer and content
-- encodings.
pub mod Range
pub mod Metadata
pub mod FileWriter
pub mod Encoding
pub mod Mime
pub mod Paths
pub mod ResponseHeaders
pub mod Handler
pub mod Options
mod Tests
