-- ===== src/Rewrite.antt =====
-- rewrite-module: the rules that rewrite a request's address.
pub mod Interpolation
pub mod Handler
mod Tests
