-- ===== src/Headers.antt =====
-- headers-module: which response headers are added to which responses.
pub mod Rules
pub mod Settings
pub mod Handler
mod Tests
