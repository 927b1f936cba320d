-- ===== src/CommonLog.antt =====
-- common-log-module: the log of requests.
pub mod Fields
pub mod Handler
pub mod Writer
mod Tests
