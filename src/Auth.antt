-- ===== src/Auth.antt =====
-- auth-module: logins and HTTP Basic authentication.
pub mod Login
pub mod Basic
pub mod Page
pub mod Settings
pub mod Mode
mod Tests
