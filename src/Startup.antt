-- ===== src/Startup.antt =====
-- startup-module/src: the listening addresses, the certificates, the server's set-up and the
-- redirector from HTTP to HTTPS.
pub mod Listen
pub mod Certificates
pub mod Redirector
mod Tests
