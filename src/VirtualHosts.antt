-- ===== src/VirtualHosts.antt =====
-- virtual-hosts-module: the handlers by host and path.
pub mod Configuration
pub mod Handler
mod Tests
