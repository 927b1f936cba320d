-- ===== src/Router.antt =====
-- pandora-module-utils/src/router.rs: the paths of routes, and the router over two tries.
pub mod Path
pub mod Table
pub mod Routes
pub mod Tests
