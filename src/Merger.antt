-- ===== src/Merger.antt =====
-- pandora-module-utils/src/merger.rs: which paths a configuration applies to, and the merging of
-- configurations.
pub mod Matcher
pub mod Table
pub mod Merge
mod Tests
