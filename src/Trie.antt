-- ===== src/Trie.antt =====
-- pandora-module-utils/src/trie.rs: the prefix tree behind the router. `Prefix` compares labels,
-- `Builder` is the tree that a setup fills, `Flat` the three vectors that it is compiled to.
pub mod Prefix
pub mod Builder
pub mod Flat
mod Tests
