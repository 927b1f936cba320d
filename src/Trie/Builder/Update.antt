-- ===== src/Trie/Builder/Update.antt =====
-- A push changes the values at its label and no others.
pub mod Split
pub mod Descend
pub mod Push
