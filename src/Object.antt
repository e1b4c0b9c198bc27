-- ===== src/Object.antt =====
-- internal/object: the objects that are kept in the store.
pub mod PackIndex
pub mod File
pub mod Packfile
