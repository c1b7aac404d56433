-- ===== src/Redb.antt =====
-- The embedded database `redb`, which `src/indexer/store.rs` uses and this repository does not
-- contain: an interface of operations with the laws that the store relies on. `Redb/Sorted`
-- has an instance of it.
pub mod Order
pub mod Defs
pub mod Laws
pub mod Sorted
