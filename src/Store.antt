-- ===== src/Store.antt =====
-- `src/indexer/store.rs`: the windowed ledger. The children `Types`, `Keys`, `Tables`, `Ledger`,
-- `Ai`, `Apply`, `Unwind`, `Expire` and `Reads` have the data and the operations.
pub mod Types
pub mod Keys
pub mod Tables
pub mod Ledger
pub mod Ai
pub mod Apply
pub mod Unwind
pub mod Expire
pub mod Faults
pub mod Panics
pub mod Order
pub mod Linked
pub mod Reads
