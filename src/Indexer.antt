-- ===== src/Indexer.antt =====
-- `src/indexer/mod.rs`: what the indexer keeps between the node's notifications.
pub mod Bounded
pub mod Staging
pub mod Sync
pub mod Status
pub mod Answers
pub mod Run
