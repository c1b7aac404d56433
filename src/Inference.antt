-- ===== src/Inference.antt =====
-- `src/indexer/inference.rs`: the decoders of the AI subnetwork transactions. Strings are their
-- bytes; BLAKE2b and base58 are parameters (`Inference/Response`, `Inference/Identity`).
pub mod Private
pub mod Models
pub mod Identity
pub mod Request
pub mod Response
pub mod Challenge
pub mod Markers
pub mod Scripts
