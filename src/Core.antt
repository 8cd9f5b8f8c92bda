-- ===== src/Core.antt =====
-- The crate lictor-core: data types and integer helpers of the fuse (crates/lictor-core/src).
pub mod State
pub mod Reason
pub mod Trips
pub mod Fmath
pub mod Scores
pub mod Chunk
pub mod Config
pub mod Names
pub mod Envelope
pub mod Verdict
