-- ===== src/Runtime.antt =====
-- The crate lictor-runtime: the session that serves a host (crates/lictor-runtime/src).
pub mod Wire
pub mod Staging
pub mod Session
