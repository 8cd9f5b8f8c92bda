-- ===== src/Canon.antt =====
-- The canonical encoding: crates/lictor-canon/src.
pub mod F64
pub mod Jcs
