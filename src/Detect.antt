-- ===== src/Detect.antt =====
-- The crate lictor-detect: windows, limits, brake check, features and conformal score
-- (crates/lictor-detect/src).
pub mod Window
pub mod Trail
pub mod Conformal
pub mod Brake
pub mod Projection
pub mod Tier0
pub mod Tier1
