-- ===== src/Receipt.antt =====
-- The crate lictor-receipt: the chains of events, the handoff to an operator and the counts of a
-- receipt (crates/lictor-receipt/src).
pub mod Tick
pub mod Handoff
pub mod Body
pub mod Signed
pub mod Verify
pub mod Ledger
pub mod Curve
