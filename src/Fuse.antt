-- ===== src/Fuse.antt =====
-- The crate lictor-fuse: the state machine, the tally and `decide` (crates/lictor-fuse/src).
pub mod Runtime
pub mod Rows
pub mod Fsm
pub mod Tally
pub mod Input
pub mod Guard
pub mod Stages
pub mod Decide
pub mod Episode
