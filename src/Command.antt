-- ===== src/Command.antt =====
-- The commands of crates/lictor-cli that check a record or a trace (crates/lictor-cli/src/cmd).
pub mod Verify
pub mod Replay
