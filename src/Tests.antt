-- ===== src/Tests.antt =====
-- Runs of the definitions at concrete inputs, and the theorems at inputs that meet their hypotheses.
mod Setup
mod Machine
mod Episodes
mod Detection
mod Actions
mod Envelopes
mod Receipts
mod Sessions
mod Records
mod Replays
mod Encodings
