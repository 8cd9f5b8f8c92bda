-- ===== src/Lib.antt =====
-- Verification of the lictor safety fuse: the decision path that stands between a learned robot
-- policy and the robot, one call of `decide` per control tick.
--
-- The program's parts. A host delivers a tick (observation, perhaps an action chunk, perhaps an
-- operator's acknowledgement) to `decide` (crates/lictor-fuse/src/fuse.rs). Stage 0 is a fail-closed
-- guard. Stages 1 to 5 take the observation in, check the chunk against the kinematic limits and
-- project it (crates/lictor-detect/src/tier0.rs), check that the robot can still stop (brake.rs),
-- compute features of the actions (tier1.rs), score them against a calibration table (conformal.rs)
-- and shift the score's outcome into a K-of-N window (window.rs). Stage 6 is the escalation state
-- machine (crates/lictor-fuse/src/fsm.rs), stage 7 picks the action, stage 8 keeps the tally
-- (tally.rs). The shared data types are in crates/lictor-core/src. The configuration of `decide` is
-- compiled from the operator's envelope (crates/lictor-core/src/envelope.rs). Around `decide` a session
-- (crates/lictor-runtime/src/session.rs) turns wire messages into ticks, latches faults, checks
-- acknowledgements (crates/lictor-receipt/src/handoff.rs) and chains each verdict and each timing by
-- hashes (crates/lictor-receipt/src/tick.rs) into the receipt of the episode (body.rs). A receipt is
-- signed (sign.rs) and entered into the ledger of its arm (ledger.rs). `lictor verify` checks a receipt
-- with its companion files and `lictor replay` runs a trace of requests again
-- (crates/lictor-cli/src/cmd/verify.rs and replay.rs).
--
-- The files. Each names its source at its top.
--   Prelude      Boolean tests, option and list helpers, machine words and bit masks.
--   Float        f64 as an interface, the documented laws of its comparisons (Float/Laws) and a
--                small model of both (Float/Sample).
--   Core         states, reasons, trip bits, chunks, scores, configuration and verdicts; the crate's
--                scalar helpers are in Core/Fmath, the envelope with its checks, its compilation and
--                what these promise is in Core/Envelope.
--   Detect       the window, the trail of positions, tier 0, tier 1, the brake and the gate.
--   Fuse         the runtime state (Runtime), the state machine (Rows, Fsm), the tally, the guard, stages 1
--                to 5 (Stages), stages 6 to 8 with `decide` (Decide), and episodes (Episode).
--   Receipt      the two chains of events (Tick), handoffs and acknowledgements (Handoff), the body of a
--                receipt (Body), its signature (Signed), its verification (Verify), the ledger (Ledger)
--                and the curve receipt (Curve).
--   Runtime      the messages (Wire), the conversion of a tick request (Staging) and the session (Session):
--                its handlers Tick, Greeting, Episodes, Closing and Handle, and what is proved of them in
--                Latch, Chained, Nonces, Restart, Issued, Bodies and Replayed.
--   Canon        the encodings of f64 as text (F64, crates/lictor-canon/src/f64enc.rs) and the texts of
--                canonical JSON (Jcs, jcs.rs).
--   Command      `lictor verify` (Verify) and `lictor replay` (Replay).
--   Tests        a small configuration, runs, and the theorems at concrete inputs.
-- A struct is a record with its fields, an enum a data type with its variants. A function that
-- mutates an argument returns its new value, first in a tuple with the result. Fixed arrays are lists
-- of the array's length. `Fuse.step` is `decide` on the configuration and the state that the struct
-- owns; an episode, `run`, is a list of ticks.
--
-- Numbers. Unsigned integers are natural numbers; a saturating or wrapping addition is written with
-- its bound (saturating_suc, wrapping_suc_u32), a checked one with Option, a shift of a u64 with
-- `% 2 ^ 64`. A `while` loop is structural recursion on the count of the iterations that remain, so no
-- fuel is needed. f64 is a parameter: nothing is assumed of its arithmetic, and a theorem that needs
-- the order takes the record FloatLaws, which states IEEE 754 comparison (NaN compares false, all
-- else is totally preordered). Float/Sample shows that these laws can hold.
--
-- Parameters. What the session calls besides its own handlers is the record `Host` of
-- Runtime/Session: the digests (SHA-256 of canonical JSON), the signature check, the signed body
-- (sign.rs over crates/lictor-canon/src/jcs.rs, which can refuse a body; Receipt/Signed models the
-- signing, and Runtime/Session/Issued relates the two), the latency histogram
-- (crates/lictor-runtime/src/latency.rs over a library) and the paths (episode.rs). The readings of
-- the clock and the answers of the disk come with each request as a `Reading`. Nothing is assumed
-- of a digest, but where a theorem asks that it tell apart the events that it names. The
-- verification of a receipt takes Ed25519, hexadecimal texts, SHA-256 and the canonical bytes in
-- the records `Crypto`, `Verifier` and `Outside`; that a signature verifies under the key of its
-- seed is the record CryptoLaws. Files are values, `none` when they cannot be read. A map from
-- texts is an association list, and an error names its complaint, not its text.
--
-- Not modelled: the TOML reader of the envelope, the writer of values in canonical JSON
-- (crates/lictor-canon/src/jcs.rs and digest.rs), history and keys, the files and the framing of
-- crates/lictor-runtime, the reading and the writing of the ledger, rendered lines, calibration
-- (crates/lictor-calib, whose fit, curve, sweep and traces are stubs), the command line, and the
-- Python adapters. A slice index out of range, which panics in Rust, reads a default value here;
-- the guard keeps the decision path from such indices.
pub mod Prelude
pub mod Float
pub mod Core
pub mod Detect
pub mod Fuse
pub mod Receipt
pub mod Runtime
pub mod Canon
pub mod Command
pub mod Tests
