-- ===== src/Receipt/Verify.antt =====
-- The verification of an episode's receipt: `check_embedded_ticks` and `verify` of
-- crates/lictor-receipt/src/sign.rs.
pub mod Embedded
pub mod Held
pub mod Intact
pub mod Signing
use Prim.Native.String.{String}
use lictor.Prelude.{
  ℕ, ◌-◌, ◌%◌, ◌^◌, Bool, true, false, not, ◌&&◌, ◌||◌, Option, none, some, List, [], ◌∷◌, ◌++◌,
  map, length, min, if◌then◌else◌, ◌==◌, same_text, Result, ok, err, ◌>>=◌, ◌>>◌, reject_if, or_err,
}
use lictor.Core.Envelope.{SafetyEnvelope}
use lictor.Receipt.Tick.{TickEvent, zero_hash, verify_tick_chain}
use lictor.Receipt.Body.{ReceiptBody, Note, receipt_schema, canonical_id, evaluate_fuse}
use lictor.Receipt.Signed.{
  CanonError, Crypto, Signed, VerifyNote, VerifyReport, from_signature_checks,
}

-- How many ticks a policy embeds of n.
unfoldable pub expected_len : String → ℕ → Option ℕ
expected_len policy n =
    if same_text policy "all"
    then some n
    else if same_text policy "tail32"
    then some (min n 32)
    else if same_text policy "none"
    then some 0
    else none

-- A refusal has its note and the number at which a chain breaks, if it is one.
abbrev pub TicksCheck : Type 0
TicksCheck = Result (VerifyNote × Option ℕ) (Unit {0})

abbrev pub is_ephemeral : List Note → Bool
is_ephemeral [] = false
is_ephemeral (Note.ephemeral_key ∷ notes) = true
is_ephemeral (_ ∷ notes) = is_ephemeral notes

abbrev same_note : Note → Note → Bool
same_note Note.observed Note.observed = true
same_note (Note.violations n) (Note.violations m) = n == m
same_note Note.tier1_uncalibrated Note.tier1_uncalibrated = true
same_note Note.faulted Note.faulted = true
same_note Note.delay_without_exec Note.delay_without_exec = true
same_note Note.ephemeral_key Note.ephemeral_key = true
same_note (Note.other s) (Note.other t) = same_text s t
same_note _ _ = false

abbrev same_notes : List Note → List Note → Bool
same_notes [] [] = true
same_notes (n ∷ ns) (m ∷ ms) = same_note n m && same_notes ns ms
same_notes _ _ = false

abbrev same_flag : Bool → Bool → Bool
same_flag true b = b
same_flag false b = not b

abbrev note_if_not : Bool → VerifyNote → List VerifyNote
note_if_not true n = []
note_if_not false n = n ∷ []

abbrev pub passed : TicksCheck → Bool
passed (ok u) = true
passed (err e) = false

abbrev break_of : TicksCheck → Option ℕ
break_of (ok u) = none
break_of (err (n, at)) = at

abbrev tick_notes : TicksCheck → List VerifyNote
tick_notes (ok u) = []
tick_notes (err (n, at)) = n ∷ []

-- What verification takes from outside: the primitives and the encodings.
pub record Verifier (F : Type 0) : Type 0 where
  pub crypto : Crypto
  pub canonical : ReceiptBody F → Result CanonError (List ℕ)
  pub canon_envelope : SafetyEnvelope F → Result CanonError (List ℕ)
  pub tick_digest : TickEvent F → String

abbrev pub envelope_matches : Crypto → Result CanonError (List ℕ) → String → Bool
envelope_matches c (ok bytes) digest = same_text (c.sha256_hex bytes) digest
envelope_matches c (err e) digest = false

module _ {F : Type 0} where
  abbrev pub last_seq : TickEvent F → List (TickEvent F) → ℕ
  last_seq e [] = e.seq
  last_seq e (d ∷ ds) = last_seq d ds

  module _ (digest_of : TickEvent F → String) where
    -- The embedded ticks, whose number is right.
    unfoldable pub check_listed : ReceiptBody F → List (TickEvent F) → TicksCheck
    check_listed body [] =
        reject_if ((body.verdict_events == 0) && not (same_text body.verdict_chain_head zero_hash))
          (VerifyNote.head_not_genesis, none)
    check_listed body (first ∷ rest) =
        let ticks = first ∷ rest in
        let genesis = if same_text body.ticks_policy "all" then zero_hash else first.prev in
        let report = verify_tick_chain digest_of ticks genesis in
        do
          reject_if (not report.ok) (VerifyNote.chain_breaks report.break_at, report.break_at)
          reject_if
              (same_text body.ticks_policy "tail32"
                && not (first.seq == body.verdict_events - length ticks % 2 ^ 32))
              (VerifyNote.tail_misplaced, some first.seq)
          reject_if (not (same_text report.head body.verdict_chain_head))
              (VerifyNote.head_differs, some (last_seq first rest))

    unfoldable pub check_embedded_ticks : ReceiptBody F → TicksCheck
    unfolding check_listed expected_len
    check_embedded_ticks body = do
      expected ←
          or_err (expected_len body.ticks_policy body.verdict_events)
            (VerifyNote.unknown_policy body.ticks_policy, none)
      reject_if (not (length body.ticks == expected))
          (VerifyNote.embedded_count expected (length body.ticks), none)
      check_listed body body.ticks

  -- counts.ticks == verdict_events == timing_events == outcome.steps.
  abbrev pub counts_agree : ReceiptBody F → Bool
  counts_agree body =
      (body.counts.ticks == body.verdict_events)
      && (body.verdict_events == body.timing_events)
      && (body.timing_events == body.outcome.steps)

  unfoldable pub verify : Verifier F → Signed (ReceiptBody F) → Option String → VerifyReport
  unfolding check_embedded_ticks
  verify v sr expect_pubkey =
      let body = sr.body in
      let schema_ok =
        same_text body.schema receipt_schema && same_text body.canonical canonical_id in
      let (base, notes) =
        from_signature_checks v.crypto schema_ok (v.canonical body) sr.body_digest sr.pubkey sr.sig
          expect_pubkey in
      let envelope_digest_ok =
        envelope_matches v.crypto (v.canon_envelope body.envelope) body.envelope_digest in
      let counts_ok = counts_agree body in
      let ticks = check_embedded_ticks v.tick_digest body in
      let (recomputed_ok, recomputed_notes) =
        evaluate_fuse body.budget body.counts body.calibration_digest
          (is_ephemeral body.fuse_notes) in
      record {
        schema_ok = schema_ok;
        sig_ok = base.sig_ok;
        digest_ok = base.digest_ok;
        ticks_ok = passed ticks;
        pubkey_ok = base.pubkey_ok;
        envelope_digest_ok = envelope_digest_ok;
        counts_ok = counts_ok;
        fuse_ok = recomputed_ok && body.fuse_ok;
        break_at = break_of ticks;
        notes =
            notes
            ++ note_if_not envelope_digest_ok VerifyNote.envelope_differs
            ++ note_if_not counts_ok VerifyNote.counts_disagree
            ++ tick_notes ticks
            ++ note_if_not (same_flag recomputed_ok body.fuse_ok) VerifyNote.flag_differs
            ++ note_if_not (same_notes recomputed_notes body.fuse_notes) VerifyNote.notes_differ
            ++ map VerifyNote.fuse recomputed_notes;
      }
