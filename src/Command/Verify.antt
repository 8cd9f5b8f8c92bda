-- ===== src/Command/Verify.antt =====
-- `lictor verify`: crates/lictor-cli/src/cmd/verify.rs. What is read of a file is a value, `none` when
-- it cannot be read; the rendered lines are left out, and a failed check names its cause.
pub mod Companions
pub mod Accepted
pub mod Same
use Prim.Native.String.{String}
use lictor.Prelude.{
  ℕ, Bool, true, false, ◌&&◌, Option, none, some, List, [], ◌∷◌, ◌++◌, if◌then◌else◌, option,
  Result, ok, err, lists_text,
}
use lictor.Receipt.Tick.{TickEvent, TimingEvent}
use lictor.Receipt.Body.{ReceiptBody, VerdictCounts}
use lictor.Receipt.Signed.{Signed, VerifyReport, VerifyNote, intact}
use lictor.Receipt.Verify.{Verifier, verify}
use lictor.Receipt.Ledger.{LedgerEntry}
use lictor.Receipt.Curve.{CurveReceiptBody}
use lictor.Command.Verify.Companions.{
  FileHeader, CalibrationJson, CheckFailure, Outside, check_ticks, check_timing, check_ledger,
  check_curve, check_calibration,
}

-- The files that the command is given, as they are read.
pub record Opts (F : Type 0) : Type 0 where
  pub receipt : Option (Signed (ReceiptBody F))
  pub ticks : Option (Option (FileHeader × List (TickEvent F)))
  pub timing : Option (Option (FileHeader × List TimingEvent))
  pub ledger : Option (Option FileHeader × Option (List LedgerEntry))
  pub curve : Option (Option (Signed (CurveReceiptBody F)))
  pub calibration : Option (Option CalibrationJson)
  pub pubkey : Option String

-- A check that ran; the status word says the same as the flag.
pub record Check : Type 0 where
  pub name : String
  pub ok : Bool

-- The embodiment's digest is left out, and what the reader says of a receipt that it cannot read. So
-- are the last notes, which repeat the name of each failed check with the text of its detail.
pub record Outcome : Type 0 where
  pub intact : Bool
  pub fuse_ok : Bool
  pub test_key : Bool
  pub pubkey : String
  pub body_digest : String
  pub envelope_digest : String
  pub calibration_digest : Option String
  pub verdict_chain_head : String
  pub timing_chain_head : String
  pub counts : Option VerdictCounts
  pub checks : List Check
  pub notes : List VerifyNote

unfoldable pub exit_code : Outcome → ℕ
exit_code o = if o.intact && o.fuse_ok then 0 else 1

abbrev pub test_pubkeys : List String
test_pubkeys =
    "03a107bff3ce10be1d70dd18e74bc09967e4d6309ba50d5f1ddc8664125531b8"
    ∷ ("2543b92ff1095511476adc8369db6ddc933665a11978dda1404ee1066ca9559d" ∷ [])

abbrev pub is_ok {ℓ} : {A : Type ℓ} → Result CheckFailure A → Bool
is_ok (ok a) = true
is_ok (err e) = false

-- The check of a companion that was given, under its name.
abbrev pub check_of {ℓ κ} :
    {A : Type ℓ} {B : Type κ} → String → Option A → (A → Result CheckFailure B) → List Check
check_of name none check = []
check_of name (some file) check = record { name = name; ok = is_ok (check file) } ∷ []

-- A companion that was not given passes.
abbrev pub passes {ℓ κ} : {A : Type ℓ} {B : Type κ} → Option A → (A → Result CheckFailure B) → Bool
passes none check = true
passes (some file) check = is_ok (check file)

abbrev checked : String → Bool → Check
checked name b = record { name = name; ok = b }

-- The head of the ledger, for the check of the curve, when the ledger was accepted.
abbrev pub head_of : Result CheckFailure String → Option String
head_of (ok head) = some head
head_of (err e) = none

module _ {F : Type 0} (v : Verifier F) (w : Outside F) where
  abbrev pub ledger_head_of : Signed (ReceiptBody F) → Opts F → Option String
  ledger_head_of sr o = option o.ledger none (λ file. head_of (check_ledger w sr file))

  abbrev pub verdict_chain_ok : VerifyReport → Signed (ReceiptBody F) → Opts F → Bool
  verdict_chain_ok rep sr o = option o.ticks rep.ticks_ok (λ file. is_ok (check_ticks v sr file))

  unfoldable pub run_checks : Opts F → Outcome
  unfolding verify check_ticks check_timing check_ledger check_curve check_calibration
  run_checks o = elim o.receipt [
    | none ↦ record {
      intact = false;
      fuse_ok = false;
      test_key = false;
      pubkey = "";
      body_digest = "";
      envelope_digest = "";
      calibration_digest = none;
      verdict_chain_head = "";
      timing_chain_head = "";
      counts = none;
      checks = checked "schema" false ∷ [];
      notes = [];
    }
    | some sr ↦
        let rep = verify v sr o.pubkey in
        let head = ledger_head_of sr o in
        let all_intact =
          intact rep
          && passes o.ticks (check_ticks v sr)
          && passes o.timing (check_timing w sr)
          && passes o.ledger (check_ledger w sr)
          && passes o.curve (check_curve v w sr head)
          && passes o.calibration (check_calibration sr) in
        record {
          intact = all_intact;
          fuse_ok = all_intact && rep.fuse_ok;
          test_key = lists_text test_pubkeys sr.pubkey;
          pubkey = sr.pubkey;
          body_digest = sr.body_digest;
          envelope_digest = sr.body.envelope_digest;
          calibration_digest = sr.body.calibration_digest;
          verdict_chain_head = sr.body.verdict_chain_head;
          timing_chain_head = sr.body.timing_chain_head;
          counts = some sr.body.counts;
          notes = rep.notes;
          checks =
              (checked "schema" rep.schema_ok ∷ (checked "signature" rep.sig_ok ∷ []))
              ++ option o.pubkey [] (λ key. checked "pubkey" rep.pubkey_ok ∷ [])
              ++ (checked "body digest" rep.digest_ok
                  ∷ (checked "envelope" rep.envelope_digest_ok
                      ∷ (checked "counts" rep.counts_ok ∷ [])))
              ++ (checked "verdict chain" (verdict_chain_ok rep sr o) ∷ [])
              ++ check_of "timing chain" o.timing (check_timing w sr)
              ++ check_of "ledger" o.ledger (check_ledger w sr)
              ++ check_of "curve" o.curve (check_curve v w sr head)
              ++ check_of "calibration" o.calibration (check_calibration sr);
        }
  ]
