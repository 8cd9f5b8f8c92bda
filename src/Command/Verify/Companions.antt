-- ===== src/Command/Verify/Companions.antt =====
-- The checks of the companions of a receipt: `check_header`, `check_ticks`, `check_timing`,
-- `check_ledger`, `check_curve` and `check_calibration` of crates/lictor-cli/src/cmd/verify.rs.
use Prim.Native.String.{String}
use lictor.Prelude.{
  same_texts, ℕ, Bool, true, false, not, ◌&&◌, ◌||◌, Option, none, some, List, [], ◌∷◌, ◌++◌,
  if◌then◌else◌, ◌==◌, option, same_text, Result, ok, err, ◌>>=◌, ◌>>◌, reject_if, or_err,
  is_empty_text,
}
use lictor.Receipt.Tick.{
  TickEvent, TimingEvent, ChainReport, zero_hash, verify_tick_chain, verify_timing_chain,
}
use lictor.Receipt.Body.{ReceiptBody, BudgetBinding}
use lictor.Receipt.Signed.{Signed, CanonError, VerifyNote, intact}
use lictor.Receipt.Verify.{Verifier}
use lictor.Receipt.Ledger.{LedgerEntry, verify_ledger}
use lictor.Receipt.Curve.{CurveReceiptBody, verify_curve}

abbrev pub ticks_schema : String
ticks_schema = "lictor-ticks/v1"

abbrev pub ledger_schema : String
ledger_schema = "lictor-ledger/v1"

-- What the checks read of a header line: a missing text reads as the empty one.
pub record FileHeader : Type 0 where
  pub schema : String
  pub run_id : String
  pub arm_id : String
  pub episode_index : Option ℕ
  pub genesis : String

-- What the check reads of calibration.json, with the digest of its content recomputed.
pub record CalibrationJson : Type 0 where
  pub alpha_num : Option ℕ
  pub alpha_den : Option ℕ
  pub gate : List String
  pub kn : List ℕ
  pub digest : String
  pub recomputed : Result CanonError String

pub data HeaderDefect : Type 0 where
  schema_differs run_differs arm_differs episode_differs genesis_differs : HeaderDefect

pub data CalibrationDefect : Type 0 where
  alpha_differs gate_differs kn_differs tier1_disarmed self_digest_differs binds_other binds_none :
      CalibrationDefect
  not_canonicalisable : CanonError → CalibrationDefect

pub data CheckFailure : Type 0 where
  unreadable ledger_schema_unknown entry_missing entry_misplaced curve_of_other curve_head_differs :
      CheckFailure
  header_mismatch : List HeaderDefect → CheckFailure
  broken : Option ℕ → CheckFailure
  events_differ : ℕ → ℕ → CheckFailure
  head_mismatch : String → String → CheckFailure
  tail_differs tail_missing : CheckFailure
  curve_not_intact : List VerifyNote → CheckFailure
  calibration : List CalibrationDefect → CheckFailure

abbrev pub Checked : Type 0
Checked = Result CheckFailure (Unit {0})

-- The digests and the encoding of the companions.
pub record Outside (F : Type 0) : Type 0 where
  pub timing_digest : TimingEvent → String
  pub ledger_digest : LedgerEntry → String
  pub canon_curve : CurveReceiptBody F → Result CanonError (List ℕ)

abbrev defect_unless {ℓ} : {D : Type ℓ} → Bool → D → List D
defect_unless true d = []
defect_unless false d = d ∷ []

abbrev pub is_empty {ℓ} : {A : Type ℓ} → List A → Bool
is_empty [] = true
is_empty (x ∷ xs) = false

abbrev pub same_number : Option ℕ → ℕ → Bool
same_number none n = false
same_number (some m) n = m == n

abbrev same_numbers : List ℕ → List ℕ → Bool
same_numbers [] [] = true
same_numbers (a ∷ as') (b ∷ bs) = (a == b) && same_numbers as' bs
same_numbers _ _ = false

abbrev recomputed_text : Result CanonError String → String
recomputed_text (ok s) = s
recomputed_text (err e) = ""

abbrev canon_defects : Result CanonError String → List CalibrationDefect
canon_defects (ok s) = []
canon_defects (err e) = CalibrationDefect.not_canonicalisable e ∷ []

abbrev binding_defects : Option String → String → List CalibrationDefect
binding_defects none recomputed = CalibrationDefect.binds_none ∷ []
binding_defects (some d) recomputed =
    defect_unless (same_text d recomputed) CalibrationDefect.binds_other

-- The chain of a file, against the number of events and the head that the receipt binds.
unfoldable pub check_report : ChainReport → ℕ → String → Checked
check_report rep n head = do
  reject_if (not rep.ok) (CheckFailure.broken rep.break_at)
  reject_if (not (rep.n == n)) (CheckFailure.events_differ rep.n n)
  reject_if (not (same_text rep.head head)) (CheckFailure.head_mismatch rep.head head)

abbrev pub find_digest : String → List LedgerEntry → Option LedgerEntry
find_digest digest [] = none
find_digest digest (e ∷ es) =
    if same_text e.receipt_digest digest then some e else find_digest digest es

unfoldable pub calibration_defects :
    BudgetBinding → Option String → CalibrationJson → List CalibrationDefect
calibration_defects b bound j =
    let recomputed = recomputed_text j.recomputed in
    defect_unless (same_number j.alpha_num b.alpha_num && same_number j.alpha_den b.alpha_den)
      CalibrationDefect.alpha_differs
    ++ defect_unless (same_texts j.gate b.gate) CalibrationDefect.gate_differs
    ++ defect_unless (same_numbers j.kn (b.kn.0 ∷ (b.kn.1 ∷ []))) CalibrationDefect.kn_differs
    ++ defect_unless b.tier1_armed CalibrationDefect.tier1_disarmed
    ++ canon_defects j.recomputed
    ++ defect_unless (is_empty_text recomputed || same_text recomputed j.digest)
        CalibrationDefect.self_digest_differs
    ++ binding_defects bound recomputed

module _ {F : Type 0} where
  unfoldable pub check_header : FileHeader → Signed (ReceiptBody F) → List HeaderDefect
  check_header h sr =
      let run = sr.body.run in
      defect_unless (same_text h.schema ticks_schema) HeaderDefect.schema_differs
      ++ defect_unless (same_text h.run_id run.run_id) HeaderDefect.run_differs
      ++ defect_unless (same_text h.arm_id run.arm_id) HeaderDefect.arm_differs
      ++ defect_unless (same_number h.episode_index run.episode_index) HeaderDefect.episode_differs
      ++ defect_unless (same_text h.genesis zero_hash) HeaderDefect.genesis_differs

  abbrev pub find_seq : ℕ → List (TickEvent F) → Option (TickEvent F)
  find_seq n [] = none
  find_seq n (e ∷ es) = if e.seq == n then some e else find_seq n es

  -- The embedded tail must start in the file as it does in the receipt.
  unfoldable pub check_tail : List (TickEvent F) → List (TickEvent F) → Checked
  check_tail [] ticks = ok tt
  check_tail (first ∷ rest) ticks =
      or_err (find_seq first.seq ticks) CheckFailure.tail_missing >>= λ e.
      reject_if (not (same_text e.prev first.prev && same_text e.hash first.hash))
        CheckFailure.tail_differs

  unfoldable pub check_ticks :
      Verifier F → Signed (ReceiptBody F) → Option (FileHeader × List (TickEvent F)) → Checked
  unfolding check_header check_report check_tail
  check_ticks v sr file = or_err file CheckFailure.unreadable >>= λ read.
      let (header, ticks) = read in
      do
        reject_if (not (is_empty (check_header header sr)))
            (CheckFailure.header_mismatch (check_header header sr))
        check_report (verify_tick_chain v.tick_digest ticks zero_hash) sr.body.verdict_events
            sr.body.verdict_chain_head
        check_tail sr.body.ticks ticks

  unfoldable pub check_timing :
      Outside F → Signed (ReceiptBody F) → Option (FileHeader × List TimingEvent) → Checked
  unfolding check_header check_report
  check_timing w sr file = or_err file CheckFailure.unreadable >>= λ read.
      let (header, timing) = read in
      do
        reject_if (not (is_empty (check_header header sr)))
            (CheckFailure.header_mismatch (check_header header sr))
        check_report (verify_timing_chain w.timing_digest timing) sr.body.timing_events
            sr.body.timing_chain_head

  -- The entries of the receipt's own run, arm and episode.
  unfoldable pub mine : Signed (ReceiptBody F) → List LedgerEntry → List LedgerEntry
  mine sr [] = []
  mine sr (e ∷ es) =
      let run = sr.body.run in
      let rest = mine sr es in
      if same_text e.run_id run.run_id
        && same_text e.arm_id run.arm_id
        && (e.episode_index == run.episode_index)
      then e ∷ rest
      else rest

  unfoldable pub check_ledger :
      Outside F
      → Signed (ReceiptBody F)
      → Option FileHeader × Option (List LedgerEntry)
      → Result CheckFailure String
  unfolding mine
  check_ledger w sr (header, lines) = do
    h ← or_err header CheckFailure.unreadable
    reject_if (not (same_text h.schema ledger_schema)) CheckFailure.ledger_schema_unknown
    entries ← or_err lines CheckFailure.unreadable
    let rep = verify_ledger w.ledger_digest entries
    reject_if (not rep.chain_ok) (CheckFailure.broken rep.break_at)
    entry ← or_err (find_digest sr.body_digest (mine sr entries)) CheckFailure.entry_missing
    reject_if (not (same_text entry.prev (option sr.body.ledger_prev zero_hash (λ p. p))))
        CheckFailure.entry_misplaced
    ok rep.head

  unfoldable pub check_curve :
      Verifier F
      → Outside F
      → Signed (ReceiptBody F)
      → Option String
      → Option (Signed (CurveReceiptBody F))
      → Checked
  check_curve v w sr ledger_head file = or_err file CheckFailure.unreadable >>= λ sc.
      let rep = verify_curve v.crypto w.canon_curve sc none in
      do
        reject_if (not (intact rep)) (CheckFailure.curve_not_intact rep.notes)
        reject_if
            (not (same_text sc.body.run_id sr.body.run.run_id)
              || not (same_text sc.body.arm_id sr.body.run.arm_id))
            CheckFailure.curve_of_other
        reject_if (option ledger_head false (λ h. not (same_text h sc.body.ledger_head)))
            CheckFailure.curve_head_differs

  unfoldable pub check_calibration : Signed (ReceiptBody F) → Option CalibrationJson → Checked
  unfolding calibration_defects
  check_calibration sr file = or_err file CheckFailure.unreadable >>= λ j.
      let bad = calibration_defects sr.body.budget sr.body.calibration_digest j in
      reject_if (not (is_empty bad)) (CheckFailure.calibration bad)
