-- ===== src/Command/Verify/Accepted.antt =====
-- What an exit with 0 says: `run_checks` and `Outcome::exit_code` of
-- crates/lictor-cli/src/cmd/verify.rs.
use Prim.Native.String.{String}
use lictor.Prelude.{
  ◌≡◌, ◌≢◌, ◌↔◌, refl, sym, ap, ◌∙◌, inl, inr, Bool, true, false, ◌&&◌, Option, none, some, arith,
  Option-cases, Result, ok, err,
}
use lictor.Receipt.Body.{ReceiptBody}
use lictor.Receipt.Signed.{Signed, intact}
use lictor.Receipt.Verify.{Verifier, verify, is_ephemeral}
use lictor.Receipt.Verify.Intact.{IsIntact, verify-IsIntact}
use lictor.Receipt.Verify.Held.{Held, evaluate_fuse-Held}
use lictor.Command.Verify.{Opts, run_checks, exit_code, passes, is_ok, ledger_head_of}
use lictor.Command.Verify.Companions.{
  CheckFailure, Outside, check_ticks, check_timing, check_ledger, check_curve, check_calibration,
}

-- A companion is not given, or its check succeeds.
abbrev pub Passes {ℓ κ} :
    {A : Type ℓ} {B : Type κ} → Option A → (A → Result CheckFailure B) → Type (ℓ ⊔ κ)
Passes {A = A} {B = B} o check = (a : A) → o ≡ some a → (b : B) × (check a ≡ ok b)

is_ok_iff {ℓ} : {A : Type ℓ} (r : Result CheckFailure A) → (is_ok r ≡ true) ↔ ((a : A) × (r ≡ ok a))
is_ok_iff (ok a) = (λ h. (a, refl), λ h. refl)
is_ok_iff (err e) = (λ h. cc, λ (a, h). cc)

passes_iff {ℓ κ} :
    {A : Type ℓ} {B : Type κ} (o : Option A) (check : A → Result CheckFailure B)
    → (passes o check ≡ true) ↔ Passes o check
passes_iff none check = (λ h a e. cc, λ h. refl)
passes_iff (some a) check = (
  λ h b e.
      let same : a ≡ b = cc in
      let (y, done) = (is_ok_iff (check a)).0 h in (y, ap check (sym same) ∙ done),
  λ h. (is_ok_iff (check a)).1 (h a refl),
)

six_parts :
    (a b c d e f : Bool)
    → ((a && b && c && d && e && f) ≡ true)
      ↔ ((a ≡ true) × (b ≡ true) × (c ≡ true) × (d ≡ true) × (e ≡ true) × (f ≡ true))
six_parts a b c d e f = (λ h. ground arith, λ h. ground arith)

module _ {F : Type 0} (v : Verifier F) (w : Outside F) where
  -- What the command stands for when it exits with 0.
  pub record Vouched (o : Opts F) : Type 0 where
    pub receipt : Signed (ReceiptBody F)
    pub read : o.receipt ≡ some receipt
    pub whole : IsIntact v receipt o.pubkey
    pub flagged : receipt.body.fuse_ok ≡ true
    pub held :
        Held receipt.body.budget receipt.body.counts receipt.body.calibration_digest
          (is_ephemeral receipt.body.fuse_notes)
    pub ticks : Passes o.ticks (check_ticks v receipt)
    pub timing : Passes o.timing (check_timing w receipt)
    pub ledger : Passes o.ledger (check_ledger w receipt)
    pub curve : Passes o.curve (check_curve v w receipt (ledger_head_of v w receipt o))
    pub calibration : Passes o.calibration (check_calibration receipt)

  -- All that the flag `intact` joins.
  abbrev joined : Opts F → Signed (ReceiptBody F) → Bool
  joined o sr =
      intact (verify v sr o.pubkey)
      && passes o.ticks (check_ticks v sr)
      && passes o.timing (check_timing w sr)
      && passes o.ledger (check_ledger w sr)
      && passes o.curve (check_curve v w sr (ledger_head_of v w sr o))
      && passes o.calibration (check_calibration sr)

  exit_parts :
      (o : Opts F) (sr : Signed (ReceiptBody F))
      → o.receipt ≡ some sr
      → (exit_code (run_checks v w o) ≡ 0)
        ↔ ((joined o sr ≡ true) × ((verify v sr o.pubkey).fuse_ok ≡ true))
  unfolding exit_code run_checks
  exit_parts o sr h =
      let outcome = run_checks v w o in
      let same : outcome.intact ≡ joined o sr = rw (h, run_checks) refl in
      let held : outcome.fuse_ok ≡ (joined o sr && (verify v sr o.pubkey).fuse_ok) =
        rw (h, run_checks) refl in
      (λ e. (ground arith, ground arith), λ (a, b). ground arith)

  unread : (o : Opts F) → o.receipt ≡ none → exit_code (run_checks v w o) ≢ 0
  unfolding exit_code run_checks
  unread o h e =
      let broken : (run_checks v w o).intact ≡ false = rw (h, run_checks) refl in ground arith

  fuse_iff :
      (sr : Signed (ReceiptBody F)) (expected : Option String)
      → ((verify v sr expected).fuse_ok ≡ true) ↔ (
          (sr.body.fuse_ok ≡ true)
          × Held sr.body.budget sr.body.counts sr.body.calibration_digest
              (is_ephemeral sr.body.fuse_notes))
  unfolding verify
  fuse_iff sr expected =
      let held =
        evaluate_fuse-Held sr.body.budget sr.body.counts sr.body.calibration_digest
          (is_ephemeral sr.body.fuse_notes) in
      (λ h. (ground arith, held.0 (ground arith)), λ (a, b). let c = held.1 b in ground arith)

  -- The command exits with 0 exactly when the receipt can be read and is intact under the expected
  -- key, both its flag and its own record say that the fuse held, and every companion that was given
  -- passes its check.
  pub run_checks-Vouched : (o : Opts F) → (exit_code (run_checks v w o) ≡ 0) ↔ Vouched o
  run_checks-Vouched o = (
    λ e. elim (Option-cases o.receipt) [
      | inl h ↦ absurd (unread o h e)
      | inr (sr, h) ↦
          let (all, fuse) = (exit_parts o sr h).0 e in
          let (a, b, c, d, k, f) = (six_parts _ _ _ _ _ _).0 all in
          let (flag, held) = (fuse_iff sr o.pubkey).0 fuse in
          record {
            receipt = sr;
            read = h;
            whole = (verify-IsIntact v sr o.pubkey).0 a;
            flagged = flag;
            held = held;
            ticks = (passes_iff o.ticks (check_ticks v sr)).0 b;
            timing = (passes_iff o.timing (check_timing w sr)).0 c;
            ledger = (passes_iff o.ledger (check_ledger w sr)).0 d;
            curve = (passes_iff o.curve (check_curve v w sr (ledger_head_of v w sr o))).0 k;
            calibration = (passes_iff o.calibration (check_calibration sr)).0 f;
          }
    ],
    λ k.
        let sr = k.receipt in
        (exit_parts o sr k.read).1 (
          (six_parts _ _ _ _ _ _).1 (
            (verify-IsIntact v sr o.pubkey).1 k.whole,
            (passes_iff o.ticks (check_ticks v sr)).1 k.ticks,
            (passes_iff o.timing (check_timing w sr)).1 k.timing,
            (passes_iff o.ledger (check_ledger w sr)).1 k.ledger,
            (passes_iff o.curve (check_curve v w sr (ledger_head_of v w sr o))).1 k.curve,
            (passes_iff o.calibration (check_calibration sr)).1 k.calibration,
          ),
          (fuse_iff sr o.pubkey).1 (k.flagged, k.held),
        ),
  )
