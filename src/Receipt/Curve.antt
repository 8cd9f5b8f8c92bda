-- ===== src/Receipt/Curve.antt =====
-- The signed curve receipt: crates/lictor-receipt/src/curve.rs. An `F64Hex` is the number that it
-- wraps.
use Prim.Native.String.{String}
use lictor.Prelude.{ℕ, Bool, ◌&&◌, Option, List, same_text, Result}
use lictor.Receipt.Body.{canonical_id}
use lictor.Receipt.Signed.{CanonError, Crypto, Signed, VerifyReport, sign, from_signature_checks}

abbrev pub curve_schema : String
curve_schema = "lictor-curve/v1"

pub record DeltaCi (F : Type 0) : Type 0 where
  pub diff : F
  pub lo : F
  pub hi : F
  pub mcnemar_p : F
  pub mcnemar_b : ℕ
  pub mcnemar_c : ℕ

pub record CurveMetrics (F : Type 0) : Type 0 where
  pub n : ℕ
  pub success_rate : F
  pub success_ci : F × F
  pub averted_rate : F
  pub flagged_rate : F
  pub flagged_ci : F × F
  pub false_trip_rate : F
  pub false_trip_ci : F × F
  pub intervention_rate : F
  pub intervention_tick_frac : F
  pub escalation_rate : F
  pub lead_mean : F
  pub lead_p50 : F
  pub lead_p10 : F
  pub aucpdt : F
  pub roc_auc : F
  pub bacc : F
  pub violations_reached_env : ℕ
  pub delta_vs_baseline : DeltaCi F
  pub delta_vs_latency_control : Option (DeltaCi F)
  pub tce_valid_frac : F
  pub latency_p50_ns : ℕ
  pub latency_p99_ns : ℕ
  pub latency_max_ns : ℕ
  pub latency_label : String
  pub n_fail_baseline : ℕ
  pub n_succ_baseline : ℕ

pub record CurveReceiptBody (F : Type 0) : Type 0 where
  pub schema : String
  pub canonical : String
  pub created_epoch : ℕ
  pub run_id : String
  pub arm_id : String
  pub baseline_arm_id : String
  pub latency_control_arm_id : Option String
  pub ledger_head : String
  pub n_episodes : ℕ
  pub ledger_chain_ok : Bool
  pub arm_config_digest : String
  pub receipt_pubkey : String
  pub run_json_sha256 : String
  pub n_declared : ℕ
  pub n_present : ℕ
  pub n_missing : ℕ
  pub missing_indices : List ℕ
  pub partial : Bool
  pub small_n : Bool
  pub cross_run_mismatches : List ℕ
  pub pair_mismatches : List ℕ
  pub seed_overlap_with_calibration : List ℕ
  pub metrics : CurveMetrics F
  pub eps_prog : F

module _ {F : Type 0} (c : Crypto)
    (canonical : CurveReceiptBody F → Result CanonError (List ℕ)) where
  unfoldable pub sign_curve :
      CurveReceiptBody F → List ℕ → Result CanonError (Signed (CurveReceiptBody F))
  unfolding sign
  sign_curve body seed = sign c canonical body seed

  unfoldable pub verify_curve : Signed (CurveReceiptBody F) → Option String → VerifyReport
  unfolding from_signature_checks
  verify_curve sc expect_pubkey =
      let schema_ok =
        same_text sc.body.schema curve_schema && same_text sc.body.canonical canonical_id in
      let (report, notes) =
        from_signature_checks c schema_ok (canonical sc.body) sc.body_digest sc.pubkey sc.sig
          expect_pubkey in
      record report { notes = notes }
