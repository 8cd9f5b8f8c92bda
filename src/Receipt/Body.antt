-- ===== src/Receipt/Body.antt =====
-- The bindings, the counts and the verdict on the record of a receipt:
-- crates/lictor-receipt/src/body.rs. A note is named by its kind, with the number that it quotes.
use Prim.Native.String.{String}
use lictor.Prelude.{
  ℕ, Bool, true, false, ◌&&◌, Option, none, some, List, [], ◌∷◌, ◌++◌, ltb, option, is_empty_text,
}
use lictor.Core.State.{FuseMode, ExecMode, FuseState}
use lictor.Core.Reason.{ReasonCode}
use lictor.Core.Envelope.{SafetyEnvelope}
use lictor.Fuse.Runtime.{Tally}
use lictor.Receipt.Tick.{F64Array, TickEvent}
use lictor.Receipt.Handoff.{HandoffRecord}

abbrev pub receipt_schema : String
receipt_schema = "lictor-receipt/v1"

abbrev pub canonical_id : String
canonical_id = "jcs-floatfree/v1"

-- A map from texts to texts.
abbrev pub Texts : Type 0
Texts = List (String × String)

pub record RunBinding : Type 0 where
  pub run_id : String
  pub arm_id : String
  pub episode_index : ℕ
  pub seed : ℕ
  pub seed_pool : String
  pub init_state_digest : String
  pub env : Texts
  pub policy : Texts
  pub host : Texts

pub record BudgetBinding : Type 0 where
  pub mode : FuseMode
  pub delay_steps : ℕ
  pub tick_ms : ℕ
  pub exec_mode : ExecMode
  pub stitch : String
  pub on_escalate : String
  pub tier0_armed : List String
  pub tier1_armed : Bool
  pub gate : List String
  pub alpha_num : ℕ
  pub alpha_den : ℕ
  pub kn : ℕ × ℕ

pub record FaultBinding : Type 0 where
  pub kind : String
  pub params : Texts
  pub stream_seed : ℕ

pub record VerdictCounts : Type 0 where
  pub ticks : ℕ
  pub nominal : ℕ
  pub watching : ℕ
  pub clamped : ℕ
  pub braking : ℕ
  pub held : ℕ
  pub escalated : ℕ
  pub fault : ℕ
  pub terminated : ℕ
  pub substituted : ℕ
  pub chunks_seen : ℕ
  pub chunks_rejected : ℕ
  pub clamps : ℕ
  pub holds : ℕ
  pub rearms : ℕ
  pub escalations : ℕ
  pub trips_by_bit : List ℕ
  pub fired_by_feat : List ℕ
  pub first_trip_tick : Option ℕ
  pub first_trip_reason : Option String
  pub first_stop_tick : Option ℕ
  pub handoff_tick : Option ℕ
  pub violations_reached_env : ℕ
  pub terminal_state : FuseState

unfoldable pub reason_name : ReasonCode → String
reason_name ReasonCode.ok = "ok"
reason_name ReasonCode.observe_only = "observe_only"
reason_name ReasonCode.watch_band = "watch_band"
reason_name ReasonCode.clamp_workspace = "clamp_workspace"
reason_name ReasonCode.clamp_speed = "clamp_speed"
reason_name ReasonCode.clamp_accel = "clamp_accel"
reason_name ReasonCode.clamp_jerk = "clamp_jerk"
reason_name ReasonCode.clamp_reach = "clamp_reach"
reason_name ReasonCode.clamp_contact = "clamp_contact"
reason_name ReasonCode.brake_infeasible = "brake_infeasible"
reason_name ReasonCode.brake_tier1_cp = "brake_tier1_cp"
reason_name ReasonCode.brake_clamp_budget = "brake_clamp_budget"
reason_name ReasonCode.stopping = "stopping"
reason_name ReasonCode.held_standstill = "held_standstill"
reason_name ReasonCode.escalate_hold_timeout = "escalate_hold_timeout"
reason_name ReasonCode.escalate_rearm_budget = "escalate_rearm_budget"
reason_name ReasonCode.escalate_tier1_persistent = "escalate_tier1_persistent"
reason_name ReasonCode.fault_non_finite = "fault_non_finite"
reason_name ReasonCode.fault_schema = "fault_schema"
reason_name ReasonCode.fault_watchdog = "fault_watchdog"
reason_name ReasonCode.fault_brake_timeout = "fault_brake_timeout"
reason_name ReasonCode.fault_internal = "fault_internal"
reason_name ReasonCode.rearmed_auto = "rearmed_auto"
reason_name ReasonCode.rearmed_ack = "rearmed_ack"
reason_name ReasonCode.terminated_abort = "terminated_abort"
reason_name ReasonCode.terminated_timeout = "terminated_timeout"
reason_name ReasonCode.terminated_retune = "terminated_retune"
reason_name ReasonCode.episode_end = "episode_end"

unfoldable pub counts_of : {F : Type 0} → Tally F → VerdictCounts
counts_of t = record {
  ticks = t.ticks;
  nominal = t.nominal;
  watching = t.watching;
  clamped = t.clamped;
  braking = t.braking;
  held = t.held;
  escalated = t.escalated;
  fault = t.fault;
  terminated = t.terminated;
  substituted = t.substituted;
  chunks_seen = t.chunks_seen;
  chunks_rejected = t.chunks_rejected;
  clamps = t.clamps;
  holds = t.holds;
  rearms = t.rearms;
  escalations = t.escalations;
  trips_by_bit = t.trips_by_bit;
  fired_by_feat = t.fired_by_feat;
  first_trip_tick = t.first_trip_tick;
  first_trip_reason = option t.first_trip_reason none (λ r. some (reason_name r));
  first_stop_tick = t.first_stop_tick;
  handoff_tick = t.handoff_tick;
  violations_reached_env = t.violations_reached_env;
  terminal_state = t.terminal_state;
}

pub data Note : Type 0 where
  observed : Note
  violations : ℕ → Note
  tier1_uncalibrated faulted delay_without_exec ephemeral_key : Note
  other : String → Note  -- any other text, which only a receipt from outside can carry

abbrev pub is_observed : FuseMode → Bool
is_observed FuseMode.observe = true
is_observed _ = false

abbrev pub is_fault : FuseState → Bool
is_fault FuseState.fault = true
is_fault _ = false

unfoldable pub exec_mode_missing : BudgetBinding → Bool
exec_mode_missing b = elim b.exec_mode [ ExecMode.sync ↦ false | ExecMode.async ↦ false ]

abbrev pub note_if : Bool → Note → List Note
note_if true note = note ∷ []
note_if false note = []

abbrev pub is_no_note : List Note → Bool
is_no_note [] = true
is_no_note (n ∷ ns) = false

unfoldable pub evaluate_fuse :
    BudgetBinding → VerdictCounts → Option String → Bool → Bool × List Note
evaluate_fuse budget counts calibration_digest ephemeral =
    let notes =
      note_if (is_observed budget.mode) Note.observed
      ++ note_if (ltb 0 counts.violations_reached_env)
          (Note.violations counts.violations_reached_env)
      ++ note_if (budget.tier1_armed && option calibration_digest true is_empty_text)
          Note.tier1_uncalibrated
      ++ note_if (is_fault counts.terminal_state) Note.faulted
      ++ note_if (ltb 0 budget.delay_steps && exec_mode_missing budget) Note.delay_without_exec
      ++ note_if ephemeral Note.ephemeral_key in
    (is_no_note notes, notes)

pub record EpisodeOutcome (F : Type 0) : Type 0 where
  pub steps : ℕ
  pub success : Bool
  pub terminated : Bool
  pub truncated : Bool
  pub max_coverage : F
  pub final_coverage : F
  pub reward_sum : F
  pub ended_by : String
  pub max_s : F
  pub max_z : F64Array F

pub record LatencySummary : Type 0 where
  pub n : ℕ
  pub p50_ns : ℕ
  pub p90_ns : ℕ
  pub p99_ns : ℕ
  pub p999_ns : ℕ
  pub max_ns : ℕ
  pub label : String

-- The envelope is carried as it is, not as JSON. The version of the program is left out.
pub record ReceiptBody (F : Type 0) : Type 0 where
  pub schema : String
  pub canonical : String
  pub created_epoch : ℕ
  pub lictor_git : String
  pub lictor_sha256 : String
  pub client : String
  pub run : RunBinding
  pub budget : BudgetBinding
  pub fault_injection : Option FaultBinding
  pub envelope : SafetyEnvelope F
  pub envelope_digest : String
  pub calibration_digest : Option String
  pub inputs : Texts
  pub counts : VerdictCounts
  pub outcome : EpisodeOutcome F
  pub handoffs : List (HandoffRecord F)
  pub verdict_events : ℕ
  pub verdict_chain_head : String
  pub timing_events : ℕ
  pub timing_chain_head : String
  pub latency : LatencySummary
  pub ticks_policy : String
  pub ticks : List (TickEvent F)
  pub fuse_ok : Bool
  pub fuse_notes : List Note
  pub ledger_prev : Option String
