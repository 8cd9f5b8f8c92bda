-- ===== src/Runtime/Wire.antt =====
-- The messages between the host and the session: crates/lictor-runtime/src/wire.rs. The JSON around
-- them is not modelled; an error names what it complains of in place of its text.
use Prim.Native.String.{String}
use lictor.Prelude.{ℕ, Bool, Option, List}
use lictor.Core.State.{FuseState, FuseMode, ExecMode}
use lictor.Core.Reason.{ReasonCode}
use lictor.Core.Scores.{CalMethod}
use lictor.Core.Chunk.{ChunkError}
use lictor.Core.Verdict.{Status, ActionSource}
use lictor.Receipt.Handoff.{AckToken, AckError, HandoffRecord}
use lictor.Receipt.Body.{Texts, Note, VerdictCounts}

abbrev pub proto_name : String
proto_name = "lictor-wire/v1"

pub record HelloReq : Type 0 where
  pub id : ℕ
  pub proto : String
  pub client : String
  pub mode : FuseMode
  pub embodiment_id : String
  pub action_dim : ℕ
  pub pos_dim : ℕ
  pub horizon : ℕ
  pub exec_steps : ℕ
  pub envelope_digest : String
  pub calibration_digest : Option String

pub record RunMsg : Type 0 where
  pub run_id : String
  pub arm_id : String
  pub episode_index : ℕ
  pub seed : ℕ
  pub seed_pool : String
  pub init_state_digest : String

pub record BudgetMsg : Type 0 where
  pub delay_steps : ℕ
  pub tick_ms : ℕ
  pub exec_mode : ExecMode
  pub stitch : String
  pub on_escalate : String

pub record BindingMsg : Type 0 where
  pub env : Texts
  pub policy : Texts
  pub host : Texts

pub record FaultInjectionMsg : Type 0 where
  pub kind : String
  pub params : Texts
  pub stream_seed : ℕ

pub record EpisodeBeginReq : Type 0 where
  pub id : ℕ
  pub run : RunMsg
  pub budget : BudgetMsg
  pub binding : BindingMsg
  pub fault_injection : Option FaultInjectionMsg
  pub inputs : Texts

-- A JSON null stands for a number that is not finite.
pub record ObsMsg (F : Type 0) : Type 0 where
  pub pos : List (Option F)
  pub vel : Option (List (Option F))
  pub aux : List (Option F)
  pub ext : List (Option F)

pub record ChunkMsg (F : Type 0) : Type 0 where
  pub seq : ℕ
  pub t_emit : ℕ
  pub h : ℕ
  pub d : ℕ
  pub exec : ℕ
  pub a : List (List (Option F))

pub record TickReq (F : Type 0) : Type 0 where
  pub id : ℕ
  pub t : ℕ
  pub idx : ℕ
  pub missed_ticks : ℕ
  pub obs : ObsMsg F
  pub chunk : Option (ChunkMsg F)
  pub ack : Option AckToken

pub record OutcomeMsg (F : Type 0) : Type 0 where
  pub steps : ℕ
  pub success : Bool
  pub terminated : Bool
  pub truncated : Bool
  pub max_coverage : Option F
  pub final_coverage : Option F
  pub reward_sum : Option F
  pub ended_by : String

pub record EpisodeEndReq (F : Type 0) : Type 0 where
  pub id : ℕ
  pub t : ℕ
  pub outcome : OutcomeMsg F

pub data Request (F : Type 0) : Type 0 where
  hello : HelloReq → Request F
  episode_begin : EpisodeBeginReq → Request F
  tick : TickReq F → Request F
  episode_end : EpisodeEndReq F → Request F
  bye : ℕ → Request F

-- What a staged tick may break.
pub data StageError : Type 0 where
  pos_length vel_length aux_length ext_length idx_range chunk_h chunk_d chunk_exec chunk_rows
        chunk_row_length t_emit_later idx_not_age chunk_seq :
      StageError
  buffer : ChunkError → StageError

-- A field of `hello` that differs from what is served.
pub data Mismatch : Type 0 where
  mode_differs embodiment_differs action_dim_differs pos_dim_differs horizon_differs exec_differs
        envelope_differs calibration_differs :
      Mismatch

pub data Code : Type 0 where
  schema envelope state protocol internal : Code

pub data Complaint : Type 0 where
  id_not_greater bad_line hello_in_episode wrong_proto episode_is_open weights_differ
        tick_before_begin end_without_episode ledger_failed sign_failed write_failed :
      Complaint
  mismatched : List Mismatch → Complaint
  staged : StageError → Complaint

pub record ErrorMsg : Type 0 where
  pub id : ℕ
  pub code : Code
  pub complaint : Complaint
  pub fatal : Bool

pub record CalibrationInfo (F : Type 0) : Type 0 where
  pub method : CalMethod
  pub alpha_num : ℕ
  pub alpha_den : ℕ
  pub n_calib : ℕ
  pub tau : F
  pub kn : ℕ × ℕ
  pub gate : List String
  pub digest : String

pub record HelloOk (F : Type 0) : Type 0 where
  pub id : ℕ
  pub proto : String
  pub git : String
  pub lictor_sha256 : String
  pub envelope_digest : String
  pub embodiment_digest : String
  pub calibration_digest : Option String
  pub pubkey : String
  pub ephemeral_key : Bool
  pub mode : FuseMode
  pub tier0_armed : List String
  pub tier1_armed : Bool
  pub calibration : Option (CalibrationInfo F)
  pub features : List String
  pub trip_names : List String
  pub latency_label : String

pub record ScoresMsg (F : Type 0) : Type 0 where
  pub f : List F
  pub z : List F
  pub s : F
  pub valid : ℕ
  pub fired : ℕ

-- The answer to a token.
pub data AckResult : Type 0 where
  accepted : AckResult
  rejected : AckError → AckResult

pub record VerdictMsg (F : Type 0) : Type 0 where
  pub id : ℕ
  pub t : ℕ
  pub seq : ℕ
  pub status : Status
  pub state : FuseState
  pub prev_state : FuseState
  pub trips : List String
  pub trip_mask : ℕ
  pub action : List F
  pub action_src : ActionSource
  pub substituted : Bool
  pub clamped_dims : ℕ
  pub scores : ScoresMsg F
  pub tau : F
  pub window_hits : ℕ
  pub brake_margin : F
  pub reason : ReasonCode
  pub reason_text : String
  pub handoff : Option (HandoffRecord F)
  pub ack_result : Option AckResult
  pub violation_reached_env : Bool
  pub verdict_ns : ℕ
  pub chain : String

pub record EpisodeReceiptMsg : Type 0 where
  pub id : ℕ
  pub receipt_path : String
  pub ticks_path : String
  pub body_digest : String
  pub verdict_chain_head : String
  pub timing_chain_head : String
  pub fuse_ok : Bool
  pub fuse_notes : List Note
  pub counts : VerdictCounts
  pub ledger_seq : ℕ
  pub ledger_head : String

pub data Response (F : Type 0) : Type 0 where
  hello_ok : HelloOk F → Response F
  episode_ok : ℕ → FuseState → ℕ → Response F
  verdict : VerdictMsg F → Response F
  episode_receipt : EpisodeReceiptMsg → Response F
  bye_ok : ℕ → Response F
  error : ErrorMsg → Response F
