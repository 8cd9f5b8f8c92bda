-- ===== src/Core/Config.antt =====
-- The compiled configuration that `decide` reads: crates/lictor-core/src/envelope.rs.
use lictor.Prelude.{ℕ, Option, List}
use lictor.Core.State.{FuseMode}
use lictor.Core.Scores.{CalibrationC}
use lictor.Core.Chunk.{ActionKind}

abbrev pub max_operators : ℕ
max_operators = 8

pub data BrakeKind : Type 0 where
  pd_second_order first_order_decay bounded_accel jerk_limited zero_velocity_hold : BrakeKind

pub record BrakeModel (F : Type 0) : Type 0 where
  pub kind : BrakeKind
  pub k_p : F
  pub k_v : F
  pub substeps : ℕ
  pub dt : F
  pub commit_steps : ℕ
  pub brake_steps : ℕ
  pub react_ticks : ℕ

pub record ContactLimit (F : Type 0) : Type 0 where
  pub radius : F
  pub v_max : F
  pub aux_center : ℕ × ℕ

pub data ClampMode : Type 0 where
  off project : ClampMode

pub data RearmPolicy : Type 0 where
  auto ack_only : RearmPolicy

pub record Hysteresis (F : Type 0) : Type 0 where
  pub k : ℕ
  pub n : ℕ
  pub warn_margin : F
  pub clear_ticks : ℕ
  pub clamp_streak_to_brake : ℕ
  pub max_clamps_per_episode : ℕ
  pub stop_confirm_ticks : ℕ
  pub v_stop_eps : F
  pub brake_timeout_ticks : ℕ
  pub rearm : RearmPolicy
  pub rearm_hold : ℕ
  pub max_rearms : ℕ
  pub escalate_after_hold_ticks : ℕ
  pub handoff_timeout_ticks : ℕ
  pub watchdog_ticks : ℕ

pub record FuseConfig (F : Type 0) : Type 0 where
  pub envelope_digest : List ℕ
  pub embodiment_digest : List ℕ
  pub calib_digest : Option (List ℕ)
  pub mode : FuseMode
  pub kind : ActionKind
  pub dim : ℕ
  pub pos_dim : ℕ
  pub horizon : ℕ
  pub exec : ℕ
  pub overlap : ℕ
  pub dt : F
  pub inv_dt : F
  pub inv_dt2 : F
  pub inv_dt3 : F
  pub norm_center : List F
  pub inv_norm_scale : List F
  pub norm_scale_iso : F
  pub box_lo : List F
  pub box_hi : List F
  pub v_max : F
  pub a_max : F
  pub j_max : F
  pub reach_max : F
  pub step_max : F
  pub contact : Option (ContactLimit F)
  pub brake : BrakeModel F
  pub clamp : ClampMode
  pub hyst : Hysteresis F
  pub window_mask : ℕ
  pub tier0_enabled : ℕ
  pub n_operators : ℕ
  pub calib : CalibrationC F
