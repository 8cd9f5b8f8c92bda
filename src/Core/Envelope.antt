-- ===== src/Core/Envelope.antt =====
-- The envelope that an operator writes, before it is compiled: crates/lictor-core/src/envelope.rs.
-- An error names the check that failed; its text, which quotes the values, is not kept.
pub mod Gate
pub mod Checks
pub mod Compile
pub mod Sound
use Prim.Native.String.{String}
use lictor.Prelude.{ℕ, Bool, Option, List}
use lictor.Core.Chunk.{ActionKind}
use lictor.Core.Config.{BrakeModel, ContactLimit, ClampMode, Hysteresis}

pub record EmbodimentManifest (F : Type 0) : Type 0 where
  pub id : String
  pub units : String
  pub action_kind : ActionKind
  pub action_dim : ℕ
  pub pos_dim : ℕ
  pub horizon : ℕ
  pub exec_steps : ℕ
  pub control_hz_num : ℕ
  pub control_hz_den : ℕ
  pub provides_vel : Bool
  pub horizon_ticks : ℕ
  pub norm_center : List F
  pub norm_scale : List F
  pub aux_layout : List String
  pub ext_names : List String

pub record FitRecord (F : Type 0) : Type 0 where
  pub source_run : String
  pub quantile : F
  pub slack : F
  pub n_episodes : ℕ
  pub fitted_utc : String
  pub note : String

pub record SafetyEnvelope (F : Type 0) : Type 0 where
  pub schema : String
  pub envelope_id : String
  pub embodiment : EmbodimentManifest F
  pub box_lo : List F
  pub box_hi : List F
  pub margin : F
  pub v_max : F
  pub a_max : F
  pub j_max : F
  pub reach_max : F
  pub contact : Option (ContactLimit F)
  pub brake : BrakeModel F
  pub clamp_mode : ClampMode
  pub hysteresis : Hysteresis F
  pub tier0_enabled : List String
  pub gate : List String
  pub operators : List String
  pub fit : Option (FitRecord F)
  pub fail_closed : Bool

-- What a failed check was about.
pub data Problem : Type 0 where
  id_empty action_dim_range pos_dim_range dims_differ horizon_range exec_range control_rate
        horizon_ticks_zero norm_length norm_center_not_finite norm_scale_not_positive aux_too_long
        ext_too_long envelope_id_empty not_fail_closed box_length margin_range box_not_finite
        box_empty limit_not_positive contact_range contact_index brake_gains brake_dt brake_substeps
        brake_commit brake_needs_position brake_period brake_needs_velocity hysteresis_window
        warn_margin_range v_stop_range tier0_name contact_missing gate_too_long gate_feature
        operators_too_many operator_key operator_twice fit_quantile fit_slack calib_grid calib_alpha
        calib_mask calib_tau calib_horizon :
      Problem

pub data EnvelopeError : Type 0 where
  invalid : Problem → EnvelopeError
  unsupported_schema : EnvelopeError
