-- ===== src/Core/Verdict.antt =====
-- The verdict of a tick: crates/lictor-core/src/verdict.rs.
use lictor.Prelude.{ℕ, Bool, Option, List}
use lictor.Core.State.{FuseState}
use lictor.Core.Reason.{ReasonCode}
use lictor.Core.Scores.{Scores}

-- From the least to the most severe.
pub data Status : Type 0 where
  nominal watching clamped braking held escalated fault terminated : Status

pub data ActionSource : Type 0 where
  policy clamped brake hold : ActionSource

pub record SafetyVerdict (F : Type 0) : Type 0 where
  pub seq : ℕ
  pub t : ℕ
  pub status : Status
  pub state : FuseState
  pub prev_state : FuseState
  pub trips : ℕ
  pub action : List F
  pub action_dim : ℕ
  pub action_src : ActionSource
  pub substituted : Bool
  pub clamped_dims : ℕ
  pub scores : Scores F
  pub tau : F
  pub window : ℕ
  pub window_hits : ℕ
  pub brake_margin : F
  pub reason : ReasonCode
  pub handoff_seq : Option ℕ
  pub ack_consumed : Bool
  pub violation_reached_env : Bool
