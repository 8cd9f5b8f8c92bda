-- ===== src/Core/State.antt =====
-- Fuse states and modes (crates/lictor-core/src/state.rs) and operator decisions (ack.rs).
use lictor.Prelude.{ℕ, Bool, true, false}

pub data FuseState : Type 0 where
  idle armed watching clamped braking held escalated fault terminated : FuseState

pub FuseState-discrete : Discrete FuseState
FuseState-discrete = hlevel

unfoldable pub is_stop : FuseState → Bool
is_stop braking = true
is_stop held = true
is_stop escalated = true
is_stop fault = true
is_stop terminated = true
is_stop _ = false

unfoldable pub is_terminal : FuseState → Bool
is_terminal fault = true
is_terminal terminated = true
is_terminal _ = false

pub data FuseMode : Type 0 where
  observe enforce : FuseMode

pub data ExecMode : Type 0 where
  sync async : ExecMode

pub record EpisodeInit : Type 0 where
  pub episode_index : ℕ
  pub seed : ℕ
  pub delay_steps : ℕ
  pub exec : ExecMode

pub data AckDecision : Type 0 where
  resume abort retune : AckDecision

pub record VerifiedAck : Type 0 where
  pub decision : AckDecision
  pub operator_slot : ℕ
  pub nonce : ℕ
  pub handoff_seq : ℕ
