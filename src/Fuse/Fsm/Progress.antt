-- ===== src/Fuse/Fsm/Progress.antt =====
-- Every stop of the state machine has a time limit (crates/lictor-fuse/src/fsm.rs): the counters of
-- Braking, Held and Escalated, one tick at a time.
use lictor.Prelude.{ℕ, ◌-◌, ◌≤◌, ◌<◌, ◌≡◌, ◌⊎◌, arith, u16_max, u32_max}
use lictor.Float.{Float}
use lictor.Core.State.{FuseState, armed, braking, held, escalated, fault, terminated}
use lictor.Core.Config.{FuseConfig}
use lictor.Fuse.Runtime.{FuseRt}
use lictor.Fuse.Fsm.{FsmInput, next}

module _ {F : Type 0} ⦃fl : Float F⦄ where
  -- The ticks that a state may still last.
  abbrev pub left : FuseState → FuseConfig F → FuseRt F → ℕ
  left braking cfg rt = cfg.hyst.brake_timeout_ticks - rt.brake_ticks
  left held cfg rt = cfg.hyst.escalate_after_hold_ticks - rt.held_ticks
  left escalated cfg rt = cfg.hyst.handoff_timeout_ticks - rt.escalated_ticks
  left _ cfg rt = 0

  -- A tick in Braking ends it, in Held or Fault, or uses up one of the ticks that are left.
  pub next_braking :
      (cfg : FuseConfig F) (rt : FuseRt F) (inp : FsmInput)
      → rt.state ≡ braking
      → cfg.hyst.brake_timeout_ticks ≤ u16_max
      → ((next cfg rt inp).1 ≡ held)
        ⊎ ((next cfg rt inp).1 ≡ fault)
        ⊎ (((next cfg rt inp).1 ≡ braking)
            × (left braking cfg (next cfg rt inp).0 < left braking cfg rt))
  unfolding next
  next_braking cfg rt inp s h = ground arith

  -- A tick in Held ends it, in Armed, Escalated, Terminated or Fault, or uses up one of the ticks.
  pub next_held :
      (cfg : FuseConfig F) (rt : FuseRt F) (inp : FsmInput)
      → rt.state ≡ held
      → cfg.hyst.escalate_after_hold_ticks ≤ u16_max
      → ((next cfg rt inp).1 ≡ armed)
        ⊎ ((next cfg rt inp).1 ≡ escalated)
        ⊎ ((next cfg rt inp).1 ≡ terminated)
        ⊎ ((next cfg rt inp).1 ≡ fault)
        ⊎ (((next cfg rt inp).1 ≡ held) × (left held cfg (next cfg rt inp).0 < left held cfg rt))
  unfolding next
  next_held cfg rt inp s h = ground arith

  -- A tick in Escalated ends it, in Armed, Terminated or Fault, or uses up one of the ticks.
  pub next_escalated :
      (cfg : FuseConfig F) (rt : FuseRt F) (inp : FsmInput)
      → rt.state ≡ escalated
      → cfg.hyst.handoff_timeout_ticks ≤ u32_max
      → ((next cfg rt inp).1 ≡ armed)
        ⊎ ((next cfg rt inp).1 ≡ terminated)
        ⊎ ((next cfg rt inp).1 ≡ fault)
        ⊎ (((next cfg rt inp).1 ≡ escalated)
            × (left escalated cfg (next cfg rt inp).0 < left escalated cfg rt))
  unfolding next
  next_escalated cfg rt inp s h = ground arith
