-- ===== src/Fuse/Fsm.antt =====
-- The escalation state machine: crates/lictor-fuse/src/fsm.rs. A function that mutates the runtime
-- state returns it; `transition` gives the state, the new fuse state, extra trip bits and a reason.
pub mod Safety
pub mod Acks
pub mod Progress
pub mod Edges
pub use lictor.Fuse.Rows.{
  FsmInput, fault_bits, Outcome, is_fault, is_ack_reason, is_observe, is_clean,
}
unfoldable pub use lictor.Fuse.Rows.{
  fault_reason, clamp_reason, accepted_ack, enter_braking, consume_nonce, rearm_ack, abort_ack,
  resume_ack, escalated_ack, escalated_rows, hand_off, held_counters, held_ack, held_rows,
  quiet_rows, running_rows,
}
use lictor.Prelude.{
  ℕ, zero, suc, ◌+◌, Bool, true, false, ◌&&◌, ◌||◌, not, Option, none, some, List, get_or, set,
  if◌then◌else◌, ltb, leb, ◌==◌, min, has, bit_and, bit_or, u8_max, u16_max, u32_max,
  saturating_suc, wrapping_suc_u32,
}
use lictor.Float.{Float}
use lictor.Core.State.{
  FuseState, idle, armed, watching, clamped, braking, held, escalated, fault, terminated, FuseMode,
  AckDecision, resume, abort, retune, VerifiedAck,
}
use lictor.Core.Reason.{ReasonCode}
use lictor.Core.Trips
use lictor.Core.Fmath.{clamp, at}
use lictor.Core.Chunk.{max_pos}
use lictor.Core.Config.{FuseConfig, Hysteresis, RearmPolicy, max_operators}
use lictor.Detect.Window
use lictor.Fuse.Runtime.{FuseRt}

module _ {F : Type 0} ⦃fl : Float F⦄ where
  open fl use {of_nat}

  -- n coordinates remain, from c on.
  unfoldable pub latch_loop : FuseConfig F → List F → ℕ → ℕ → List F → List F
  unfolding clamp
  latch_loop cfg pos c zero hold = hold
  latch_loop cfg pos c (suc n) hold =
      latch_loop cfg pos (suc c) n
        (set hold c (clamp (at pos c) (at cfg.box_lo c) (at cfg.box_hi c)))

  unfoldable pub latch_hold : FuseConfig F → FuseRt F → FuseRt F
  unfolding latch_loop
  latch_hold cfg rt =
      let n = if ltb cfg.pos_dim max_pos then cfg.pos_dim else max_pos in
      record rt { hold = latch_loop cfg rt.pos 0 n rt.hold }

  -- Rows 14 to 16.
  unfoldable pub braking_rows : FuseConfig F → FuseRt F → FsmInput → Outcome F
  unfolding latch_hold
  braking_rows cfg rt inp =
      if leb cfg.hyst.brake_timeout_ticks rt.brake_ticks
      then (latch_hold cfg rt, fault, Trips.brake_timeout, ReasonCode.fault_brake_timeout)
      else if inp.stopped
          && leb cfg.hyst.stop_confirm_ticks (saturating_suc u16_max rt.stopped_ticks)
      then (
        let rt' = latch_hold cfg rt in record rt' { held_ticks = 0; held_clean = 0 },
        held,
        0,
        ReasonCode.held_standstill,
      )
      else (
        record rt {
          brake_ticks = saturating_suc u16_max rt.brake_ticks;
          stopped_ticks = if inp.stopped then saturating_suc u8_max rt.stopped_ticks else 0;
        },
        braking,
        0,
        ReasonCode.stopping,
      )

  -- Rows 2 to 23, by the state that the tick starts in.
  unfoldable pub state_rows :
      FuseState → FuseConfig F → FuseRt F → Bool → Option VerifiedAck → FsmInput → Outcome F
  unfolding escalated_rows held_rows braking_rows running_rows latch_hold
  state_rows terminated cfg rt clean ack inp = (rt, terminated, 0, ReasonCode.held_standstill)
  state_rows fault cfg rt clean ack inp = (rt, fault, 0, ReasonCode.held_standstill)
  state_rows escalated cfg rt clean ack inp = escalated_rows cfg.hyst rt ack
  state_rows held cfg rt clean ack inp = held_rows cfg.hyst rt clean ack inp
  state_rows braking cfg rt clean ack inp = braking_rows cfg rt inp
  state_rows armed cfg rt clean ack inp = running_rows cfg armed rt inp
  state_rows watching cfg rt clean ack inp = running_rows cfg watching rt inp
  state_rows clamped cfg rt clean ack inp = running_rows cfg clamped rt inp
  state_rows idle cfg rt clean ack inp = (latch_hold cfg rt, fault, 0, ReasonCode.fault_internal)

  unfoldable pub transition :
      FuseConfig F → FuseRt F → FuseState → Bool → Option VerifiedAck → FsmInput → Outcome F
  unfolding fault_reason latch_hold state_rows
  transition cfg rt from clean ack inp =
      if has inp.trips fault_bits
      then (if is_fault from then rt else latch_hold cfg rt, fault, 0, fault_reason inp.trips)
      else state_rows from cfg rt clean ack inp

  -- What `next` does before the table: the run of clean ticks.
  abbrev pub count_clean : FuseRt F → FsmInput → FuseRt F
  count_clean rt inp = record rt {
    clean_run = if is_clean inp then saturating_suc u16_max rt.clean_run else 0;
  }

  unfoldable pub next : FuseConfig F → FuseRt F → FsmInput → Outcome F
  unfolding accepted_ack transition
  next cfg rt inp =
      let rt1 = count_clean rt inp in
      let (rt2, state, extra, reason) =
        transition cfg rt1 rt.state (is_clean inp) (accepted_ack rt1 inp.ack) inp in
      (record rt2 { state = state }, state, extra, reason)
