-- ===== src/Fuse/Rows.antt =====
-- The rows of the escalation state machine, one function per group: the match of `transition` in
-- crates/lictor-fuse/src/fsm.rs and the helpers that it calls. A function that mutates the runtime
-- state returns it.
use lictor.Prelude.{
  ℕ, Bool, true, false, ◌&&◌, ◌||◌, not, Option, none, some, get_or, set, if◌then◌else◌, ltb, leb,
  ◌==◌, has, bit_and, bit_or, u8_max, u16_max, u32_max, saturating_suc, wrapping_suc_u32,
}
use lictor.Core.State.{
  FuseState, armed, watching, clamped, braking, held, escalated, fault, terminated, FuseMode,
  AckDecision, resume, abort, retune, VerifiedAck,
}
use lictor.Core.Reason.{ReasonCode}
use lictor.Core.Trips
use lictor.Core.Config.{FuseConfig, Hysteresis, RearmPolicy, max_operators}
use lictor.Detect.Window
use lictor.Fuse.Runtime.{FuseRt}

pub record FsmInput : Type 0 where
  pub trips : ℕ
  pub predictive : Bool
  pub warn : Bool
  pub soft_clampable : Bool
  pub stopped : Bool
  pub chunk_boundary : Bool
  pub chunk_ok : Bool
  pub ack : Option VerifiedAck

abbrev pub fault_bits : ℕ
fault_bits = bit_or (bit_or Trips.nonfinite Trips.schema) Trips.watchdog

-- The runtime state after a transition, the fuse state, the extra trip bits and the reason.
abbrev pub Outcome : Type 0 → Type 0
Outcome F = FuseRt F × FuseState × ℕ × ReasonCode

abbrev is_armed : FuseState → Bool
is_armed armed = true
is_armed _ = false

abbrev pub is_fault : FuseState → Bool
is_fault fault = true
is_fault _ = false

abbrev is_auto : RearmPolicy → Bool
is_auto RearmPolicy.auto = true
is_auto RearmPolicy.ack_only = false

-- The reasons of the rows that apply an acknowledgement.
abbrev pub is_ack_reason : ReasonCode → Bool
is_ack_reason ReasonCode.rearmed_ack = true
is_ack_reason ReasonCode.terminated_abort = true
is_ack_reason ReasonCode.terminated_retune = true
is_ack_reason _ = false

abbrev pub is_observe : FuseMode → Bool
is_observe FuseMode.observe = true
is_observe FuseMode.enforce = false

unfoldable pub fault_reason : ℕ → ReasonCode
fault_reason trips =
    if has trips Trips.nonfinite
    then ReasonCode.fault_non_finite
    else if has trips Trips.schema
    then ReasonCode.fault_schema
    else ReasonCode.fault_watchdog

unfoldable pub clamp_reason : ℕ → ReasonCode
clamp_reason trips =
    if has trips Trips.workspace
    then ReasonCode.clamp_workspace
    else if has trips Trips.speed
    then ReasonCode.clamp_speed
    else if has trips Trips.accel
    then ReasonCode.clamp_accel
    else if has trips Trips.jerk
    then ReasonCode.clamp_jerk
    else if has trips Trips.reach
    then ReasonCode.clamp_reach
    else ReasonCode.clamp_contact

abbrev pub is_clean : FsmInput → Bool
is_clean inp = inp.trips == 0 && not inp.warn && not inp.predictive

module _ {F : Type 0} where
  unfoldable pub accepted_ack : FuseRt F → Option VerifiedAck → Option VerifiedAck
  accepted_ack rt none = none
  accepted_ack rt (some a) =
      if leb max_operators a.operator_slot
      then none
      else if not (a.handoff_seq == rt.handoff_seq)
          || leb a.nonce (get_or rt.last_nonce a.operator_slot 0)
      then none
      else some a

  unfoldable pub enter_braking : FuseRt F → FuseRt F
  enter_braking rt = record rt { brake_ticks = 0; stopped_ticks = 0 }

  unfoldable pub consume_nonce : FuseRt F → VerifiedAck → FuseRt F
  consume_nonce rt a =
      if ltb a.operator_slot max_operators
      then record rt { last_nonce = set rt.last_nonce a.operator_slot a.nonce }
      else rt

  unfoldable pub rearm_ack : FuseRt F → VerifiedAck → FuseRt F
  unfolding consume_nonce Window.clear
  rearm_ack rt0 a =
      let rt = consume_nonce rt0 a in
      record rt {
        rearms = saturating_suc u8_max rt.rearms;
        window = Window.clear rt.window;
        clean_run = 0;
        clamp_streak = 0;
        held_ticks = 0;
        held_clean = 0;
        escalated_ticks = 0;
        handoff_pending = false;
      }

  -- Rows 4 and 10.
  unfoldable pub abort_ack : FuseRt F → VerifiedAck → Outcome F
  unfolding consume_nonce
  abort_ack rt a =
      let rt' = consume_nonce rt a in
      (
        record rt' { handoff_pending = false },
        terminated,
        Trips.operator_abort,
        ReasonCode.terminated_abort,
      )

  -- Rows 6 and 9.
  unfoldable pub resume_ack : FuseRt F → VerifiedAck → Outcome F
  unfolding rearm_ack
  resume_ack rt a = (rearm_ack rt a, armed, 0, ReasonCode.rearmed_ack)

  -- Rows 4 to 6.
  unfoldable pub escalated_ack : AckDecision → FuseRt F → VerifiedAck → Outcome F
  unfolding abort_ack resume_ack
  escalated_ack abort rt a = abort_ack rt a
  escalated_ack retune rt a =
      let rt' = consume_nonce rt a in
      (record rt' { handoff_pending = false }, terminated, 0, ReasonCode.terminated_retune)
  escalated_ack resume rt a = resume_ack rt a

  -- Rows 4 to 8.
  unfoldable pub escalated_rows : Hysteresis F → FuseRt F → Option VerifiedAck → Outcome F
  unfolding escalated_ack
  escalated_rows h rt (some a) = escalated_ack a.decision rt a
  escalated_rows h rt none =
      if leb h.handoff_timeout_ticks rt.escalated_ticks
      then (
        record rt { handoff_pending = false },
        terminated,
        Trips.handoff_timeout,
        ReasonCode.terminated_timeout,
      )
      else (
        record rt { escalated_ticks = saturating_suc u32_max rt.escalated_ticks },
        escalated,
        0,
        ReasonCode.held_standstill,
      )

  -- Row 12: a handoff to a person.
  unfoldable pub hand_off : Hysteresis F → FuseRt F → Bool → Outcome F
  hand_off h rt predictive =
      let rt' = record rt {
        handoff_seq = wrapping_suc_u32 rt.handoff_seq;
        handoff_pending = true;
        escalated_ticks = 0;
      } in
      if leb h.max_rearms rt.rearms
      then (rt', escalated, Trips.rearm_budget, ReasonCode.escalate_rearm_budget)
      else if predictive
      then (rt', escalated, 0, ReasonCode.escalate_tier1_persistent)
      else (rt', escalated, 0, ReasonCode.escalate_hold_timeout)

  -- Rows 11 to 13.
  unfoldable pub held_counters : Hysteresis F → FuseRt F → Bool → FsmInput → Outcome F
  unfolding hand_off Window.clear
  held_counters h rt clean inp =
      if is_auto h.rearm
        && leb h.rearm_hold rt.held_clean
        && inp.chunk_ok
        && ltb rt.rearms h.max_rearms
      then (
        record rt { rearms = saturating_suc u8_max rt.rearms; window = Window.clear rt.window },
        armed,
        0,
        ReasonCode.rearmed_auto,
      )
      else if leb h.escalate_after_hold_ticks rt.held_ticks
      then hand_off h rt inp.predictive
      else (
        record rt {
          held_ticks = saturating_suc u16_max rt.held_ticks;
          held_clean = if clean then saturating_suc u16_max rt.held_clean else 0;
        },
        held,
        0,
        ReasonCode.held_standstill,
      )

  -- Rows 9 to 13; `Retune` is no row here.
  unfoldable pub held_ack :
      AckDecision → Hysteresis F → FuseRt F → Bool → VerifiedAck → FsmInput → Outcome F
  unfolding resume_ack abort_ack held_counters
  held_ack resume h rt clean a inp = resume_ack rt a
  held_ack abort h rt clean a inp = abort_ack rt a
  held_ack retune h rt clean a inp = held_counters h rt clean inp

  unfoldable pub held_rows :
      Hysteresis F → FuseRt F → Bool → Option VerifiedAck → FsmInput → Outcome F
  unfolding held_ack
  held_rows h rt clean (some a) inp = held_ack a.decision h rt clean a inp
  held_rows h rt clean none inp = held_counters h rt clean inp

  -- Rows 22, 23 and the two that stay.
  unfoldable pub quiet_rows : FuseState → FuseMode → FuseRt F → FsmInput → Outcome F
  unfolding Window.hits
  quiet_rows from mode rt inp =
      if inp.warn || leb 1 (Window.hits rt.window)
      then (rt, watching, 0, ReasonCode.watch_band)
      else elim from [
        | armed ↦ (rt, armed, 0, if is_observe mode then ReasonCode.observe_only else ReasonCode.ok)
        | watching ↦ (rt, watching, 0, ReasonCode.watch_band)
        | _ ↦ (rt, clamped, 0, ReasonCode.ok)
      ]

  -- Rows 17 to 23.
  unfoldable pub running_rows : FuseConfig F → FuseState → FuseRt F → FsmInput → Outcome F
  unfolding enter_braking clamp_reason Window.clear quiet_rows
  running_rows cfg from rt inp =
      let soft = bit_and inp.trips Trips.tier0_soft in
      if has inp.trips Trips.brake
      then (enter_braking rt, braking, 0, ReasonCode.brake_infeasible)
      else if not (soft == 0) && not inp.soft_clampable
      then (enter_braking rt, braking, 0, clamp_reason soft)
      else if inp.predictive
      then (enter_braking rt, braking, Trips.tier1_cp, ReasonCode.brake_tier1_cp)
      else if leb cfg.hyst.clamp_streak_to_brake rt.clamp_streak
          || ltb cfg.hyst.max_clamps_per_episode rt.clamps
      then (enter_braking rt, braking, Trips.clamp_budget, ReasonCode.brake_clamp_budget)
      else if not (soft == 0)
      then (
        record rt {
          clamps = saturating_suc u16_max rt.clamps;
          clamp_streak =
              if inp.chunk_boundary then saturating_suc u8_max rt.clamp_streak else rt.clamp_streak;
        },
        clamped,
        0,
        clamp_reason soft,
      )
      else if not (is_armed from) && leb cfg.hyst.clear_ticks rt.clean_run
      then (
        record rt { window = Window.clear rt.window; clamp_streak = 0 },
        armed,
        0,
        ReasonCode.ok,
      )
      else quiet_rows from cfg.mode rt inp
