-- ===== src/Fuse/Fsm/Safety.antt =====
-- Safety of the state machine (crates/lictor-fuse/src/fsm.rs), one tick at a time.
use lictor.Prelude.{
  ◌≤◌, ◌<◌, ◌≡◌, refl, ap, ◌≢◌, ◌⊎◌, inl, inr, Bool, true, false, Option, none, some, get_or, has,
  arith, Bool-cases,
}
use lictor.Float.{Float}
use lictor.Core.State.{
  FuseState, idle, armed, watching, clamped, braking, held, escalated, fault, terminated,
  AckDecision, resume, abort, retune, VerifiedAck, is_stop,
}
use lictor.Core.Config.{FuseConfig, RearmPolicy, max_operators}
use lictor.Fuse.Runtime.{FuseRt}
use lictor.Fuse.Fsm.{
  FsmInput, fault_bits, fault_reason, accepted_ack, count_clean, is_clean, escalated_rows,
  held_rows, held_counters, held_ack, braking_rows, state_rows, transition, next, latch_hold,
}

module _ {F : Type 0} where
  -- An acknowledgement that is accepted answers the pending handoff with a nonce above the last one
  -- used in its operator's slot.
  pub record Fresh (rt : FuseRt F) (a : VerifiedAck) : Type 0 where
    pub slot_in_range : a.operator_slot < max_operators
    pub answers : a.handoff_seq ≡ rt.handoff_seq
    pub unused : get_or rt.last_nonce a.operator_slot 0 < a.nonce

  pub accepted_ack-Fresh :
      (rt : FuseRt F) (given : Option VerifiedAck) {a : VerifiedAck}
      → accepted_ack rt given ≡ some a
      → (given ≡ some a) × Fresh rt a
  unfolding accepted_ack
  accepted_ack-Fresh rt none h = cc
  accepted_ack-Fresh rt (some b) h = ground arith

module _ {F : Type 0} ⦃fl : Float F⦄ where
  -- A tick with a fail-closed bit ends in Fault from every state; the hold setpoint is latched on
  -- entry only, and no extra trip bit is raised.
  pub next-fault_bits :
      (cfg : FuseConfig F) (rt : FuseRt F) (inp : FsmInput)
      → has inp.trips fault_bits ≡ true
      → ((next cfg rt inp).1 ≡ fault)
        × ((next cfg rt inp).2 ≡ 0)
        × ((next cfg rt inp).3 ≡ fault_reason inp.trips)
        × (rt.state ≡ fault → (next cfg rt inp).0.hold ≡ rt.hold)
        × (rt.state ≢ fault → (next cfg rt inp).0.hold ≡ (latch_hold cfg rt).hold)
  unfolding next latch_hold
  next-fault_bits cfg rt inp h = ground arith

  -- How a tick may leave a stop: by the acknowledgement of a person, or by the automatic re-arm.
  pub data Release (cfg : FuseConfig F) (rt : FuseRt F) (inp : FsmInput) : Type 0 where
    by_person :
        (a : VerifiedAck)
        → inp.ack ≡ some a
        → a.decision ≡ resume
        → Fresh rt a
        → (rt.state ≡ held) ⊎ (rt.state ≡ escalated)
        → Release cfg rt inp
    by_itself :
        rt.state ≡ held
        → cfg.hyst.rearm ≡ RearmPolicy.auto
        → cfg.hyst.rearm_hold ≤ rt.held_clean
        → inp.chunk_ok ≡ true
        → rt.rearms < cfg.hyst.max_rearms
        → Release cfg rt inp

  -- The automatic re-arm is enabled.
  abbrev Auto : FuseConfig F → FuseRt F → FsmInput → Type 0
  Auto cfg rt inp =
      (cfg.hyst.rearm ≡ RearmPolicy.auto)
      × (cfg.hyst.rearm_hold ≤ rt.held_clean)
      × (inp.chunk_ok ≡ true)
      × (rt.rearms < cfg.hyst.max_rearms)

  counters_release :
      (cfg : FuseConfig F) (rt : FuseRt F) (clean : Bool) (inp : FsmInput)
      → is_stop (held_counters cfg.hyst rt clean inp).1 ≡ false
      → Auto cfg rt inp
  unfolding held_counters is_stop
  counters_release cfg rt clean inp h = ground arith

  ack_release :
      (d : AckDecision) (cfg : FuseConfig F) (rt : FuseRt F) (clean : Bool) (a : VerifiedAck)
      (inp : FsmInput)
      → is_stop (held_ack d cfg.hyst rt clean a inp).1 ≡ false
      → (d ≡ resume) ⊎ Auto cfg rt inp
  unfolding held_ack is_stop
  ack_release resume cfg rt clean a inp h = inl refl
  ack_release abort cfg rt clean a inp h = cc
  ack_release retune cfg rt clean a inp h = inr (counters_release cfg rt clean inp h)

  -- The tick's runtime state, once the run of clean ticks is counted, and its acknowledgement.
  abbrev counted : FuseRt F → FsmInput → FuseRt F
  counted rt inp = count_clean rt inp

  abbrev given : FuseRt F → FsmInput → Option VerifiedAck
  given rt inp = accepted_ack (count_clean rt inp) inp.ack

  released_by_ack :
      (cfg : FuseConfig F) (rt : FuseRt F) (inp : FsmInput) (a : VerifiedAck)
      → given rt inp ≡ some a
      → a.decision ≡ resume
      → (rt.state ≡ held) ⊎ (rt.state ≡ escalated)
      → Release cfg rt inp
  released_by_ack cfg rt inp a h d s =
      let (e, f) = accepted_ack-Fresh (count_clean rt inp) inp.ack h in
      Release.by_person a e d
        (record { slot_in_range = f.slot_in_range; answers = f.answers; unused = f.unused }) s

  held-Release :
      (cfg : FuseConfig F) (rt : FuseRt F) (inp : FsmInput) (clean : Bool)
      (ack : Option VerifiedAck)
      → rt.state ≡ held
      → given rt inp ≡ ack
      → is_stop (held_rows cfg.hyst (count_clean rt inp) clean ack inp).1 ≡ false
      → Release cfg rt inp
  unfolding held_rows
  held-Release cfg rt inp clean none s g h =
      let (p, q, r, u) = counters_release cfg (count_clean rt inp) clean inp h in
      Release.by_itself s p q r u
  held-Release cfg rt inp clean (some a) s g h =
      elim (ack_release a.decision cfg (count_clean rt inp) clean a inp h) [
        | inl d ↦ released_by_ack cfg rt inp a g d (inl s)
        | inr (p, q, r, u) ↦ Release.by_itself s p q r u
      ]

  escalated-Release :
      (cfg : FuseConfig F) (rt : FuseRt F) (inp : FsmInput) (ack : Option VerifiedAck)
      → rt.state ≡ escalated
      → given rt inp ≡ ack
      → is_stop (escalated_rows cfg.hyst (count_clean rt inp) ack).1 ≡ false
      → Release cfg rt inp
  unfolding escalated_rows is_stop
  escalated-Release cfg rt inp none s g h = absurd (ground arith)
  escalated-Release cfg rt inp (some a) s g h =
      released_by_ack cfg rt inp a g (ground arith) (inr s)

  state-Release :
      (cfg : FuseConfig F) (rt : FuseRt F) (inp : FsmInput) (s : FuseState)
      → rt.state ≡ s
      → is_stop s ≡ true
      → is_stop (state_rows s cfg (count_clean rt inp) (is_clean inp) (given rt inp) inp).1 ≡ false
      → Release cfg rt inp
  unfolding state_rows is_stop
  state-Release cfg rt inp held e h g = held-Release cfg rt inp (is_clean inp) _ e refl g
  state-Release cfg rt inp escalated e h g = escalated-Release cfg rt inp _ e refl g
  state-Release cfg rt inp braking e h g = absurd (unfold braking_rows in ground arith)
  state-Release cfg rt inp terminated e h g = cc
  state-Release cfg rt inp fault e h g = cc
  state-Release cfg rt inp idle e h g = cc
  state-Release cfg rt inp armed e h g = cc
  state-Release cfg rt inp watching e h g = cc
  state-Release cfg rt inp clamped e h g = cc

  -- From a stop (Braking, Held, Escalated, Fault, Terminated) a tick returns control to the policy
  -- only if an operator's fresh Resume answers the pending handoff in Held or Escalated, or if the
  -- automatic re-arm of Held is enabled, ripe, within its budget, and a clean chunk just arrived.
  pub next-Release :
      (cfg : FuseConfig F) (rt : FuseRt F) (inp : FsmInput)
      → is_stop rt.state ≡ true
      → is_stop (next cfg rt inp).1 ≡ false
      → Release cfg rt inp
  unfolding next
  next-Release cfg rt inp h g = elim (Bool-cases (has inp.trips fault_bits)) [
    | inl e ↦ absurd (unfold is_stop in cc (ap is_stop (next-fault_bits cfg rt inp e).0))
    | inr e ↦ state-Release cfg rt inp rt.state refl h (rw (e, transition) at g)
  ]
