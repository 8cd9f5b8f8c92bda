-- ===== src/Fuse/Decide/Machine.antt =====
-- A tick of `decide` is a tick of the state machine: stages 1 to 5 touch none of its state, and the
-- verdict shows its outcome (crates/lictor-fuse/src/fuse.rs).
use lictor.Prelude.{◌≡◌, refl, not, ◌==◌, arith, if◌then◌else◌}
use lictor.Float.{Float}
use lictor.Core.State.{FuseState}
use lictor.Core.Config.{FuseConfig}
use lictor.Core.Verdict.{SafetyVerdict}
use lictor.Fuse.Runtime.{FuseRt}
use lictor.Fuse.Fsm.{FsmInput, Outcome, next}
use lictor.Fuse.Input.{TickInput}
use lictor.Fuse.Guard.{guard}
use lictor.Fuse.Stages.{prepare, ingest, tier0, deliver, recheck, tier1, shift_window}
use lictor.Fuse.Decide.{decide, fault_tick, conclude, fault_start, fault_input, machine_input}

-- The two states agree on all that the state machine counts.
pub record SameCounters {F : Type 0} (a b : FuseRt F) : Type 0 where
  pub state : a.state ≡ b.state
  pub brake_ticks : a.brake_ticks ≡ b.brake_ticks
  pub held_ticks : a.held_ticks ≡ b.held_ticks
  pub escalated_ticks : a.escalated_ticks ≡ b.escalated_ticks
  pub rearms : a.rearms ≡ b.rearms
  pub handoff_seq : a.handoff_seq ≡ b.handoff_seq
  pub last_nonce : a.last_nonce ≡ b.last_nonce

module _ {F : Type 0} ⦃fl : Float F⦄ where
  tier0_same :
      (cfg : FuseConfig F) (rt : FuseRt F) (inp : TickInput F)
      → SameCounters (tier0 cfg rt inp).0 rt
  unfolding tier0 deliver recheck
  tier0_same cfg rt inp = ground arith

  prepare_same :
      (cfg : FuseConfig F) (rt : FuseRt F) (inp : TickInput F)
      → SameCounters (prepare cfg rt inp).0 rt
  unfolding prepare ingest tier1 shift_window
  prepare_same cfg rt inp = ground (arith, tier0_same cfg (ingest cfg rt inp) inp)

  -- The state that a tick hands to the state machine, and the input.
  abbrev pub machine_state : FuseConfig F → FuseRt F → TickInput F → FuseRt F
  machine_state cfg rt inp =
      if not (guard cfg rt inp == 0) then fault_start cfg rt inp else (prepare cfg rt inp).0

  abbrev pub machine_tick : FuseConfig F → FuseRt F → TickInput F → FsmInput
  machine_tick cfg rt inp =
      if not (guard cfg rt inp == 0)
      then fault_input cfg inp (guard cfg rt inp)
      else machine_input cfg (prepare cfg rt inp).0 inp (prepare cfg rt inp).1
          (prepare cfg rt inp).4

  pub machine_state_same :
      (cfg : FuseConfig F) (rt : FuseRt F) (inp : TickInput F)
      → SameCounters (machine_state cfg rt inp) rt
  machine_state_same cfg rt inp = ground (arith, prepare_same cfg rt inp)

  -- What the verdict and the state after a tick take from the state machine's outcome.
  pub record Shows (rt : FuseRt F) (v : SafetyVerdict F) (prev : FuseState) (out : Outcome F)
      : Type 0 where
    pub counters : SameCounters rt out.0
    pub state : v.state ≡ out.1
    pub reason : v.reason ≡ out.3
    pub prev_state : v.prev_state ≡ prev

  pub decide_machine :
      (cfg : FuseConfig F) (rt : FuseRt F) (inp : TickInput F)
      → Shows
          (decide cfg rt inp).0
          (decide cfg rt inp).1
          rt.state
          (next cfg (machine_state cfg rt inp) (machine_tick cfg rt inp))
  unfolding decide fault_tick conclude
  decide_machine cfg rt inp = ground arith

  -- The fuse state that the machine returns is the one that it stores.
  pub next_state :
      (cfg : FuseConfig F) (rt : FuseRt F) (inp : FsmInput)
      → (next cfg rt inp).0.state ≡ (next cfg rt inp).1
  unfolding next
  next_state cfg rt inp = refl
