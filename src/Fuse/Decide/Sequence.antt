-- ===== src/Fuse/Decide/Sequence.antt =====
-- The numbers of the verdicts: crates/lictor-fuse/src/fuse.rs.
use lictor.Prelude.{◌≡◌, arith, u32_max, saturating_suc}
use lictor.Float.{Float}
use lictor.Core.Config.{FuseConfig}
use lictor.Fuse.Runtime.{FuseRt}
use lictor.Fuse.Fsm.{FsmInput, next}
use lictor.Fuse.Input.{TickInput}
use lictor.Fuse.Stages.{prepare, ingest, tier0, deliver, recheck, tier1, shift_window}
use lictor.Fuse.Guard.{guard}
use lictor.Fuse.Decide.{decide, fault_tick, conclude, machine_input, fault_start, fault_input}

module _ {F : Type 0} ⦃fl : Float F⦄ where
  next_seq :
      (cfg : FuseConfig F) (rt : FuseRt F) (inp : FsmInput) → (next cfg rt inp).0.seq ≡ rt.seq
  unfolding next
  next_seq cfg rt inp = ground arith

  tier0_seq :
      (cfg : FuseConfig F) (rt : FuseRt F) (inp : TickInput F) → (tier0 cfg rt inp).0.seq ≡ rt.seq
  unfolding tier0 deliver recheck
  tier0_seq cfg rt inp = ground arith

  prepare_seq :
      (cfg : FuseConfig F) (rt : FuseRt F) (inp : TickInput F) → (prepare cfg rt inp).0.seq ≡ rt.seq
  unfolding prepare ingest tier1 shift_window
  prepare_seq cfg rt inp = ground (arith, tier0_seq cfg (ingest cfg rt inp) inp)

  -- A verdict carries the number of the tick, which then goes up by one, as far as a u32 goes.
  pub decide_seq :
      (cfg : FuseConfig F) (rt : FuseRt F) (inp : TickInput F)
      → ((decide cfg rt inp).1.seq ≡ rt.seq)
        × ((decide cfg rt inp).0.seq ≡ saturating_suc u32_max rt.seq)
  unfolding decide fault_tick conclude
  decide_seq cfg rt inp = ground (
    arith,
    prepare_seq cfg rt inp,
    next_seq cfg (prepare cfg rt inp).0 (
        machine_input cfg (prepare cfg rt inp).0 inp (prepare cfg rt inp).1 (prepare cfg rt inp).4),
    next_seq cfg (fault_start cfg rt inp) (fault_input cfg inp (guard cfg rt inp)),
  )
