-- ===== src/Fuse/Episode/Latch.antt =====
-- Fault and Terminated are final in an episode (crates/lictor-fuse/src/fsm.rs, rows 1 to 3).
use lictor.Prelude.{◌≡◌, true, List, [], ◌∷◌, All, arith, ap, ◌∙◌}
use lictor.Float.{Float}
use lictor.Core.State.{is_terminal}
use lictor.Core.Config.{FuseConfig}
use lictor.Fuse.Runtime.{FuseRt}
use lictor.Fuse.Fsm.{FsmInput, next}
use lictor.Fuse.Input.{TickInput}
use lictor.Fuse.Decide.{decide}
use lictor.Fuse.Decide.Machine.{machine_tick, machine_state_same, decide_machine, next_state}
use lictor.Fuse.Episode.{run}

module _ {F : Type 0} ⦃fl : Float F⦄ where
  next_terminal :
      (cfg : FuseConfig F) (rt : FuseRt F) (inp : FsmInput)
      → is_terminal rt.state ≡ true
      → is_terminal (next cfg rt inp).1 ≡ true
  unfolding next is_terminal
  next_terminal cfg rt inp h = ground arith

  decide_terminal :
      (cfg : FuseConfig F) (rt : FuseRt F) (inp : TickInput F)
      → is_terminal rt.state ≡ true
      → (is_terminal (decide cfg rt inp).1.state ≡ true)
        × (is_terminal (decide cfg rt inp).0.state ≡ true)
  decide_terminal cfg rt inp h =
      let s = machine_state_same cfg rt inp in
      let m = decide_machine cfg rt inp in
      let e = next_terminal cfg _ (machine_tick cfg rt inp) (ap is_terminal s.state ∙ h) in
      (ap is_terminal m.state ∙ e, ap is_terminal (m.counters.state ∙ next_state cfg _ _) ∙ e)

  -- Once the fuse is in Fault or Terminated, every later verdict of the episode is so too,
  -- whatever the inputs and the acknowledgements are.
  pub run_terminal :
      (cfg : FuseConfig F) (rt : FuseRt F) (inps : List (TickInput F))
      → is_terminal rt.state ≡ true
      → All (λ v. is_terminal v.state ≡ true) (run cfg rt inps).1
  unfolding run
  run_terminal cfg rt [] h = tt
  run_terminal cfg rt (inp ∷ rest) h =
      let (v, s) = decide_terminal cfg rt inp h in
      (v, run_terminal cfg (decide cfg rt inp).0 rest s)
