-- ===== src/Fuse/Episode/Routes.antt =====
-- The states of an episode's verdicts are a route through the diagram of the state machine
-- (crates/lictor-fuse/src/fsm.rs, fuse.rs).
use lictor.Prelude.{◌≡◌, sym, ◌∙◌, List, [], ◌∷◌}
use mathlib.Core.Path.{subst}
use lictor.Float.{Float}
use lictor.Core.State.{FuseState}
use lictor.Core.Config.{FuseConfig}
use lictor.Core.Verdict.{SafetyVerdict}
use lictor.Fuse.Runtime.{FuseRt}
use lictor.Fuse.Fsm.{next}
use lictor.Fuse.Fsm.Edges.{Edge, next-Edge}
use lictor.Fuse.Input.{TickInput}
use lictor.Fuse.Decide.{decide}
use lictor.Fuse.Decide.Machine.{
  machine_state, machine_tick, machine_state_same, decide_machine, next_state,
}
use lictor.Fuse.Episode.{run}

-- A route from a state through a list of states.
pub data Route : FuseState → List FuseState → Type 0 where
  here : {s : FuseState} → Route s []
  along : {s t : FuseState} {ts : List FuseState} → Edge s t → Route t ts → Route s (t ∷ ts)

module _ {F : Type 0} ⦃fl : Float F⦄ where
  abbrev pub states : List (SafetyVerdict F) → List FuseState
  states [] = []
  states (v ∷ vs) = v.state ∷ states vs

  decide-Edge :
      (cfg : FuseConfig F) (rt : FuseRt F) (inp : TickInput F)
      → Edge rt.state (decide cfg rt inp).1.state
  decide-Edge cfg rt inp =
      let before = machine_state cfg rt inp in
      let e = next-Edge cfg before (machine_tick cfg rt inp) in
      subst (λ t. Edge rt.state t) (sym (decide_machine cfg rt inp).state)
        (subst (λ s. Edge s (next cfg before (machine_tick cfg rt inp)).1)
          (machine_state_same cfg rt inp).state e)

  -- The state that a verdict reports is the one that the fuse keeps.
  decide_state :
      (cfg : FuseConfig F) (rt : FuseRt F) (inp : TickInput F)
      → (decide cfg rt inp).1.state ≡ (decide cfg rt inp).0.state
  decide_state cfg rt inp =
      let m = decide_machine cfg rt inp in m.state ∙ sym (m.counters.state ∙ next_state cfg _ _)

  -- The verdicts of an episode report a route through the diagram that starts at the state before.
  pub run-Route :
      (cfg : FuseConfig F) (rt : FuseRt F) (inps : List (TickInput F))
      → Route rt.state (states (run cfg rt inps).1)
  unfolding run
  run-Route cfg rt [] = Route.here
  run-Route cfg rt (inp ∷ rest) = Route.along (decide-Edge cfg rt inp) (
      subst (λ s. Route s (states (run cfg (decide cfg rt inp).0 rest).1))
        (sym (decide_state cfg rt inp)) (run-Route cfg (decide cfg rt inp).0 rest))
