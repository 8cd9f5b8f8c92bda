-- ===== src/Fuse/Fsm/Edges.antt =====
-- The diagram of the state machine: crates/lictor-fuse/src/fsm.rs, the table of its rows.
use lictor.Prelude.{◌≡◌, Bool, true, false, ◌&&◌, arith}
use lictor.Float.{Float}
use lictor.Core.State.{
  FuseState, armed, watching, clamped, braking, held, escalated, fault, terminated,
}
use lictor.Core.Config.{FuseConfig}
use lictor.Fuse.Runtime.{FuseRt}
use lictor.Fuse.Fsm.{FsmInput, next}

-- The states in which the policy has control, projected or not.
abbrev pub is_running : FuseState → Bool
is_running armed = true
is_running watching = true
is_running clamped = true
is_running _ = false

-- The edges of the diagram. No edge but those of the Fault row enters or leaves Fault or Idle.
pub data Edge : FuseState → FuseState → Type 0 where
  fails : {s : FuseState} → Edge s fault  -- rows 1, 3 and 14, and Idle
  runs : {s t : FuseState} → is_running s ≡ true → is_running t ≡ true → Edge s t  -- 20 to 23
  brakes : {s : FuseState} → is_running s ≡ true → Edge s braking  -- 17 to 19
  keeps_braking : Edge braking braking  -- 16
  stops : Edge braking held  -- 15
  keeps_held : Edge held held  -- 13
  escalates : Edge held escalated  -- 12
  rearms : Edge held armed  -- 9 and 11
  aborts : Edge held terminated  -- 10
  keeps_escalated : Edge escalated escalated  -- 8
  resumes : Edge escalated armed  -- 6
  ends : Edge escalated terminated  -- 4, 5 and 7
  stays_terminated : Edge terminated terminated  -- 2

-- The same as a test.
abbrev is_edge : FuseState → FuseState → Bool
is_edge s fault = true
is_edge braking braking = true
is_edge braking held = true
is_edge held held = true
is_edge held escalated = true
is_edge held armed = true
is_edge held terminated = true
is_edge escalated escalated = true
is_edge escalated armed = true
is_edge escalated terminated = true
is_edge terminated terminated = true
is_edge s braking = is_running s
is_edge s t = is_running s && is_running t

is_edge-Edge : (s t : FuseState) → is_edge s t ≡ true → Edge s t
is_edge-Edge s fault h = Edge.fails
is_edge-Edge braking braking h = Edge.keeps_braking
is_edge-Edge braking held h = Edge.stops
is_edge-Edge held held h = Edge.keeps_held
is_edge-Edge held escalated h = Edge.escalates
is_edge-Edge held armed h = Edge.rearms
is_edge-Edge held terminated h = Edge.aborts
is_edge-Edge escalated escalated h = Edge.keeps_escalated
is_edge-Edge escalated armed h = Edge.resumes
is_edge-Edge escalated terminated h = Edge.ends
is_edge-Edge terminated terminated h = Edge.stays_terminated
is_edge-Edge s braking h = Edge.brakes (ground arith)
is_edge-Edge s t h = Edge.runs (ground arith) (ground arith)

module _ {F : Type 0} ⦃fl : Float F⦄ where
  next-is_edge :
      (cfg : FuseConfig F) (rt : FuseRt F) (inp : FsmInput)
      → is_edge rt.state (next cfg rt inp).1 ≡ true
  unfolding next
  next-is_edge cfg rt inp = ground arith

  -- Every tick goes along an edge of the diagram, from whatever state and with whatever input.
  pub next-Edge :
      (cfg : FuseConfig F) (rt : FuseRt F) (inp : FsmInput) → Edge rt.state (next cfg rt inp).1
  next-Edge cfg rt inp = is_edge-Edge rt.state (next cfg rt inp).1 (next-is_edge cfg rt inp)
