-- ===== src/Fuse/Input.antt =====
-- The input of a tick and what the fuse shows of its state: crates/lictor-fuse/src/fuse.rs.
use lictor.Prelude.{ℕ, Bool, true, false, Option, none, some, List, replicate}
use lictor.Float.{Float}
use lictor.Core.State.{
  FuseState, idle, armed, watching, clamped, braking, held, escalated, fault, terminated,
  VerifiedAck,
}
use lictor.Core.Chunk.{ChunkView, ObsView, max_d}
use lictor.Core.Verdict.{Status, ActionSource}

pub record TickInput (F : Type 0) : Type 0 where
  pub obs : ObsView F
  pub chunk : Option (ChunkView F)
  pub idx : ℕ
  pub missed_ticks : ℕ
  pub ack : Option VerifiedAck
  pub schema_fault : Bool

unfoldable pub status_of : FuseState → Status
status_of idle = Status.nominal
status_of armed = Status.nominal
status_of watching = Status.watching
status_of clamped = Status.clamped
status_of braking = Status.braking
status_of held = Status.held
status_of escalated = Status.escalated
status_of fault = Status.fault
status_of terminated = Status.terminated

unfoldable pub source_of : FuseState → ActionSource
source_of armed = ActionSource.policy
source_of watching = ActionSource.policy
source_of clamped = ActionSource.clamped
source_of braking = ActionSource.brake
source_of _ = ActionSource.hold

abbrev pub is_policy : ActionSource → Bool
is_policy ActionSource.policy = true
is_policy _ = false

abbrev pub is_some {ℓ} : {A : Type ℓ} → Option A → Bool
is_some none = false
is_some (some a) = true

module _ {F : Type 0} ⦃fl : Float F⦄ where
  open fl use {of_nat}

  -- A row of zeros.
  abbrev pub zero_row : List F
  zero_row = replicate max_d (of_nat 0)
