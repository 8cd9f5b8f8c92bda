-- ===== src/Fuse/Episode.antt =====
-- An episode: `Fuse::step` on one tick after the other (crates/lictor-fuse/src/fuse.rs).
pub mod Latch
pub mod Acks
pub mod Budget
pub mod Limits
pub mod Counts
pub mod Routes
pub mod Violations
use lictor.Prelude.{ℕ, List, [], ◌∷◌}
use lictor.Float.{Float}
use lictor.Core.Config.{FuseConfig}
use lictor.Core.Verdict.{SafetyVerdict}
use lictor.Fuse.Runtime.{FuseRt}
use lictor.Fuse.Input.{TickInput}
use lictor.Fuse.Decide.{decide}

module _ {F : Type 0} ⦃fl : Float F⦄ where
  -- The state after the ticks, and their verdicts.
  unfoldable pub run :
      FuseConfig F → FuseRt F → List (TickInput F) → FuseRt F × List (SafetyVerdict F)
  run cfg rt [] = (rt, [])
  run cfg rt (inp ∷ rest) =
      let (rt', v) = decide cfg rt inp in let (last, vs) = run cfg rt' rest in (last, v ∷ vs)
