-- ===== src/Fuse/Decide/Delivery.antt =====
-- What Observe mode passes on from a chunk that was just delivered
-- (crates/lictor-fuse/src/fuse.rs, stages 2 and 7).
use lictor.Prelude.{◌≡◌, ap, ◌∙◌, false, Option, some, take, min, arith, option}
use lictor.Float.{Float}
use lictor.Core.State.{FuseMode}
use lictor.Core.Chunk.{ChunkView, max_d, copy_at, copy_from, action}
use lictor.Core.Chunk.RoundTrip.{IsFull, view-copy_from}
use lictor.Core.Config.{FuseConfig}
use lictor.Fuse.Runtime.{FuseRt}
use lictor.Fuse.Input.{TickInput, zero_row}
use lictor.Fuse.Stages.{prepare, ingest, tier0, deliver, tier1, shift_window}
use lictor.Fuse.Decide.{decide, candidate_row}
use lictor.Fuse.Decide.Verdicts.{refused, decide-Observed}

module _ {F : Type 0} ⦃fl : Float F⦄ where
  delivered :
      (cfg : FuseConfig F) (rt : FuseRt F) (inp : TickInput F) (ch : ChunkView F)
      → cfg.mode ≡ FuseMode.observe
      → inp.chunk ≡ some ch
      → (tier0 cfg rt inp).0.cur ≡ copy_from rt.cur ch
  unfolding tier0 deliver
  delivered cfg rt inp ch m h = ground arith

  prepare_cur :
      (cfg : FuseConfig F) (rt : FuseRt F) (inp : TickInput F)
      → (prepare cfg rt inp).0.cur ≡ (tier0 cfg (ingest cfg rt inp) inp).0.cur
  unfolding prepare tier1 shift_window
  prepare_cur cfg rt inp = ground arith

  -- On a tick that passes the guard and delivers a full chunk, Observe mode passes on the chunk's row
  -- of that tick as it came, whatever the limits, the projection and the scores say.
  pub observe_passes_raw :
      (cfg : FuseConfig F) (rt : FuseRt F) (inp : TickInput F) (ch : ChunkView F)
      → cfg.mode ≡ FuseMode.observe
      → refused cfg rt inp ≡ false
      → inp.chunk ≡ some ch
      → IsFull ch
      → (decide cfg rt inp).1.action
        ≡ copy_at zero_row 0 (take (min cfg.dim max_d) (action ch inp.idx))
  unfolding candidate_row
  observe_passes_raw cfg rt inp ch m g h full =
      let start = ingest cfg rt inp in
      let cur = prepare_cur cfg rt inp ∙ delivered cfg start inp ch m h in
      (decide-Observed cfg rt inp m g).action
      ∙ ap (λ b. candidate_row cfg b inp.idx) cur
      ∙ ap
          (λ (o : Option (ChunkView F)).
            option o zero_row λ v. copy_at zero_row 0 (take (min cfg.dim max_d) (action v inp.idx)))
          (view-copy_from start.cur ch full)
