-- ===== src/Fuse/Stages.antt =====
-- Stages 1 to 5 of `decide`: ingest, the limits, the features, the score and the window
-- (crates/lictor-fuse/src/fuse.rs).
use lictor.Prelude.{
  ℕ, zero, suc, Bool, true, false, ◌&&◌, not, List, set, take, if◌then◌else◌, ◌==◌, min, has,
  bit_and, bit_or, option, wrapping_suc_u32,
}
use lictor.Float.{Float}
use lictor.Core.Trips
use lictor.Core.Fmath.{at}
use lictor.Core.Scores.{Scores, disarmed_scores, is_armed}
use lictor.Core.Chunk.{ChunkView, max_d, max_pos, copy_at}
use lictor.Core.Chunk
use lictor.Core.Config.{FuseConfig}
use lictor.Detect.Window
use lictor.Detect.Trail
use lictor.Detect.Conformal.{standardise, aggregate, trip}
use lictor.Detect.Brake.{BrakeOut, brake_feasible}
use lictor.Detect.Tier0.{check_chunk, check_action}
use lictor.Detect.Tier1.{features}
use lictor.Fuse.Runtime.{FuseRt}
use lictor.Fuse.Fsm.{is_observe}
use lictor.Fuse.Tally.{record_chunk}
use lictor.Fuse.Input.{TickInput, is_some}

-- What stage 2 finds: the state, trips, moved coordinates and the brake check.
abbrev Found : Type 0 → Type 0
Found F = FuseRt F × ℕ × ℕ × BrakeOut F

-- The state that stages 1 to 5 leave, with the trips, the moved coordinates, the brake check and
-- the scores.
abbrev pub Prepared : Type 0 → Type 0
Prepared F = FuseRt F × ℕ × ℕ × BrakeOut F × Scores F

module _ {F : Type 0} ⦃fl : Float F⦄ where
  open fl use {of_nat, sub, mul, lt, neg_infinity}

  -- n coordinates remain, from c on: the finite difference of the position.
  unfoldable pub velocity_loop : FuseConfig F → FuseRt F → ℕ → ℕ → List F → List F
  velocity_loop cfg rt c zero vel = vel
  velocity_loop cfg rt c (suc n) vel = velocity_loop cfg rt (suc c) n (
      set vel c (
        if rt.have_prev_pos
        then mul (sub (at rt.pos c) (at rt.prev_pos c)) cfg.inv_dt
        else of_nat 0))

  -- Stage 1.
  unfoldable pub ingest : FuseConfig F → FuseRt F → TickInput F → FuseRt F
  ingest cfg rt0 inp =
      let n = min cfg.pos_dim max_pos in
      let rt = record rt0 { prev_pos = rt0.pos; pos = copy_at rt0.pos 0 (take n inp.obs.pos) } in
      let t1 = rt.t1 in
      record rt {
        vel =
            option inp.obs.vel (velocity_loop cfg rt 0 n rt.vel) (λ v. copy_at rt.vel 0 (take n v));
        have_prev_pos = true;
        t1 = record t1 { trail = Trail.push t1.trail rt.pos n };
        last_t = inp.obs.t;
        next_chunk_seq =
            if is_some inp.chunk then wrapping_suc_u32 rt.next_chunk_seq else rt.next_chunk_seq;
      }

  abbrev no_brake : BrakeOut F
  no_brake = record { feasible = false; margin = neg_infinity; stop_dist = of_nat 0 }

  -- The brake bit is added, and the bits that are not armed are taken away.
  abbrev pub armed_trips : FuseConfig F → ℕ → BrakeOut F → ℕ
  armed_trips cfg trips br =
      bit_and (if br.feasible then trips else bit_or trips Trips.brake)
        (bit_or cfg.tier0_enabled Trips.tier0_hard)

  abbrev brake_check : FuseConfig F → FuseRt F → ChunkView F → ℕ → BrakeOut F
  brake_check cfg rt ch idx =
      let n = min cfg.pos_dim max_pos in brake_feasible cfg (take n rt.pos) (take n rt.vel) ch idx

  -- Stage 2 on the tick of a delivery.
  unfoldable pub deliver : FuseConfig F → FuseRt F → TickInput F → ChunkView F → Found F
  deliver cfg rt inp ch =
      let (t0, scratch) = check_chunk cfg inp.obs ch rt.scratch in
      let br = option (Chunk.view scratch) no_brake (λ v. brake_check cfg rt v inp.idx) in
      let trips = armed_trips cfg t0.trips br in
      let cur =
        if is_observe cfg.mode
        then Chunk.copy_from rt.cur ch
        else option (Chunk.view scratch) rt.cur (Chunk.copy_from rt.cur) in
      (
        record rt {
          scratch = scratch;
          cur = cur;
          tally = record_chunk rt.tally (has trips Trips.tier0_hard);
        },
        trips,
        t0.clamped_dims,
        br,
      )

  -- Stage 2 between deliveries.
  unfoldable pub recheck : FuseConfig F → FuseRt F → TickInput F → Found F
  recheck cfg rt inp =
      let scratch =
        if rt.scratch.filled
        then rt.scratch
        else option (Chunk.view rt.cur) rt.scratch (Chunk.copy_from rt.scratch) in
      option (Chunk.view rt.cur)
        (record rt { scratch = scratch }, armed_trips cfg 0 no_brake, 0, no_brake)
        λ cv.
          let (t0, row) =
            check_action cfg inp.obs (take (min cfg.dim max_d) rt.last_cmd)
              (Chunk.action cv inp.idx) (Chunk.row_of scratch inp.idx) in
          let br = brake_check cfg rt cv inp.idx in
          (
            record rt { scratch = Chunk.write_row scratch inp.idx row },
            armed_trips cfg t0.trips br,
            t0.clamped_dims,
            br,
          )

  unfoldable pub tier0 : FuseConfig F → FuseRt F → TickInput F → Found F
  tier0 cfg rt inp = option inp.chunk (recheck cfg rt inp) (deliver cfg rt inp)

  -- Stage 3.
  unfoldable pub tier1 : FuseConfig F → FuseRt F → TickInput F → FuseRt F × Scores F
  tier1 cfg rt inp =
      let (t1, sc) = features cfg rt.t1 inp.obs inp.chunk inp.idx disarmed_scores in
      if is_armed cfg.calib then (record rt { t1 = t1 }, sc) else (rt, disarmed_scores)

  -- Stage 4.
  unfoldable pub conformal : FuseConfig F → ℕ → Scores F → Scores F
  conformal cfg t sc = aggregate cfg.calib (standardise cfg.calib t sc)

  abbrev pub is_warned : FuseConfig F → Scores F → Bool
  is_warned cfg sc = not (trip cfg.calib sc) && lt (sub cfg.calib.tau cfg.hyst.warn_margin) sc.s

  -- Stage 5.
  unfoldable pub shift_window : FuseConfig F → FuseRt F → Scores F → FuseRt F
  shift_window cfg rt sc = record rt {
    window = Window.push rt.window (trip cfg.calib sc) cfg.window_mask;
  }

  unfoldable pub prepare : FuseConfig F → FuseRt F → TickInput F → Prepared F
  prepare cfg rt0 inp =
      let (rt2, trips, moved, br) = tier0 cfg (ingest cfg rt0 inp) inp in
      let (rt3, raw) = tier1 cfg rt2 inp in
      let sc = conformal cfg inp.obs.t raw in
      let rt5 = shift_window cfg rt3 sc in
      (record rt5 { chunk_ok_this_tick = is_some inp.chunk && (trips == 0) }, trips, moved, br, sc)
