-- ===== src/Detect/Tier0.antt =====
-- The checks of chunks and rows against the limits: crates/lictor-detect/src/tier0.rs.
pub mod Raised
pub use lictor.Detect.Projection.{Arm, Proj, is_project, raise, row}
unfoldable pub use lictor.Detect.Projection.{
  box_dims, leash_of, contact_step, resolve, shortest_leash, box_loop, pull_loop, pull, project_row,
  moved_loop, moved_dims, outside_loop, outside_box,
}
use lictor.Prelude.{
  ℕ, zero, suc, ◌+◌, ◌-◌, ◌*◌, ◌/◌, ◌^◌, Bool, true, false, ◌&&◌, ◌||◌, not, Option, none, some,
  List, [], ◌∷◌, length, set, take, drop, replicate, if◌then◌else◌, ltb, leb, ◌==◌, min, has,
  bit_or, option,
}
use lictor.Float.{Float}
use lictor.Core.Fmath.{fmin, fmax, clamp, norm, dist, at}
use lictor.Core.Trips
use lictor.Core.Chunk.{ChunkView, ChunkBuf, ObsView, max_d, max_h, max_pos, copy_at}
use lictor.Core.Chunk
use lictor.Core.Config.{FuseConfig, ContactLimit, ClampMode}

pub record Tier0Out (F : Type 0) : Type 0 where
  pub trips : ℕ
  pub clamped_dims : ℕ
  pub peak_speed : F

module _ {F : Type 0} ⦃fl : Float F⦄ where
  open fl use {of_nat, add, sub, mul, div, lt, le, eq}

  -- The row before row i: q0 before the first.
  abbrev pub before : ChunkView F → ℕ → List F → ℕ → List F
  before ch d q0 zero = q0
  before ch d q0 (suc i) = row ch d i

  -- The trips of one row, in the order of the source.
  abbrev pub step_trips : FuseConfig F → Arm F → ℕ → List F → F → ℕ → ℕ
  step_trips cfg arm nb a n trips =
      raise (arm.workspace && outside_box cfg a nb)
        (raise (arm.contact && lt arm.step_contact n)
          (raise (arm.speed && lt cfg.step_max n) trips Trips.speed) Trips.contact)
        Trips.workspace

  -- n rows remain, from row i on.
  unfoldable pub scan_loop :
      FuseConfig F → Arm F → ChunkView F → ℕ → ℕ → List F → ℕ → ℕ → ℕ → F → ℕ × F
  unfolding dist outside_box fmax
  scan_loop cfg arm ch d nb q0 i zero trips peak = (trips, peak)
  scan_loop cfg arm ch d nb q0 i (suc k) trips peak =
      let a = row ch d i in
      let n = dist a (before ch d q0 i) d in
      scan_loop cfg arm ch d nb q0 (suc i) k (step_trips cfg arm nb a n trips) (fmax peak n)

  -- The second and third differences at row i, coordinate by coordinate.
  unfoldable pub accel_diff : ChunkView F → ℕ → List F → ℕ → ℕ → ℕ → List F → List F
  accel_diff ch d q0 i c zero diff = diff
  accel_diff ch d q0 i c (suc n) diff =
      let a0 = row ch d i in
      let a1 = row ch d (suc i) in
      accel_diff ch d q0 i (suc c) n
        (set diff c (add (sub (at a1 c) (mul (of_nat 2) (at a0 c))) (at (before ch d q0 i) c)))

  unfoldable pub accel_loop : FuseConfig F → ChunkView F → ℕ → List F → ℕ → ℕ → List F → ℕ → ℕ
  unfolding norm accel_diff
  accel_loop cfg ch d q0 i zero diff trips = trips
  accel_loop cfg ch d q0 i (suc k) diff trips =
      let diff' = accel_diff ch d q0 i 0 d diff in
      accel_loop cfg ch d q0 (suc i) k diff'
        (raise (lt cfg.a_max (mul (norm diff' d) cfg.inv_dt2)) trips Trips.accel)

  unfoldable pub jerk_diff : ChunkView F → ℕ → List F → ℕ → ℕ → ℕ → List F → List F
  jerk_diff ch d q0 i c zero diff = diff
  jerk_diff ch d q0 i c (suc n) diff =
      let a0 = row ch d i in
      let a1 = row ch d (suc i) in
      let a2 = row ch d (i + 2) in
      jerk_diff ch d q0 i (suc c) n (
        set diff c (
          sub (add (sub (at a2 c) (mul (of_nat 3) (at a1 c))) (mul (of_nat 3) (at a0 c)))
            (at (before ch d q0 i) c)))

  unfoldable pub jerk_loop : FuseConfig F → ChunkView F → ℕ → List F → ℕ → ℕ → List F → ℕ → ℕ
  unfolding norm jerk_diff
  jerk_loop cfg ch d q0 i zero diff trips = trips
  jerk_loop cfg ch d q0 i (suc k) diff trips =
      let diff' = jerk_diff ch d q0 i 0 d diff in
      jerk_loop cfg ch d q0 (suc i) k diff'
        (raise (lt cfg.j_max (mul (norm diff' d) cfg.inv_dt3)) trips Trips.jerk)

  -- n rows remain, from row i on; q is the projected row before and `a` the row buffer.
  unfoldable pub project_loop :
      Proj F → ChunkView F → ℕ → ℕ → List F → List F → ℕ → ChunkBuf F → ℕ × ChunkBuf F
  unfolding project_row moved_dims Chunk.write_row
  project_loop pr ch i zero q a moved out = (moved, out)
  project_loop pr ch i (suc k) q a moved out =
      let raw = row ch pr.d i in
      let a' = project_row pr (i == 0) q (copy_at a 0 raw) in
      project_loop pr ch (suc i) k a' a' (bit_or moved (moved_dims raw a' pr.d))
        (Chunk.write_row out i (take pr.d a'))

  -- The position where the frames coincide, the first row beyond.
  abbrev pub start_row : ChunkView F → ObsView F → ℕ → ℕ → List F
  start_row ch obs d nb =
      copy_at (copy_at (replicate max_d (of_nat 0)) 0 (row ch d 0)) 0 (take nb obs.pos)

  unfoldable pub chunk_trips : FuseConfig F → ObsView F → ChunkView F → Arm F → ℕ → ℕ → ℕ → ℕ × F
  unfolding scan_loop accel_loop jerk_loop dist
  chunk_trips cfg obs ch arm d h nb =
      let q0 = start_row ch obs d nb in
      let (t1, peak) = scan_loop cfg arm ch d nb q0 0 h 0 (of_nat 0) in
      let diff = replicate max_d (of_nat 0) in
      let t2 = if arm.accel && leb 2 h then accel_loop cfg ch d q0 0 (h - 1) diff t1 else t1 in
      let t3 = if arm.jerk && leb 3 h then jerk_loop cfg ch d q0 0 (h - 2) diff t2 else t2 in
      (
        raise (arm.reach && ltb 0 nb && lt cfg.reach_max (dist (row ch d 0) obs.pos nb)) t3
            Trips.reach,
        peak,
      )

  abbrev no_trips : Tier0Out F
  no_trips = record { trips = 0; clamped_dims = 0; peak_speed = of_nat 0 }

  abbrev pub live_rows : ChunkView F → ℕ → ℕ
  live_rows ch d = min (min ch.horizon max_h) (length ch.rows / d)

  -- The whole-chunk check of a chunk with h live rows of d entries, projected into `out`.
  unfoldable pub check_rows :
      FuseConfig F → ObsView F → ChunkView F → ℕ → ℕ → ChunkBuf F → Tier0Out F × ChunkBuf F
  unfolding box_dims resolve shortest_leash chunk_trips project_loop
  check_rows cfg obs ch d h out =
      let nb = box_dims cfg obs d in
      let arm = resolve cfg obs in
      let (trips, peak) = chunk_trips cfg obs ch arm d h nb in
      let res : Tier0Out F = record {
        trips = trips;
        clamped_dims = 0;
        peak_speed = mul peak cfg.inv_dt;
      } in
      if not (is_project cfg.clamp)
      then (res, out)
      else let pr : Proj F = record {
        cfg = cfg;
        pos = obs.pos;
        arm = arm;
        leash = shortest_leash arm cfg.step_max;
        nb = nb;
        d = d;
      } in
        let (moved, out') =
          project_loop pr ch 0 h (start_row ch obs d nb) (replicate max_d (of_nat 0)) 0 out in
        (record { trips = trips; clamped_dims = moved; peak_speed = mul peak cfg.inv_dt }, out')

  unfoldable pub check_chunk :
      FuseConfig F → ObsView F → ChunkView F → ChunkBuf F → Tier0Out F × ChunkBuf F
  unfolding Chunk.copy_from check_rows
  check_chunk cfg obs ch out0 =
      let out = Chunk.copy_from out0 ch in
      let d = min ch.dim max_d in
      let h = live_rows ch d in
      if d == 0
      then (no_trips, out)
      else if h == 0
      then (no_trips, out)
      else check_rows cfg obs ch d h out

  -- The intra-chunk check of one committed row against its predecessor; the row that `out` gets.
  unfoldable pub check_action :
      FuseConfig F → ObsView F → List F → List F → List F → Tier0Out F × List F
  unfolding box_dims resolve shortest_leash outside_box project_row moved_dims dist
  check_action cfg obs prev a out =
      let d = min (min cfg.dim max_d) (min (length a) (min (length prev) (length out))) in
      let nb = box_dims cfg obs d in
      let arm = resolve cfg obs in
      let n = dist a prev d in
      let trips =
        raise (arm.reach && ltb 0 nb && lt cfg.reach_max (dist a obs.pos nb))
          (step_trips cfg arm nb a n 0) Trips.reach in
      let q = copy_at (replicate max_d (of_nat 0)) 0 (take d prev) in
      let p = copy_at (replicate max_d (of_nat 0)) 0 (take d a) in
      let pr : Proj F = record {
        cfg = cfg;
        pos = obs.pos;
        arm = arm;
        leash = shortest_leash arm cfg.step_max;
        nb = nb;
        d = d;
      } in
      let p' = if is_project cfg.clamp then project_row pr true q p else p in
      let moved = if is_project cfg.clamp then moved_dims a p' d else 0 in
      if d == 0 then (no_trips, out) else (
        record { trips = trips; clamped_dims = moved; peak_speed = mul n cfg.inv_dt },
        copy_at out 0 (take d p'),
      )
