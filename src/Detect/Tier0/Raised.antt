-- ===== src/Detect/Tier0/Raised.antt =====
-- What the trip bits of the whole-chunk check mean: `check_chunk` of
-- crates/lictor-detect/src/tier0.rs.
use lictor.Prelude.{
  ℕ, zero, suc, ◌-◌, ◌^◌, ◌≡◌, refl, ◌∙◌, Bool, true, false, ◌&&◌, ◌||◌, not, ◌==◌, leb, ltb, List,
  has, bit_or-has, arith, if◌then◌else◌, min, replicate,
}
use lictor.Float.{Float}
use lictor.Core.Trips
use lictor.Core.Fmath.{dist}
use lictor.Core.Chunk.{ChunkView, ChunkBuf, ObsView, max_d}
use lictor.Core.Chunk
use lictor.Core.Config.{FuseConfig}
use lictor.Detect.Tier0.{
  Arm, raise, row, before, step_trips, outside_box, scan_loop, accel_loop, jerk_loop, chunk_trips,
  start_row, live_rows, check_rows, check_chunk, resolve, box_dims,
}

or_assoc : (a b c : Bool) → ((a || b) || c) ≡ (a || (b || c))
or_assoc a b c = ground arith

has-raise :
    (k : ℕ) (b : Bool) (m bit : ℕ)
    → has (raise b m bit) (2 ^ k) ≡ (has m (2 ^ k) || (b && has bit (2 ^ k)))
has-raise k true m bit = bit_or-has k m bit
has-raise k false m bit = ground arith

has-raise_other :
    (k : ℕ) (b : Bool) (m bit : ℕ)
    → has bit (2 ^ k) ≡ false
    → has (raise b m bit) (2 ^ k) ≡ has m (2 ^ k)
has-raise_other k b m bit h = has-raise k b m bit ∙ rw h (ground arith)

module _ {F : Type 0} ⦃fl : Float F⦄ where
  open fl use {of_nat, lt}

  -- One of n rows from row i on is outside the box.
  abbrev pub some_outside : FuseConfig F → ChunkView F → ℕ → ℕ → ℕ → ℕ → Bool
  some_outside cfg ch d nb i zero = false
  some_outside cfg ch d nb i (suc n) =
      outside_box cfg (row ch d i) nb || some_outside cfg ch d nb (suc i) n

  -- One of n rows from row i on is further than a step from the row before it.
  abbrev pub some_far : F → ChunkView F → ℕ → List F → ℕ → ℕ → Bool
  some_far limit ch d q0 i zero = false
  some_far limit ch d q0 i (suc n) =
      lt limit (dist (row ch d i) (before ch d q0 i) d) || some_far limit ch d q0 (suc i) n

  step_workspace :
      (cfg : FuseConfig F) (arm : Arm F) (nb : ℕ) (a : List F) (n : F) (trips : ℕ)
      → has (step_trips cfg arm nb a n trips) Trips.workspace
        ≡ (has trips Trips.workspace || (arm.workspace && outside_box cfg a nb))
  step_workspace cfg arm nb a n trips =
      let t1 = raise (arm.speed && lt cfg.step_max n) trips Trips.speed in
      let t2 = raise (arm.contact && lt arm.step_contact n) t1 Trips.contact in
      ground (
        arith,
        has-raise 0 (arm.workspace && outside_box cfg a nb) t2 Trips.workspace,
        has-raise 0 (arm.contact && lt arm.step_contact n) t1 Trips.contact,
        has-raise 0 (arm.speed && lt cfg.step_max n) trips Trips.speed,
      )

  step_speed :
      (cfg : FuseConfig F) (arm : Arm F) (nb : ℕ) (a : List F) (n : F) (trips : ℕ)
      → has (step_trips cfg arm nb a n trips) Trips.speed
        ≡ (has trips Trips.speed || (arm.speed && lt cfg.step_max n))
  step_speed cfg arm nb a n trips =
      let t1 = raise (arm.speed && lt cfg.step_max n) trips Trips.speed in
      let t2 = raise (arm.contact && lt arm.step_contact n) t1 Trips.contact in
      ground (
        arith,
        has-raise 1 (arm.workspace && outside_box cfg a nb) t2 Trips.workspace,
        has-raise 1 (arm.contact && lt arm.step_contact n) t1 Trips.contact,
        has-raise 1 (arm.speed && lt cfg.step_max n) trips Trips.speed,
      )

  scan_workspace :
      (cfg : FuseConfig F) (arm : Arm F) (ch : ChunkView F) (d nb : ℕ) (q0 : List F) (i n trips : ℕ)
      (peak : F)
      → has (scan_loop cfg arm ch d nb q0 i n trips peak).0 Trips.workspace
        ≡ (has trips Trips.workspace || (arm.workspace && some_outside cfg ch d nb i n))
  unfolding scan_loop
  scan_workspace cfg arm ch d nb q0 i zero trips peak = ground arith
  scan_workspace cfg arm ch d nb q0 i (suc n) trips peak =
      let a = row ch d i in
      let s = dist a (before ch d q0 i) d in
      scan_workspace cfg arm ch d nb q0 (suc i) n (step_trips cfg arm nb a s trips) _
      ∙ ground (arith, step_workspace cfg arm nb a s trips)

  scan_speed :
      (cfg : FuseConfig F) (arm : Arm F) (ch : ChunkView F) (d nb : ℕ) (q0 : List F) (i n trips : ℕ)
      (peak : F)
      → has (scan_loop cfg arm ch d nb q0 i n trips peak).0 Trips.speed
        ≡ (has trips Trips.speed || (arm.speed && some_far cfg.step_max ch d q0 i n))
  unfolding scan_loop
  scan_speed cfg arm ch d nb q0 i zero trips peak = ground arith
  scan_speed cfg arm ch d nb q0 i (suc n) trips peak =
      let a = row ch d i in
      let s = dist a (before ch d q0 i) d in
      scan_speed cfg arm ch d nb q0 (suc i) n (step_trips cfg arm nb a s trips) _
      ∙ ground (arith, step_speed cfg arm nb a s trips)

  -- The loops over the differences raise one bit each and leave the others.
  accel_keeps :
      (cfg : FuseConfig F) (ch : ChunkView F) (d k : ℕ) (q0 : List F) (i n : ℕ) (diff : List F)
      (trips : ℕ)
      → has Trips.accel (2 ^ k) ≡ false
      → has (accel_loop cfg ch d q0 i n diff trips) (2 ^ k) ≡ has trips (2 ^ k)
  unfolding accel_loop
  accel_keeps cfg ch d k q0 i zero diff trips h = refl
  accel_keeps cfg ch d k q0 i (suc n) diff trips h =
      accel_keeps cfg ch d k q0 (suc i) n _ _ h ∙ has-raise_other k _ trips Trips.accel h

  jerk_keeps :
      (cfg : FuseConfig F) (ch : ChunkView F) (d k : ℕ) (q0 : List F) (i n : ℕ) (diff : List F)
      (trips : ℕ)
      → has Trips.jerk (2 ^ k) ≡ false
      → has (jerk_loop cfg ch d q0 i n diff trips) (2 ^ k) ≡ has trips (2 ^ k)
  unfolding jerk_loop
  jerk_keeps cfg ch d k q0 i zero diff trips h = refl
  jerk_keeps cfg ch d k q0 i (suc n) diff trips h =
      jerk_keeps cfg ch d k q0 (suc i) n _ _ h ∙ has-raise_other k _ trips Trips.jerk h

  -- The trips of a chunk with h live rows of d coordinates, nb of which the box bounds.
  chunk_workspace :
      (cfg : FuseConfig F) (obs : ObsView F) (ch : ChunkView F) (arm : Arm F) (d h nb : ℕ)
      → has (chunk_trips cfg obs ch arm d h nb).0 Trips.workspace
        ≡ (arm.workspace && some_outside cfg ch d nb 0 h)
  unfolding chunk_trips
  chunk_workspace cfg obs ch arm d h nb =
      let q0 = start_row ch obs d nb in
      let diff = replicate max_d (of_nat 0) in
      let t1 = (scan_loop cfg arm ch d nb q0 0 h 0 (of_nat 0)).0 in
      let t2 = if arm.accel && leb 2 h then accel_loop cfg ch d q0 0 (h - 1) diff t1 else t1 in
      ground (
        arith,
        scan_workspace cfg arm ch d nb q0 0 h 0 (of_nat 0),
        accel_keeps cfg ch d 0 q0 0 (h - 1) diff t1 refl,
        jerk_keeps cfg ch d 0 q0 0 (h - 2) diff t2 refl,
        has-raise 0 (arm.reach && ltb 0 nb && lt cfg.reach_max (dist (row ch d 0) obs.pos nb))
            (if arm.jerk && leb 3 h then jerk_loop cfg ch d q0 0 (h - 2) diff t2 else t2)
            Trips.reach,
      )

  chunk_speed :
      (cfg : FuseConfig F) (obs : ObsView F) (ch : ChunkView F) (arm : Arm F) (d h nb : ℕ)
      → has (chunk_trips cfg obs ch arm d h nb).0 Trips.speed
        ≡ (arm.speed && some_far cfg.step_max ch d (start_row ch obs d nb) 0 h)
  unfolding chunk_trips
  chunk_speed cfg obs ch arm d h nb =
      let q0 = start_row ch obs d nb in
      let diff = replicate max_d (of_nat 0) in
      let t1 = (scan_loop cfg arm ch d nb q0 0 h 0 (of_nat 0)).0 in
      let t2 = if arm.accel && leb 2 h then accel_loop cfg ch d q0 0 (h - 1) diff t1 else t1 in
      ground (
        arith,
        scan_speed cfg arm ch d nb q0 0 h 0 (of_nat 0),
        accel_keeps cfg ch d 1 q0 0 (h - 1) diff t1 refl,
        jerk_keeps cfg ch d 1 q0 0 (h - 2) diff t2 refl,
        has-raise 1 (arm.reach && ltb 0 nb && lt cfg.reach_max (dist (row ch d 0) obs.pos nb))
            (if arm.jerk && leb 3 h then jerk_loop cfg ch d q0 0 (h - 2) diff t2 else t2)
            Trips.reach,
      )

  check_rows_trips :
      (cfg : FuseConfig F) (obs : ObsView F) (ch : ChunkView F) (d h : ℕ) (out : ChunkBuf F)
      → (check_rows cfg obs ch d h out).0.trips
        ≡ (chunk_trips cfg obs ch (resolve cfg obs) d h (box_dims cfg obs d)).0
  unfolding check_rows
  check_rows_trips cfg obs ch d h out = ground arith

  -- The whole-chunk check raises the workspace bit exactly if that check is armed and some live row
  -- of the raw chunk is outside the box.
  pub check_chunk_workspace :
      (cfg : FuseConfig F) (obs : ObsView F) (ch : ChunkView F) (out : ChunkBuf F)
      → let d = min ch.dim max_d in
        has (check_chunk cfg obs ch out).0.trips Trips.workspace ≡ (
          not (d == 0)
          && has cfg.tier0_enabled Trips.workspace
          && some_outside cfg ch d (box_dims cfg obs d) 0 (live_rows ch d))
  unfolding check_chunk resolve
  check_chunk_workspace cfg obs ch out =
      let d = min ch.dim max_d in
      let h = live_rows ch d in
      ground (
        arith,
        check_rows_trips cfg obs ch d h (Chunk.copy_from out ch),
        chunk_workspace cfg obs ch (resolve cfg obs) d h (box_dims cfg obs d),
      )

  -- It raises the speed bit exactly if that check is armed and some live row is further than the
  -- longest step from the row before it, the position for the first.
  pub check_chunk_speed :
      (cfg : FuseConfig F) (obs : ObsView F) (ch : ChunkView F) (out : ChunkBuf F)
      → let d = min ch.dim max_d in
        has (check_chunk cfg obs ch out).0.trips Trips.speed ≡ (
          not (d == 0)
          && has cfg.tier0_enabled Trips.speed
          && some_far cfg.step_max ch d
              (start_row ch obs d (box_dims cfg obs d))
              0
              (live_rows ch d))
  unfolding check_chunk resolve
  check_chunk_speed cfg obs ch out =
      let d = min ch.dim max_d in
      let h = live_rows ch d in
      ground (
        arith,
        check_rows_trips cfg obs ch d h (Chunk.copy_from out ch),
        chunk_speed cfg obs ch (resolve cfg obs) d h (box_dims cfg obs d),
      )
