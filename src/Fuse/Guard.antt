-- ===== src/Fuse/Guard.antt =====
-- Stage 0 of `decide`, the fail-closed guard: crates/lictor-fuse/src/fuse.rs.
use lictor.Prelude.{
  ℕ, ◌+◌, ◌-◌, ◌*◌, Bool, true, false, ◌||◌, not, Option, none, some, length, if◌then◌else◌, ltb,
  leb, ◌==◌, bit_or, option, u32_max,
}
use lictor.Float.{Float}
use lictor.Core.Trips
use lictor.Core.Fmath.{all_finite}
use lictor.Core.Chunk.{ChunkView, max_aux, max_ext, chunk_all_finite}
use lictor.Core.Config.{FuseConfig}
use lictor.Fuse.Runtime.{FuseRt}
use lictor.Fuse.Input.{TickInput}

-- A u32 sum, `none` on overflow.
abbrev checked_add : ℕ → ℕ → Option ℕ
checked_add a b = if leb (a + b) u32_max then some (a + b) else none

module _ {F : Type 0} ⦃fl : Float F⦄ where
  -- Is a number anywhere in the observation or the delivered chunk not finite?
  unfoldable pub nonfinite_input : TickInput F → Bool
  unfolding all_finite chunk_all_finite
  nonfinite_input inp =
      not (all_finite inp.obs.pos)
      || option inp.obs.vel false (λ v. not (all_finite v))
      || not (all_finite inp.obs.aux)
      || not (all_finite inp.obs.ext)
      || option inp.chunk false (λ c. not (chunk_all_finite c))

  -- Does a delivered chunk break the shape or the continuity that the episode demands?
  unfoldable pub bad_chunk : FuseConfig F → FuseRt F → TickInput F → ChunkView F → Bool
  bad_chunk cfg rt inp c =
      not (c.dim == cfg.dim)
      || not (c.horizon == cfg.horizon)
      || not (c.exec_steps == cfg.exec)
      || not (length c.rows == c.horizon * c.dim)
      || not (c.seq == rt.next_chunk_seq)
      || ltb inp.obs.t c.t_emit
      || not (inp.idx == inp.obs.t - c.t_emit)

  -- Is the tick's time not the one that follows the last?
  unfoldable pub bad_time : FuseRt F → TickInput F → Bool
  bad_time rt inp =
      if rt.seq == 0
      then not (inp.obs.t == 0)
      else option (checked_add rt.last_t 1) true
          λ x. option (checked_add x inp.missed_ticks) true λ y. not (y == inp.obs.t)

  unfoldable pub schema_broken : FuseConfig F → FuseRt F → TickInput F → Bool
  unfolding bad_chunk bad_time
  schema_broken cfg rt inp =
      inp.schema_fault
      || leb cfg.horizon inp.idx
      || not (length inp.obs.pos == cfg.pos_dim)
      || ltb max_aux (length inp.obs.aux)
      || ltb max_ext (length inp.obs.ext)
      || option inp.obs.vel false (λ v. not (length v == cfg.pos_dim))
      || option inp.chunk (not rt.cur.filled) (bad_chunk cfg rt inp)
      || bad_time rt inp

  -- Stage 0: the fail-closed bits of the tick.
  unfoldable pub guard : FuseConfig F → FuseRt F → TickInput F → ℕ
  unfolding nonfinite_input schema_broken
  guard cfg rt inp =
      let b1 = if nonfinite_input inp then Trips.nonfinite else 0 in
      let b2 = if schema_broken cfg rt inp then bit_or b1 Trips.schema else b1 in
      if ltb cfg.hyst.watchdog_ticks inp.missed_ticks then bit_or b2 Trips.watchdog else b2
