-- ===== src/Detect/Projection.antt =====
-- The armed limits and the projection of one row onto them: `Arm`, `Proj` and the helpers of
-- crates/lictor-detect/src/tier0.rs.
use lictor.Prelude.{
  ℕ, zero, suc, ◌*◌, ◌^◌, Bool, true, false, ◌&&◌, ◌||◌, not, Option, none, some, List, [], ◌∷◌,
  length, set, take, drop, if◌then◌else◌, ltb, leb, min, has, bit_or, option,
}
use lictor.Float.{Float}
use lictor.Core.Fmath.{fmin, clamp, dist, at}
use lictor.Core.Trips
use lictor.Core.Chunk.{ChunkView, ObsView, max_pos}
use lictor.Core.Config.{FuseConfig, ContactLimit, ClampMode}

-- The checks that are armed for a call, and the leash of the contact check.
pub record Arm (F : Type 0) : Type 0 where
  pub workspace : Bool
  pub speed : Bool
  pub accel : Bool
  pub jerk : Bool
  pub reach : Bool
  pub contact : Bool
  pub step_contact : F

-- What the projection of a row needs besides the row.
pub record Proj (F : Type 0) : Type 0 where
  pub cfg : FuseConfig F
  pub pos : List F
  pub arm : Arm F
  pub leash : Option F
  pub nb : ℕ
  pub d : ℕ

abbrev pub is_project : ClampMode → Bool
is_project ClampMode.project = true
is_project ClampMode.off = false

-- A trip bit that is raised by a test.
abbrev pub raise : Bool → ℕ → ℕ → ℕ
raise test m b = if test then bit_or m b else m

module _ {F : Type 0} where
  unfoldable pub box_dims : FuseConfig F → ObsView F → ℕ → ℕ
  box_dims cfg obs d = min (min d cfg.pos_dim) (min (length obs.pos) max_pos)

  -- Row i of the data, of d entries.
  abbrev pub row : ChunkView F → ℕ → ℕ → List F
  row ch d i = take d (drop (i * d) ch.rows)

module _ {F : Type 0} ⦃fl : Float F⦄ where
  open fl use {of_nat, add, sub, mul, div, lt, le, eq}

  -- 1 - 2^-36.
  abbrev leash_shrink : F
  leash_shrink = sub (of_nat 1) (div (of_nat 1) (of_nat 68719476736))

  -- The contact leash, if the agent is inside the contact radius.
  unfoldable pub leash_of : FuseConfig F → ObsView F → ContactLimit F → Option F
  unfolding dist
  leash_of cfg obs cl =
      let i0 = cl.aux_center.0 in
      let i1 = cl.aux_center.1 in
      if leb 2 (length obs.pos)
        && ltb i0 (length obs.aux)
        && ltb i1 (length obs.aux)
        && le (dist obs.pos (at obs.aux i0 ∷ at obs.aux i1 ∷ []) 2) cl.radius
      then some (mul cl.v_max cfg.dt)
      else none

  unfoldable pub contact_step : FuseConfig F → ObsView F → Option F
  unfolding leash_of
  contact_step cfg obs =
      if has cfg.tier0_enabled Trips.contact
      then option cfg.contact none (leash_of cfg obs)
      else none

  abbrev arm_of : ℕ → Option F → Arm F
  arm_of en step = record {
    workspace = has en Trips.workspace;
    speed = has en Trips.speed;
    accel = has en Trips.accel;
    jerk = has en Trips.jerk;
    reach = has en Trips.reach;
    contact = option step false (λ s. true);
    step_contact = option step (of_nat 0) (λ s. s);
  }

  unfoldable pub resolve : FuseConfig F → ObsView F → Arm F
  unfolding contact_step
  resolve cfg obs = arm_of cfg.tier0_enabled (contact_step cfg obs)

  unfoldable pub shortest_leash : Arm F → F → Option F
  unfolding fmin
  shortest_leash arm step_max =
      if arm.speed
      then some (if arm.contact then fmin step_max arm.step_contact else step_max)
      else if arm.contact
      then some arm.step_contact
      else none

  -- n coordinates remain, from c on: the box clamp.
  unfoldable pub box_loop : FuseConfig F → ℕ → ℕ → List F → List F
  unfolding clamp
  box_loop cfg c zero a = a
  box_loop cfg c (suc n) a =
      box_loop cfg (suc c) n (set a c (clamp (at a c) (at cfg.box_lo c) (at cfg.box_hi c)))

  -- A pull towards q by the factor s.
  unfoldable pub pull_loop : List F → F → ℕ → ℕ → List F → List F
  pull_loop q s c zero a = a
  pull_loop q s c (suc n) a =
      pull_loop q s (suc c) n (set a c (add (at q c) (mul (sub (at a c) (at q c)) s)))

  -- A pull towards q that leaves the n coordinates within the limit.
  unfoldable pub pull : List F → F → ℕ → List F → List F
  unfolding dist pull_loop
  pull q limit n a =
      let r = dist a q n in
      if lt limit r then pull_loop q (div (mul limit leash_shrink) r) 0 n a else a

  unfoldable pub project_row : Proj F → Bool → List F → List F → List F
  unfolding box_loop pull
  project_row pr first q a0 =
      let a1 = if pr.arm.workspace then box_loop pr.cfg 0 pr.nb a0 else a0 in
      let a2 = option pr.leash a1 (λ step. pull q step pr.d a1) in
      if first && pr.arm.reach && ltb 0 pr.nb then pull pr.pos pr.cfg.reach_max pr.nb a2 else a2

  unfoldable pub moved_loop : List F → List F → ℕ → ℕ → ℕ → ℕ
  moved_loop raw a c zero m = m
  moved_loop raw a c (suc n) m =
      moved_loop raw a (suc c) n (raise (not (eq (at a c) (at raw c))) m (2 ^ c))

  unfoldable pub moved_dims : List F → List F → ℕ → ℕ
  unfolding moved_loop
  moved_dims raw a d = moved_loop raw a 0 d 0

  unfoldable pub outside_loop : FuseConfig F → List F → ℕ → ℕ → Bool
  outside_loop cfg a c zero = false
  outside_loop cfg a c (suc n) =
      lt (at a c) (at cfg.box_lo c) || lt (at cfg.box_hi c) (at a c) || outside_loop cfg a (suc c) n

  unfoldable pub outside_box : FuseConfig F → List F → ℕ → Bool
  unfolding outside_loop
  outside_box cfg a nb = outside_loop cfg a 0 nb
