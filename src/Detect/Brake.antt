-- ===== src/Detect/Brake.antt =====
-- Brake feasibility and the brake and hold actions: crates/lictor-detect/src/brake.rs.
pub mod Box
use lictor.Prelude.{
  ℕ, zero, suc, ◌-◌, ◌*◌, Bool, true, false, List, [], ◌∷◌, length, take, set, replicate,
  if◌then◌else◌, ltb, min,
}
use lictor.Float.{Float}
use lictor.Core.Fmath.{fmin, fmax, clamp, norm, dist, at}
use lictor.Core.Chunk.{ChunkView, ActionKind, max_pos, copy_at}
use lictor.Core.Chunk
use lictor.Core.Config.{FuseConfig, BrakeKind}

pub record BrakeOut (F : Type 0) : Type 0 where
  pub feasible : Bool
  pub margin : F
  pub stop_dist : F

-- The rolled plant: position, velocity, and the number of live coordinates.
pub record Plant (F : Type 0) : Type 0 where
  pub p : List F
  pub v : List F
  pub n : ℕ

abbrev pub is_velocity : ActionKind → Bool
is_velocity ActionKind.joint_velocity = true
is_velocity ActionKind.ee_delta = true
is_velocity _ = false

abbrev is_delta : ActionKind → Bool
is_delta ActionKind.ee_delta = true
is_delta _ = false

module _ {F : Type 0} where
  unfoldable pub plant_dim : FuseConfig F → List F → List F → ChunkView F → ℕ
  plant_dim cfg p0 v0 ch =
      min (min (min (min cfg.pos_dim cfg.dim) (min (length p0) (length v0))) ch.dim) max_pos

module _ {F : Type 0} ⦃fl : Float F⦄ where
  open fl use {of_nat, decimal, add, sub, mul, div, le, infinity}

  -- The guard of the velocity ramp's denominator.
  abbrev eps : F
  eps = decimal 1 9

  -- One physics substep on the coordinates that the action row has, at most n.
  unfoldable pub pd_coords : F → F → F → List F → ℕ → ℕ → Plant F → Plant F
  pd_coords k_p k_v dt [] c n pl = pl
  pd_coords k_p k_v dt (a ∷ rest) c zero pl = pl
  pd_coords k_p k_v dt (a ∷ rest) c (suc n) pl =
      let acc = sub (mul k_p (sub a (at pl.p c))) (mul k_v (at pl.v c)) in
      let vc = add (at pl.v c) (mul acc dt) in
      pd_coords k_p k_v dt rest (suc c) n
        (record pl { v = set pl.v c vc; p = set pl.p c (add (at pl.p c) (mul vc dt)) })

  unfoldable pub pd_substep : F → F → F → List F → Plant F → Plant F
  unfolding pd_coords
  pd_substep k_p k_v dt a pl = pd_coords k_p k_v dt a 0 pl.n pl

  -- The least distance inside the box over n coordinates from c on, shrunk by r on each side.
  unfoldable pub slack_loop : FuseConfig F → List F → ℕ → ℕ → F → F
  unfolding fmin
  slack_loop cfg p c zero m = m
  slack_loop cfg p c (suc n) m =
      slack_loop cfg p (suc c) n
        (fmin m (fmin (sub (at p c) (at cfg.box_lo c)) (sub (at cfg.box_hi c) (at p c))))

  unfoldable pub slack : FuseConfig F → Plant F → F
  unfolding slack_loop
  slack cfg pl = slack_loop cfg pl.p 0 pl.n infinity

  unfoldable pub slack_r_loop : FuseConfig F → List F → F → ℕ → ℕ → F → F
  unfolding fmin
  slack_r_loop cfg p r c zero m = m
  slack_r_loop cfg p r c (suc n) m = slack_r_loop cfg p r (suc c) n (
      fmin m
        (fmin (sub (sub (at p c) r) (at cfg.box_lo c)) (sub (sub (at cfg.box_hi c) (at p c)) r)))

  unfoldable pub slack_r : FuseConfig F → Plant F → F → F
  unfolding slack_r_loop
  slack_r cfg pl r = slack_r_loop cfg pl.p r 0 pl.n infinity

  -- `sub` substeps towards the setpoint a, each followed by the check.
  unfoldable pub substeps_loop : FuseConfig F → List F → ℕ → Plant F → F → Plant F × F
  unfolding pd_substep slack
  substeps_loop cfg a zero pl margin = (pl, margin)
  substeps_loop cfg a (suc k) pl margin =
      let pl' = pd_substep cfg.brake.k_p cfg.brake.k_v cfg.brake.dt a pl in
      substeps_loop cfg a k pl' (fmin margin (slack cfg pl'))

  -- n committed rows remain, from row i on.
  unfoldable pub rows_loop : FuseConfig F → ChunkView F → ℕ → ℕ → Plant F → F → Plant F × F
  unfolding substeps_loop Chunk.action
  rows_loop cfg ch i zero pl margin = (pl, margin)
  rows_loop cfg ch i (suc n) pl margin =
      let (pl', margin') = substeps_loop cfg (Chunk.action ch i) cfg.brake.substeps pl margin in
      rows_loop cfg ch (suc i) n pl' margin'

  -- The setpoint clamp(p) on n coordinates from c on.
  unfoldable pub hold_setpoint : FuseConfig F → List F → ℕ → ℕ → List F → List F
  unfolding clamp
  hold_setpoint cfg p c zero out = out
  hold_setpoint cfg p c (suc n) out =
      hold_setpoint cfg p (suc c) n (set out c (clamp (at p c) (at cfg.box_lo c) (at cfg.box_hi c)))

  unfoldable pub pd_rollout : FuseConfig F → Plant F → ChunkView F → ℕ → Plant F × F × F
  unfolding rows_loop substeps_loop hold_setpoint
  pd_rollout cfg pl ch from =
      let (pl1, m1) = rows_loop cfg ch from (cfg.brake.commit_steps - from) pl infinity in
      let a_hold = hold_setpoint cfg pl1.p 0 pl1.n (replicate max_pos (of_nat 0)) in
      let (pl2, m2) =
        substeps_loop cfg a_hold (cfg.brake.brake_steps * cfg.brake.substeps) pl1 m1 in
      (pl2, m2, of_nat 0)

  unfoldable pub stop_distance : BrakeKind → FuseConfig F → F → F
  stop_distance BrakeKind.first_order_decay cfg nv = div nv cfg.brake.k_v
  stop_distance BrakeKind.bounded_accel cfg nv = div (mul nv nv) (mul (of_nat 2) cfg.a_max)
  stop_distance BrakeKind.zero_velocity_hold cfg nv = div (mul nv nv) (mul (of_nat 2) cfg.a_max)
  stop_distance BrakeKind.jerk_limited cfg nv =
      add (div (mul nv nv) (mul (of_nat 2) cfg.a_max))
        (div (mul nv cfg.a_max) (mul (of_nat 2) cfg.j_max))
  stop_distance BrakeKind.pd_second_order cfg nv = of_nat 0

  unfoldable pub radius : FuseConfig F → List F → ℕ → F → F
  unfolding norm stop_distance
  radius cfg v n react =
      let nv = norm v n in add (stop_distance cfg.brake.kind cfg nv) (mul nv react)

  -- The velocity of one coordinate that an action commands.
  abbrev velocity_of : ActionKind → FuseConfig F → F → F → F → F
  velocity_of ActionKind.joint_velocity cfg g a p = a
  velocity_of ActionKind.ee_delta cfg g a p = div a cfg.dt
  velocity_of _ cfg g a p = mul g (sub a p)

  unfoldable pub velocity_loop : FuseConfig F → F → List F → ℕ → ℕ → Plant F → Plant F
  velocity_loop cfg g [] c n pl = pl
  velocity_loop cfg g (a ∷ rest) c zero pl = pl
  velocity_loop cfg g (a ∷ rest) c (suc n) pl =
      velocity_loop cfg g rest (suc c) n
        (record pl { v = set pl.v c (velocity_of cfg.kind cfg g a (at pl.p c)) })

  unfoldable pub commanded_velocity : FuseConfig F → List F → Plant F → F → Plant F
  unfolding velocity_loop
  commanded_velocity cfg a pl g = velocity_loop cfg g a 0 pl.n pl

  unfoldable pub euler_loop : F → ℕ → ℕ → Plant F → Plant F
  euler_loop dt c zero pl = pl
  euler_loop dt c (suc n) pl =
      euler_loop dt (suc c) n (record pl { p = set pl.p c (add (at pl.p c) (mul (at pl.v c) dt)) })

  unfoldable pub closed_loop :
      FuseConfig F → ChunkView F → F → F → ℕ → ℕ → Plant F → F → Plant F × F
  unfolding commanded_velocity radius slack_r euler_loop Chunk.action
  closed_loop cfg ch g react i zero pl margin = (pl, margin)
  closed_loop cfg ch g react i (suc k) pl margin =
      let pl' = commanded_velocity cfg (Chunk.action ch i) pl g in
      let margin' = fmin margin (slack_r cfg pl' (radius cfg pl'.v pl'.n react)) in
      closed_loop cfg ch g react (suc i) k (euler_loop cfg.dt 0 pl'.n pl') margin'

  unfoldable pub closed_form : FuseConfig F → Plant F → ChunkView F → ℕ → Plant F × F × F
  unfolding closed_loop radius slack_r
  closed_form cfg pl ch from =
      let react = mul (of_nat cfg.brake.react_ticks) cfg.dt in
      let g = div cfg.brake.k_p cfg.brake.k_v in
      let m0 = slack_r cfg pl (radius cfg pl.v pl.n react) in
      let (pl', margin) = closed_loop cfg ch g react from (cfg.brake.commit_steps - from) pl m0 in
      (pl', margin, radius cfg pl'.v pl'.n react)

  unfoldable pub rollout : BrakeKind → FuseConfig F → Plant F → ChunkView F → ℕ → Plant F × F × F
  unfolding pd_rollout closed_form
  rollout BrakeKind.pd_second_order cfg pl ch from = pd_rollout cfg pl ch from
  rollout _ cfg pl ch from = closed_form cfg pl ch from

  abbrev pub start_plant : FuseConfig F → List F → List F → ChunkView F → Plant F
  start_plant cfg p0 v0 ch =
      let n = plant_dim cfg p0 v0 ch in
      record {
        p = copy_at (replicate max_pos (of_nat 0)) 0 (take n p0);
        v = copy_at (replicate max_pos (of_nat 0)) 0 (take n v0);
        n = n;
      }

  unfoldable pub brake_feasible : FuseConfig F → List F → List F → ChunkView F → ℕ → BrakeOut F
  unfolding plant_dim rollout dist
  brake_feasible cfg p0 v0 ch from =
      let (pl, margin, beyond) = rollout cfg.brake.kind cfg (start_plant cfg p0 v0 ch) ch from in
      record {
        feasible = le (of_nat 0) margin;
        margin = margin;
        stop_dist = add (dist pl.p p0 (plant_dim cfg p0 v0 ch)) beyond;
      }

  -- n coordinates of the ramp remain, from c on; `v` may be shorter.
  unfoldable pub ramp_loop : List F → F → ℕ → ℕ → List F → List F
  ramp_loop v scale c zero out = out
  ramp_loop v scale c (suc n) out =
      ramp_loop v scale (suc c) n
        (set out c (if ltb c (length v) then mul (at v c) scale else of_nat 0))

  unfoldable pub brake_action : FuseConfig F → List F → List F → List F → List F
  unfolding norm fmax ramp_loop hold_setpoint
  brake_action cfg p v out =
      let n = min (min cfg.dim (length out)) max_pos in
      let nv = norm v (min n (length v)) in
      let f = fmax (of_nat 0) (sub (of_nat 1) (div (mul cfg.a_max cfg.dt) (add nv eps))) in
      if is_velocity cfg.kind
      then ramp_loop v (if is_delta cfg.kind then mul f cfg.dt else f) 0 n out
      else hold_setpoint cfg p 0 n out

  unfoldable pub zero_loop : ℕ → ℕ → List F → List F
  zero_loop c zero out = out
  zero_loop c (suc n) out = zero_loop (suc c) n (set out c (of_nat 0))

  unfoldable pub hold_action : FuseConfig F → List F → List F → List F
  unfolding zero_loop hold_setpoint
  hold_action cfg p_latch out =
      let n = min (min cfg.dim (length out)) max_pos in
      if is_velocity cfg.kind then zero_loop 0 n out else hold_setpoint cfg p_latch 0 n out
