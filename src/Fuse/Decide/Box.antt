-- ===== src/Fuse/Decide/Box.antt =====
-- Where the action of a stop lies: stage 7 of `decide` and the fault tick
-- (crates/lictor-fuse/src/fuse.rs) with the actions of crates/lictor-detect/src/brake.rs.
use lictor.Prelude.{
  ℕ, ◌<◌, ◌≡◌, ◌⊎◌, inl, inr, true, false, List, length, take, min, arith, get_or-append,
  length-take, length-replicate, Bool-cases, drop, ◌+◌,
}
use lictor.Float.{Float}
use lictor.Float.Laws.{FloatLaws}
use lictor.Core.Fmath.{at}
use lictor.Core.State.{is_stop, FuseMode}
use lictor.Core.Chunk.{max_d, max_pos, copy_at}
use lictor.Core.Config.{FuseConfig}
use lictor.Core.Verdict.{ActionSource}
use lictor.Detect.Brake.{brake_action, hold_action, is_velocity}
use lictor.Detect.Brake.Box.{
  Inside, IsBox, hold_action-Inside, brake_action-Inside, length-hold_action, length-brake_action,
}
use lictor.Fuse.Runtime.{FuseRt}
use lictor.Fuse.Input.{TickInput, source_of, zero_row}
use lictor.Fuse.Decide.{decide, action_of, hold_row}
use lictor.Fuse.Decide.Verdicts.{refused, decide_fail_closed, decide-Enforced}

module _ {F : Type 0} ⦃fl : Float F⦄ where
  open fl use {of_nat}

  at-copy_at : (dst src : List F) (c : ℕ) → c < length src → at (copy_at dst 0 src) c ≡ at src c
  at-copy_at dst src c h = get_or-append src (drop (0 + length src) dst) c (of_nat 0) h

  -- The buffer that an action is written to.
  abbrev blank : FuseConfig F → List F
  blank cfg = take (min cfg.dim max_d) zero_row

  length-blank : (cfg : FuseConfig F) → length (blank cfg) ≡ min cfg.dim max_d
  length-blank cfg =
      omega (arith, length-take (min cfg.dim max_d) zero_row, length-replicate max_d (of_nat 0))

  module _ (laws : FloatLaws F) (cfg : FuseConfig F) (pos : is_velocity cfg.kind ≡ false)
      (box : IsBox cfg (min cfg.dim max_d)) where
    -- The box as the actions read it.
    sides : IsBox cfg (min (min cfg.dim (length (blank cfg))) max_pos)
    sides c h = box c (omega (arith, length-blank cfg))

    hold_row-Inside :
        (rt : FuseRt F) (c : ℕ) → c < min cfg.dim max_d → Inside cfg c (at (hold_row cfg rt) c)
    hold_row-Inside rt c h =
        let p = take (min cfg.pos_dim max_pos) rt.hold in
        let len = length-hold_action laws cfg pos p (blank cfg) in
        rw
          (at-copy_at zero_row (hold_action cfg p (blank cfg)) c
            (omega (arith, len, length-blank cfg)))
          (hold_action-Inside laws cfg pos p (blank cfg) c sides (omega (arith, length-blank cfg)))

    brake_row-Inside :
        (rt : FuseRt F) (policy projected : List F) (c : ℕ)
        → c < min cfg.dim max_d
        → Inside cfg c (at (action_of ActionSource.brake cfg rt policy projected) c)
    unfolding action_of
    brake_row-Inside rt policy projected c h =
        let n = min cfg.pos_dim max_pos in
        let p = take n rt.pos in
        let v = take n rt.vel in
        let len = length-brake_action laws cfg pos p v (blank cfg) in
        rw
          (at-copy_at zero_row (brake_action cfg p v (blank cfg)) c
            (omega (arith, len, length-blank cfg)))
          (brake_action-Inside laws cfg pos p v (blank cfg) c sides
            (omega (arith, length-blank cfg)))

    stop_row-Inside :
        (s : ActionSource) (rt : FuseRt F) (policy projected : List F) (c : ℕ)
        → (s ≡ ActionSource.brake) ⊎ (s ≡ ActionSource.hold)
        → c < min cfg.dim max_d
        → Inside cfg c (at (action_of s cfg rt policy projected) c)
    unfolding action_of
    stop_row-Inside ActionSource.brake rt policy projected c s h =
        brake_row-Inside rt policy projected c h
    stop_row-Inside ActionSource.hold rt policy projected c s h = hold_row-Inside rt c h
    stop_row-Inside ActionSource.policy rt policy projected c s h = absurd (ground arith)
    stop_row-Inside ActionSource.clamped rt policy projected c s h = absurd (ground arith)

  stop_source :
      (cfg : FuseConfig F) (rt : FuseRt F) (inp : TickInput F)
      → is_stop (decide cfg rt inp).1.state ≡ true
      → (source_of (decide cfg rt inp).1.state ≡ ActionSource.brake)
        ⊎ (source_of (decide cfg rt inp).1.state ≡ ActionSource.hold)
  unfolding is_stop source_of
  stop_source cfg rt inp h = ground arith

  -- For a position command and a box whose sides are numbers in order: in Enforce mode the action of
  -- every verdict that reports a stop lies inside the box in each coordinate, whatever the policy,
  -- the observation (NaN included) and the state before were.
  pub stop_action-Inside :
      (laws : FloatLaws F) (cfg : FuseConfig F) (rt : FuseRt F) (inp : TickInput F) (c : ℕ)
      → cfg.mode ≡ FuseMode.enforce
      → is_velocity cfg.kind ≡ false
      → IsBox cfg (min cfg.dim max_d)
      → is_stop (decide cfg rt inp).1.state ≡ true
      → c < min cfg.dim max_d
      → Inside cfg c (at (decide cfg rt inp).1.action c)
  stop_action-Inside laws cfg rt inp c m pos box s h = elim (Bool-cases (refused cfg rt inp)) [
    | inl e ↦
        rw (decide_fail_closed cfg rt inp e).action
          (hold_row-Inside laws cfg pos box (decide cfg rt inp).0 c h)
    | inr e ↦ rw (decide-Enforced cfg rt inp m e).action (
        stop_row-Inside laws cfg pos box _ (decide cfg rt inp).0 _ _ c (stop_source cfg rt inp s) h)
  ]
