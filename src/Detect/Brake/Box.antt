-- ===== src/Detect/Brake/Box.antt =====
-- Where the brake and hold actions of a position command lie: `brake_action` and `hold_action` of
-- crates/lictor-detect/src/brake.rs.
use lictor.Prelude.{
  ℕ, zero, suc, ◌+◌, ◌≤◌, ◌<◌, ◌≡◌, refl, ◌∙◌, true, false, List, length, min, arith, length-set,
  get_or-set_self, get_or-set_ne, ◌⊎◌, inl, inr,
}
use lictor.Float.{Float}
use lictor.Float.Laws.{IsNumber, FloatLaws}
use lictor.Core.Fmath.{at, clamp}
use lictor.Core.Fmath.Bounds.{clamp_bounds}
use lictor.Core.Chunk.{max_pos}
use lictor.Core.Config.{FuseConfig}
use lictor.Detect.Brake.{hold_setpoint, hold_action, brake_action, is_velocity}

eq_or_lt : (i j : ℕ) → i ≤ j → (i ≡ j) ⊎ (i < j)
eq_or_lt i j h = ground arith

module _ {F : Type 0} ⦃fl : Float F⦄ where
  open fl use {le, of_nat}

  -- A coordinate is inside the box of the configuration.
  abbrev pub Inside : FuseConfig F → ℕ → F → Type 0
  Inside cfg c x = (le (at cfg.box_lo c) x ≡ true) × (le x (at cfg.box_hi c) ≡ true)

  -- The first n sides of the box are numbers in order, as the envelope's validation has it.
  abbrev pub IsBox : FuseConfig F → ℕ → Type 0
  IsBox cfg n =
      (c : ℕ)
      → c < n
      → IsNumber (at cfg.box_lo c)
        × IsNumber (at cfg.box_hi c)
        × (le (at cfg.box_lo c) (at cfg.box_hi c) ≡ true)

  length-hold_setpoint :
      (cfg : FuseConfig F) (p : List F) (c n : ℕ) (out : List F)
      → length (hold_setpoint cfg p c n out) ≡ length out
  unfolding hold_setpoint
  length-hold_setpoint cfg p c zero out = refl
  length-hold_setpoint cfg p c (suc n) out =
      length-hold_setpoint cfg p (suc c) n _ ∙ length-set out c _

  -- What is before coordinate c stays.
  hold_setpoint_before :
      (cfg : FuseConfig F) (p : List F) (c n : ℕ) (out : List F) (j : ℕ)
      → j < c
      → at (hold_setpoint cfg p c n out) j ≡ at out j
  unfolding hold_setpoint
  hold_setpoint_before cfg p c zero out j h = refl
  hold_setpoint_before cfg p c (suc n) out j h =
      hold_setpoint_before cfg p (suc c) n _ j (omega arith)
      ∙ get_or-set_ne out c j _ _ (λ e. absurd (omega (arith, e)))

  at-hold_setpoint :
      (cfg : FuseConfig F) (p : List F) (c n : ℕ) (out : List F) (j : ℕ)
      → c ≤ j
      → j < c + n
      → j < length out
      → at (hold_setpoint cfg p c n out) j ≡ clamp (at p j) (at cfg.box_lo j) (at cfg.box_hi j)
  unfolding hold_setpoint
  at-hold_setpoint cfg p c zero out j h k l = absurd (omega arith)
  at-hold_setpoint cfg p c (suc n) out j h k l = elim (eq_or_lt c j h) [
    | inl e ↦
        hold_setpoint_before cfg p (suc c) n _ j (omega arith)
        ∙ rw e (get_or-set_self out j _ (of_nat 0) l)
    | inr e ↦
        at-hold_setpoint cfg p (suc c) n _ j e (omega arith)
          (omega (arith, length-set out c (clamp (at p c) (at cfg.box_lo c) (at cfg.box_hi c))))
  ]

  module _ (laws : FloatLaws F) (cfg : FuseConfig F) (pos : is_velocity cfg.kind ≡ false) where
    setpoint-Inside :
        (p out : List F) (n c : ℕ)
        → IsBox cfg n
        → c < n
        → c < length out
        → Inside cfg c (at (hold_setpoint cfg p 0 n out) c)
    setpoint-Inside p out n c box h k =
        let (nl, nh, o) = box c h in
        rw (at-hold_setpoint cfg p 0 n out c (omega arith) (omega arith) k)
          (clamp_bounds laws (at p c) (at cfg.box_lo c) (at cfg.box_hi c) nl nh o)

    -- The hold action of a position command is inside the box in every coordinate, whatever the
    -- setpoint is, for a box whose sides are numbers in order.
    pub hold_action-Inside :
        (p out : List F) (c : ℕ)
        → IsBox cfg (min (min cfg.dim (length out)) max_pos)
        → c < min (min cfg.dim (length out)) max_pos
        → Inside cfg c (at (hold_action cfg p out) c)
    unfolding hold_action
    hold_action-Inside p out c box h = rw pos (setpoint-Inside p out _ c box h (omega arith))

    -- So is the brake action, whatever the position and the velocity are.
    pub brake_action-Inside :
        (p v out : List F) (c : ℕ)
        → IsBox cfg (min (min cfg.dim (length out)) max_pos)
        → c < min (min cfg.dim (length out)) max_pos
        → Inside cfg c (at (brake_action cfg p v out) c)
    unfolding brake_action
    brake_action-Inside p v out c box h = rw pos (setpoint-Inside p out _ c box h (omega arith))

    pub length-hold_action : (p out : List F) → length (hold_action cfg p out) ≡ length out
    unfolding hold_action
    length-hold_action p out =
        rw pos (length-hold_setpoint cfg p 0 (min (min cfg.dim (length out)) max_pos) out)

    pub length-brake_action : (p v out : List F) → length (brake_action cfg p v out) ≡ length out
    unfolding brake_action
    length-brake_action p v out =
        rw pos (length-hold_setpoint cfg p 0 (min (min cfg.dim (length out)) max_pos) out)
