-- ===== src/Core/Fmath/Bounds.antt =====
-- Order facts about `min`, `max` and `clamp` (crates/lictor-core/src/fmath.rs), from the laws of
-- comparison.
use lictor.Prelude.{◌≡◌, true, ◌&&◌, ◌||◌, arith}
use lictor.Float.{Float}
use lictor.Float.Laws.{IsNumber, FloatLaws}
use lictor.Core.Fmath.{fmin, fmax, clamp}

module _ {F : Type 0} ⦃fl : Float F⦄ (laws : FloatLaws F) where
  open fl use {lt, le}
  open laws use {
    lt_number, le_refl, le_of_lt, le_of_not_lt, le_trans, lt_of_lt_of_le, lt_of_le_of_lt,
  }

  -- Between numbers in order, a clamped value is at least the lower and at most the upper one, also
  -- if the value is NaN.
  pub clamp_bounds :
      (x lo hi : F)
      → IsNumber lo
      → IsNumber hi
      → le lo hi ≡ true
      → (le lo (clamp x lo hi) ≡ true) × (le (clamp x lo hi) hi ≡ true)
  unfolding clamp
  clamp_bounds x lo hi nl nh h = ground (
    arith,
    le_refl lo nl,
    le_refl hi nh,
    lt_number x hi,
    le_of_lt x hi,
    le_of_not_lt hi lo nh nl,
    le_of_not_lt x lo,
  )

  -- A bound is below a minimum exactly if it is below both, and so on.
  pub lt-fmin : (t a b : F) → IsNumber a → IsNumber b → lt t (fmin a b) ≡ (lt t a && lt t b)
  unfolding fmin
  lt-fmin t a b na nb =
      ground
        (arith, le_of_lt a b, le_of_not_lt a b na nb, lt_of_lt_of_le t a b, lt_of_lt_of_le t b a)

  pub lt-fmax : (t a b : F) → IsNumber a → IsNumber b → lt t (fmax a b) ≡ (lt t a || lt t b)
  unfolding fmax
  lt-fmax t a b na nb =
      ground
        (arith, le_of_lt b a, le_of_not_lt b a nb na, lt_of_lt_of_le t a b, lt_of_lt_of_le t b a)

  pub le-fmin : (t a b : F) → IsNumber a → IsNumber b → le t (fmin a b) ≡ (le t a && le t b)
  unfolding fmin
  le-fmin t a b na nb =
      ground (arith, le_of_lt a b, le_of_not_lt a b na nb, le_trans t a b, le_trans t b a)

  pub fmin-IsNumber : (a b : F) → IsNumber a → IsNumber b → IsNumber (fmin a b)
  unfolding fmin
  fmin-IsNumber a b na nb = ground arith

  pub fmax-IsNumber : (a b : F) → IsNumber a → IsNumber b → IsNumber (fmax a b)
  unfolding fmax
  fmax-IsNumber a b na nb = ground arith
