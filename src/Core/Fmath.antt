-- ===== src/Core/Fmath.antt =====
-- The float helpers of the decision path: crates/lictor-core/src/fmath.rs.
pub mod Bounds
use lictor.Prelude.{ℕ, zero, suc, Bool, List, if◌then◌else◌, get_or, all}
use lictor.Float.{Float}

module _ {F : Type 0} ⦃fl : Float F⦄ where
  open fl use {of_nat, add, sub, mul, sqrt, lt, is_finite}

  unfoldable pub fmin : F → F → F
  fmin a b = if lt a b then a else b

  unfoldable pub fmax : F → F → F
  fmax a b = if lt b a then a else b

  unfoldable pub clamp : F → F → F → F
  unfolding fmin fmax
  clamp x lo hi = fmax lo (fmin x hi)

  -- Element c of an array, zero past its end; the callers stay inside.
  abbrev pub at : List F → ℕ → F
  at v c = get_or v c (of_nat 0)

  -- The sum of squares of n entries, from the left; `i` counts up as `n` counts down.
  unfoldable pub square_sum : List F → ℕ → ℕ → F → F
  square_sum v i zero s = s
  square_sum v i (suc n) s = square_sum v (suc i) n (add s (mul (at v i) (at v i)))

  unfoldable pub norm : List F → ℕ → F
  unfolding square_sum
  norm v n = sqrt (square_sum v 0 n (of_nat 0))

  unfoldable pub dist_sum : List F → List F → ℕ → ℕ → F → F
  dist_sum a b i zero s = s
  dist_sum a b i (suc n) s =
      let d = sub (at a i) (at b i) in dist_sum a b (suc i) n (add s (mul d d))

  unfoldable pub dist : List F → List F → ℕ → F
  unfolding dist_sum
  dist a b n = sqrt (dist_sum a b 0 n (of_nat 0))

  unfoldable pub all_finite : List F → Bool
  all_finite v = all is_finite v
