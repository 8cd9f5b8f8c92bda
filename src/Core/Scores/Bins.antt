-- ===== src/Core/Scores/Bins.antt =====
-- The time bins of a calibration table (crates/lictor-core/src/scores.rs).
use native.Mathlib.Nat.{le-div_iff_mul-le, mul-div-le, mul_comm}
use lictor.Prelude.{ℕ, ◌*◌, ◌/◌, ◌≤◌, ◌<◌, arith, if◌then◌else◌, ◌==◌}
use lictor.Core.Scores.{bin_of}

div_mono : (a b k : ℕ) → 0 < k → a ≤ b → a / k ≤ b / k
div_mono a b k p h = (le-div_iff_mul-le p).1 (omega (arith, mul-div-le a k, mul_comm k (a / k)))

-- The bin before it is cut off at the last one.
quotient_mono :
    (s t h g : ℕ) → s ≤ t → s * g / (if h == 0 then 1 else h) ≤ t * g / (if h == 0 then 1 else h)
quotient_mono s t h g p = div_mono (s * g) (t * g) _ (ground arith) (grind arith)

-- A tick is always put into one of the bins, also past the horizon or with a horizon of 0.
bin_of-lt : (t horizon_ticks t_grid : ℕ) → 0 < t_grid → bin_of t horizon_ticks t_grid < t_grid
unfolding bin_of
bin_of-lt t h g p = ground arith

-- Later ticks are never put into earlier bins.
bin_of_mono :
    (s t horizon_ticks t_grid : ℕ)
    → s ≤ t
    → bin_of s horizon_ticks t_grid ≤ bin_of t horizon_ticks t_grid
unfolding bin_of
bin_of_mono s t h g p = ground (arith, quotient_mono s t h g p)
