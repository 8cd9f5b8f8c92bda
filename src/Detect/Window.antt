-- ===== src/Detect/Window.antt =====
-- The K-of-N hit window, a shift register in a u64: crates/lictor-detect/src/window.rs.
pub mod Counts
use lictor.Prelude.{ℕ, zero, suc, ◌+◌, ◌*◌, ◌/◌, ◌%◌, ◌^◌, Bool, if◌then◌else◌, bit_and, bit_or}

pub record Window : Type 0 where
  pub bits : ℕ

unfoldable pub empty : Window
empty = record { bits = 0 }

unfoldable pub push : Window → Bool → ℕ → Window
push w hit mask = record {
  bits = bit_and (bit_or (w.bits * 2 % 2 ^ 64) (if hit then 1 else 0)) mask;
}

-- The number of ones among the lowest k bits.
unfoldable pub count_ones : ℕ → ℕ → ℕ
count_ones zero m = 0
count_ones (suc k) m = m % 2 + count_ones k (m / 2)

unfoldable pub hits : Window → ℕ
unfolding count_ones
hits w = count_ones 64 w.bits

unfoldable pub clear : Window → Window
clear w = record { bits = 0 }
