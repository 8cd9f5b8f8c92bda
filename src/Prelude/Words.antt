-- ===== src/Prelude/Words.antt =====
-- Unsigned machine words: the largest values, saturating and wrapping addition.
use Prim.Native.Nat.{ℕ, ◌+◌, ◌%◌, ◌^◌, min}

abbrev pub u8_max : ℕ
u8_max = 255

abbrev pub u16_max : ℕ
u16_max = 65535

abbrev pub u32_max : ℕ
u32_max = 4294967295

-- `x.saturating_add(1)` at the type whose largest value is `top`.
abbrev pub saturating_suc : ℕ → ℕ → ℕ
saturating_suc top n = min (n + 1) top

-- `x.wrapping_add(1)` on u32.
abbrev pub wrapping_suc_u32 : ℕ → ℕ
wrapping_suc_u32 n = (n + 1) % 2 ^ 32
