-- ===== src/Core/Trips.antt =====
-- The trip mask of crates/lictor-core/src/verdict.rs: one bit of a u32 for each cause.
use lictor.Prelude.{ℕ, bit_or}

abbrev pub none_mask : ℕ
none_mask = 0

abbrev pub workspace : ℕ
workspace = 0x1

abbrev pub speed : ℕ
speed = 0x2

abbrev pub accel : ℕ
accel = 0x4

abbrev pub jerk : ℕ
jerk = 0x8

abbrev pub reach : ℕ
reach = 0x10

abbrev pub contact : ℕ
contact = 0x20

abbrev pub brake : ℕ
brake = 0x40

abbrev pub nonfinite : ℕ
nonfinite = 0x80

abbrev pub schema : ℕ
schema = 0x100

abbrev pub watchdog : ℕ
watchdog = 0x200

abbrev pub tier1_cp : ℕ
tier1_cp = 0x400

abbrev pub clamp_budget : ℕ
clamp_budget = 0x800

abbrev pub handoff_timeout : ℕ
handoff_timeout = 0x1000

abbrev pub operator_abort : ℕ
operator_abort = 0x2000

abbrev pub brake_timeout : ℕ
brake_timeout = 0x4000

abbrev pub rearm_budget : ℕ
rearm_budget = 0x8000

abbrev pub tier0_soft : ℕ
tier0_soft = bit_or (bit_or (bit_or (bit_or (bit_or workspace speed) accel) jerk) reach) contact

abbrev pub tier0_hard : ℕ
tier0_hard = bit_or (bit_or (bit_or brake nonfinite) schema) watchdog
