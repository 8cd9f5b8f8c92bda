-- ===== src/Fuse/Tally.antt =====
-- The per-episode counters: crates/lictor-fuse/src/tally.rs.
use lictor.Prelude.{
  ℕ, zero, suc, ◌^◌, Bool, false, not, Option, none, some, List, get_or, set, if◌then◌else◌, ◌==◌,
  has, u32_max, saturating_suc,
}
use lictor.Float.{Float}
use lictor.Core.State.{
  FuseState, idle, armed, watching, clamped, braking, held, escalated, fault, terminated, is_stop,
}
use lictor.Core.Fmath.{fmax, at}
use lictor.Core.Scores.{nfeat}
use lictor.Core.Verdict.{SafetyVerdict}
use lictor.Fuse.Runtime.{Tally}

-- What the state machine did in a tick beyond what the verdict shows.
pub record TickEvents : Type 0 where
  pub entered_hold : Bool
  pub entered_escalated : Bool
  pub rearmed : Bool
  pub clamped : Bool
  pub live_z : ℕ

abbrev pub no_events : TickEvents
no_events = record {
  entered_hold = false;
  entered_escalated = false;
  rearmed = false;
  clamped = false;
  live_z = 0;
}

-- A saturating u32 counter, advanced if the test holds.
abbrev pub tick_if : Bool → ℕ → ℕ
tick_if b n = if b then saturating_suc u32_max n else n

-- `first.get_or_insert(x)`, if the test holds.
abbrev pub first_if {ℓ} : {A : Type ℓ} → Bool → A → Option A → Option A
first_if b x none = if b then some x else none
first_if b x (some y) = some y

-- n bits remain, from bit b on.
unfoldable pub bits_loop : ℕ → ℕ → ℕ → List ℕ → List ℕ
bits_loop trips b zero counts = counts
bits_loop trips b (suc n) counts = bits_loop trips (suc b) n (
    if has trips (2 ^ b) then set counts b (saturating_suc u32_max (get_or counts b 0)) else counts)

module _ {F : Type 0} where
  -- The counter of the state after the tick.
  unfoldable pub count_state : FuseState → Tally F → Tally F
  count_state idle t = record t { nominal = saturating_suc u32_max t.nominal }
  count_state armed t = record t { nominal = saturating_suc u32_max t.nominal }
  count_state watching t = record t { watching = saturating_suc u32_max t.watching }
  count_state clamped t = record t { clamped = saturating_suc u32_max t.clamped }
  count_state braking t = record t { braking = saturating_suc u32_max t.braking }
  count_state held t = record t { held = saturating_suc u32_max t.held }
  count_state escalated t = record t { escalated = saturating_suc u32_max t.escalated }
  count_state fault t = record t { fault = saturating_suc u32_max t.fault }
  count_state terminated t = record t { terminated = saturating_suc u32_max t.terminated }

  unfoldable pub record_chunk : Tally F → Bool → Tally F
  record_chunk t rejected = record t {
    chunks_seen = saturating_suc u32_max t.chunks_seen;
    chunks_rejected = tick_if rejected t.chunks_rejected;
  }

module _ {F : Type 0} ⦃fl : Float F⦄ where
  unfoldable pub max_z_loop : ℕ → List F → ℕ → ℕ → List F → List F
  unfolding fmax
  max_z_loop live z j zero m = m
  max_z_loop live z j (suc n) m =
      max_z_loop live z (suc j) n (if has live (2 ^ j) then set m j (fmax (at m j) (at z j)) else m)

  unfoldable pub record_tick : Tally F → SafetyVerdict F → TickEvents → Tally F
  unfolding count_state bits_loop max_z_loop is_stop fmax
  record_tick t0 v ev =
      let t = count_state v.state (record t0 { ticks = saturating_suc u32_max t0.ticks }) in
      let tripped = not (v.trips == 0) in
      record t {
        substituted = tick_if v.substituted t.substituted;
        trips_by_bit = bits_loop v.trips 0 16 t.trips_by_bit;
        fired_by_feat = bits_loop v.scores.fired 0 nfeat t.fired_by_feat;
        max_z = max_z_loop ev.live_z v.scores.z 0 nfeat t.max_z;
        first_trip_reason = elim t.first_trip_tick [
          | none ↦ if tripped then some v.reason else t.first_trip_reason
          | some _ ↦ t.first_trip_reason
        ];
        first_trip_tick = first_if tripped v.t t.first_trip_tick;
        first_stop_tick = first_if (is_stop v.state) v.t t.first_stop_tick;
        escalations = tick_if ev.entered_escalated t.escalations;
        handoff_tick = first_if ev.entered_escalated v.t t.handoff_tick;
        holds = tick_if ev.entered_hold t.holds;
        rearms = tick_if ev.rearmed t.rearms;
        clamps = tick_if ev.clamped t.clamps;
        violations_reached_env = tick_if v.violation_reached_env t.violations_reached_env;
        max_s = fmax t.max_s v.scores.s;
        terminal_state = v.state;
      }
