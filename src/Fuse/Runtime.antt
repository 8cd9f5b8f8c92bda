-- ===== src/Fuse/Runtime.antt =====
-- The runtime state of the fuse: `FuseRt` with its constructor and reset
-- (crates/lictor-fuse/src/fuse.rs), and the fields of `Tally` (crates/lictor-fuse/src/tally.rs).
use lictor.Prelude.{ℕ, Bool, false, Option, none, List, replicate}
use lictor.Float.{Float}
use lictor.Core.State.{FuseState, EpisodeInit}
use lictor.Core.Reason.{ReasonCode}
use lictor.Core.Scores.{nfeat}
use lictor.Core.Config.{max_operators}
use lictor.Core.Chunk.{ChunkBuf, max_d, max_pos}
use lictor.Core.Chunk
use lictor.Detect.Window.{Window}
use lictor.Detect.Window
use lictor.Detect.Tier1.{Tier1Rt, new_tier1, reset_tier1}

pub record Tally (F : Type 0) : Type 0 where
  pub ticks : ℕ
  pub nominal : ℕ
  pub watching : ℕ
  pub clamped : ℕ
  pub braking : ℕ
  pub held : ℕ
  pub escalated : ℕ
  pub fault : ℕ
  pub terminated : ℕ
  pub substituted : ℕ
  pub chunks_seen : ℕ
  pub chunks_rejected : ℕ
  pub clamps : ℕ
  pub holds : ℕ
  pub rearms : ℕ
  pub escalations : ℕ
  pub trips_by_bit : List ℕ
  pub fired_by_feat : List ℕ
  pub first_trip_tick : Option ℕ
  pub first_trip_reason : Option ReasonCode
  pub first_stop_tick : Option ℕ
  pub handoff_tick : Option ℕ
  pub violations_reached_env : ℕ
  pub max_s : F
  pub max_z : List F
  pub terminal_state : FuseState

pub record FuseRt (F : Type 0) : Type 0 where
  pub cur : ChunkBuf F
  pub scratch : ChunkBuf F
  pub t1 : Tier1Rt F
  pub window : Window
  pub state : FuseState
  pub seq : ℕ
  pub last_t : ℕ
  pub next_chunk_seq : ℕ
  pub pos : List F
  pub prev_pos : List F
  pub vel : List F
  pub have_prev_pos : Bool
  pub last_cmd : List F
  pub hold : List F
  pub clean_run : ℕ
  pub clamp_streak : ℕ
  pub clamps : ℕ
  pub brake_ticks : ℕ
  pub stopped_ticks : ℕ
  pub held_ticks : ℕ
  pub held_clean : ℕ
  pub escalated_ticks : ℕ
  pub rearms : ℕ
  pub handoff_seq : ℕ
  pub handoff_pending : Bool
  pub chunk_ok_this_tick : Bool
  pub last_nonce : List ℕ
  pub tally : Tally F

module _ {F : Type 0} ⦃fl : Float F⦄ where
  open fl use {of_nat, neg_infinity}

  unfoldable pub new_tally : Tally F
  new_tally = record {
    ticks = 0;
    nominal = 0;
    watching = 0;
    clamped = 0;
    braking = 0;
    held = 0;
    escalated = 0;
    fault = 0;
    terminated = 0;
    substituted = 0;
    chunks_seen = 0;
    chunks_rejected = 0;
    clamps = 0;
    holds = 0;
    rearms = 0;
    escalations = 0;
    trips_by_bit = replicate 16 0;
    fired_by_feat = replicate nfeat 0;
    first_trip_tick = none;
    first_trip_reason = none;
    first_stop_tick = none;
    handoff_tick = none;
    violations_reached_env = 0;
    max_s = neg_infinity;
    max_z = replicate nfeat neg_infinity;
    terminal_state = FuseState.idle;
  }

  unfoldable pub new : FuseRt F
  unfolding Chunk.new new_tier1 Window.empty new_tally
  new = record {
    cur = Chunk.new;
    scratch = Chunk.new;
    t1 = new_tier1;
    window = Window.empty;
    state = FuseState.idle;
    seq = 0;
    last_t = 0;
    next_chunk_seq = 0;
    pos = replicate max_pos (of_nat 0);
    prev_pos = replicate max_pos (of_nat 0);
    vel = replicate max_pos (of_nat 0);
    have_prev_pos = false;
    last_cmd = replicate max_d (of_nat 0);
    hold = replicate max_pos (of_nat 0);
    clean_run = 0;
    clamp_streak = 0;
    clamps = 0;
    brake_ticks = 0;
    stopped_ticks = 0;
    held_ticks = 0;
    held_clean = 0;
    escalated_ticks = 0;
    rearms = 0;
    handoff_seq = 0;
    handoff_pending = false;
    chunk_ok_this_tick = false;
    last_nonce = replicate max_operators 0;
    tally = new_tally;
  }

  -- The header of the episode is accepted and not stored.
  unfoldable pub reset : FuseRt F → EpisodeInit → FuseRt F
  unfolding Chunk.clear reset_tier1 Window.clear new_tally
  reset rt init = record rt {
    cur = Chunk.clear rt.cur;
    scratch = Chunk.clear rt.scratch;
    t1 = reset_tier1 rt.t1;
    window = Window.clear rt.window;
    state = FuseState.armed;
    seq = 0;
    last_t = 0;
    next_chunk_seq = 0;
    pos = replicate max_pos (of_nat 0);
    prev_pos = replicate max_pos (of_nat 0);
    vel = replicate max_pos (of_nat 0);
    have_prev_pos = false;
    last_cmd = replicate max_d (of_nat 0);
    hold = replicate max_pos (of_nat 0);
    clean_run = 0;
    clamp_streak = 0;
    clamps = 0;
    brake_ticks = 0;
    stopped_ticks = 0;
    held_ticks = 0;
    held_clean = 0;
    escalated_ticks = 0;
    rearms = 0;
    handoff_seq = 0;
    handoff_pending = false;
    chunk_ok_this_tick = false;
    last_nonce = replicate max_operators 0;
    tally = new_tally;
  }
