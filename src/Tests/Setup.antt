-- ===== src/Tests/Setup.antt =====
-- A fuse over the sample numbers: two coordinates in a box from 0 to 500, chunks of three rows.
use lictor.Prelude.{ℕ, true, false, Option, none, some, List, [], ◌∷◌, replicate}
use lictor.Float.Sample.{Sample, number, top, bottom}
use lictor.Core.State.{FuseState, FuseMode, AckDecision, VerifiedAck}
use lictor.Core.Scores.{CalibrationC, CalMethod, nfeat}
use lictor.Core.Chunk.{ChunkView, ChunkBuf, ActionKind}
use lictor.Core.Config.{FuseConfig, Hysteresis, BrakeKind, ClampMode, RearmPolicy}
use lictor.Fuse.Runtime.{FuseRt, Tally}
use lictor.Fuse.Fsm.{FsmInput}
use lictor.Fuse.Input.{TickInput}

abbrev pub n : ℕ → Sample
n k = number k 0

abbrev pub hysteresis : Hysteresis Sample
hysteresis = record {
  k = 3;
  n = 5;
  warn_margin = n 0;
  clear_ticks = 5;
  clamp_streak_to_brake = 3;
  max_clamps_per_episode = 60;
  stop_confirm_ticks = 2;
  v_stop_eps = n 5;
  brake_timeout_ticks = 2;
  rearm = RearmPolicy.auto;
  rearm_hold = 1;
  max_rearms = 2;
  escalate_after_hold_ticks = 2;
  handoff_timeout_ticks = 2;
  watchdog_ticks = 2;
}

abbrev pub calibration : CalibrationC Sample
calibration = record {
  method = CalMethod.static;
  alpha_num = 0;
  alpha_den = 1;
  n_calib = 0;
  horizon_ticks = 1;
  t_grid = 1;
  center = [];
  scale = [];
  mask = 0;
  gate = record { n_terms = 0; terms = replicate 8 0 };
  tau = top;
  digest = [];
}

abbrev pub config : FuseMode → FuseConfig Sample
config mode = record {
  envelope_digest = [];
  embodiment_digest = [];
  calib_digest = none;
  mode = mode;
  kind = ActionKind.ee_position;
  dim = 2;
  pos_dim = 2;
  horizon = 3;
  exec = 2;
  overlap = 1;
  dt = n 1;
  inv_dt = n 1;
  inv_dt2 = n 1;
  inv_dt3 = n 1;
  norm_center = n 0 ∷ n 0 ∷ [];
  inv_norm_scale = n 1 ∷ n 1 ∷ [];
  norm_scale_iso = n 1;
  box_lo = n 0 ∷ n 0 ∷ [];
  box_hi = n 500 ∷ n 500 ∷ [];
  v_max = n 100;
  a_max = n 100;
  j_max = n 100;
  reach_max = n 100;
  step_max = n 100;
  contact = none;
  brake = record {
    kind = BrakeKind.bounded_accel;
    k_p = n 1;
    k_v = n 1;
    substeps = 1;
    dt = n 1;
    commit_steps = 2;
    brake_steps = 2;
    react_ticks = 0;
  };
  clamp = ClampMode.project;
  hyst = hysteresis;
  window_mask = 31;
  tier0_enabled = 0x7f;
  n_operators = 1;
  calib = calibration;
}

abbrev pub no_chunk : ChunkBuf Sample
no_chunk = record {
  data_buf = replicate 6 (n 0);
  seq = 0;
  t_emit = 0;
  horizon = 0;
  dim = 0;
  exec_steps = 0;
  filled = false;
}

abbrev pub no_tally : Tally Sample
no_tally = record {
  ticks = 0;
  nominal = 0;
  watching = 0;
  clamped = 0;
  braking = 0;
  held = 0;
  escalated = 0;
  fault = 0;
  terminated = 0;
  substituted = 0;
  chunks_seen = 0;
  chunks_rejected = 0;
  clamps = 0;
  holds = 0;
  rearms = 0;
  escalations = 0;
  trips_by_bit = replicate 16 0;
  fired_by_feat = replicate nfeat 0;
  first_trip_tick = none;
  first_trip_reason = none;
  first_stop_tick = none;
  handoff_tick = none;
  violations_reached_env = 0;
  max_s = bottom;
  max_z = replicate nfeat bottom;
  terminal_state = FuseState.idle;
}

-- A fuse in a state, as an episode starts, with counters of that state.
abbrev pub fuse : FuseState → FuseRt Sample
fuse s = record {
  cur = no_chunk;
  scratch = no_chunk;
  t1 = record {
    prev = no_chunk;
    have_prev = false;
    trail = record { buf = replicate 32 (n 0 ∷ n 0 ∷ []); head = 0; len = 0 };
    held = replicate nfeat (n 0);
    held_valid = 0;
  };
  window = record { bits = 0 };
  state = s;
  seq = 0;
  last_t = 0;
  next_chunk_seq = 0;
  pos = n 0 ∷ n 0 ∷ [];
  prev_pos = n 0 ∷ n 0 ∷ [];
  vel = n 0 ∷ n 0 ∷ [];
  have_prev_pos = false;
  last_cmd = n 0 ∷ n 0 ∷ [];
  hold = n 0 ∷ n 0 ∷ [];
  clean_run = 0;
  clamp_streak = 0;
  clamps = 0;
  brake_ticks = 0;
  stopped_ticks = 0;
  held_ticks = 0;
  held_clean = 3;
  escalated_ticks = 0;
  rearms = 0;
  handoff_seq = 7;
  handoff_pending = true;
  chunk_ok_this_tick = false;
  last_nonce = replicate 8 4;
  tally = no_tally;
}

abbrev pub operator_resume : VerifiedAck
operator_resume = record {
  decision = AckDecision.resume;
  operator_slot = 1;
  nonce = 5;
  handoff_seq = 7;
}

abbrev pub quiet : Option VerifiedAck → FsmInput
quiet ack = record {
  trips = 0;
  predictive = false;
  warn = false;
  soft_clampable = true;
  stopped = true;
  chunk_boundary = true;
  chunk_ok = true;
  ack = ack;
}

-- A chunk of three rows, each a small step on.
abbrev pub first_chunk : ChunkView Sample
first_chunk = record {
  seq = 0;
  t_emit = 0;
  horizon = 3;
  dim = 2;
  exec_steps = 2;
  rows = n 100 ∷ n 100 ∷ n 101 ∷ n 101 ∷ n 102 ∷ n 102 ∷ [];
}

-- The first tick of an episode, which delivers that chunk.
abbrev pub first_tick : List Sample → Option VerifiedAck → TickInput Sample
first_tick pos ack = record {
  obs = record { t = 0; pos = pos; vel = some (n 0 ∷ n 0 ∷ []); aux = []; ext = [] };
  chunk = some first_chunk;
  idx = 0;
  missed_ticks = 0;
  ack = ack;
  schema_fault = false;
}

abbrev pub here : List Sample
here = n 100 ∷ n 100 ∷ []
