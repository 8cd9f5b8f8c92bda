-- ===== src/Fuse/Decide.antt =====
-- `decide`, the contract of the fuse: crates/lictor-fuse/src/fuse.rs.
pub mod Machine
pub mod Verdicts
pub mod Box
pub mod Delivery
pub mod Compiled
pub mod Sequence
use lictor.Prelude.{
  ℕ, Bool, true, false, ◌&&◌, ◌||◌, not, none, some, List, length, take, if◌then◌else◌, leb, ◌==◌,
  min, bit_and, bit_or, option, u32_max, saturating_suc,
}
use lictor.Float.{Float}
use lictor.Core.State.{FuseState, clamped, held, escalated}
use lictor.Core.Fmath.{norm, at, all_finite}
use lictor.Core.Scores.{Scores, disarmed_scores}
use lictor.Core.Chunk.{ChunkBuf, max_d, max_pos, copy_at}
use lictor.Core.Chunk
use lictor.Core.Config.{FuseConfig}
use lictor.Core.Verdict.{SafetyVerdict, ActionSource}
use lictor.Detect.Window
use lictor.Detect.Conformal.{trip}
use lictor.Detect.Brake.{brake_action, hold_action}
use lictor.Detect.Tier0.{is_project}
use lictor.Fuse.Runtime.{FuseRt, Tally}
use lictor.Fuse.Fsm.{FsmInput, next, is_observe, is_ack_reason}
use lictor.Fuse.Tally.{TickEvents, no_events, record_tick}
use lictor.Fuse.Input.{TickInput, status_of, source_of, is_policy, is_some, zero_row}
use lictor.Fuse.Guard.{guard}
use lictor.Detect.Conformal.{trip}
use lictor.Fuse.Stages.{Prepared, prepare, is_warned}

abbrev is_held : FuseState → Bool
is_held held = true
is_held _ = false

abbrev is_escalated : FuseState → Bool
is_escalated escalated = true
is_escalated _ = false

module _ {F : Type 0} ⦃fl : Float F⦄ where
  open fl use {of_nat, sub, lt, le, nan}

  abbrev pub hold_row : FuseConfig F → FuseRt F → List F
  hold_row cfg rt =
      let dim = min cfg.dim max_d in
      copy_at zero_row 0
        (hold_action cfg (take (min cfg.pos_dim max_pos) rt.hold) (take dim zero_row))

  -- What the tick hands to the state machine after a failed guard.
  abbrev pub fault_input : FuseConfig F → TickInput F → ℕ → FsmInput
  fault_input cfg inp bits = record {
    trips = bits;
    predictive = false;
    warn = false;
    soft_clampable = is_project cfg.clamp;
    stopped = false;
    chunk_boundary = is_some inp.chunk;
    chunk_ok = false;
    ack = none;
  }

  -- The state as the failed guard leaves it for the machine: the last finite position is kept.
  abbrev pub fault_start : FuseConfig F → FuseRt F → TickInput F → FuseRt F
  fault_start cfg rt inp = record rt {
    pos =
        if (length inp.obs.pos == cfg.pos_dim) && all_finite inp.obs.pos
        then copy_at rt.pos 0 (take (min cfg.pos_dim max_pos) inp.obs.pos)
        else rt.pos;
    last_t = inp.obs.t;
  }

  unfoldable pub fault_tick :
      FuseConfig F → FuseRt F → TickInput F → ℕ → FuseState → FuseRt F × SafetyVerdict F
  fault_tick cfg rt0 inp bits prev_state =
      let (rt, state, extra, reason) =
        next cfg (fault_start cfg rt0 inp) (fault_input cfg inp bits) in
      let action = hold_row cfg rt in
      let v : SafetyVerdict F = record {
        seq = rt.seq;
        t = inp.obs.t;
        status = status_of state;
        state = state;
        prev_state = prev_state;
        trips = bit_or bits extra;
        action = action;
        action_dim = min cfg.dim max_d;
        action_src = ActionSource.hold;
        substituted = true;
        clamped_dims = 0;
        scores = disarmed_scores;
        tau = cfg.calib.tau;
        window = rt.window.bits;
        window_hits = Window.hits rt.window;
        brake_margin = nan;
        reason = reason;
        handoff_seq = none;
        ack_consumed = false;
        violation_reached_env = false;
      } in
      (
        record rt {
          tally = record_tick rt.tally v no_events;
          last_cmd = action;
          seq = saturating_suc u32_max rt.seq;
        },
        v,
      )

  -- What stage 6 hands to the state machine.
  unfoldable pub machine_input : FuseConfig F → FuseRt F → TickInput F → ℕ → Scores F → FsmInput
  machine_input cfg rt inp trips sc = record {
    trips = trips;
    predictive = leb cfg.hyst.k (Window.hits rt.window);
    warn = is_warned cfg sc;
    soft_clampable = is_project cfg.clamp;
    stopped = is_observe cfg.mode || le (norm rt.vel (min cfg.pos_dim max_pos)) cfg.hyst.v_stop_eps;
    chunk_boundary = is_some inp.chunk;
    chunk_ok = is_some inp.chunk && (trips == 0);
    ack = inp.ack;
  }

  -- Row idx of a buffer, in an array of max_d.
  unfoldable pub candidate_row : FuseConfig F → ChunkBuf F → ℕ → List F
  candidate_row cfg b idx =
      option (Chunk.view b) zero_row
        λ v. copy_at zero_row 0 (take (min cfg.dim max_d) (Chunk.action v idx))

  -- The action of each source.
  unfoldable pub action_of : ActionSource → FuseConfig F → FuseRt F → List F → List F → List F
  action_of ActionSource.policy cfg rt policy clamped_row = policy
  action_of ActionSource.clamped cfg rt policy clamped_row = clamped_row
  action_of ActionSource.brake cfg rt policy clamped_row =
      let n = min cfg.pos_dim max_pos in
      copy_at zero_row 0
        (brake_action cfg (take n rt.pos) (take n rt.vel) (take (min cfg.dim max_d) zero_row))
  action_of ActionSource.hold cfg rt policy clamped_row = hold_row cfg rt

  -- What the state machine did in a tick that it entered with rt and left with rt'.
  abbrev pub events :
      FuseConfig F → FuseState → FuseRt F → FuseRt F → FuseState → Scores F → TickEvents
  events cfg prev_state rt rt' state sc = record {
    entered_hold = is_held state && not (is_held prev_state);
    entered_escalated = is_escalated state && not (is_escalated prev_state);
    rearmed = not (rt'.rearms == rt.rearms);
    clamped = not (rt'.clamps == rt.clamps);
    live_z = bit_and cfg.calib.mask sc.valid;
  }

  -- Stages 6 to 8.
  unfoldable pub conclude :
      FuseConfig F → FuseState → TickInput F → Prepared F → FuseRt F × SafetyVerdict F
  conclude cfg prev_state inp (rt, trips0, moved, br, sc) =
      let policy = candidate_row cfg rt.cur inp.idx in
      let clamped_row = candidate_row cfg rt.scratch inp.idx in
      let (rt', state, extra, reason) = next cfg rt (machine_input cfg rt inp trips0 sc) in
      let observe = is_observe cfg.mode in
      let would = source_of state in
      let entered_escalated = is_escalated state && not (is_escalated prev_state) in
      let action = if observe then policy else action_of would cfg rt' policy clamped_row in
      let v : SafetyVerdict F = record {
        seq = rt'.seq;
        t = inp.obs.t;
        status = status_of state;
        state = state;
        prev_state = prev_state;
        trips = bit_or trips0 extra;
        action = action;
        action_dim = min cfg.dim max_d;
        action_src = if observe then ActionSource.policy else would;
        substituted = not observe && not (is_policy would);
        clamped_dims = moved;
        scores = sc;
        tau = cfg.calib.tau;
        window = rt'.window.bits;
        window_hits = Window.hits rt.window;
        brake_margin = br.margin;
        reason = reason;
        handoff_seq = if entered_escalated then some rt'.handoff_seq else none;
        ack_consumed = is_some inp.ack && is_ack_reason reason;
        violation_reached_env = observe && not (is_policy would);
      } in
      (
        record rt' {
          tally = record_tick rt'.tally v (events cfg prev_state rt rt' state sc);
          last_cmd = action;
          seq = saturating_suc u32_max rt'.seq;
        },
        v,
      )

  unfoldable pub decide : FuseConfig F → FuseRt F → TickInput F → FuseRt F × SafetyVerdict F
  decide cfg rt inp =
      let bits = guard cfg rt inp in
      if not (bits == 0)
      then fault_tick cfg rt inp bits rt.state
      else conclude cfg rt.state inp (prepare cfg rt inp)

  -- The tally at the end of an episode.
  unfoldable pub finish : FuseRt F → Tally F
  finish rt = let t = rt.tally in record t { terminal_state = rt.state }
