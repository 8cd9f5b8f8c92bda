-- ===== src/Tests/Sessions.antt =====
-- Sessions at concrete requests: the theorems about the latch, the chains and the nonces.
use Prim.Native.String.{String}
use lictor.Prelude.{
  ℕ, ◌≡◌, refl, true, false, none, some, Option, List, [], ◌∷◌, ok, All, arith, option, ◌≤◌, ◌^◌,
  length,
}
use lictor.Float.Sample.{Sample, sample_float}
use lictor.Core.State.{FuseMode, AckDecision, ExecMode}
use lictor.Core.Reason.{ReasonCode}
use lictor.Core.Names.{position_from}
use lictor.Fuse.Guard.{guard}
use lictor.Fuse.Decide.{decide, fault_tick}
use lictor.Fuse.Runtime.{reset}
use lictor.Core.Chunk.{fill}
use lictor.Runtime.Staging.Faithful.{chunk_of, stage-input}
use lictor.Runtime.Staging.{
  new, stage, stage_obs, stage_chunk, check_chunk_msg, check_widths, write_rows, input, check_obs,
  copy_opt,
}
use lictor.Fuse.Fsm.{next}
use lictor.Core.Envelope.Compile.{flatten}
use lictor.Receipt.Handoff.{AckToken, HandoffRecord, verify_ack, handoff_schema}
use lictor.Runtime.Wire.{
  Request, Response, ErrorMsg, TickReq, EpisodeBeginReq, EpisodeEndReq, Code, Complaint, ChunkMsg,
}
use lictor.Runtime.Session.{Session, SessionConfig, Host, Reading, Episode, session_of}
use lictor.Runtime.Session.Tick.{
  tick, open_tick, check_ack, pending_of, fold_pending_timing, fold_episode, chain_tick,
  resolve_pending, open_handoff,
}
use lictor.Runtime.Session.Greeting.{fail, is_some}
use lictor.Runtime.Session.Episodes.{episode_begin, new_episode}
use lictor.Runtime.Session.Handle.{Event, dispatch, handle, note_io_ns, step, serve, answers}
use lictor.Runtime.Session.Faults.{Harmless}
use lictor.Runtime.Session.Latch.{error_holds}
use lictor.Runtime.Session.Chained.{Verifies, serve-Verifies}
use lictor.Runtime.Session.Nonces.{token_single_use}
use lictor.Runtime.Session.Restart.{Opened, restart-Opened}
use lictor.Tests.Setup.{n, config}
use lictor.Tests.Envelopes.{envelope, served, operator_key, no_digests}

-- A host without files, whose signatures all verify.
abbrev pub host : Host Sample ℕ
host = record {
  digest_bytes = no_digests;
  envelope_hex = λ e. "e";
  embodiment_hex = λ m. "m";
  tick_digest = λ e. String.◌∷◌ "t" e.prev;
  timing_digest = λ e. String.◌∷◌ "x" e.prev;
  handoff_digest = λ h. h.chain_at;
  verifies = λ key sig core. true;
  total_le = λ x y. sample_float.le x y;
  text_le = λ s t. true;
  hist_new = 0;
  hist_record = λ h ns. h;
  hist_summary = λ h label. record {
    n = 0;
    p50_ns = 0;
    p90_ns = 0;
    p99_ns = 0;
    p999_ns = 0;
    max_ns = 0;
    label = label;
  };
  policy_digest_of = λ c. none;
  episode_paths = λ run arm index. none;
  sign_body = λ body. some "b";
  has_key = true;
  pubkey = "k";
  saved_nonces = [];
}

abbrev pub settings : SessionConfig Sample
settings = record {
  envelope = envelope;
  envelope_toml_sha = "";
  calibration = none;
  mode = FuseMode.enforce;
  tier0_override = none;
  tier1 = true;
  ticks_policy = "tail32";
  lictor_git = "";
  lictor_sha256 = "";
  latency_label = "";
}

abbrev pub now : Reading
now = record { decide_ns = 1000; epoch = 0; ledger = none; written = none }

abbrev pub begin_with : ℕ → EpisodeBeginReq
begin_with id = record {
  id = id;
  run = record {
    run_id = "r";
    arm_id = "a";
    episode_index = 0;
    seed = 1;
    seed_pool = "";
    init_state_digest = "";
  };
  budget = record {
    delay_steps = 0;
    tick_ms = 100;
    exec_mode = ExecMode.sync;
    stitch = "";
    on_escalate = "";
  };
  binding = record { env = []; policy = []; host = [] };
  fault_injection = none;
  inputs = [];
}

abbrev pub end_with : ℕ → EpisodeEndReq Sample
end_with id = record {
  id = id;
  t = 1;
  outcome = record {
    steps = 1;
    success = false;
    terminated = false;
    truncated = false;
    max_coverage = none;
    final_coverage = none;
    reward_sum = none;
    ended_by = "fault";
  };
}

abbrev pub tick_with : ℕ → Option AckToken → TickReq Sample
tick_with id ack = record {
  id = id;
  t = 0;
  idx = 0;
  missed_ticks = 0;
  obs = record { pos = some (n 100) ∷ none ∷ []; vel = none; aux = []; ext = [] };
  chunk = none;
  ack = ack;
}

abbrev pub fresh : Session Sample ℕ
fresh = session_of host settings served

-- A session in an episode.
abbrev running : Session Sample ℕ
running = record fresh { ep = some (new_episode host fresh (begin_with 1)); last_id = 1 }

-- A chunk whose last value is null, and a tick that carries it.
abbrev message : ChunkMsg Sample
message = record {
  seq = 0;
  t_emit = 0;
  h = 3;
  d = 2;
  exec = 2;
  a =
      (some (n 1) ∷ some (n 2) ∷ [])
      ∷ (some (n 3) ∷ some (n 4) ∷ [])
      ∷ (some (n 5) ∷ none ∷ [])
      ∷ [];
}

abbrev with_chunk : TickReq Sample
with_chunk = record (tick_with 2 none) { chunk = some message }

chunk_staged : (stage new (config FuseMode.enforce) with_chunk).1 ≡ ok tt
unfolding stage new check_obs stage_chunk check_chunk_msg check_widths stage_obs fill write_rows
chunk_staged = refl

stage-input_example :
    (input (stage new (config FuseMode.enforce) with_chunk).0 with_chunk none false).chunk
    ≡ some (chunk_of message)
stage-input_example =
    stage-input new (config FuseMode.enforce) with_chunk message none false refl chunk_staged

-- A number that was used before.
abbrev stale : Request Sample
stale = Request.bye 1

abbrev stale_answer : ErrorMsg
stale_answer = record {
  id = 1;
  code = Code.protocol;
  complaint = Complaint.id_not_greater;
  fatal = true;
}

stale_refused : (handle host now running stale).1 ≡ Response.error stale_answer
unfolding handle fail session_of
stale_refused = refl

stale_open : is_some (handle host now running stale).0.ep ≡ true
unfolding handle fail fold_pending_timing fold_episode session_of
stale_open = refl

abbrev later_ticks : List (Event Sample)
later_ticks =
    Event.request now (Request.tick (tick_with 2 none))
    ∷ Event.bad_line none
    ∷ Event.request now (Request.tick (tick_with 3 none))
    ∷ []

error_holds_example :
    All
      (Harmless (handle host now running stale).0.fuse_cfg)
      (answers host (handle host now running stale).0 later_ticks)
error_holds_example =
    error_holds host now running stale stale_answer later_ticks refl stale_refused stale_open
      (refl, (refl, (refl, tt)))

restart-Opened_example : Opened (begin_with 3) (
    handle host now
      (handle host now running (Request.episode_end (end_with 2))).0
      (Request.episode_begin (begin_with 3)))
unfolding session_of
restart-Opened_example =
    restart-Opened host now now running (new_episode host fresh (begin_with 1)) (end_with 2)
      (begin_with 3) refl (omega arith) (omega arith) refl

-- A handoff that waits for its answer.
abbrev waiting : HandoffRecord Sample
waiting = record {
  schema = handoff_schema;
  run_id = "r";
  arm_id = "a";
  episode_index = 0;
  seq = 7;
  tick = 1;
  reason = ReasonCode.escalate_hold_timeout;
  reason_text = "";
  reasons = [];
  trips = 0;
  fired = 0;
  window_hits = 0;
  top_z = [];
  chain_at = "d";
  envelope_digest = "e";
  calibration_digest = none;
  digest = "d";
  ack = none;
  resolved_tick = none;
  outcome = "unacked";
}

abbrev token : AckToken
token = record {
  schema = handoff_schema;
  handoff_digest = "d";
  decision = AckDecision.resume;
  operator = operator_key;
  nonce = 5;
  note = "go on";
  sig = "s";
}

abbrev escalated_episode : Episode Sample
escalated_episode = record (new_episode host fresh (begin_with 1)) {
  handoffs = waiting ∷ [];
  pending_handoff = some 0;
}

abbrev asking : Session Sample ℕ
asking = record running { ep = some escalated_episode }

token_accepted :
    (check_ack host asking (tick_with 2 (some token))).0
    ≡ some (record { decision = AckDecision.resume; operator_slot = 0; nonce = 5; handoff_seq = 7 })
unfolding check_ack verify_ack pending_of position_from session_of new_episode
token_accepted = refl

token_single_use_example :
    (check_ack host
      (serve host (tick host now asking (tick_with 2 (some token))).0 later_ticks)
      (tick_with 9 (some token))).0
    ≡ none
token_single_use_example =
    token_single_use host now asking escalated_episode (tick_with 2 (some token)) token
      (record { decision = AckDecision.resume; operator_slot = 0; nonce = 5; handoff_seq = 7 })
      later_ticks (tick_with 9 (some token)) refl refl token_accepted refl

abbrev pub one_tick : List (Event Sample)
one_tick =
    Event.request now (Request.episode_begin (begin_with 1))
    ∷ Event.request now (Request.tick (tick_with 2 none))
    ∷ Event.flushed 0 500
    ∷ Event.request now (Request.bye 3)
    ∷ []

abbrev pub ticked : Episode Sample
ticked = option (serve host fresh one_tick).ep (new_episode host fresh (begin_with 1)) (λ ep. ep)

pub ticked_open : (serve host fresh one_tick).ep ≡ some ticked
unfolding serve step handle note_io_ns dispatch fold_pending_timing fold_episode episode_begin
    new_episode tick open_tick chain_tick resolve_pending open_handoff session_of check_ack
ticked_open = refl

pub ticked_length : length ticked.ticks ≡ 1
unfolding serve step handle note_io_ns dispatch fold_pending_timing fold_episode episode_begin
    new_episode tick open_tick chain_tick resolve_pending open_handoff session_of check_ack decide
    guard fault_tick reset stage stage_obs input flatten check_obs copy_opt next
ticked_length = refl

ticked_short : length ticked.ticks ≤ 2 ^ 32
ticked_short = omega (arith, ticked_length)

serve-Verifies_example : Verifies host ticked
unfolding session_of
serve-Verifies_example = serve-Verifies host fresh one_tick ticked refl ticked_open ticked_short
