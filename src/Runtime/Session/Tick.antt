-- ===== src/Runtime/Session/Tick.antt =====
-- A tick of the session: `check_ack`, `tick` and the folding of the timing
-- (crates/lictor-runtime/src/session.rs).
use Prim.Native.String.{String}
use lictor.Prelude.{
  ℕ, Bool, true, false, ◌&&◌, not, Option, none, some, List, [], ◌∷◌, ◌++◌, length, map, set,
  if◌then◌else◌, option, lookup, insert, Result, ok, err,
}
use lictor.Float.{Float}
use lictor.Core.State.{FuseState, ExecMode, AckDecision, VerifiedAck, EpisodeInit}
use lictor.Core.Verdict.{SafetyVerdict}
use lictor.Fuse.Runtime
use lictor.Fuse.Decide.{decide}
use lictor.Receipt.Tick.{zero_hash, tick_event, timing_event}
use lictor.Receipt.Handoff.{AckToken, AckError, HandoffRecord, verify_ack}
use lictor.Runtime.Wire.{TickReq, AckResult, Code, Complaint, VerdictMsg, Response}
use lictor.Runtime.Staging.{Staged, stage, input}
use lictor.Runtime.Session.{Session, Host, Reading, Episode}
use lictor.Runtime.Session.Records.{handoff_record, verdict_msg}

abbrev pub error_response : {F : Type 0} → ℕ → Code → Complaint → Response F
error_response id code complaint =
    Response.error (record { id = id; code = code; complaint = complaint; fatal = true })

abbrev nth {ℓ} : {A : Type ℓ} → List A → ℕ → Option A
nth [] i = none
nth (x ∷ xs) i = elim i [ ℕ.zero ↦ some x | ℕ.suc k ↦ nth xs k ]

abbrev pub is_err : Staged → Bool
is_err (ok u) = false
is_err (err e) = true

abbrev is_escalated : FuseState → Bool
is_escalated FuseState.escalated = true
is_escalated _ = false

abbrev is_terminated : FuseState → Bool
is_terminated FuseState.terminated = true
is_terminated _ = false

abbrev decision_outcome : AckDecision → String
decision_outcome AckDecision.resume = "resumed"
decision_outcome AckDecision.abort = "aborted"
decision_outcome AckDecision.retune = "retune"

-- What the fuse and the host are told of a token.
abbrev pub answer_of : Result AckError VerifiedAck → Option VerifiedAck × Option AckResult
answer_of (ok v) = (some v, some AckResult.accepted)
answer_of (err e) = (none, some (AckResult.rejected e))

-- An accepted token's nonce is kept, whether the fuse applies the acknowledgement or not.
unfoldable pub keep_nonce :
    List (String × ℕ) → Option AckToken → Option VerifiedAck → List (String × ℕ)
keep_nonce m tok ack = option tok m (λ t. option ack m (λ a. insert m t.operator a.nonce))

abbrev phantom_init : EpisodeInit
phantom_init = record { episode_index = 0; seed = 0; delay_steps = 0; exec = ExecMode.sync }

module _ {F : Type 0} where
  -- A fault of the staging is the answer in place of the verdict.
  abbrev pub tick_response : TickReq F → Staged → VerdictMsg F → Response F
  tick_response t (err e) m = error_response t.id Code.schema (Complaint.staged e)
  tick_response t (ok u) m = Response.verdict m

  -- The digest and the number of the pending handoff.
  unfoldable pub pending_of : Option (Episode F) → Option String × ℕ
  pending_of none = (none, 0)
  pending_of (some ep) =
      option ep.pending_handoff (none, 0)
        λ i. option (nth ep.handoffs i) (none, 0) λ h. (some h.digest, h.seq)

  -- How the pending handoff is resolved by this tick, if it is.
  unfoldable pub resolution : SafetyVerdict F → Option AckToken → Option String
  resolution v ack =
      if v.ack_consumed
      then option ack none (λ a. some (decision_outcome a.decision))
      else if is_escalated v.prev_state && is_terminated v.state
      then some "timeout"
      else none

  unfoldable pub resolve_pending : SafetyVerdict F → Option AckToken → Episode F → Episode F
  unfolding resolution
  resolve_pending v ack ep = option ep.pending_handoff ep λ i.
      option (resolution v ack) ep λ outcome. record ep {
        handoffs = option (nth ep.handoffs i) ep.handoffs λ h. set ep.handoffs i (record h {
          ack = if v.ack_consumed then ack else none;
          resolved_tick = some v.t;
          outcome = outcome;
        });
        pending_handoff = none;
      }

module _ {F H : Type 0} ⦃fl : Float F⦄ where
  -- The timing of the last tick joins the timing chain.
  unfoldable pub fold_episode : Host F H → Episode F → Episode F
  unfolding timing_event
  fold_episode host ep = option ep.pending_timing ep λ p.
      let e = timing_event host.timing_digest ep.timing_head p.seq p.decide_ns p.io_ns in
      record ep { pending_timing = none; timing_head = e.hash; timing = ep.timing ++ (e ∷ []) }

  unfoldable pub fold_pending_timing : Host F H → Session F H → Session F H
  unfolding fold_episode
  fold_pending_timing host s = record s {
    ep = option s.ep none (λ ep. some (fold_episode host ep));
  }

  -- The last nonce of each listed operator.
  abbrev pub nonce_slots : Session F H → List ℕ
  nonce_slots s = map (λ o. option (lookup s.last_nonce o) 0 (λ n. n)) s.cfg.envelope.operators

  unfoldable pub check_ack :
      Host F H → Session F H → TickReq F → Option VerifiedAck × Option AckResult
  unfolding pending_of
  check_ack host s t =
      option t.ack (none, none)
        λ tok.
          let (digest, seq) = pending_of s.ep in
          answer_of
            (verify_ack host.verifies tok s.cfg.envelope.operators digest seq (nonce_slots s))

  -- A tick with no episode: an error and a reset the first time, then a schema fault each time.
  unfoldable pub phantom_tick : Host F H → Session F H → TickReq F → Session F H × Response F
  unfolding Runtime.reset
  phantom_tick host s t =
      if not s.phantom
      then (
        record s { phantom = true; fuse_rt = Runtime.reset s.fuse_rt phantom_init; faulted = true },
        error_response t.id Code.state Complaint.tick_before_begin,
      )
      else let (staging, staged) = stage s.staging s.fuse_cfg t in
        let (rt, v) = decide s.fuse_cfg s.fuse_rt (input staging t none true) in
        (
          record s { staging = staging; fuse_rt = rt },
          Response.verdict (verdict_msg t v none none 0 zero_hash),
        )

  -- The episode after the tick's event has joined the verdict chain.
  unfoldable pub chain_tick : Host F H → Episode F → SafetyVerdict F → ℕ → Episode F
  unfolding tick_event
  chain_tick host ep v decide_ns =
      let event = tick_event host.tick_digest ep.verdict_head v in
      record ep {
        verdict_head = event.hash;
        ticks = ep.ticks ++ (event ∷ []);
        pending_timing = some (record { seq = v.seq; decide_ns = decide_ns; io_ns = 0 });
      }

  -- The handoff that the verdict opens, if it does.
  unfoldable pub open_handoff :
      Host F H → Session F H → Episode F → SafetyVerdict F → Episode F × Option (HandoffRecord F)
  open_handoff host s ep v =
      option v.handoff_seq (ep, none)
        λ seq.
          let rec = handoff_record host s ep v seq ep.verdict_head in
          (
            record ep {
              handoffs = ep.handoffs ++ (rec ∷ []);
              pending_handoff = some (length ep.handoffs);
            },
            some rec,
          )

  unfoldable pub open_tick :
      Host F H → Reading → Session F H → Episode F → TickReq F → Session F H × Response F
  unfolding check_ack keep_nonce chain_tick resolve_pending open_handoff
  open_tick host now s ep t =
      let (ack, ack_result) = check_ack host s t in
      let (staging, staged) = stage s.staging s.fuse_cfg t in
      let faulted = if is_err staged then true else s.faulted in
      let (rt, v) = decide s.fuse_cfg s.fuse_rt (input staging t ack faulted) in
      let chained = resolve_pending v t.ack (chain_tick host ep v now.decide_ns) in
      let (ep', handoff) = open_handoff host s chained v in
      (
        record s {
          staging = staging;
          faulted = faulted;
          fuse_rt = rt;
          hist = host.hist_record s.hist now.decide_ns;
          last_nonce = keep_nonce s.last_nonce t.ack ack;
          ep = some ep';
        },
        tick_response t staged
            (verdict_msg t v handoff ack_result now.decide_ns chained.verdict_head),
      )

  unfoldable pub tick : Host F H → Reading → Session F H → TickReq F → Session F H × Response F
  unfolding phantom_tick open_tick
  tick host now s t = option s.ep (phantom_tick host s t) (λ ep. open_tick host now s ep t)
