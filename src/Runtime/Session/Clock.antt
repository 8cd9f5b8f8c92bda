-- ===== src/Runtime/Session/Clock.antt =====
-- The verdicts of a session do not depend on the clock: crates/lictor-runtime/src/session.rs.
use lictor.Prelude.{
  ℕ, ◌≡◌, refl, sym, ap, ◌∙◌, inl, inr, true, Option, none, some, [], arith, option, Option-cases,
  if◌then◌else◌,
}
use lictor.Float.{Float}
use lictor.Core.Verdict.{SafetyVerdict}
use lictor.Core.State.{VerifiedAck}
use lictor.Fuse.Runtime.{FuseRt}
use lictor.Fuse.Decide.{decide}
use lictor.Receipt.Handoff.{AckToken, HandoffRecord}
use lictor.Runtime.Staging.{stage, input}
use lictor.Runtime.Wire.{AckResult, TickReq, HelloReq, EpisodeBeginReq}
use lictor.Runtime.Session.{Session, Host, Reading, Episode}
use lictor.Runtime.Session.Tick.{
  open_tick, phantom_tick, chain_tick, resolve_pending, open_handoff, check_ack, pending_of,
  resolution, keep_nonce, is_err,
}
use lictor.Runtime.Session.Records.{handoff_record}
use lictor.Runtime.Session.Greeting.{fail, hello}
use lictor.Runtime.Session.Episodes.{episode_begin}

-- An episode without its timing.
abbrev pub timeless_episode : {F : Type 0} → Episode F → Episode F
timeless_episode ep = record ep { timing_head = ""; timing = []; pending_timing = none }

module _ {F H : Type 0} ⦃fl : Float F⦄ (host : Host F H) where
  -- A session without what it owes to the clock, and without its key.
  abbrev pub timeless : Session F H → Session F H
  timeless s = record s {
    pubkey = "";
    hist = host.hist_new;
    ep = option s.ep none (λ ep. some (timeless_episode ep));
  }

  pub timeless-hello :
      (s : Session F H) (h : HelloReq) → timeless (hello s h).0 ≡ timeless (hello (timeless s) h).0
  unfolding hello fail
  timeless-hello s h = ground arith

  pub timeless-episode_begin :
      (s : Session F H) (b : EpisodeBeginReq)
      → timeless (episode_begin host s b).0 ≡ timeless (episode_begin host (timeless s) b).0
  unfolding episode_begin fail
  timeless-episode_begin s b = ground arith

  pub timeless-phantom_tick :
      (s : Session F H) (t : TickReq F)
      → timeless (phantom_tick host s t).0 ≡ timeless (phantom_tick host (timeless s) t).0
  unfolding phantom_tick
  timeless-phantom_tick s t = ground arith

  ack_timeless :
      (s : Session F H) (ep : Episode F) (t : TickReq F)
      → s.ep ≡ some ep
      → check_ack host (timeless s) t ≡ check_ack host s t
  unfolding check_ack pending_of
  ack_timeless s ep t h = rw h refl

  pub timeless-resolve_pending :
      (v : SafetyVerdict F) (ack : Option AckToken) (ep : Episode F)
      → timeless_episode (resolve_pending v ack ep) ≡ resolve_pending v ack (timeless_episode ep)
  unfolding resolve_pending
  timeless-resolve_pending v ack ep = elim (Option-cases ep.pending_handoff) [
    | inl h ↦ rw (h, resolve_pending) refl
    | inr (i, h) ↦ elim (Option-cases (resolution v ack)) [
      | inl k ↦ rw (h, resolve_pending, k) refl
      | inr (o, k) ↦ rw (h, resolve_pending, k) refl
    ]
  ]

  timeless-open_handoff :
      (s : Session F H) (ep : Episode F) (v : SafetyVerdict F)
      → timeless_episode (open_handoff host s ep v).0
        ≡ timeless_episode (open_handoff host s (timeless_episode ep) v).0
  unfolding open_handoff handoff_record
  timeless-open_handoff s ep v = elim (Option-cases v.handoff_seq) [
    | inl h ↦ rw (h, open_handoff) refl
    | inr (n, h) ↦ rw (h, open_handoff) refl
  ]

  opening_same :
      (s : Session F H) (ep : Episode F) (v : SafetyVerdict F)
      → open_handoff host s ep v ≡ open_handoff host (timeless s) ep v
  unfolding open_handoff handoff_record
  opening_same s ep v = refl

  handoff_timeless :
      (now later : ℕ) (s : Session F H) (ep : Episode F) (v : SafetyVerdict F)
      (ack : Option AckToken)
      → timeless_episode
          (open_handoff host s (resolve_pending v ack (chain_tick host ep v now)) v).0
        ≡ timeless_episode
            (open_handoff host
              (timeless s)
              (resolve_pending v ack (chain_tick host (timeless_episode ep) v later))
              v).0
  unfolding chain_tick
  handoff_timeless now later s ep v ack =
      let first = chain_tick host ep v now in
      let second = chain_tick host (timeless_episode ep) v later in
      let same : timeless_episode (resolve_pending v ack first)
          ≡ timeless_episode (resolve_pending v ack second) =
        timeless-resolve_pending v ack first ∙ sym (timeless-resolve_pending v ack second) in
      timeless-open_handoff s (resolve_pending v ack first) v
      ∙ ap (λ e. timeless_episode (open_handoff host s e v).0) same
      ∙ sym (timeless-open_handoff s (resolve_pending v ack second) v)
      ∙ ap (λ (x : Episode F × Option (HandoffRecord F)). timeless_episode x.0)
          (opening_same s (resolve_pending v ack second) v)

  -- The verdict of a tick and the fuse after it.
  abbrev pub outcome : Session F H → TickReq F → FuseRt F × SafetyVerdict F
  outcome s t =
      let (staging, staged) = stage s.staging s.fuse_cfg t in
      decide s.fuse_cfg s.fuse_rt
        (input staging t (check_ack host s t).0 (if is_err staged then true else s.faulted))

  pub outcome_timeless :
      (s : Session F H) (ep : Episode F) (t : TickReq F)
      → s.ep ≡ some ep
      → outcome (timeless s) t ≡ outcome s t
  outcome_timeless s ep t h =
      ap
        (λ a.
          let (staging, staged) = stage s.staging s.fuse_cfg t in
          decide s.fuse_cfg s.fuse_rt
            (input staging t a.0 (if is_err staged then true else s.faulted)))
        (ack_timeless s ep t h)

  -- The session after an open tick, by its parts.
  abbrev after : Session F H → TickReq F → Option VerifiedAck → FuseRt F → Episode F → Session F H
  after s t ack rt ep =
      let (staging, staged) = stage s.staging s.fuse_cfg t in
      record s {
        staging = staging;
        faulted = if is_err staged then true else s.faulted;
        fuse_rt = rt;
        pubkey = "";
        hist = host.hist_new;
        last_nonce = keep_nonce s.last_nonce t.ack ack;
        ep = some ep;
      }

  pub timeless-open_tick :
      (now later : Reading) (s : Session F H) (ep : Episode F) (t : TickReq F)
      → s.ep ≡ some ep
      → timeless (open_tick host now s ep t).0
        ≡ timeless (open_tick host later (timeless s) (timeless_episode ep) t).0
  unfolding open_tick
  timeless-open_tick now later s ep t h =
      let v = (outcome s t).1 in
      let acks = ack_timeless s ep t h in
      let outs = outcome_timeless s ep t h in
      ap (λ e. after s t (check_ack host s t).0 (outcome s t).0 e)
        (handoff_timeless now.decide_ns later.decide_ns s ep v t.ack)
      ∙ ap
          (λ (x : FuseRt F × SafetyVerdict F). after s t (check_ack host s t).0 x.0 (
            timeless_episode
              (open_handoff host (timeless s)
                (resolve_pending x.1 t.ack
                  (chain_tick host (timeless_episode ep) x.1 later.decide_ns))
                x.1).0))
          (sym outs)
      ∙ ap
          (λ (a : Option VerifiedAck × Option AckResult). after s t a.0 (outcome (timeless s) t).0 (
            timeless_episode
              (open_handoff host (timeless s)
                (resolve_pending (outcome (timeless s) t).1 t.ack (
                  chain_tick host (timeless_episode ep) (outcome (timeless s) t).1 later.decide_ns))
                (outcome (timeless s) t).1).0))
          (sym acks)
