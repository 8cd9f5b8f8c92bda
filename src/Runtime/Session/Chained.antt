-- ===== src/Runtime/Session/Chained.antt =====
-- The chains of an episode verify, however the session came there:
-- crates/lictor-runtime/src/session.rs with crates/lictor-receipt/src/tick.rs.
use lictor.Prelude.{
  ℕ, ◌^◌, ◌≤◌, ◌≡◌, refl, sym, ◌∙◌, inl, inr, true, false, Option, none, some, List, [], ◌∷◌,
  length, arith, Bool-cases, Option-cases, leb, ◌==◌, option, u32_max, saturating_suc,
}
use mathlib.Core.Path.{subst}
use lictor.Float.{Float}
use lictor.Core.State.{EpisodeInit}
use lictor.Core.Verdict.{SafetyVerdict}
use lictor.Receipt.Handoff.{AckToken}
use lictor.Fuse.Runtime.{FuseRt, reset}
use lictor.Fuse.Decide.Sequence.{decide_seq}
use lictor.Fuse.Episode.Counts.{decide_ticks}
use lictor.Receipt.Tick.{
  zero_hash, tick_links, timing_links, verify_tick_chain, verify_timing_chain,
}
use lictor.Receipt.Tick.Chain.{walk-from_zero}
use lictor.Runtime.Wire.{Request, TickReq, EpisodeBeginReq, HelloReq, EpisodeEndReq}
use lictor.Runtime.Session.{Session, Host, Reading, Episode, PendingTiming}
use lictor.Runtime.Session.Tick.{
  tick, open_tick, phantom_tick, fold_episode, fold_pending_timing, chain_tick, resolve_pending,
  open_handoff,
}
use lictor.Runtime.Session.Greeting.{fail, hello, is_some}
use lictor.Runtime.Session.Episodes.{episode_begin, init_of, new_episode, weights_differ}
use lictor.Runtime.Session.Closing.{episode_end}
use lictor.Runtime.Session.Handle.{
  Event, id_of, dispatch, handle, handle_bad_line, note_io_ns, noted, step, serve,
}
use lictor.Runtime.Session.Steps.{
  numbered, handle_stale, handle_fresh, tick_open, tick_none, begin_open, begin_refused, hello_same,
  phantom_ep,
}
use lictor.Runtime.Session.Chains.{
  IsPending, IsRecorded, fold-none, fold-IsRecorded, tick-IsRecorded, resolve-same,
  open_handoff-same, same-IsRecorded,
}

timed_le :
    (o : Option PendingTiming) (timed ticked : ℕ)
    → ticked ≤ 2 ^ 32
    → IsPending o timed ticked
    → timed ≤ 2 ^ 32
timed_le none timed ticked h k = omega arith
timed_le (some p) timed ticked h (last, number) = omega arith

module _ {F : Type 0} where
  noted-none : (seq ns : ℕ) (ep : Episode F) → ep.pending_timing ≡ none → noted seq ns ep ≡ ep
  noted-none seq ns ep h = rw h refl

  noted_same :
      (seq ns : ℕ) (ep : Episode F) (p : PendingTiming)
      → ep.pending_timing ≡ some p
      → (p.seq == seq) ≡ false
      → noted seq ns ep ≡ ep
  noted_same seq ns ep p h e = rw (h, e) refl

module _ {F H : Type 0} ⦃fl : Float F⦄ where
  -- The chains of the open episode, if there is one.
  abbrev Recorded : Host F H → FuseRt F → Option (Episode F) → Type 0
  Recorded host rt none = Unit
  Recorded host rt (some ep) = IsRecorded host rt ep

  -- And no timing is pending, as it is once a request has begun.
  abbrev Settled : Host F H → FuseRt F → Option (Episode F) → Type 0
  Settled host rt none = Unit
  Settled host rt (some ep) = IsRecorded host rt ep × (ep.pending_timing ≡ none)

  settle :
      (host : Host F H) (rt : FuseRt F) (o : Option (Episode F))
      → Recorded host rt o
      → Settled host rt (option o none (λ ep. some (fold_episode host ep)))
  settle host rt none k = tt
  settle host rt (some ep) k = (fold-IsRecorded host rt ep k, fold-none host ep)

  weaken_lem :
      (host : Host F H) (rt : FuseRt F) (o : Option (Episode F))
      → Settled host rt o
      → Recorded host rt o
  weaken_lem host rt none k = tt
  weaken_lem host rt (some ep) k = k.0

  -- A session whose open episode is recorded.
  abbrev Kept : Host F H → Session F H → Type 0
  Kept host s = Recorded host s.fuse_rt s.ep

  event-Kept :
      (host : Host F H) (s : Session F H) (rt : FuseRt F) (out : FuseRt F × SafetyVerdict F)
      (ep : Episode F) (ack : Option AckToken) (ns : ℕ)
      → (out.1.seq ≡ rt.seq) × (out.0.seq ≡ saturating_suc u32_max rt.seq)
      → out.0.tally.ticks ≡ saturating_suc u32_max rt.tally.ticks
      → Settled host rt (some ep)
      → IsRecorded host out.0
          (open_handoff host s (resolve_pending out.1 ack (chain_tick host ep out.1 ns)) out.1).0
  event-Kept host s rt (rt', v) ep ack ns (same, next) once (k, none_pending) =
      let chained = chain_tick host ep v ns in
      let resolved = resolve_pending v ack chained in
      same-IsRecorded host rt' (open_handoff host s resolved v).0 resolved
        (open_handoff-same host s resolved v)
        (same-IsRecorded host rt' resolved chained (resolve-same v ack chained)
          (tick-IsRecorded host rt rt' ep v ns same next once none_pending k))

  open_tick-Kept :
      (host : Host F H) (now : Reading) (s : Session F H) (ep : Episode F) (t : TickReq F)
      → Settled host s.fuse_rt (some ep)
      → Kept host (open_tick host now s ep t).0
  unfolding open_tick
  open_tick-Kept host now s ep t k =
      event-Kept host s s.fuse_rt _ ep t.ack now.decide_ns (decide_seq s.fuse_cfg s.fuse_rt _)
        (decide_ticks s.fuse_cfg s.fuse_rt _) k

  tick-Kept :
      (host : Host F H) (now : Reading) (s : Session F H) (t : TickReq F)
      → Settled host s.fuse_rt s.ep
      → Kept host (tick host now s t).0
  tick-Kept host now s t k = elim (Option-cases s.ep) [
    | inl h ↦ rw (tick_none host now s t h) (
        subst (λ o. Recorded host (phantom_tick host s t).0.fuse_rt o)
          (sym (phantom_ep host s t ∙ h)) tt)
    | inr (ep, h) ↦
        rw (tick_open host now s ep t h)
          (open_tick-Kept host now s ep t (subst (λ o. Settled host s.fuse_rt o) h k))
  ]

  new-IsRecorded :
      (host : Host F H) (s : Session F H) (b : EpisodeBeginReq) (rt : FuseRt F) (init : EpisodeInit)
      → IsRecorded host (reset rt init) (new_episode host s b)
  unfolding new_episode reset
  new-IsRecorded host s b rt init = record {
    numbered = omega arith;
    counted = omega arith;
    ticks = λ h. refl;
    timing = λ h. refl;
    pending = refl;
  }

  begin-Kept :
      (host : Host F H) (s : Session F H) (b : EpisodeBeginReq)
      → Kept host s
      → Kept host (episode_begin host s b).0
  unfolding episode_begin fail
  begin-Kept host s b k = elim (Bool-cases (is_some s.ep)) [
    | inl h ↦ rw (begin_open host s b h) k
    | inr h ↦ elim (Bool-cases (weights_differ s b)) [
      | inl w ↦ rw (begin_refused host s b h w) k
      | inr w ↦ rw (episode_begin, h, w) (new-IsRecorded host s b s.fuse_rt (init_of b))
    ]
  ]

  hello-Kept :
      (host : Host F H) (s : Session F H) (h : HelloReq) → Kept host s → Kept host (hello s h).0
  hello-Kept host s h k =
      let (ep, rt) = hello_same s h in
      subst (λ o. Recorded host (hello s h).0.fuse_rt o) (sym ep)
        (subst (λ r. Recorded host r s.ep) (sym rt) k)

  end-Kept :
      (host : Host F H) (now : Reading) (s : Session F H) (e : EpisodeEndReq F)
      → Kept host (episode_end host now s e).0
  unfolding episode_end fail
  end-Kept host now s e = elim (Option-cases s.ep) [ inl h ↦ rw h tt | inr (ep, h) ↦ rw h tt ]

  dispatch-Kept :
      (host : Host F H) (now : Reading) (s : Session F H) (req : Request F)
      → Settled host s.fuse_rt s.ep
      → Kept host (dispatch host now s req).0
  unfolding dispatch
  dispatch-Kept host now s (Request.hello h) k =
      hello-Kept host s h (weaken_lem host s.fuse_rt s.ep k)
  dispatch-Kept host now s (Request.episode_begin b) k =
      begin-Kept host s b (weaken_lem host s.fuse_rt s.ep k)
  dispatch-Kept host now s (Request.tick t) k = tick-Kept host now s t k
  dispatch-Kept host now s (Request.episode_end e) k = end-Kept host now s e
  dispatch-Kept host now s (Request.bye id) k = weaken_lem host s.fuse_rt s.ep k

  handle-Kept :
      (host : Host F H) (now : Reading) (s : Session F H) (req : Request F)
      → Kept host s
      → Kept host (handle host now s req).0
  unfolding fail fold_pending_timing
  handle-Kept host now s req k =
      let settled = settle host s.fuse_rt s.ep k in
      elim (Bool-cases (leb (id_of req) s.last_id)) [
        | inl h ↦ rw (handle_stale host now s req h) (weaken_lem host s.fuse_rt _ settled)
        | inr h ↦
            rw (handle_fresh host now s req h)
              (dispatch-Kept host now (numbered host s req) req settled)
      ]

  noted-Recorded :
      (host : Host F H) (rt : FuseRt F) (seq ns : ℕ) (o : Option (Episode F))
      → Recorded host rt o
      → Recorded host rt (option o none (λ ep. some (noted seq ns ep)))
  noted-Recorded host rt seq ns none k = tt
  noted-Recorded host rt seq ns (some ep) k = elim (Option-cases ep.pending_timing) [
    | inl h ↦ subst (λ x. IsRecorded host rt x) (sym (noted-none seq ns ep h)) k
    | inr (p, h) ↦ elim (Bool-cases (p.seq == seq)) [
      | inl e ↦
          rw (h, e)
            (record {
              numbered = k.numbered;
              counted = k.counted;
              ticks = k.ticks;
              timing = k.timing;
              pending = subst (λ o. IsPending o (length ep.timing) (length ep.ticks)) h k.pending;
            })
      | inr e ↦ subst (λ x. IsRecorded host rt x) (sym (noted_same seq ns ep p h e)) k
    ]
  ]

  step-Kept :
      (host : Host F H) (s : Session F H) (e : Event F) → Kept host s → Kept host (step host s e)
  unfolding step handle_bad_line note_io_ns fail fold_pending_timing
  step-Kept host s (Event.request now req) k = handle-Kept host now s req k
  step-Kept host s (Event.bad_line id) k =
      weaken_lem host s.fuse_rt _ (settle host s.fuse_rt s.ep k)
  step-Kept host s (Event.flushed seq ns) k = noted-Recorded host s.fuse_rt seq ns s.ep k

  serve-Kept :
      (host : Host F H) (s : Session F H) (es : List (Event F))
      → Kept host s
      → Kept host (serve host s es)
  unfolding serve
  serve-Kept host s [] k = k
  serve-Kept host s (e ∷ es) k = serve-Kept host (step host s e) es (step-Kept host s e k)

  pub serve-IsRecorded :
      (host : Host F H) (s : Session F H) (es : List (Event F)) (ep : Episode F)
      → s.ep ≡ none
      → (serve host s es).ep ≡ some ep
      → IsRecorded host (serve host s es).fuse_rt ep
  serve-IsRecorded host s es ep start now =
      subst (λ o. Recorded host (serve host s es).fuse_rt o) now
        (serve-Kept host s es (subst (λ o. Recorded host s.fuse_rt o) (sym start) tt))

  -- Both chains verify, and end in the heads that the episode keeps.
  pub record Verifies (host : Host F H) (ep : Episode F) : Type 0 where
    pub ticks_ok : (verify_tick_chain host.tick_digest ep.ticks zero_hash).ok ≡ true
    pub ticks_head : (verify_tick_chain host.tick_digest ep.ticks zero_hash).head ≡ ep.verdict_head
    pub timing_ok : (verify_timing_chain host.timing_digest ep.timing).ok ≡ true
    pub timing_head : (verify_timing_chain host.timing_digest ep.timing).head ≡ ep.timing_head

  -- From a session with no episode, after any requests, broken lines and flushed answers: both chains
  -- of the open episode verify from the zero hash and end in the heads that the episode keeps, as
  -- long as it has at most 2^32 ticks.
  pub serve-Verifies :
      (host : Host F H) (s : Session F H) (es : List (Event F)) (ep : Episode F)
      → s.ep ≡ none
      → (serve host s es).ep ≡ some ep
      → length ep.ticks ≤ 2 ^ 32
      → Verifies host ep
  unfolding verify_tick_chain verify_timing_chain
  serve-Verifies host s es ep start now fits =
      let k = serve-IsRecorded host s es ep start now in
      let (ticks_ok, ticks_head) =
        walk-from_zero (tick_links host.tick_digest) ep.ticks zero_hash ep.verdict_head
          (k.ticks fits) in
      let (timing_ok, timing_head) =
        walk-from_zero (timing_links host.timing_digest) ep.timing zero_hash ep.timing_head (
          k.timing
            (timed_le ep.pending_timing (length ep.timing) (length ep.ticks) fits k.pending)) in
      record {
        ticks_ok = ticks_ok;
        ticks_head = ticks_head;
        timing_ok = timing_ok;
        timing_head = timing_head;
      }
