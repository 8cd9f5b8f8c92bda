-- ===== src/Runtime/Session/Latch.antt =====
-- A faulted episode stays faulted, and moves nothing, until it ends:
-- crates/lictor-runtime/src/session.rs.
use lictor.Prelude.{
  ℕ, ◌≡◌, refl, ◌∙◌, inl, inr, Bool, true, false, List, [], ◌∷◌, All, arith, Bool-cases,
  Option-cases, leb, option,
}
use mathlib.Core.Path.{subst}
use lictor.Float.{Float}
use lictor.Core.Config.{FuseConfig}
use lictor.Runtime.Wire.{Request, Response, ErrorMsg, Code, Complaint, TickReq}
use lictor.Runtime.Session.{Session, Host, Reading, Episode}
use lictor.Runtime.Session.Tick.{open_tick, fold_pending_timing}
use lictor.Runtime.Session.Greeting.{fail, is_some}
use lictor.Runtime.Session.Handle.{
  Event, id_of, dispatch, handle, handle_bad_line, note_io_ns, step, answers,
}
use lictor.Runtime.Session.Steps.{
  numbered, handle_stale, handle_fresh, tick_open, fold_open, hello_open, begin_open,
}
use lictor.Runtime.Session.Faults.{Harmless, open_tick-Harmless, error_latches, latched}

abbrev pub is_end : {F : Type 0} → Event F → Bool
is_end (Event.request now (Request.episode_end e)) = true
is_end e = false

module _ {F H : Type 0} ⦃fl : Float F⦄ where
  -- An open episode that is faulted.
  record Latched (cfg : FuseConfig F) (s : Session F H) : Type 0 where
    begun : is_some s.ep ≡ true
    faulted : s.faulted ≡ true
    config : s.fuse_cfg ≡ cfg

  -- The session after a request, and its answer.
  abbrev Stays : FuseConfig F → Session F H × Response F → Type 0
  Stays cfg (s, r) = Latched cfg s × Harmless cfg r

  fail-Stays :
      (cfg : FuseConfig F) (s : Session F H) (id : ℕ) (code : Code) (complaint : Complaint)
      → Latched cfg s
      → Stays cfg (fail s id code complaint)
  unfolding fail
  fail-Stays cfg s id code complaint k = (
    record {
      begun = k.begun;
      faulted = latched (is_some s.ep) s.faulted k.faulted;
      config = k.config;
    },
    tt,
  )

  open_tick-Stays :
      (host : Host F H) (now : Reading) (cfg : FuseConfig F) (s : Session F H) (ep : Episode F)
      (t : TickReq F)
      → Latched cfg s
      → Stays cfg (open_tick host now s ep t)
  unfolding open_tick
  open_tick-Stays host now cfg s ep t k = (
    record { begun = refl; faulted = latched _ s.faulted k.faulted; config = k.config },
    subst (λ c. Harmless c (open_tick host now s ep t).1) k.config
        (open_tick-Harmless host now s ep t k.faulted),
  )

  dispatch-Stays :
      (host : Host F H) (now : Reading) (cfg : FuseConfig F) (s : Session F H) (req : Request F)
      → is_end (Event.request now req) ≡ false
      → Latched cfg s
      → Stays cfg (dispatch host now s req)
  unfolding dispatch
  dispatch-Stays host now cfg s (Request.hello h) e k =
      rw (hello_open s h k.begun) (fail-Stays cfg s _ _ _ k)
  dispatch-Stays host now cfg s (Request.episode_begin b) e k =
      rw (begin_open host s b k.begun) (fail-Stays cfg s _ _ _ k)
  dispatch-Stays host now cfg s (Request.tick t) e k = elim (Option-cases s.ep) [
    | inl h ↦ absurd (ground (arith, k.begun))
    | inr (ep, h) ↦ rw (tick_open host now s ep t h) (open_tick-Stays host now cfg s ep t k)
  ]
  dispatch-Stays host now cfg s (Request.episode_end x) e k = absurd (ground arith)
  dispatch-Stays host now cfg s (Request.bye id) e k = (k, tt)

  fold-Latched :
      (host : Host F H) (cfg : FuseConfig F) (s : Session F H) (id : ℕ)
      → Latched cfg s
      → Latched cfg (record (fold_pending_timing host s) { last_id = id })
  unfolding fold_pending_timing
  fold-Latched host cfg s id k = record {
    begun = fold_open host s ∙ k.begun;
    faulted = k.faulted;
    config = k.config;
  }

  handle-Stays :
      (host : Host F H) (now : Reading) (cfg : FuseConfig F) (s : Session F H) (req : Request F)
      → is_end (Event.request now req) ≡ false
      → Latched cfg s
      → Stays cfg (handle host now s req)
  unfolding fold_pending_timing
  handle-Stays host now cfg s req e k = elim (Bool-cases (leb (id_of req) s.last_id)) [
    | inl h ↦
        rw (handle_stale host now s req h)
          (fail-Stays cfg (fold_pending_timing host s) _ _ _ (fold-Latched host cfg s s.last_id k))
    | inr h ↦ rw (handle_fresh host now s req h) (
        dispatch-Stays host now cfg (numbered host s req) req e
          (fold-Latched host cfg s (id_of req) k))
  ]

  step-Latched :
      (host : Host F H) (cfg : FuseConfig F) (s : Session F H) (e : Event F)
      → is_end e ≡ false
      → Latched cfg s
      → Latched cfg (step host s e)
  unfolding step handle_bad_line note_io_ns fold_pending_timing
  step-Latched host cfg s (Event.request now req) e k = (handle-Stays host now cfg s req e k).0
  step-Latched host cfg s (Event.bad_line id) e k =
      (fail-Stays cfg (fold_pending_timing host s) (option id s.last_id (λ i. i)) Code.schema
        Complaint.bad_line (fold-Latched host cfg s s.last_id k)).0
  step-Latched host cfg s (Event.flushed seq ns) e k = record {
    begun = ground (arith, k.begun);
    faulted = k.faulted;
    config = k.config;
  }

  answers-Harmless :
      (host : Host F H) (cfg : FuseConfig F) (s : Session F H) (es : List (Event F))
      → All (λ e. is_end e ≡ false) es
      → Latched cfg s
      → All (Harmless cfg) (answers host s es)
  unfolding answers
  answers-Harmless host cfg s [] h k = tt
  answers-Harmless host cfg s (Event.request now req ∷ es) (h, hs) k = (
    (handle-Stays host now cfg s req h k).1,
    answers-Harmless host cfg (step host s (Event.request now req)) es hs
        (step-Latched host cfg s (Event.request now req) h k),
  )
  answers-Harmless host cfg s (Event.bad_line id ∷ es) (h, hs) k =
      answers-Harmless host cfg (step host s (Event.bad_line id)) es hs
        (step-Latched host cfg s (Event.bad_line id) h k)
  answers-Harmless host cfg s (Event.flushed seq ns ∷ es) (h, hs) k =
      answers-Harmless host cfg (step host s (Event.flushed seq ns)) es hs
        (step-Latched host cfg s (Event.flushed seq ns) h k)

  -- Once a request in an episode was answered with an error that leaves the episode open, then until
  -- the episode ends every verdict of the session is in Fault, carries the hold action and says that
  -- the action was substituted, whatever requests and broken lines come. The mode does not matter: in
  -- Observe mode too the robot is held.
  pub error_holds :
      (host : Host F H) (now : Reading) (s : Session F H) (req : Request F) (m : ErrorMsg)
      (es : List (Event F))
      → is_some s.ep ≡ true
      → (handle host now s req).1 ≡ Response.error m
      → is_some (handle host now s req).0.ep ≡ true
      → All (λ e. is_end e ≡ false) es
      → All
          (Harmless (handle host now s req).0.fuse_cfg)
          (answers host (handle host now s req).0 es)
  error_holds host now s req m es begun error still h =
      answers-Harmless host _ (handle host now s req).0 es h (record {
        begun = still;
        faulted = error_latches host now s req m begun error still;
        config = refl;
      })
