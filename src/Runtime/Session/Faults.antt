-- ===== src/Runtime/Session/Faults.antt =====
-- The latch of a faulted episode: crates/lictor-runtime/src/session.rs.
use Prim.Native.String.{String}
use lictor.Prelude.{
  ℕ, ◌≡◌, refl, sym, ap, ◌∙◌, inl, inr, Bool, true, Option, take, min, if◌then◌else◌, arith, ok,
  err, Bool-cases, Option-cases, leb,
}
use lictor.Float.{Float}
use lictor.Core.State.{fault}
use lictor.Core.Chunk.{max_d}
use lictor.Core.Config.{FuseConfig}
use lictor.Core.Verdict.{ActionSource}
use lictor.Fuse.Runtime.{FuseRt}
use lictor.Fuse.Input.{TickInput}
use lictor.Fuse.Guard.{schema_broken}
use lictor.Fuse.Decide.{decide, hold_row, fault_tick, conclude}
use lictor.Fuse.Decide.Verdicts.{refused, decide_fail_closed}
use lictor.Runtime.Wire.{Request, Response, ErrorMsg, TickReq, VerdictMsg, AckResult}
use lictor.Receipt.Handoff.{HandoffRecord}
use lictor.Runtime.Staging.{Staged, input, stage}
use lictor.Runtime.Session.{Session, Host, Reading, Episode}
use lictor.Runtime.Session.Records.{verdict_msg}
use lictor.Runtime.Session.Tick.{tick, open_tick, tick_response, is_err, fold_pending_timing}
use lictor.Runtime.Session.Greeting.{fail, hello, is_some}
use lictor.Runtime.Session.Episodes.{episode_begin}
use lictor.Runtime.Session.Closing.{episode_end}
use lictor.Runtime.Session.Steps.{numbered, handle_stale, handle_fresh, tick_open, fold_open}
use lictor.Runtime.Session.Handle.{id_of, dispatch, handle}

pub latched : (a b : Bool) → b ≡ true → (if a then true else b) ≡ true
latched a b h = ground arith

pub latched_fail : (a b : Bool) → a ≡ true → (if a then true else b) ≡ true
latched_fail a b h = ground arith

module _ {F : Type 0} ⦃fl : Float F⦄ where
  -- An answer that hands on nothing of the policy: when it is a verdict, then one in Fault whose
  -- action is the hold action at a latched setpoint.
  abbrev pub Harmless : FuseConfig F → Response F → Type 0
  Harmless cfg (Response.verdict m) =
      (m.state ≡ fault)
      × (m.action_src ≡ ActionSource.hold)
      × (m.substituted ≡ true)
      × ((rt : FuseRt F) × (m.action ≡ take (min (min cfg.dim max_d) max_d) (hold_row cfg rt)))
  Harmless cfg r = Unit

  decide_dim :
      (cfg : FuseConfig F) (rt : FuseRt F) (inp : TickInput F)
      → (decide cfg rt inp).1.action_dim ≡ min cfg.dim max_d
  unfolding decide fault_tick conclude
  decide_dim cfg rt inp = ground arith

  refused_faulted :
      (cfg : FuseConfig F) (rt : FuseRt F) (inp : TickInput F)
      → inp.schema_fault ≡ true
      → refused cfg rt inp ≡ true
  unfolding schema_broken
  refused_faulted cfg rt inp h = ground arith

  message-Harmless :
      (cfg : FuseConfig F) (rt : FuseRt F) (inp : TickInput F) (t : TickReq F) (r : Staged)
      (handoff : Option (HandoffRecord F)) (ack_result : Option AckResult) (ns : ℕ) (chain : String)
      → inp.schema_fault ≡ true
      → Harmless cfg
          (tick_response t r (verdict_msg t (decide cfg rt inp).1 handoff ack_result ns chain))
  unfolding verdict_msg
  message-Harmless cfg rt inp t (err e) handoff ack_result ns chain h = tt
  message-Harmless cfg rt inp t (ok u) handoff ack_result ns chain h =
      let k = decide_fail_closed cfg rt inp (refused_faulted cfg rt inp h) in
      let dim = decide_dim cfg rt inp in
      (k.state, k.source, k.substituted, ((decide cfg rt inp).0, rw (k.action, dim) refl))

  answer_is_err :
      (t : TickReq F) (r : Staged) (msg : VerdictMsg F) (m : ErrorMsg)
      → tick_response t r msg ≡ Response.error m
      → is_err r ≡ true
  answer_is_err t (ok u) msg m e = absurd (ground arith)
  answer_is_err t (err x) msg m e = refl

module _ {F H : Type 0} ⦃fl : Float F⦄ where
  -- A tick of a faulted episode.
  pub open_tick-Harmless :
      (host : Host F H) (now : Reading) (s : Session F H) (ep : Episode F) (t : TickReq F)
      → s.faulted ≡ true
      → Harmless s.fuse_cfg (open_tick host now s ep t).1
  unfolding open_tick input
  open_tick-Harmless host now s ep t h =
      message-Harmless s.fuse_cfg s.fuse_rt _ t _ _ _ now.decide_ns _
        (latched (is_err (stage s.staging s.fuse_cfg t).1) s.faulted h)

  open_tick_latches :
      (host : Host F H) (now : Reading) (s : Session F H) (ep : Episode F) (t : TickReq F)
      (m : ErrorMsg)
      → (open_tick host now s ep t).1 ≡ Response.error m
      → (open_tick host now s ep t).0.faulted ≡ true
  unfolding open_tick
  open_tick_latches host now s ep t m e = rw (answer_is_err t _ _ m e) refl

  dispatch_latches :
      (host : Host F H) (now : Reading) (s : Session F H) (req : Request F) (m : ErrorMsg)
      → is_some s.ep ≡ true
      → (dispatch host now s req).1 ≡ Response.error m
      → is_some (dispatch host now s req).0.ep ≡ true
      → (dispatch host now s req).0.faulted ≡ true
  unfolding dispatch hello episode_begin episode_end tick fail
  dispatch_latches host now s (Request.hello h) m begun e still = ground arith
  dispatch_latches host now s (Request.episode_begin b) m begun e still = ground arith
  dispatch_latches host now s (Request.tick t) m begun e still = elim (Option-cases s.ep) [
    | inl none_open ↦ absurd (ground arith)
    | inr (ep, is_open) ↦
        let same = tick_open host now s ep t is_open in
        rw same (
          open_tick_latches host now s ep t m
            (sym (ap (λ (x : Session F H × Response F). x.1) same) ∙ e))
  ]
  dispatch_latches host now s (Request.episode_end x) m begun e still = absurd (ground arith)
  dispatch_latches host now s (Request.bye id) m begun e still = absurd (ground arith)

  -- An error that leaves the episode open has latched the fault.
  pub error_latches :
      (host : Host F H) (now : Reading) (s : Session F H) (req : Request F) (m : ErrorMsg)
      → is_some s.ep ≡ true
      → (handle host now s req).1 ≡ Response.error m
      → is_some (handle host now s req).0.ep ≡ true
      → (handle host now s req).0.faulted ≡ true
  unfolding fail
  error_latches host now s req m begun e still = elim (Bool-cases (leb (id_of req) s.last_id)) [
    | inl h ↦
        rw (handle_stale host now s req h)
          (latched_fail (is_some (fold_pending_timing host s).ep) _ (fold_open host s ∙ begun))
    | inr h ↦
        let same = handle_fresh host now s req h in
        rw same (
          dispatch_latches host now (numbered host s req) req m (fold_open host s ∙ begun)
            (sym (ap (λ (x : Session F H × Response F). x.1) same) ∙ e)
            (sym (ap (λ (x : Session F H × Response F). is_some x.0.ep) same) ∙ still))
  ]
