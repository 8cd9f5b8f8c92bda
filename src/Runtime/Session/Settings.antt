-- ===== src/Runtime/Session/Settings.antt =====
-- What no request changes of a session: crates/lictor-runtime/src/session.rs.
use lictor.Prelude.{◌≡◌, refl, ◌∙◌, inl, inr, List, [], ◌∷◌, arith, Bool-cases, leb}
use lictor.Float.{Float}
use lictor.Runtime.Wire.{Request, TickReq}
use lictor.Runtime.Session.{Session, Host, Reading}
use lictor.Runtime.Session.Tick.{tick, open_tick, phantom_tick, fold_pending_timing}
use lictor.Runtime.Session.Greeting.{fail, hello}
use lictor.Runtime.Session.Episodes.{episode_begin}
use lictor.Runtime.Session.Closing.{episode_end}
use lictor.Runtime.Session.Handle.{
  Event, id_of, dispatch, handle, handle_bad_line, note_io_ns, step, serve,
}
use lictor.Runtime.Session.Steps.{numbered, handle_stale, handle_fresh}

-- Two sessions with the same settings and the same bound digests.
pub record SameSettings {F H : Type 0} (a b : Session F H) : Type 0 where
  pub cfg : a.cfg ≡ b.cfg
  pub envelope_digest : a.envelope_digest ≡ b.envelope_digest

trans_lem :
    {F H : Type 0} (a b c : Session F H) → SameSettings a b → SameSettings b c → SameSettings a c
trans_lem a b c h k = record {
  cfg = h.cfg ∙ k.cfg;
  envelope_digest = h.envelope_digest ∙ k.envelope_digest;
}

module _ {F H : Type 0} ⦃fl : Float F⦄ where
  tick_same :
      (host : Host F H) (now : Reading) (s : Session F H) (t : TickReq F)
      → SameSettings (tick host now s t).0 s
  unfolding tick open_tick phantom_tick
  tick_same host now s t = record { cfg = ground arith; envelope_digest = ground arith }

  dispatch_same :
      (host : Host F H) (now : Reading) (s : Session F H) (req : Request F)
      → SameSettings (dispatch host now s req).0 s
  unfolding dispatch hello episode_begin episode_end fail
  dispatch_same host now s (Request.hello h) = record {
    cfg = ground arith;
    envelope_digest = ground arith;
  }
  dispatch_same host now s (Request.episode_begin b) = record {
    cfg = ground arith;
    envelope_digest = ground arith;
  }
  dispatch_same host now s (Request.tick t) = tick_same host now s t
  dispatch_same host now s (Request.episode_end e) = record {
    cfg = ground arith;
    envelope_digest = ground arith;
  }
  dispatch_same host now s (Request.bye id) = record { cfg = refl; envelope_digest = refl }

  handle_same :
      (host : Host F H) (now : Reading) (s : Session F H) (req : Request F)
      → SameSettings (handle host now s req).0 s
  unfolding fail fold_pending_timing
  handle_same host now s req = elim (Bool-cases (leb (id_of req) s.last_id)) [
    | inl h ↦ rw (handle_stale host now s req h) (record { cfg = refl; envelope_digest = refl })
    | inr h ↦ rw (handle_fresh host now s req h) (
        let k = dispatch_same host now (numbered host s req) req in
        record { cfg = k.cfg; envelope_digest = k.envelope_digest })
  ]

  step_same : (host : Host F H) (s : Session F H) (e : Event F) → SameSettings (step host s e) s
  unfolding step handle_bad_line note_io_ns fail fold_pending_timing
  step_same host s (Event.request now req) = handle_same host now s req
  step_same host s (Event.bad_line id) = record { cfg = refl; envelope_digest = refl }
  step_same host s (Event.flushed seq ns) = record { cfg = refl; envelope_digest = refl }

  pub serve_same :
      (host : Host F H) (s : Session F H) (es : List (Event F)) → SameSettings (serve host s es) s
  unfolding serve
  serve_same host s [] = record { cfg = refl; envelope_digest = refl }
  serve_same host s (e ∷ es) =
      trans_lem (serve host (step host s e) es) (step host s e) s
        (serve_same host (step host s e) es) (step_same host s e)
