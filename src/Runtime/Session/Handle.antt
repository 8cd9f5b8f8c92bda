-- ===== src/Runtime/Session/Handle.antt =====
-- One request after the other: `handle`, `handle_bad_line` and `note_io_ns` of
-- crates/lictor-runtime/src/session.rs.
use lictor.Prelude.{ℕ, Option, none, some, List, [], ◌∷◌, if◌then◌else◌, leb, ◌==◌, option}
use lictor.Float.{Float}
use lictor.Runtime.Wire.{Request, Response, Code, Complaint}
use lictor.Runtime.Session.{Session, Host, Reading, Episode}
use lictor.Runtime.Session.Tick.{fold_pending_timing, tick}
use lictor.Runtime.Session.Greeting.{fail, hello}
use lictor.Runtime.Session.Episodes.{episode_begin}
use lictor.Runtime.Session.Closing.{episode_end}

abbrev pub id_of : {F : Type 0} → Request F → ℕ
id_of (Request.hello h) = h.id
id_of (Request.episode_begin b) = b.id
id_of (Request.tick t) = t.id
id_of (Request.episode_end e) = e.id
id_of (Request.bye id) = id

module _ {F H : Type 0} ⦃fl : Float F⦄ where
  unfoldable pub dispatch : Host F H → Reading → Session F H → Request F → Session F H × Response F
  dispatch host now s (Request.hello h) = hello s h
  dispatch host now s (Request.episode_begin b) = episode_begin host s b
  dispatch host now s (Request.tick t) = tick host now s t
  dispatch host now s (Request.episode_end e) = episode_end host now s e
  dispatch host now s (Request.bye id) = (s, Response.bye_ok id)

  unfoldable pub handle : Host F H → Reading → Session F H → Request F → Session F H × Response F
  unfolding fail fold_pending_timing
  handle host now s0 req =
      let s = fold_pending_timing host s0 in
      if leb (id_of req) s.last_id
      then fail s (id_of req) Code.protocol Complaint.id_not_greater
      else dispatch host now (record s { last_id = id_of req }) req

  -- A line that is no request.
  unfoldable pub handle_bad_line : Host F H → Session F H → Option ℕ → Session F H × Response F
  unfolding fail fold_pending_timing
  handle_bad_line host s0 id =
      let s = fold_pending_timing host s0 in
      fail s (option id s.last_id (λ i. i)) Code.schema Complaint.bad_line

abbrev pub noted : {F : Type 0} → ℕ → ℕ → Episode F → Episode F
noted seq ns ep =
    option ep.pending_timing ep λ p.
      if p.seq == seq then record ep { pending_timing = some (record p { io_ns = ns }) } else ep

module _ {F H : Type 0} where
  -- The time that the answer took to leave, for the timing that is pending.
  unfoldable pub note_io_ns : Session F H → ℕ → ℕ → Session F H
  note_io_ns s seq ns = record s { ep = option s.ep none (λ ep. some (noted seq ns ep)) }

-- What happens to a session: a request, a line that is none, and a flushed answer.
pub data Event (F : Type 0) : Type 0 where
  request : Reading → Request F → Event F
  bad_line : Option ℕ → Event F
  flushed : ℕ → ℕ → Event F

module _ {F H : Type 0} ⦃fl : Float F⦄ where
  unfoldable pub step : Host F H → Session F H → Event F → Session F H
  unfolding handle handle_bad_line note_io_ns
  step host s (Event.request now req) = (handle host now s req).0
  step host s (Event.bad_line id) = (handle_bad_line host s id).0
  step host s (Event.flushed seq ns) = note_io_ns s seq ns

  -- The answers to the requests among some events.
  unfoldable pub answers : Host F H → Session F H → List (Event F) → List (Response F)
  unfolding step
  answers host s [] = []
  answers host s (Event.request now req ∷ es) =
      (handle host now s req).1 ∷ answers host (step host s (Event.request now req)) es
  answers host s (e ∷ es) = answers host (step host s e) es

  -- The session after some events.
  unfoldable pub serve : Host F H → Session F H → List (Event F) → Session F H
  unfolding step
  serve host s [] = s
  serve host s (e ∷ es) = serve host (step host s e) es
