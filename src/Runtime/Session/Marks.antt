-- ===== src/Runtime/Session/Marks.antt =====
-- The answers of a session do not depend on the clock either, so that a request trace can be replayed:
-- crates/lictor-runtime/src/session.rs with crates/lictor-cli/src/cmd/replay.rs.
use Prim.Native.String.{String}
use lictor.Prelude.{
  ℕ, ◌≡◌, refl, sym, ap, ◌∙◌, inl, inr, Option, none, some, arith, Option-cases, ok, err, Bool,
  true, false, ◌<◌, ◌^◌,
}
use lictor.Float.{Float}
use lictor.Core.Verdict.{Status, SafetyVerdict}
use lictor.Fuse.Runtime.{FuseRt}
use lictor.Runtime.Staging.{Staged, stage}
use lictor.Runtime.Wire.{
  Request, Response, ErrorMsg, TickReq, HelloReq, EpisodeBeginReq, EpisodeEndReq, VerdictMsg, Code,
  Complaint,
}
use lictor.Runtime.Session.{Session, Host, Reading, Episode}
use lictor.Runtime.Session.Records.{verdict_msg}
use lictor.Runtime.Session.Tick.{
  open_tick, phantom_tick, fold_pending_timing, fold_episode, chain_tick, resolve_pending,
  tick_response,
}
use lictor.Runtime.Session.Greeting.{fail, hello, is_some}
use lictor.Runtime.Session.Episodes.{episode_begin}
use lictor.Runtime.Session.Closing.{write_receipt, receipt_body}
use lictor.Runtime.Session.Bodies.{SignsAlike, SummaryFits, body-Timed, body-untimed}
use lictor.Runtime.Session.Steps.{numbered}
use lictor.Runtime.Session.Clock.{
  timeless, timeless_episode, outcome, outcome_timeless, timeless-resolve_pending,
}

-- What a replay keeps of an answer.
pub data Mark : Type 0 where
  verdict : Status → ℕ → ℕ → String → Mark
  head : String → Mark
  failed : ErrorMsg → Mark
  other : Mark

unfoldable pub mark : {F : Type 0} → Response F → Mark
mark (Response.verdict v) = Mark.verdict v.status v.t v.seq v.chain
mark (Response.episode_receipt m) = Mark.head m.verdict_chain_head
mark (Response.error e) = Mark.failed e
mark (Response.hello_ok m) = Mark.other
mark (Response.episode_ok id state seq) = Mark.other
mark (Response.bye_ok id) = Mark.other

-- The disk answers each time, and the date is an integer that the canonical form carries.
pub record Works (now : Reading) : Type 0 where
  pub entry : Option String
  pub read : now.ledger ≡ some entry
  pub appended : ℕ × String
  pub wrote : now.written ≡ some appended
  pub dated : now.epoch < 2 ^ 53

-- The mark of an answer to a signed body, or to one that could not be signed.
abbrev pub signed_mark : Bool → ℕ → String → Mark
signed_mark true id chain_head = Mark.head chain_head
signed_mark false id chain_head =
    Mark.failed
      (record { id = id; code = Code.internal; complaint = Complaint.sign_failed; fatal = true })

module _ {F H : Type 0} ⦃fl : Float F⦄ (host : Host F H) where
  pub mark-hello :
      (s : Session F H) (h : HelloReq) → mark (hello s h).1 ≡ mark (hello (timeless host s) h).1
  unfolding hello fail mark
  mark-hello s h = ground arith

  pub mark-episode_begin :
      (s : Session F H) (b : EpisodeBeginReq)
      → mark (episode_begin host s b).1 ≡ mark (episode_begin host (timeless host s) b).1
  unfolding episode_begin fail mark
  mark-episode_begin s b = ground arith

  pub mark-phantom_tick :
      (s : Session F H) (t : TickReq F)
      → mark (phantom_tick host s t).1 ≡ mark (phantom_tick host (timeless host s) t).1
  unfolding phantom_tick mark verdict_msg
  mark-phantom_tick s t = ground arith

  -- When the disk answers, only the signature decides.
  mark-write_receipt :
      (now : Reading) (s : Session F H) (ep : Episode F) (e : EpisodeEndReq F)
      → Works now
      → (prev : Option String) × (mark (write_receipt host now s ep e)
          ≡ signed_mark
              (is_some (host.sign_body (receipt_body host now s ep e prev)))
              e.id
              ep.verdict_head)
  unfolding write_receipt mark
  mark-write_receipt now s ep e works = elim (Option-cases ep.paths) [
    | inl h ↦ (none, ground (arith, h))
    | inr (p, h) ↦
        let read = works.read in
        let wrote = works.wrote in (works.entry, ground (arith, h, read, wrote))
  ]

  fold_head : (ep : Episode F) → (fold_episode host ep).verdict_head ≡ ep.verdict_head
  unfolding fold_episode
  fold_head ep = ground arith

  -- The receipt of an episode is signed, or not, whatever the clock says.
  pub mark-write_receipt_same :
      (now later : Reading) (s : Session F H) (ep : Episode F) (e : EpisodeEndReq F)
      → SignsAlike host
      → SummaryFits host
      → Works now
      → Works later
      → mark (write_receipt host now s (fold_episode host ep) e)
        ≡ mark (write_receipt host later (timeless host s) (timeless_episode ep) e)
  mark-write_receipt_same now later s ep e alike fits w1 w2 =
      let (p, left) = mark-write_receipt now s (fold_episode host ep) e w1 in
      let (q, right) = mark-write_receipt later (timeless host s) (timeless_episode ep) e w2 in
      let body = receipt_body host now s (fold_episode host ep) e p in
      left
      ∙ ap (λ h. signed_mark (is_some (host.sign_body body)) e.id h) (fold_head ep)
      ∙ ap (λ b. signed_mark b e.id ep.verdict_head)
          (alike _ _ (body-Timed host now s (fold_episode host ep) e p fits w1.dated)
            (body-Timed host later (timeless host s) (timeless_episode ep) e q fits w2.dated)
            (body-untimed host now later s ep e p q))
      ∙ sym right

  pub timeless-numbered :
      (s : Session F H) (req : Request F)
      → timeless host (numbered host s req) ≡ timeless host (numbered host (timeless host s) req)
  unfolding fold_pending_timing fold_episode
  timeless-numbered s req = ground arith

  -- The head of the chain after a tick, before the handoff.
  chained_head :
      (now later : ℕ) (ep : Episode F) (v : SafetyVerdict F) (t : TickReq F)
      → (resolve_pending v t.ack (chain_tick host ep v now)).verdict_head
        ≡ (resolve_pending v t.ack (chain_tick host (timeless_episode ep) v later)).verdict_head
  unfolding chain_tick
  chained_head now later ep v t =
      ap (λ (x : Episode F). x.verdict_head)
        (timeless-resolve_pending host v t.ack (chain_tick host ep v now)
          ∙ sym (
              timeless-resolve_pending host v t.ack
                (chain_tick host (timeless_episode ep) v later)))

  abbrev answer_mark : TickReq F → Staged → SafetyVerdict F → String → Mark
  answer_mark t (err e) v chain = mark (tick_response t (err e) (verdict_msg t v none none 0 chain))
  answer_mark t (ok u) v chain = Mark.verdict v.status v.t v.seq chain

  mark-tick_response :
      (t : TickReq F) (staged : Staged) (v : SafetyVerdict F) (m : VerdictMsg F) (chain : String)
      → m.status ≡ v.status
      → m.t ≡ v.t
      → m.seq ≡ v.seq
      → m.chain ≡ chain
      → mark (tick_response t staged m) ≡ answer_mark t staged v chain
  unfolding mark
  mark-tick_response t (err e) v m chain a b c d = refl
  mark-tick_response t (ok u) v m chain a b c d = cc

  pub mark-open_tick :
      (now later : Reading) (s : Session F H) (ep : Episode F) (t : TickReq F)
      → s.ep ≡ some ep
      → mark (open_tick host now s ep t).1
        ≡ mark (open_tick host later (timeless host s) (timeless_episode ep) t).1
  unfolding open_tick verdict_msg
  mark-open_tick now later s ep t h =
      let (staging, staged) = stage s.staging s.fuse_cfg t in
      let v = (outcome host s t).1 in
      let v' = (outcome host (timeless host s) t).1 in
      let same : v ≡ v' =
        sym (ap (λ (x : FuseRt F × SafetyVerdict F). x.1) (outcome_timeless host s ep t h)) in
      mark-tick_response t staged v _ _ refl refl refl refl
      ∙ ap (λ c. answer_mark t staged v c) (chained_head now.decide_ns later.decide_ns ep v t)
      ∙ ap
          (λ (x : SafetyVerdict F).
            answer_mark t staged x
              (resolve_pending x t.ack
                (chain_tick host (timeless_episode ep) x later.decide_ns)).verdict_head)
          same
      ∙ sym (mark-tick_response t staged v' _ _ refl refl refl refl)
