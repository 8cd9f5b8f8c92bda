-- ===== src/Runtime/Session/Replayed.antt =====
-- Two runs of a session on the same requests, with other readings of the clock:
-- crates/lictor-runtime/src/session.rs.
use lictor.Prelude.{
  ◌≡◌, refl, sym, ap, ◌∙◌, inl, inr, false, none, some, option, Option-cases, Bool-cases, leb,
  arith,
}
use lictor.Float.{Float}
use lictor.Runtime.Wire.{Request, Response, TickReq, EpisodeEndReq}
use lictor.Runtime.Session.{Session, Host, Reading}
use lictor.Runtime.Session.Tick.{tick, fold_episode, fold_pending_timing}
use lictor.Runtime.Session.Greeting.{fail}
use lictor.Runtime.Session.Closing.{episode_end}
use lictor.Runtime.Session.Handle.{id_of, dispatch, handle}
use lictor.Runtime.Session.Steps.{
  numbered, handle_stale, handle_fresh, tick_open, tick_none, end_open,
}
use lictor.Runtime.Session.Clock.{
  timeless, timeless_episode, timeless-hello, timeless-episode_begin, timeless-phantom_tick,
  timeless-open_tick,
}
use lictor.Runtime.Session.Bodies.{SignsAlike, SummaryFits}
use lictor.Runtime.Session.Marks.{
  mark, Works, mark-hello, mark-episode_begin, mark-phantom_tick, mark-write_receipt_same,
  timeless-numbered, mark-open_tick,
}

module _ {F H : Type 0} ⦃fl : Float F⦄ (host : Host F H) where
  -- Two outcomes that differ in their timing only.
  abbrev pub SameOutcome : Session F H × Response F → Session F H × Response F → Type 0
  SameOutcome a b = (timeless host a.0 ≡ timeless host b.0) × (mark a.1 ≡ mark b.1)

  tick_same :
      (now later : Reading) (s : Session F H) (t : TickReq F)
      → SameOutcome (tick host now s t) (tick host later (timeless host s) t)
  tick_same now later s t = elim (Option-cases s.ep) [
    | inl h ↦
        let k : (timeless host s).ep ≡ none =
          ap (λ o. option o none (λ ep. some (timeless_episode ep))) h in
        rw (tick_none host now s t h, tick_none host later (timeless host s) t k)
          (timeless-phantom_tick host s t, mark-phantom_tick host s t)
    | inr (ep, h) ↦
        let k : (timeless host s).ep ≡ some (timeless_episode ep) =
          ap (λ o. option o none (λ ep. some (timeless_episode ep))) h in
        rw
          (
            tick_open host now s ep t h,
            tick_open host later (timeless host s) (timeless_episode ep) t k,
          )
          (timeless-open_tick host now later s ep t h, mark-open_tick host now later s ep t h)
  ]

  end_same :
      (now later : Reading) (s : Session F H) (e : EpisodeEndReq F)
      → SignsAlike host
      → SummaryFits host
      → Works now
      → Works later
      → SameOutcome (episode_end host now s e) (episode_end host later (timeless host s) e)
  unfolding episode_end fail fold_episode
  end_same now later s e alike fits w1 w2 = elim (Option-cases s.ep) [
    | inl h ↦ rw h (refl, refl)
    | inr (ep, h) ↦
        let k : (timeless host s).ep ≡ some (timeless_episode ep) =
          ap (λ o. option o none (λ ep. some (timeless_episode ep))) h in
        (
          rw
              (
                end_open host now s ep e h,
                end_open host later (timeless host s) (timeless_episode ep) e k,
              )
              refl,
          rw (episode_end, h)
              (mark-write_receipt_same host now later (record s { ep = none; faulted = false }) ep e
                alike fits w1 w2),
        )
  ]

  dispatch_same :
      (now later : Reading) (s : Session F H) (req : Request F)
      → SignsAlike host
      → SummaryFits host
      → Works now
      → Works later
      → SameOutcome (dispatch host now s req) (dispatch host later (timeless host s) req)
  unfolding dispatch mark
  dispatch_same now later s (Request.hello h) alike fits w1 w2 =
      (timeless-hello host s h, mark-hello host s h)
  dispatch_same now later s (Request.episode_begin b) alike fits w1 w2 =
      (timeless-episode_begin host s b, mark-episode_begin host s b)
  dispatch_same now later s (Request.tick t) alike fits w1 w2 = tick_same now later s t
  dispatch_same now later s (Request.episode_end e) alike fits w1 w2 =
      end_same now later s e alike fits w1 w2
  dispatch_same now later s (Request.bye id) alike fits w1 w2 = (ground arith, refl)

  handle_same :
      (now later : Reading) (s : Session F H) (req : Request F)
      → SignsAlike host
      → SummaryFits host
      → Works now
      → Works later
      → SameOutcome (handle host now s req) (handle host later (timeless host s) req)
  unfolding fail mark fold_pending_timing fold_episode
  handle_same now later s req alike fits w1 w2 = elim (Bool-cases (leb (id_of req) s.last_id)) [
    | inl h ↦
        rw (handle_stale host now s req h, handle_stale host later (timeless host s) req h)
          (ground arith, refl)
    | inr h ↦
        let (d1, d2) = dispatch_same now later (numbered host s req) req alike fits w1 w2 in
        let (e1, e2) =
          dispatch_same later later (numbered host (timeless host s) req) req alike fits w2 w2 in
        let same = timeless-numbered host s req in
        rw (handle_fresh host now s req h, handle_fresh host later (timeless host s) req h)
          (
            d1 ∙ ap (λ x. timeless host (dispatch host later x req).0) same ∙ sym e1,
            d2 ∙ ap (λ x. mark (dispatch host later x req).1) same ∙ sym e2,
          )
  ]

  -- Two sessions that differ in their key and their timing only answer alike, and stay so.
  pub rerun_same :
      (now later : Reading) (s r : Session F H) (req : Request F)
      → SignsAlike host
      → SummaryFits host
      → Works now
      → Works later
      → timeless host s ≡ timeless host r
      → SameOutcome (handle host now s req) (handle host later r req)
  rerun_same now later s r req alike fits w1 w2 same =
      let (d1, d2) = handle_same now later s req alike fits w1 w2 in
      let (e1, e2) = handle_same later later r req alike fits w2 w2 in
      (
        d1 ∙ ap (λ x. timeless host (handle host later x req).0) same ∙ sym e1,
        d2 ∙ ap (λ x. mark (handle host later x req).1) same ∙ sym e2,
      )
