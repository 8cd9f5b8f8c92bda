-- ===== src/Runtime/Session/Steps.antt =====
-- How a request goes, case by case: `handle` and `tick` of crates/lictor-runtime/src/session.rs.
use lictor.Prelude.{◌≡◌, refl, true, false, none, some, leb, arith}
use lictor.Float.{Float}
use lictor.Fuse.Runtime.{reset}
use lictor.Runtime.Staging
use lictor.Runtime.Wire.{
  Request, Response, Code, Complaint, TickReq, HelloReq, EpisodeBeginReq, EpisodeEndReq,
}
use lictor.Runtime.Session.{Session, Host, Reading, Episode}
use lictor.Runtime.Session.Tick.{error_response, tick, open_tick, phantom_tick, fold_pending_timing}
use lictor.Runtime.Session.Greeting.{fail, hello, is_some}
use lictor.Runtime.Session.Episodes.{episode_begin, init_of, new_episode, weights_differ}
use lictor.Runtime.Session.Closing.{episode_end}
use lictor.Runtime.Session.Handle.{id_of, dispatch, handle}

module _ {F H : Type 0} ⦃fl : Float F⦄ where
  -- The session that a request with a new number is handed to.
  abbrev pub numbered : Host F H → Session F H → Request F → Session F H
  numbered host s req = record (fold_pending_timing host s) { last_id = id_of req }

  pub handle_stale :
      (host : Host F H) (now : Reading) (s : Session F H) (req : Request F)
      → leb (id_of req) s.last_id ≡ true
      → handle host now s req
        ≡ fail (fold_pending_timing host s) (id_of req) Code.protocol Complaint.id_not_greater
  unfolding handle fold_pending_timing
  handle_stale host now s req h = rw h refl

  pub handle_fresh :
      (host : Host F H) (now : Reading) (s : Session F H) (req : Request F)
      → leb (id_of req) s.last_id ≡ false
      → handle host now s req ≡ dispatch host now (numbered host s req) req
  unfolding handle fold_pending_timing
  handle_fresh host now s req h = rw h refl

  pub tick_open :
      (host : Host F H) (now : Reading) (s : Session F H) (ep : Episode F) (t : TickReq F)
      → s.ep ≡ some ep
      → tick host now s t ≡ open_tick host now s ep t
  unfolding tick
  tick_open host now s ep t h = rw h refl

  pub tick_none :
      (host : Host F H) (now : Reading) (s : Session F H) (t : TickReq F)
      → s.ep ≡ none
      → tick host now s t ≡ phantom_tick host s t
  unfolding tick
  tick_none host now s t h = rw h refl

  pub fold_open :
      (host : Host F H) (s : Session F H) → is_some (fold_pending_timing host s).ep ≡ is_some s.ep
  unfolding fold_pending_timing
  fold_open host s = ground arith

  pub hello_open :
      (s : Session F H) (h : HelloReq)
      → is_some s.ep ≡ true
      → hello s h ≡ fail s h.id Code.state Complaint.hello_in_episode
  unfolding hello
  hello_open s h k = rw k refl

  pub begin_open :
      (host : Host F H) (s : Session F H) (b : EpisodeBeginReq)
      → is_some s.ep ≡ true
      → episode_begin host s b ≡ fail s b.id Code.state Complaint.episode_is_open
  unfolding episode_begin
  begin_open host s b k = rw k refl

  pub begin_refused :
      (host : Host F H) (s : Session F H) (b : EpisodeBeginReq)
      → is_some s.ep ≡ false
      → weights_differ s b ≡ true
      → episode_begin host s b ≡ (s, error_response b.id Code.envelope Complaint.weights_differ)
  unfolding episode_begin
  begin_refused host s b h k = rw (h, k) refl

  -- A greeting touches neither the fuse nor the episode.
  pub hello_same :
      (s : Session F H) (h : HelloReq)
      → ((hello s h).0.ep ≡ s.ep) × ((hello s h).0.fuse_rt ≡ s.fuse_rt)
  unfolding hello fail
  hello_same s h = ground arith

  pub phantom_ep :
      (host : Host F H) (s : Session F H) (t : TickReq F) → (phantom_tick host s t).0.ep ≡ s.ep
  unfolding phantom_tick
  phantom_ep host s t = ground arith

  -- Only a tick of an open episode changes the nonces that are kept.
  pub hello_nonces : (s : Session F H) (h : HelloReq) → (hello s h).0.last_nonce ≡ s.last_nonce
  unfolding hello fail
  hello_nonces s h = ground arith

  pub begin_nonces :
      (host : Host F H) (s : Session F H) (b : EpisodeBeginReq)
      → (episode_begin host s b).0.last_nonce ≡ s.last_nonce
  unfolding episode_begin fail
  begin_nonces host s b = ground arith

  pub end_nonces :
      (host : Host F H) (now : Reading) (s : Session F H) (e : EpisodeEndReq F)
      → (episode_end host now s e).0.last_nonce ≡ s.last_nonce
  unfolding episode_end fail
  end_nonces host now s e = ground arith

  pub phantom_nonces :
      (host : Host F H) (s : Session F H) (t : TickReq F)
      → (phantom_tick host s t).0.last_nonce ≡ s.last_nonce
  unfolding phantom_tick
  phantom_nonces host s t = ground arith

  pub end_open :
      (host : Host F H) (now : Reading) (s : Session F H) (ep : Episode F) (e : EpisodeEndReq F)
      → s.ep ≡ some ep
      → (episode_end host now s e).0 ≡ record s { ep = none; faulted = false }
  unfolding episode_end
  end_open host now s ep e h = rw h refl

  pub begin_new :
      (host : Host F H) (s : Session F H) (b : EpisodeBeginReq)
      → is_some s.ep ≡ false
      → weights_differ s b ≡ false
      → episode_begin host s b ≡ (
          let rt = reset s.fuse_rt (init_of b) in
          (
            record s {
              fuse_rt = rt;
              staging = Staging.new;
              hist = host.hist_new;
              faulted = false;
              phantom = false;
              ep = some (new_episode host s b);
            },
            Response.episode_ok b.id rt.state rt.seq,
          ))
  unfolding episode_begin
  begin_new host s b h k = rw (h, k) refl
