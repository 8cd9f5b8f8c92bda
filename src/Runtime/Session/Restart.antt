-- ===== src/Runtime/Session/Restart.antt =====
-- From the start of a session to an episode, and out of a faulted one:
-- crates/lictor-runtime/src/session.rs.
use lictor.Prelude.{
  ℕ, ◌<◌, ◌≡◌, refl, sym, ap, ◌∙◌, true, false, Option, none, some, arith, leb, option, Result, ok,
  err, >>=-eq-ok, reject_if,
}
use mathlib.Core.Path.{subst}
use lictor.Float.{Float}
use lictor.Float.Laws.{FloatLaws}
use lictor.Core.State.{FuseState}
use lictor.Core.Config.{FuseConfig}
use lictor.Core.Envelope.{EnvelopeError}
use lictor.Core.Envelope.Checks.{validate}
use lictor.Core.Envelope.Sound.{IsSound, compile-IsSound}
use lictor.Fuse.Runtime.{reset}
use lictor.Runtime.Wire.{Request, Response, EpisodeBeginReq, EpisodeEndReq}
use lictor.Runtime.Session.{
  Session, SessionConfig, Host, Reading, Episode, StartError, start, as_start, session_of,
  compiled_by, binds_other, overridden, used_calibration,
}
use lictor.Runtime.Session.Tick.{fold_pending_timing, fold_episode}
use lictor.Runtime.Session.Greeting.{is_some}
use lictor.Runtime.Session.Episodes.{weights_differ}
use lictor.Runtime.Session.Handle.{dispatch, handle}
use lictor.Runtime.Session.Steps.{numbered, handle_fresh, end_open, begin_new}

as_start-ok :
    {A : Type 0} (f : EnvelopeError → StartError) (r : Result EnvelopeError A) {a : A}
    → as_start f r ≡ ok a
    → r ≡ ok a
as_start-ok f (ok a) h = ground arith
as_start-ok f (err e) h = absurd (ground arith)

module _ {F : Type 0} ⦃fl : Float F⦄ where
  overridden-IsSound :
      (o : Option ℕ) (cfg : FuseConfig F) → IsSound cfg → IsSound (overridden o cfg)
  overridden-IsSound none cfg k = k
  overridden-IsSound (some m) cfg k = record {
    positive_dim = k.positive_dim;
    dim = k.dim;
    same_dims = k.same_dims;
    horizon = k.horizon;
    positive_exec = k.positive_exec;
    exec = k.exec;
    overlap = k.overlap;
    box = k.box;
    window = k.window;
    mask = k.mask;
    operators = k.operators;
    threshold = k.threshold;
    calib_mask = k.calib_mask;
  }

module _ {F H : Type 0} ⦃fl : Float F⦄ where
  -- A fresh episode, with an armed fuse.
  pub record Opened (b : EpisodeBeginReq) (out : Session F H × Response F) : Type 0 where
    pub answer : out.1 ≡ Response.episode_ok b.id FuseState.armed 0
    pub armed : out.0.fuse_rt.state ≡ FuseState.armed
    pub running : is_some out.0.ep ≡ true
    pub unfaulted : out.0.faulted ≡ false

  begin-Opened :
      (host : Host F H) (now : Reading) (s : Session F H) (b : EpisodeBeginReq)
      → s.ep ≡ none
      → leb b.id s.last_id ≡ false
      → weights_differ s b ≡ false
      → Opened b (handle host now s (Request.episode_begin b))
  unfolding dispatch fold_pending_timing reset
  begin-Opened host now s b h i w =
      let req : Request F = Request.episode_begin b in
      let after = numbered host s req in
      rw
        (
          handle_fresh host now s req i,
          begin_new host after b
              (ap (λ o. is_some (option o none (λ ep. some (fold_episode host ep)))) h) w,
        )
        (record { answer = refl; armed = refl; running = refl; unfaulted = refl })

  -- An episode, faulted or not, can be left and a new one entered: an end and a begin with growing
  -- numbers, and with the weights that the calibration was made for, give an armed fuse and no fault,
  -- whatever the clock and the disk say.
  pub restart-Opened :
      (host : Host F H) (now later : Reading) (s : Session F H) (ep : Episode F)
      (e : EpisodeEndReq F) (b : EpisodeBeginReq)
      → s.ep ≡ some ep
      → s.last_id < e.id
      → e.id < b.id
      → weights_differ s b ≡ false
      → Opened b (
          handle host later (handle host now s (Request.episode_end e)).0 (Request.episode_begin b))
  unfolding dispatch fold_pending_timing
  restart-Opened host now later s ep e b h i j w =
      let req : Request F = Request.episode_end e in
      let folded = numbered host s req in
      let still : folded.ep ≡ some (fold_episode host ep) =
        ap (λ o. option o none (λ x. some (fold_episode host x))) h in
      let closed : (handle host now s req).0 ≡ record folded { ep = none; faulted = false } =
        ap (λ (x : Session F H × Response F). x.0) (handle_fresh host now s req (ground (arith, i)))
        ∙ end_open host now folded (fold_episode host ep) e still in
      subst (λ x. Opened b (handle host later x (Request.episode_begin b))) (sym closed)
        (begin-Opened host later (record folded { ep = none; faulted = false }) b refl
          (ground (arith, j)) w)

  pub start-session :
      (host : Host F H) (cfg : SessionConfig F) {s : Session F H}
      → start host cfg ≡ ok s
      → (c : FuseConfig F) × (compiled_by host cfg ≡ ok c) × (session_of host cfg c ≡ s)
  unfolding start
  start-session host cfg h =
      let (u, valid, h1) = >>=-eq-ok (as_start StartError.envelope (validate cfg.envelope)) _ h in
      let (w, binds, h2) = >>=-eq-ok (reject_if (binds_other host cfg) _) _ h1 in
      let (c, compiled, h3) =
        >>=-eq-ok (as_start StartError.uncompiled (compiled_by host cfg)) _ h2 in
      (c, as_start-ok StartError.uncompiled (compiled_by host cfg) compiled, cc)

  -- A session that starts serves a sound configuration, and no episode is open.
  start-IsSound :
      (laws : FloatLaws F) (host : Host F H) (cfg : SessionConfig F) {s : Session F H}
      → start host cfg ≡ ok s
      → IsSound s.fuse_cfg × (s.ep ≡ none)
  unfolding session_of
  start-IsSound laws host cfg h =
      let (c, compiled, same) = start-session host cfg h in
      let sound =
        compile-IsSound laws host.digest_bytes cfg.envelope cfg.mode
          (option (used_calibration cfg) none (λ k. some k.c)) compiled in
      subst (λ x. IsSound x.fuse_cfg × (x.ep ≡ none)) same
        (overridden-IsSound cfg.tier0_override c sound, refl)
