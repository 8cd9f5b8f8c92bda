-- ===== src/Runtime/Session/Issued.antt =====
-- The receipts that a session issues are intact: `episode_end` of
-- crates/lictor-runtime/src/session.rs with `verify` of crates/lictor-receipt/src/sign.rs.
use Prim.Native.String.{String}
use lictor.Prelude.{
  ℕ, ◌<◌, ◌^◌, ◌≡◌, ◌≢◌, inl, inr, refl, sym, ap, ◌∙◌, true, false, Option, none, some, List,
  length, arith, option, Option-cases, Bool-cases, ok, leb,
}
use mathlib.Core.Path.{subst}
use lictor.Float.{Float}
use lictor.Core.Envelope.{SafetyEnvelope}
use lictor.Fuse.Decide.{finish}
use lictor.Receipt.Tick.{zero_hash, tick_links}
use lictor.Receipt.Tick.Chain.{IsChained}
use lictor.Receipt.Body.{ReceiptBody, counts_of}
use lictor.Receipt.Signed.{Signed, sign, intact}
use lictor.Receipt.Verify.{Verifier, verify}
use lictor.Receipt.Verify.Signing.{IsSound, CryptoLaws, intact-sign}
use lictor.Runtime.Wire.{EpisodeEndReq, EpisodeReceiptMsg, Request, Response, Code, Complaint}
use lictor.Runtime.Session.{Session, SessionConfig, Host, Reading, Episode, start, session_of}
use lictor.Runtime.Session.Tick.{fold_episode, fold_pending_timing, error_response}
use lictor.Runtime.Session.Greeting.{fail}
use lictor.Runtime.Session.Closing.{embedded_ticks, receipt_body, write_receipt, episode_end}
use lictor.Runtime.Session.Handle.{Event, dispatch, handle, serve}
use lictor.Runtime.Session.Chains.{IsPending, IsRecorded, fold-none, fold-IsRecorded}
use lictor.Runtime.Session.Settings.{serve_same}
use lictor.Runtime.Session.Steps.{numbered, handle_stale, handle_fresh}
use lictor.Runtime.Session.Restart.{start-session}
use lictor.Runtime.Session.Embeds.{IsPolicy, embedded_ticks-IsEmbedded}
use lictor.Runtime.Session.Chained.{serve-IsRecorded}

-- The host's digests and signatures are those that the verifier checks, made with a seed.
pub record IsSigner {F H : Type 0} (host : Host F H) (v : Verifier F) (seed : List ℕ) : Type 0 where
  pub tick_digest : v.tick_digest ≡ host.tick_digest
  pub envelope_encoded :
      (env : SafetyEnvelope F)
      → (b : List ℕ) × (v.canon_envelope env ≡ ok b)
        × (v.crypto.sha256_hex b ≡ host.envelope_hex env)
  pub signed :
      (body : ReceiptBody F) (digest : String)
      → host.sign_body body ≡ some digest
      → (sr : Signed (ReceiptBody F)) × (sign v.crypto v.canonical body seed ≡ ok sr)
        × (sr.body_digest ≡ digest)

no_receipt :
    {F : Type 0} {id : ℕ} {code : Code} {complaint : Complaint} {m : EpisodeReceiptMsg}
    → error_response {F = F} id code complaint ≢ Response.episode_receipt m
no_receipt h = cc

module _ {F H : Type 0} ⦃fl : Float F⦄ where
  -- A receipt that is answered was signed over the body.
  write_receipt-signed :
      (host : Host F H) (now : Reading) (s : Session F H) (ep : Episode F) (e : EpisodeEndReq F)
      (m : EpisodeReceiptMsg)
      → write_receipt host now s ep e ≡ Response.episode_receipt m
      → (prev : Option String) × (host.sign_body (receipt_body host now s ep e prev)
          ≡ some m.body_digest)
  unfolding write_receipt
  write_receipt-signed host now s ep e m h = elim (Option-cases ep.paths) [
    | inl p ↦ (none, ground (arith, p, h))
    | inr (paths, p) ↦ elim (Option-cases now.ledger) [
      | inl l ↦ absurd (ground (arith, p, l, h))
      | inr (prev, l) ↦ (prev, ground (arith, p, l, h))
    ]
  ]

  body-IsSound :
      (host : Host F H) (v : Verifier F) (seed : List ℕ) (now : Reading) (s : Session F H)
      (ep : Episode F) (e : EpisodeEndReq F) (prev : Option String)
      → IsSigner host v seed
      → IsRecorded host s.fuse_rt ep
      → ep.pending_timing ≡ none
      → s.envelope_digest ≡ host.envelope_hex s.cfg.envelope
      → IsPolicy s.cfg.ticks_policy
      → length ep.ticks < 2 ^ 32
      → e.outcome.steps ≡ length ep.ticks
      → IsSound v (receipt_body host now s ep e prev)
  unfolding receipt_body finish counts_of embedded_ticks
  body-IsSound host v seed now s ep e prev signer k idle bound policy fits steps =
      let (b, coded, digest) = signer.envelope_encoded s.cfg.envelope in
      let timed : length ep.timing ≡ length ep.ticks =
        subst (λ o. IsPending o (length ep.timing) (length ep.ticks)) idle k.pending in
      record {
        schema = refl;
        encoding = refl;
        envelope_bytes = b;
        envelope_encoded = coded;
        envelope_digest = digest ∙ sym bound;
        counted = omega (arith, k.counted);
        timed = omega (arith, timed);
        stepped = omega (arith, timed, steps);
        embedded =
            embedded_ticks-IsEmbedded v.tick_digest (receipt_body host now s ep e prev) ep.ticks
              policy refl (omega arith) fits
              (subst (λ d. IsChained (tick_links d) 0 0 zero_hash ep.ticks ep.verdict_head)
                (sym signer.tick_digest) (k.ticks (omega arith)));
      }

  end_writes :
      (host : Host F H) (now : Reading) (s : Session F H) (ep : Episode F) (e : EpisodeEndReq F)
      → s.ep ≡ some ep
      → (episode_end host now s e).1
        ≡ write_receipt host now (record s { ep = none; faulted = false }) (fold_episode host ep) e
  unfolding episode_end
  end_writes host now s ep e h = rw h refl

  fold_ticks : (host : Host F H) (ep : Episode F) → (fold_episode host ep).ticks ≡ ep.ticks
  unfolding fold_episode
  fold_ticks host ep = ground arith

  started-settings :
      (host : Host F H) (cfg : SessionConfig F) (s : Session F H)
      → start host cfg ≡ ok s
      → (s.cfg ≡ cfg) × (s.ep ≡ none) × (s.envelope_digest ≡ host.envelope_hex cfg.envelope)
  unfolding session_of
  started-settings host cfg s h =
      let (c, _, same) = start-session host cfg h in
      subst
        (λ x. (x.cfg ≡ cfg) × (x.ep ≡ none) × (x.envelope_digest ≡ host.envelope_hex cfg.envelope))
        same (refl, refl, refl)

  -- Any receipt that `episode_end` answers, after any requests to a session that started, is one
  -- that verifies as intact under the session's key, when the signature scheme keeps its laws, the
  -- host signs with it and makes the digests that the verifier checks, the outcome counts as many
  -- steps as the episode has ticks, these fit a u32, and the ticks policy is one of the three.
  pub episode_end-intact :
      (host : Host F H) (v : Verifier F) (seed : List ℕ) (cfg : SessionConfig F) (s : Session F H)
      (es : List (Event F)) (ep : Episode F) (now : Reading) (e : EpisodeEndReq F)
      (m : EpisodeReceiptMsg)
      → CryptoLaws v.crypto
      → IsSigner host v seed
      → start host cfg ≡ ok s
      → IsPolicy cfg.ticks_policy
      → (serve host s es).ep ≡ some ep
      → length ep.ticks < 2 ^ 32
      → e.outcome.steps ≡ length ep.ticks
      → (handle host now (serve host s es) (Request.episode_end e)).1 ≡ Response.episode_receipt m
      → (sr : Signed (ReceiptBody F)) × (sr.body_digest ≡ m.body_digest)
        × (intact (verify v sr (some (v.crypto.hex_encode (v.crypto.public_of seed)))) ≡ true)
  unfolding dispatch fold_pending_timing fail
  episode_end-intact host v seed cfg s es ep now e m laws signer started policy opened fits steps
        answer =
      let last = serve host s es in
      let req : Request F = Request.episode_end e in
      let (same_cfg, fresh, bound) = started-settings host cfg s started in
      let settings = serve_same host s es in
      let k = serve-IsRecorded host s es ep fresh opened in
      elim (Bool-cases (leb e.id last.last_id)) [
        | inl h ↦
            let stale =
              ap (λ (x : Session F H × Response F). x.1) (handle_stale host now last req h) in
            absurd (no_receipt (sym stale ∙ answer))
        | inr h ↦
            let closing : Session F H = record (numbered host last req) {
              ep = none;
              faulted = false;
            } in
            let once = fold_episode host ep in
            let written =
              end_writes host now (numbered host last req) once e
                (ap (λ o. option o none (λ x. some (fold_episode host x))) opened) in
            let (prev, digest) =
              write_receipt-signed host now closing (fold_episode host once) e m (
                sym written
                ∙ ap (λ (x : Session F H × Response F). x.1)
                    (sym (handle_fresh host now last req h))
                ∙ answer) in
            let (sr, made, same) =
              signer.signed (receipt_body host now closing (fold_episode host once) e prev)
                m.body_digest digest in
            let ticks : (fold_episode host once).ticks ≡ ep.ticks =
              fold_ticks host once ∙ fold_ticks host ep in
            let cfg_same : last.cfg ≡ cfg = settings.cfg ∙ same_cfg in
            let sound =
              body-IsSound host v seed now closing (fold_episode host once) e prev signer
                (fold-IsRecorded host last.fuse_rt once (fold-IsRecorded host last.fuse_rt ep k))
                (fold-none host once)
                (settings.envelope_digest
                  ∙ bound
                  ∙ ap (λ (c : SessionConfig F). host.envelope_hex c.envelope) (sym cfg_same))
                (subst (λ c. IsPolicy c.ticks_policy) (sym cfg_same) policy)
                (subst (λ ts. length ts < 2 ^ 32) (sym ticks) fits)
                (steps ∙ ap length (sym ticks)) in
            (sr, same, intact-sign v _ seed sr laws sound made)
      ]
