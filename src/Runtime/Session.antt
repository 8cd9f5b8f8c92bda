-- ===== src/Runtime/Session.antt =====
-- The session: its configuration, its state, and what of the world it asks
-- (crates/lictor-runtime/src/session.rs). What it calls for digests, for the signed body
-- (crates/lictor-receipt/src/sign.rs over crates/lictor-canon/src/jcs.rs), for the histogram of the
-- latencies (crates/lictor-runtime/src/latency.rs) and for the paths of the files (episode.rs) are the
-- fields of a `Host`; the readings of the clock and the answers of the disk come with each request.
pub mod Records
pub mod Tick
pub mod Greeting
pub mod Episodes
pub mod Closing
pub mod Handle
pub mod Steps
pub mod Faults
pub mod Latch
pub mod Chains
pub mod Chained
pub mod Nonces
pub mod Restart
pub mod Settings
pub mod Embeds
pub mod Issued
pub mod Clock
pub mod Bodies
pub mod Marks
pub mod Replayed
use Prim.Native.String.{String}
use lictor.Prelude.{
  ℕ, Bool, true, false, not, Option, none, some, List, [], ◌∷◌, ◌++◌, option, Result, ok, err,
  ◌>>=◌, ◌>>◌, reject_if, if◌then◌else◌, same_text,
}
use lictor.Float.{Float}
use lictor.Core.State.{FuseMode}
use lictor.Core.Scores.{CalibrationC}
use lictor.Core.Config.{FuseConfig}
use lictor.Core.Envelope.{EmbodimentManifest, SafetyEnvelope, EnvelopeError}
use lictor.Core.Envelope.Checks.{validate}
use lictor.Core.Envelope.Compile.{compile}
use lictor.Fuse.Runtime.{FuseRt}
use lictor.Fuse.Runtime
use lictor.Receipt.Tick.{TickEvent, TimingEvent}
use lictor.Receipt.Handoff.{HandoffRecord, SignatureCheck}
use lictor.Receipt.Body.{
  Texts, RunBinding, BudgetBinding, FaultBinding, LatencySummary, ReceiptBody,
}
use lictor.Runtime.Staging.{Staging}
use lictor.Runtime.Staging

pub record CalibrationLoaded (F : Type 0) : Type 0 where
  pub c : CalibrationC F
  pub digest : String
  pub embodiment_digest : String
  pub file_sha256 : String
  pub path : String

-- The key and the output directory are parts of the host.
pub record SessionConfig (F : Type 0) : Type 0 where
  pub envelope : SafetyEnvelope F
  pub envelope_toml_sha : String
  pub calibration : Option (CalibrationLoaded F)
  pub mode : FuseMode
  pub tier0_override : Option ℕ
  pub tier1 : Bool
  pub ticks_policy : String
  pub lictor_git : String
  pub lictor_sha256 : String
  pub latency_label : String

-- H is the histogram of the latencies.
pub record Host (F H : Type 0) : Type 0 where
  pub digest_bytes : SafetyEnvelope F → List ℕ × List ℕ
  pub envelope_hex : SafetyEnvelope F → String
  pub embodiment_hex : EmbodimentManifest F → String
  pub tick_digest : TickEvent F → String
  pub timing_digest : TimingEvent → String
  pub handoff_digest : HandoffRecord F → String
  pub verifies : SignatureCheck
  pub total_le : F → F → Bool  -- the order of `f64::total_cmp`
  pub text_le : String → String → Bool
  pub hist_new : H
  pub hist_record : H → ℕ → H
  pub hist_summary : H → String → LatencySummary
  pub policy_digest_of : CalibrationLoaded F → Option String
  pub episode_paths : String → String → ℕ → Option (String × String)  -- of the receipt and the ticks
  pub sign_body : ReceiptBody F → Option String  -- the digest of the signed body
  pub has_key : Bool
  pub pubkey : String
  pub saved_nonces : List (String × ℕ)

-- What the clock and the disk say during a request.
pub record Reading : Type 0 where
  pub decide_ns : ℕ
  pub epoch : ℕ
  pub ledger : Option (Option String)  -- the last entry's hash, when the ledger can be read
  pub written : Option (ℕ × String)  -- the new entry's number and hash, when the files are written

pub record PendingTiming : Type 0 where
  pub seq : ℕ
  pub decide_ns : ℕ
  pub io_ns : ℕ

pub record Episode (F : Type 0) : Type 0 where
  pub run : RunBinding
  pub budget : BudgetBinding
  pub fault_injection : Option FaultBinding
  pub inputs : Texts
  pub paths : Option (String × String)
  pub verdict_head : String
  pub timing_head : String
  pub ticks : List (TickEvent F)
  pub timing : List TimingEvent
  pub pending_timing : Option PendingTiming
  pub handoffs : List (HandoffRecord F)
  pub pending_handoff : Option ℕ

pub record Session (F H : Type 0) : Type 0 where
  pub cfg : SessionConfig F
  pub fuse_cfg : FuseConfig F
  pub fuse_rt : FuseRt F
  pub staging : Staging F
  pub ephemeral : Bool
  pub pubkey : String
  pub envelope_digest : String
  pub embodiment_digest : String
  pub calibration_digest : Option String
  pub policy_digest : Option String
  pub last_id : ℕ
  pub hello_ok : Bool
  pub client : String
  pub ep : Option (Episode F)
  pub faulted : Bool
  pub phantom : Bool
  pub last_nonce : List (String × ℕ)
  pub hist : H

pub data StartError : Type 0 where
  envelope : EnvelopeError → StartError
  calibration_binds_other : StartError
  uncompiled : EnvelopeError → StartError

abbrev pub as_start {ℓ} :
    {A : Type ℓ} → (EnvelopeError → StartError) → Result EnvelopeError A → Result StartError A
as_start f (ok a) = ok a
as_start f (err e) = err (f e)

-- The calibration that the session uses.
abbrev pub used_calibration : {F : Type 0} → SessionConfig F → Option (CalibrationLoaded F)
used_calibration cfg = if cfg.tier1 then cfg.calibration else none

abbrev pub overridden : {F : Type 0} → Option ℕ → FuseConfig F → FuseConfig F
overridden none compiled = compiled
overridden (some m) compiled = record compiled { tier0_enabled = m }

module _ {F H : Type 0} ⦃fl : Float F⦄ where
  -- The calibration was made for another embodiment.
  abbrev pub binds_other : Host F H → SessionConfig F → Bool
  binds_other host cfg =
      option cfg.calibration false
        λ c. not (same_text c.embodiment_digest (host.embodiment_hex cfg.envelope.embodiment))

  -- The envelope compiled, with the calibration that the session uses.
  abbrev pub compiled_by : Host F H → SessionConfig F → Result EnvelopeError (FuseConfig F)
  compiled_by host cfg =
      compile host.digest_bytes cfg.envelope cfg.mode
        (option (used_calibration cfg) none (λ c. some c.c))

  unfoldable pub session_of : Host F H → SessionConfig F → FuseConfig F → Session F H
  unfolding Runtime.new Staging.new
  session_of host cfg compiled =
      let used = used_calibration cfg in
      record {
        cfg = cfg;
        fuse_cfg = overridden cfg.tier0_override compiled;
        fuse_rt = Runtime.new;
        staging = Staging.new;
        ephemeral = not host.has_key;
        pubkey = host.pubkey;
        envelope_digest = host.envelope_hex cfg.envelope;
        embodiment_digest = host.embodiment_hex cfg.envelope.embodiment;
        calibration_digest = option used none (λ c. some c.digest);
        policy_digest = option used none (λ c. host.policy_digest_of c);
        last_id = 0;
        hello_ok = false;
        client = "";
        ep = none;
        faulted = false;
        phantom = false;
        last_nonce = host.saved_nonces;
        hist = host.hist_new;
      }

  -- `Session::new`.
  unfoldable pub start : Host F H → SessionConfig F → Result StartError (Session F H)
  unfolding session_of
  start host cfg = do
    as_start StartError.envelope (validate cfg.envelope)
    reject_if (binds_other host cfg) StartError.calibration_binds_other
    compiled ← as_start StartError.uncompiled (compiled_by host cfg)
    ok (session_of host cfg compiled)
