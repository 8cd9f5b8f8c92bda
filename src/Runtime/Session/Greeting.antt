-- ===== src/Runtime/Session/Greeting.antt =====
-- The greeting, and the answer to a fault: `hello` and `fail` of
-- crates/lictor-runtime/src/session.rs. The version of the program is left out of the answer.
use Prim.Native.String.{String}
use lictor.Prelude.{
  ℕ, Bool, true, false, not, Option, none, some, List, [], ◌∷◌, ◌++◌, if◌then◌else◌, ◌==◌, option,
  same_text,
}
use lictor.Core.State.{FuseMode}
use lictor.Core.Names.{trip_names, feat_names, names_of_trips}
use lictor.Core.Envelope.Gate.{gate_names}
use lictor.Runtime.Wire.{HelloReq, Mismatch, Code, Complaint, Response, proto_name}
use lictor.Runtime.Session.{Session}
use lictor.Runtime.Session.Records.{tier1_armed}
use lictor.Runtime.Session.Tick.{error_response}

abbrev same_mode : FuseMode → FuseMode → Bool
same_mode FuseMode.observe FuseMode.observe = true
same_mode FuseMode.enforce FuseMode.enforce = true
same_mode _ _ = false

abbrev same_option : Option String → Option String → Bool
same_option none none = true
same_option (some a) (some b) = same_text a b
same_option _ _ = false

abbrev unless : Bool → Mismatch → List Mismatch
unless true m = []
unless false m = m ∷ []

abbrev pub is_some {ℓ} : {A : Type ℓ} → Option A → Bool
is_some none = false
is_some (some a) = true

module _ {F H : Type 0} where
  -- An error while an episode is open latches the fault.
  unfoldable pub fail : Session F H → ℕ → Code → Complaint → Session F H × Response F
  fail s id code complaint = (
    record s { faulted = if is_some s.ep then true else s.faulted },
    error_response id code complaint,
  )

  unfoldable pub mismatches : Session F H → HelloReq → List Mismatch
  mismatches s h =
      let m = s.cfg.envelope.embodiment in
      unless (same_mode h.mode s.cfg.mode) Mismatch.mode_differs
      ++ unless (same_text h.embodiment_id m.id) Mismatch.embodiment_differs
      ++ unless (h.action_dim == m.action_dim) Mismatch.action_dim_differs
      ++ unless (h.pos_dim == m.pos_dim) Mismatch.pos_dim_differs
      ++ unless (h.horizon == m.horizon) Mismatch.horizon_differs
      ++ unless (h.exec_steps == m.exec_steps) Mismatch.exec_differs
      ++ unless (same_text h.envelope_digest s.envelope_digest) Mismatch.envelope_differs
      ++ unless (same_option h.calibration_digest s.calibration_digest) Mismatch.calibration_differs

  abbrev greeting : Session F H → HelloReq → Response F
  greeting s h =
      let fc = s.fuse_cfg in
      Response.hello_ok (record {
        id = h.id;
        proto = proto_name;
        git = s.cfg.lictor_git;
        lictor_sha256 = s.cfg.lictor_sha256;
        envelope_digest = s.envelope_digest;
        embodiment_digest = s.embodiment_digest;
        calibration_digest = s.calibration_digest;
        pubkey = s.pubkey;
        ephemeral_key = s.ephemeral;
        mode = s.cfg.mode;
        tier0_armed = names_of_trips fc.tier0_enabled;
        tier1_armed = tier1_armed s;
        calibration = option s.calibration_digest none λ digest. some (record {
          method = fc.calib.method;
          alpha_num = fc.calib.alpha_num;
          alpha_den = fc.calib.alpha_den;
          n_calib = fc.calib.n_calib;
          tau = fc.calib.tau;
          kn = (fc.hyst.k, fc.hyst.n);
          gate = gate_names fc.calib.gate;
          digest = digest;
        });
        features = feat_names;
        trip_names = trip_names;
        latency_label = s.cfg.latency_label;
      })

  unfoldable pub hello : Session F H → HelloReq → Session F H × Response F
  unfolding fail mismatches
  hello s h =
      if is_some s.ep
      then fail s h.id Code.state Complaint.hello_in_episode
      else if not (same_text h.proto proto_name)
      then (s, error_response h.id Code.protocol Complaint.wrong_proto)
      else elim (mismatches s h) [
        | m ∷ ms ↦ (
          record s { hello_ok = false },
          error_response h.id Code.envelope (Complaint.mismatched (m ∷ ms)),
        )
        | [] ↦ (record s { hello_ok = true; client = h.client }, greeting s h)
      ]
