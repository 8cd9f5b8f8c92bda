-- ===== src/Runtime/Session/Records.antt =====
-- What the session records of a tick, and how it answers: `budget_binding`, `handoff_record` and
-- `verdict_msg` of crates/lictor-runtime/src/session.rs.
use Prim.Native.String.{String}
use lictor.Prelude.{
  ℕ, suc, ◌^◌, Bool, true, false, ◌&&◌, Option, none, some, List, [], ◌∷◌, take, min, if◌then◌else◌,
  has, bit_and,
}
use lictor.Core.Reason.{reason_text}
use lictor.Core.Names.{names_of_trips, feat_names}
use lictor.Core.Envelope.Gate.{gate_names}
use lictor.Core.Chunk.{max_d}
use lictor.Core.Verdict.{SafetyVerdict}
use lictor.Receipt.Handoff.{HandoffRecord, handoff_schema, with_digest}
use lictor.Receipt.Body.{BudgetBinding}
use lictor.Runtime.Wire.{BudgetMsg, TickReq, VerdictMsg, AckResult}
use lictor.Runtime.Session.{Session, Host, Episode}

abbrev is_some {ℓ} : {A : Type ℓ} → Option A → Bool
is_some none = false
is_some (some a) = true

module _ {F : Type 0} where
  -- The values of the features in the mask, with their names, from feature j on.
  unfoldable pub named_values : ℕ → ℕ → List String → List F → List (String × F)
  named_values mask j [] zs = []
  named_values mask j (name ∷ names) [] = []
  named_values mask j (name ∷ names) (z ∷ zs) =
      let rest = named_values mask (suc j) names zs in
      if has mask (2 ^ j) then (name, z) ∷ rest else rest

  unfoldable pub verdict_msg :
      TickReq F
      → SafetyVerdict F
      → Option (HandoffRecord F)
      → Option AckResult
      → ℕ
      → String
      → VerdictMsg F
  verdict_msg t v handoff ack_result verdict_ns chain = record {
    id = t.id;
    t = v.t;
    seq = v.seq;
    status = v.status;
    state = v.state;
    prev_state = v.prev_state;
    trips = names_of_trips v.trips;
    trip_mask = v.trips;
    action = take (min v.action_dim max_d) v.action;
    action_src = v.action_src;
    substituted = v.substituted;
    clamped_dims = v.clamped_dims;
    scores = record {
      f = v.scores.f;
      z = v.scores.z;
      s = v.scores.s;
      valid = v.scores.valid;
      fired = v.scores.fired;
    };
    tau = v.tau;
    window_hits = v.window_hits;
    brake_margin = v.brake_margin;
    reason = v.reason;
    reason_text = reason_text v.reason;
    handoff = handoff;
    ack_result = ack_result;
    violation_reached_env = v.violation_reached_env;
    verdict_ns = verdict_ns;
    chain = chain;
  }

module _ {F H : Type 0} where
  abbrev pub tier1_armed : Session F H → Bool
  tier1_armed s = is_some s.calibration_digest

  unfoldable pub budget_binding : Session F H → BudgetMsg → BudgetBinding
  budget_binding s b =
      let armed = tier1_armed s in
      record {
        mode = s.cfg.mode;
        delay_steps = b.delay_steps;
        tick_ms = b.tick_ms;
        exec_mode = b.exec_mode;
        stitch = b.stitch;
        on_escalate = b.on_escalate;
        tier0_armed = names_of_trips s.fuse_cfg.tier0_enabled;
        tier1_armed = armed;
        gate = gate_names s.fuse_cfg.calib.gate;
        alpha_num = if armed then s.fuse_cfg.calib.alpha_num else 0;
        alpha_den = if armed then s.fuse_cfg.calib.alpha_den else 1;
        kn = (s.fuse_cfg.hyst.k, s.fuse_cfg.hyst.n);
      }

  -- The order of the features shown: the higher z first, then by name.
  abbrev comes_before : Host F H → String × F → String × F → Bool
  comes_before host (n, x) (m, y) =
      if host.total_le x y then host.total_le y x && host.text_le n m else true

  unfoldable pub insert_ranked : Host F H → String × F → List (String × F) → List (String × F)
  insert_ranked host z [] = z ∷ []
  insert_ranked host z (y ∷ ys) =
      let rest = insert_ranked host z ys in if comes_before host z y then z ∷ (y ∷ ys) else y ∷ rest

  unfoldable pub ranked : Host F H → List (String × F) → List (String × F)
  ranked host [] = []
  ranked host (z ∷ zs) = insert_ranked host z (ranked host zs)

  unfoldable pub handoff_record :
      Host F H → Session F H → Episode F → SafetyVerdict F → ℕ → String → HandoffRecord F
  handoff_record host s ep v seq chain_at =
      let zs =
        named_values (bit_and v.scores.valid s.fuse_cfg.calib.mask) 0 feat_names v.scores.z in
      with_digest host.handoff_digest (record {
        schema = handoff_schema;
        run_id = ep.run.run_id;
        arm_id = ep.run.arm_id;
        episode_index = ep.run.episode_index;
        seq = seq;
        tick = v.t;
        reason = v.reason;
        reason_text = reason_text v.reason;
        reasons = names_of_trips v.trips;
        trips = v.trips;
        fired = v.scores.fired;
        window_hits = v.window_hits;
        top_z = take 3 (ranked host zs);
        chain_at = chain_at;
        envelope_digest = s.envelope_digest;
        calibration_digest = s.calibration_digest;
        digest = "";
        ack = none;
        resolved_tick = none;
        outcome = "unacked";
      })
