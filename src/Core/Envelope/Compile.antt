-- ===== src/Core/Envelope/Compile.antt =====
-- From a valid envelope to the configuration that `decide` reads: `compile` and `check_calibration`
-- of crates/lictor-core/src/envelope.rs. The two digests, hashes of the canonical JSON of the
-- envelope and of its manifest, are parameters.
use lictor.Prelude.{
  ℕ, ◌-◌, ◌^◌, ◌&&◌, ◌||◌, not, Option, none, some, List, [], ◌∷◌, length, replicate, ltb, ◌==◌,
  Result, ok, ◌>>=◌, ◌>>◌, reject_if, map, option,
}
use lictor.Float.{Float}
use lictor.Core.State.{FuseMode}
use lictor.Core.Scores.{CalibrationC, GateSpec, max_t_grid, is_armed, disarmed}
use lictor.Core.Fmath.{fmin}
use lictor.Core.Chunk.{max_d, max_pos, copy_at}
use lictor.Core.Config.{FuseConfig}
use lictor.Core.Envelope.{EmbodimentManifest, SafetyEnvelope, Problem, EnvelopeError}
use lictor.Core.Envelope.Gate.{parse_gate, gate_mask}
use lictor.Core.Envelope.Checks.{Checked, validate, period, tier0_mask}

module _ {F : Type 0} ⦃fl : Float F⦄ where
  open fl use {of_nat, add, sub, mul, div, eq, infinity}

  unfoldable pub check_calibration : CalibrationC F → EmbodimentManifest F → Checked
  check_calibration c m = do
    reject_if ((c.t_grid == 0) || ltb max_t_grid c.t_grid)
        (EnvelopeError.invalid Problem.calib_grid)
    reject_if (c.alpha_den == 0) (EnvelopeError.invalid Problem.calib_alpha)
    reject_if (not (c.mask == gate_mask c.gate)) (EnvelopeError.invalid Problem.calib_mask)
    reject_if (not (eq c.tau c.tau)) (EnvelopeError.invalid Problem.calib_tau)
    reject_if (is_armed c && not (c.horizon_ticks == m.horizon_ticks))
        (EnvelopeError.invalid Problem.calib_horizon)

  -- The calibration that is embedded: the one given, or the disarmed one with the envelope's gate.
  unfoldable pub embedded :
      SafetyEnvelope F → GateSpec → Option (CalibrationC F) → Result EnvelopeError (CalibrationC F)
  embedded e gate (some c) = do check_calibration c e.embodiment; ok c
  embedded e gate none = ok (record disarmed {
    gate = gate;
    mask = gate_mask gate;
    horizon_ticks = e.embodiment.horizon_ticks;
  })

  -- An array of n zeros with the values from its start on.
  abbrev pub padded : ℕ → List F → List F
  padded n xs = copy_at (replicate n (of_nat 0)) 0 xs

  unfoldable pub least_scale : List F → F → F
  least_scale [] m = m
  least_scale (s ∷ ss) m = least_scale ss (fmin m s)

  -- The configuration of an envelope that passed the checks.
  unfoldable pub flatten :
      List ℕ × List ℕ
      → SafetyEnvelope F
      → FuseMode
      → Option (CalibrationC F)
      → CalibrationC F
      → ℕ
      → FuseConfig F
  flatten (envelope_digest, embodiment_digest) e mode given calib t0 =
      let m = e.embodiment in
      let dt = period e in
      let inv_dt = div (of_nat 1) dt in
      let inv_dt2 = mul inv_dt inv_dt in
      record {
        envelope_digest = envelope_digest;
        embodiment_digest = embodiment_digest;
        calib_digest = option given none (λ c. some c.digest);
        mode = mode;
        kind = m.action_kind;
        dim = m.action_dim;
        pos_dim = m.pos_dim;
        horizon = m.horizon;
        exec = m.exec_steps;
        overlap = m.horizon - m.exec_steps;
        dt = dt;
        inv_dt = inv_dt;
        inv_dt2 = inv_dt2;
        inv_dt3 = mul inv_dt2 inv_dt;
        norm_center = padded max_d m.norm_center;
        inv_norm_scale = padded max_d (map (λ s. div (of_nat 1) s) m.norm_scale);
        norm_scale_iso = least_scale m.norm_scale infinity;
        box_lo = padded max_pos (map (λ x. add x e.margin) e.box_lo);
        box_hi = padded max_pos (map (λ x. sub x e.margin) e.box_hi);
        v_max = e.v_max;
        a_max = e.a_max;
        j_max = e.j_max;
        reach_max = e.reach_max;
        step_max = mul e.v_max dt;
        contact = e.contact;
        brake = e.brake;
        clamp = e.clamp_mode;
        hyst = e.hysteresis;
        window_mask = 2 ^ e.hysteresis.n - 1;
        tier0_enabled = t0;
        n_operators = length e.operators;
        calib = calib;
      }

  unfoldable pub compile :
      (SafetyEnvelope F → List ℕ × List ℕ)
      → SafetyEnvelope F
      → FuseMode
      → Option (CalibrationC F)
      → Result EnvelopeError (FuseConfig F)
  compile digest_bytes e mode calib = do
    validate e
    gate ← parse_gate e.gate
    c ← embedded e gate calib
    t0 ← tier0_mask e
    ok (flatten (digest_bytes e) e mode calib c t0)
