-- ===== src/Core/Envelope/Checks.antt =====
-- The validation of an envelope: `validate`, `validate_brake` and `tier0_mask` of
-- crates/lictor-core/src/envelope.rs, in the order of the source. `digit` and `letter` tests read
-- characters, where the source reads bytes: a text with a byte that is not ASCII fails both ways.
use Prim.Native.String.{String}
use lictor.Prelude.{
  ℕ, Bool, true, false, ◌&&◌, ◌||◌, not, List, [], ◌∷◌, length, all, if◌then◌else◌, ltb, leb, ◌==◌,
  bit_or, has, option, same_text, is_empty_text, text_length, all_chars, lists_text, Result, ok,
  err, ◌>>=◌, ◌>>◌, reject_if,
}
use lictor.Float.{Float}
use lictor.Core.Trips
use lictor.Core.Names.{trip_from_name}
use lictor.Core.Chunk.{ActionKind, max_d, max_pos, max_h, max_aux, max_ext}
use lictor.Core.Config.{BrakeKind, Hysteresis, max_operators}
use lictor.Core.Envelope.{EmbodimentManifest, SafetyEnvelope, Problem, EnvelopeError}
use lictor.Core.Envelope.Gate.{parse_gate}

-- The result of a check.
abbrev pub Checked : Type 0
Checked = Result EnvelopeError (Unit {0})

abbrev refuse_if : Bool → Problem → Checked
refuse_if test p = reject_if test (EnvelopeError.invalid p)

abbrev armable : ℕ
armable = bit_or Trips.tier0_soft Trips.brake

abbrev is_hex_digit : ℕ → Bool
is_hex_digit c = (leb 0x30 c && leb c 0x39) || (leb 0x61 c && leb c 0x66)

unfoldable pub is_hex64_lower : String → Bool
is_hex64_lower s = (text_length s == 64) && all_chars is_hex_digit s

-- The bits of the names, gathered from the front.
unfoldable pub tier0_bits : List String → ℕ → Result EnvelopeError ℕ
tier0_bits [] m = ok m
tier0_bits (name ∷ names) m =
    option (trip_from_name name) (err (EnvelopeError.invalid Problem.tier0_name)) λ bit.
      if has bit armable
      then tier0_bits names (bit_or m bit)
      else err (EnvelopeError.invalid Problem.tier0_name)

-- Every key is well formed, and none stands among the earlier ones.
unfoldable pub check_operators : List String → List String → Checked
check_operators earlier [] = ok tt
check_operators earlier (op ∷ ops) = do
  refuse_if (not (is_hex64_lower op)) Problem.operator_key
  refuse_if (lists_text earlier op) Problem.operator_twice
  check_operators (op ∷ earlier) ops

abbrev is_position_kind : ActionKind → Bool
is_position_kind ActionKind.ee_position = true
is_position_kind ActionKind.joint_position = true
is_position_kind _ = false

abbrev is_velocity_kind : ActionKind → Bool
is_velocity_kind ActionKind.joint_velocity = true
is_velocity_kind ActionKind.ee_delta = true
is_velocity_kind _ = false

module _ {F : Type 0} ⦃fl : Float F⦄ where
  open fl use {of_nat, decimal, add, sub, mul, div, abs, lt, le, is_finite}

  unfoldable pub positive : F → Bool
  positive x = is_finite x && lt (of_nat 0) x

  unfoldable pub nonneg : F → Bool
  nonneg x = is_finite x && le (of_nat 0) x

  unfoldable pub period : SafetyEnvelope F → F
  period e = div (of_nat e.embodiment.control_hz_den) (of_nat e.embodiment.control_hz_num)

  unfoldable pub check_embodiment : EmbodimentManifest F → Checked
  check_embodiment m = do
    refuse_if (is_empty_text m.id) Problem.id_empty
    refuse_if ((m.action_dim == 0) || ltb max_d m.action_dim) Problem.action_dim_range
    refuse_if ((m.pos_dim == 0) || ltb max_pos m.pos_dim) Problem.pos_dim_range
    refuse_if (not (m.action_dim == m.pos_dim)) Problem.dims_differ
    refuse_if ((m.horizon == 0) || ltb max_h m.horizon) Problem.horizon_range
    refuse_if ((m.exec_steps == 0) || ltb m.horizon m.exec_steps) Problem.exec_range
    refuse_if ((m.control_hz_num == 0) || (m.control_hz_den == 0)) Problem.control_rate
    refuse_if (m.horizon_ticks == 0) Problem.horizon_ticks_zero
    refuse_if
        (not (length m.norm_center == m.action_dim) || not (length m.norm_scale == m.action_dim))
        Problem.norm_length
    refuse_if (not (all is_finite m.norm_center)) Problem.norm_center_not_finite
    refuse_if (not (all positive m.norm_scale)) Problem.norm_scale_not_positive
    refuse_if (ltb max_aux (length m.aux_layout)) Problem.aux_too_long
    refuse_if (ltb max_ext (length m.ext_names)) Problem.ext_too_long

  -- One side of the box after the other, as far as both lists go.
  unfoldable pub check_sides : F → List F → List F → Checked
  check_sides margin [] his = ok tt
  check_sides margin (lo ∷ los) [] = ok tt
  check_sides margin (lo ∷ los) (hi ∷ his) = do
    refuse_if (not (is_finite lo) || not (is_finite hi)) Problem.box_not_finite
    refuse_if (le (sub hi margin) (add lo margin)) Problem.box_empty
    check_sides margin los his

  unfoldable pub check_box : SafetyEnvelope F → Checked
  unfolding nonneg check_sides
  check_box e = do
    refuse_if
        (not (length e.box_lo == e.embodiment.pos_dim)
          || not (length e.box_hi == e.embodiment.pos_dim))
        Problem.box_length
    refuse_if (not (nonneg e.margin)) Problem.margin_range
    check_sides e.margin e.box_lo e.box_hi

  unfoldable pub check_limits : SafetyEnvelope F → Checked
  check_limits e =
      refuse_if
        (not (positive e.v_max)
          || not (positive e.a_max)
          || not (positive e.j_max)
          || not (positive e.reach_max))
        Problem.limit_not_positive

  unfoldable pub check_contact : SafetyEnvelope F → Checked
  check_contact e = option e.contact (ok tt) λ cl. do
    refuse_if (not (positive cl.radius) || not (positive cl.v_max)) Problem.contact_range
    refuse_if
        (leb (length e.embodiment.aux_layout) cl.aux_center.0
          || leb (length e.embodiment.aux_layout) cl.aux_center.1)
        Problem.contact_index

  abbrev check_brake_kind : BrakeKind → SafetyEnvelope F → Checked
  check_brake_kind BrakeKind.pd_second_order e =
      let inner = mul (of_nat e.brake.substeps) e.brake.dt in
      do
        refuse_if (not (is_position_kind e.embodiment.action_kind)) Problem.brake_needs_position
        refuse_if (lt (mul (decimal 1 9) (period e)) (abs (sub inner (period e))))
            Problem.brake_period
  check_brake_kind BrakeKind.zero_velocity_hold e =
      refuse_if (not (is_velocity_kind e.embodiment.action_kind)) Problem.brake_needs_velocity
  check_brake_kind _ e = ok tt

  unfoldable pub check_brake : SafetyEnvelope F → Checked
  check_brake e = do
    refuse_if (not (positive e.brake.k_p) || not (positive e.brake.k_v)) Problem.brake_gains
    refuse_if (not (positive e.brake.dt)) Problem.brake_dt
    refuse_if (e.brake.substeps == 0) Problem.brake_substeps
    refuse_if ((e.brake.commit_steps == 0) || ltb e.embodiment.horizon e.brake.commit_steps)
        Problem.brake_commit
    check_brake_kind e.brake.kind e

  unfoldable pub check_hysteresis : Hysteresis F → Checked
  check_hysteresis h = do
    refuse_if ((h.k == 0) || ltb h.n h.k || ltb 63 h.n) Problem.hysteresis_window
    refuse_if (not (nonneg h.warn_margin)) Problem.warn_margin_range
    refuse_if (not (nonneg h.v_stop_eps)) Problem.v_stop_range

  unfoldable pub tier0_mask : SafetyEnvelope F → Result EnvelopeError ℕ
  tier0_mask e = tier0_bits e.tier0_enabled 0

  unfoldable pub check_tier0 : SafetyEnvelope F → Checked
  check_tier0 e = do
    t0 ← tier0_mask e
    refuse_if (has t0 Trips.contact && option e.contact true (λ c. false)) Problem.contact_missing

  abbrev check_gate : SafetyEnvelope F → Checked
  check_gate e = do g ← parse_gate e.gate; ok tt

  unfoldable pub check_fit : SafetyEnvelope F → Checked
  check_fit e = option e.fit (ok tt) λ fit. do
    refuse_if
        (not (is_finite fit.quantile) || le fit.quantile (of_nat 0) || lt (of_nat 1) fit.quantile)
        Problem.fit_quantile
    refuse_if (not (positive fit.slack)) Problem.fit_slack

  unfoldable pub validate : SafetyEnvelope F → Checked
  validate e = do
    reject_if (not (same_text e.schema "lictor-envelope/v1")) EnvelopeError.unsupported_schema
    refuse_if (is_empty_text e.envelope_id) Problem.envelope_id_empty
    refuse_if (not e.fail_closed) Problem.not_fail_closed
    check_embodiment e.embodiment
    check_box e
    check_limits e
    check_contact e
    check_brake e
    check_hysteresis e.hysteresis
    check_tier0 e
    check_gate e
    refuse_if (ltb max_operators (length e.operators)) Problem.operators_too_many
    check_operators [] e.operators
    check_fit e
