-- ===== src/Tests/Envelopes.antt =====
-- An envelope over the sample numbers, the configuration that it compiles to, and the theorems there.
use Prim.Native.String.{String}
use lictor.Prelude.{ℕ, ◌≡◌, refl, true, none, List, [], ◌∷◌, replicate, arith, ok}
use lictor.Float.Sample.{Sample, sample_float, sample_laws}
use lictor.Core.State.{FuseMode, is_stop, held}
use lictor.Core.Fmath.{at, all_finite}
use lictor.Core.Scores.{GateSpec, disarmed}
use lictor.Core.Chunk.{ActionKind}
use lictor.Core.Names.{trip_from_name, position_from, trip_names}
use lictor.Core.Config.{FuseConfig, BrakeKind, ClampMode}
use lictor.Core.Envelope.{EmbodimentManifest, SafetyEnvelope}
use lictor.Core.Envelope.Gate.{gate_mask, parse_gate, parse_terms, active_terms, union_terms}
use lictor.Core.Envelope.Checks.{
  validate, check_embodiment, check_box, check_sides, check_limits, check_contact, check_brake,
  check_hysteresis, check_tier0, check_operators, check_fit, tier0_mask, tier0_bits, positive,
  nonneg, period, is_hex64_lower,
}
use lictor.Core.Envelope.Compile.{compile, embedded, flatten}
use lictor.Core.Envelope.Sound.{IsSound, compile-IsSound}
use lictor.Detect.Brake.Box.{Inside}
use lictor.Fuse.Fsm.{next}
use lictor.Fuse.Guard.{guard}
use lictor.Fuse.Input.{TickInput}
use lictor.Fuse.Decide.{decide, fault_tick}
use lictor.Fuse.Decide.Compiled.{compiled_stop-Inside}
use lictor.Tests.Setup.{n, hysteresis, fuse, first_tick}

abbrev manifest : EmbodimentManifest Sample
manifest = record {
  id = "pusht";
  units = "px";
  action_kind = ActionKind.ee_position;
  action_dim = 2;
  pos_dim = 2;
  horizon = 3;
  exec_steps = 2;
  control_hz_num = 1;
  control_hz_den = 1;
  provides_vel = true;
  horizon_ticks = 30;
  norm_center = n 0 ∷ n 0 ∷ [];
  norm_scale = n 1 ∷ n 1 ∷ [];
  aux_layout = [];
  ext_names = [];
}

abbrev pub operator_key : String
operator_key = "0123456789abcdef0123456789abcdef0123456789abcdef0123456789abcdef"

abbrev pub envelope : SafetyEnvelope Sample
envelope = record {
  schema = "lictor-envelope/v1";
  envelope_id = "pusht-v1";
  embodiment = manifest;
  box_lo = n 0 ∷ n 0 ∷ [];
  box_hi = n 500 ∷ n 500 ∷ [];
  margin = n 10;
  v_max = n 100;
  a_max = n 100;
  j_max = n 100;
  reach_max = n 100;
  contact = none;
  brake = record {
    kind = BrakeKind.bounded_accel;
    k_p = n 1;
    k_v = n 1;
    substeps = 1;
    dt = n 1;
    commit_steps = 2;
    brake_steps = 2;
    react_ticks = 0;
  };
  clamp_mode = ClampMode.project;
  hysteresis = hysteresis;
  tier0_enabled = "workspace" ∷ "brake" ∷ [];
  gate = [];
  operators = operator_key ∷ [];
  fit = none;
  fail_closed = true;
}

abbrev pub no_digests : SafetyEnvelope Sample → List ℕ × List ℕ
no_digests e = ([], [])

abbrev pub empty_gate : GateSpec
empty_gate = record { n_terms = 0; terms = replicate 8 0 }

-- The configuration that the envelope compiles to.
abbrev pub served : FuseConfig Sample
served =
    flatten ([], []) envelope FuseMode.enforce none
      (record disarmed { gate = empty_gate; mask = 0; horizon_ticks = 30 }) 0x41

pub envelope_valid : validate envelope ≡ ok tt
unfolding validate check_embodiment check_box check_sides check_limits check_contact check_brake
    check_hysteresis check_tier0 check_operators check_fit tier0_mask tier0_bits positive nonneg
    period is_hex64_lower trip_from_name parse_gate
envelope_valid = refl

pub envelope_compiles : compile no_digests envelope FuseMode.enforce none ≡ ok served
unfolding compile validate check_embodiment check_box check_sides check_limits check_contact
    check_brake check_hysteresis check_tier0 check_operators check_fit tier0_mask tier0_bits
    positive nonneg period is_hex64_lower trip_from_name position_from trip_names parse_gate
    parse_terms embedded gate_mask active_terms union_terms all_finite
envelope_compiles = refl

compile-IsSound_example : IsSound served
compile-IsSound_example =
    compile-IsSound sample_laws no_digests envelope FuseMode.enforce none envelope_compiles

-- A tick whose observation has one coordinate too few.
abbrev short : TickInput Sample
short = first_tick (n 100 ∷ []) none

short_stops : is_stop (decide served (fuse held) short).1.state ≡ true
unfolding is_stop decide guard fault_tick next flatten
short_stops = refl

compiled_stop-Inside_example : Inside served 1 (at (decide served (fuse held) short).1.action 1)
unfolding flatten
compiled_stop-Inside_example =
    compiled_stop-Inside sample_laws no_digests envelope none served (fuse held) short 1
      envelope_compiles refl short_stops (omega arith)
