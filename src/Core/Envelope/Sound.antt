-- ===== src/Core/Envelope/Sound.antt =====
-- What the checks of an envelope promise of the configuration that it compiles to
-- (crates/lictor-core/src/envelope.rs).
use lictor.Prelude.{
  ℕ, zero, suc, ◌+◌, ◌-◌, ◌^◌, ◌≤◌, ◌<◌, ◌≡◌, refl, ◌∙◌, true, false, Option, none, some, List, [],
  ◌∷◌, length, map, min, arith, get_or-append, length-map, get_or-map, ok, >>=-eq-ok,
}
use mathlib.Core.Path.{subst}
use lictor.Float.{Float}
use lictor.Float.Laws.{IsNumber, FloatLaws}
use lictor.Core.State.{FuseMode}
use lictor.Core.Scores.{CalibrationC, GateSpec, disarmed}
use lictor.Core.Fmath.{at}
use lictor.Detect.Brake.Box.{IsBox}
use lictor.Core.Chunk.{max_d, max_pos, max_h}
use lictor.Core.Config.{FuseConfig, Hysteresis, max_operators}
use lictor.Core.Envelope.{EmbodimentManifest, SafetyEnvelope}
use lictor.Core.Envelope.Gate.{gate_mask, parse_gate}
use lictor.Core.Envelope.Checks.{
  validate, check_embodiment, check_box, check_sides, check_brake, check_hysteresis, nonneg,
  tier0_mask,
}
use lictor.Core.Envelope.Compile.{compile, flatten, embedded, padded, check_calibration}

module _ {F : Type 0} ⦃fl : Float F⦄ where
  open fl use {le, add, sub, is_finite, of_nat}

  -- The checks that an envelope has passed.
  record Passed (e : SafetyEnvelope F) : Type 0 where
    embodiment : check_embodiment e.embodiment ≡ ok tt
    box : check_box e ≡ ok tt
    brake : check_brake e ≡ ok tt
    hysteresis : check_hysteresis e.hysteresis ≡ ok tt
    operators : length e.operators ≤ max_operators

  validate-Passed : (e : SafetyEnvelope F) → validate e ≡ ok tt → Passed e
  unfolding validate
  validate-Passed e h = ground arith

  -- The dimensions of a manifest that passed.
  record Sized (m : EmbodimentManifest F) : Type 0 where
    positive_dim : 0 < m.action_dim
    dim : m.action_dim ≤ max_d
    same : m.action_dim ≡ m.pos_dim
    horizon : m.horizon ≤ max_h
    positive_exec : 0 < m.exec_steps
    exec : m.exec_steps ≤ m.horizon

  check_embodiment-Sized : (m : EmbodimentManifest F) → check_embodiment m ≡ ok tt → Sized m
  unfolding check_embodiment
  check_embodiment-Sized m h = ground arith

  -- What the checks say of side c of the box: both ends are finite, and the margin leaves room.
  Side : F → F → F → Type 0
  Side margin lo hi =
      (is_finite lo ≡ true) × (is_finite hi ≡ true) × (le (sub hi margin) (add lo margin) ≡ false)

  check_sides-Side :
      (margin : F) (los his : List F) (c : ℕ)
      → check_sides margin los his ≡ ok tt
      → c < length los
      → c < length his
      → Side margin (at los c) (at his c)
  unfolding check_sides Side
  check_sides-Side margin [] his c h k l = absurd (omega arith)
  check_sides-Side margin (lo ∷ los) [] c h k l = absurd (omega arith)
  check_sides-Side margin (lo ∷ los) (hi ∷ his) zero h k l = ground arith
  check_sides-Side margin (lo ∷ los) (hi ∷ his) (suc c) h k l =
      check_sides-Side margin los his c (ground arith) (omega arith) (omega arith)

  -- The box of an envelope that passed: n sides, and a finite margin.
  record Boxed (e : SafetyEnvelope F) : Type 0 where
    lows : length e.box_lo ≡ e.embodiment.pos_dim
    highs : length e.box_hi ≡ e.embodiment.pos_dim
    margin : is_finite e.margin ≡ true
    sides : check_sides e.margin e.box_lo e.box_hi ≡ ok tt

  check_box-Boxed : (e : SafetyEnvelope F) → check_box e ≡ ok tt → Boxed e
  unfolding check_box nonneg
  check_box-Boxed e h = ground arith

  at-padded : (n : ℕ) (xs : List F) (c : ℕ) → c < length xs → at (padded n xs) c ≡ at xs c
  at-padded n xs c h = get_or-append xs _ c (of_nat 0) h

  at-padded-map :
      (f : F → F) (n : ℕ) (xs : List F) (c : ℕ)
      → c < length xs
      → at (padded n (map f xs)) c ≡ f (at xs c)
  at-padded-map f n xs c h =
      at-padded n (map f xs) c (omega (arith, length-map f xs))
      ∙ get_or-map f xs c (of_nat 0) (of_nat 0) h

  check_hysteresis-window :
      (h : Hysteresis F) → check_hysteresis h ≡ ok tt → (0 < h.k) × (h.k ≤ h.n) × (h.n ≤ 63)
  unfolding check_hysteresis
  check_hysteresis-window h p = ground arith

  -- What `decide` relies on in its configuration.
  pub record IsSound (cfg : FuseConfig F) : Type 0 where
    pub positive_dim : 0 < cfg.dim
    pub dim : cfg.dim ≤ max_d
    pub same_dims : cfg.dim ≡ cfg.pos_dim
    pub horizon : cfg.horizon ≤ max_h
    pub positive_exec : 0 < cfg.exec
    pub exec : cfg.exec ≤ cfg.horizon
    pub overlap : cfg.overlap + cfg.exec ≡ cfg.horizon
    pub box : IsBox cfg (min cfg.dim max_d)
    pub window : (0 < cfg.hyst.k) × (cfg.hyst.k ≤ cfg.hyst.n) × (cfg.hyst.n ≤ 63)
    pub mask : cfg.window_mask ≡ 2 ^ cfg.hyst.n - 1
    pub operators : cfg.n_operators ≤ max_operators
    pub threshold : IsNumber cfg.calib.tau
    pub calib_mask : cfg.calib.mask ≡ gate_mask cfg.calib.gate

  Side-gap :
      (laws : FloatLaws F) (margin lo hi : F)
      → is_finite margin ≡ true
      → Side margin lo hi
      → IsNumber (add lo margin)
        × IsNumber (sub hi margin)
        × (le (add lo margin) (sub hi margin) ≡ true)
  unfolding Side
  Side-gap laws margin lo hi m (l, h, room) =
      let nl = laws.add_number lo margin l m in
      let nh = laws.sub_number hi margin h m in
      (nl, nh, laws.le_of_not_le (sub hi margin) (add lo margin) nh nl room)

  flatten-IsBox :
      (laws : FloatLaws F) (digests : List ℕ × List ℕ) (e : SafetyEnvelope F) (mode : FuseMode)
      (given : Option (CalibrationC F)) (calib : CalibrationC F) (t0 : ℕ)
      → Sized e.embodiment
      → Boxed e
      → IsBox (flatten digests e mode given calib t0) (min e.embodiment.action_dim max_d)
  unfolding flatten
  flatten-IsBox laws digests e mode given calib t0 s b c h =
      let k : c < length e.box_lo = omega (arith, b.lows, s.same) in
      let l : c < length e.box_hi = omega (arith, b.highs, s.same) in
      let lo = at-padded-map (λ x. add x e.margin) max_pos e.box_lo c k in
      let hi = at-padded-map (λ x. sub x e.margin) max_pos e.box_hi c l in
      rw (lo, hi)
        (Side-gap laws e.margin (at e.box_lo c) (at e.box_hi c) b.margin
          (check_sides-Side e.margin e.box_lo e.box_hi c b.sides k l))

  embedded_threshold :
      (laws : FloatLaws F) (e : SafetyEnvelope F) (gate : GateSpec)
      (given : Option (CalibrationC F)) {c : CalibrationC F}
      → embedded e gate given ≡ ok c
      → IsNumber c.tau × (c.mask ≡ gate_mask c.gate)
  unfolding embedded check_calibration disarmed
  embedded_threshold laws e gate (some d) h = ground arith
  embedded_threshold laws e gate none h = ground (arith, laws.infinity_number)

  flatten-IsSound :
      (laws : FloatLaws F) (digests : List ℕ × List ℕ) (e : SafetyEnvelope F) (mode : FuseMode)
      (given : Option (CalibrationC F)) (gate : GateSpec) (calib : CalibrationC F) (t0 : ℕ)
      → validate e ≡ ok tt
      → embedded e gate given ≡ ok calib
      → IsSound (flatten digests e mode given calib t0)
  unfolding flatten
  flatten-IsSound laws digests e mode given gate calib t0 valid embedding =
      let p = validate-Passed e valid in
      let s = check_embodiment-Sized e.embodiment p.embodiment in
      let (threshold, mask) = embedded_threshold laws e gate given embedding in
      record {
        positive_dim = s.positive_dim;
        dim = s.dim;
        same_dims = s.same;
        horizon = s.horizon;
        positive_exec = s.positive_exec;
        exec = s.exec;
        overlap = omega (arith, s.exec);
        box = flatten-IsBox laws digests e mode given calib t0 s (check_box-Boxed e p.box);
        window = check_hysteresis-window e.hysteresis p.hysteresis;
        mask = refl;
        operators = p.operators;
        threshold = threshold;
        calib_mask = mask;
      }

  -- The steps of a compilation that succeeded.
  pub record Compiled (digests : List ℕ × List ℕ) (e : SafetyEnvelope F) (mode : FuseMode)
      (given : Option (CalibrationC F)) (cfg : FuseConfig F) : Type 0 where
    valid : validate e ≡ ok tt
    gate : GateSpec
    calib : CalibrationC F
    embedding : embedded e gate given ≡ ok calib
    t0 : ℕ
    pub result : flatten digests e mode given calib t0 ≡ cfg

  pub compile-Compiled :
      (digest_bytes : SafetyEnvelope F → List ℕ × List ℕ) (e : SafetyEnvelope F) (mode : FuseMode)
      (given : Option (CalibrationC F)) {cfg : FuseConfig F}
      → compile digest_bytes e mode given ≡ ok cfg
      → Compiled (digest_bytes e) e mode given cfg
  unfolding compile
  compile-Compiled digest_bytes e mode given h =
      let (u, valid, h1) = >>=-eq-ok (validate e) _ h in
      let (gate, parsed, h2) = >>=-eq-ok (parse_gate e.gate) _ h1 in
      let (c, embedding, h3) = >>=-eq-ok (embedded e gate given) _ h2 in
      let (t0, bits, h4) = >>=-eq-ok (tier0_mask e) _ h3 in
      record { valid = valid; gate = gate; calib = c; embedding = embedding; t0 = t0; result = cc }

  -- An envelope that compiles gives a configuration that is sound: dimensions within the capacities,
  -- a box whose sides are numbers in order, a window within its word, a threshold that is a number.
  pub compile-IsSound :
      (laws : FloatLaws F) (digest_bytes : SafetyEnvelope F → List ℕ × List ℕ)
      (e : SafetyEnvelope F) (mode : FuseMode) (given : Option (CalibrationC F))
      {cfg : FuseConfig F}
      → compile digest_bytes e mode given ≡ ok cfg
      → IsSound cfg
  compile-IsSound laws digest_bytes e mode given h =
      let c = compile-Compiled digest_bytes e mode given h in
      subst IsSound c.result
        (flatten-IsSound laws (digest_bytes e) e mode given c.gate c.calib c.t0 c.valid c.embedding)
