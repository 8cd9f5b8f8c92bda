-- ===== src/Fuse/Decide/Compiled.antt =====
-- `decide` in the configuration that an envelope compiles to: crates/lictor-core/src/envelope.rs
-- with crates/lictor-fuse/src/fuse.rs.
use lictor.Prelude.{ℕ, ◌<◌, ◌≡◌, sym, ap, ◌∙◌, true, false, Bool, List, Option, min, take, ok}
use lictor.Float.{Float}
use lictor.Float.Laws.{FloatLaws}
use lictor.Core.Fmath.{at}
use lictor.Core.State.{is_stop, FuseMode}
use lictor.Core.Scores.{CalibrationC}
use lictor.Core.Chunk.{max_d}
use lictor.Core.Config.{FuseConfig}
use lictor.Core.Envelope.{SafetyEnvelope}
use lictor.Core.Envelope.Compile.{compile, flatten}
use lictor.Core.Envelope.Sound.{compile-IsSound, compile-Compiled}
use lictor.Detect.Window
use lictor.Detect.Window.Counts.{pushed, count_hits, hits-pushed}
use lictor.Detect.Brake.{is_velocity}
use lictor.Detect.Brake.Box.{Inside}
use lictor.Fuse.Runtime.{FuseRt}
use lictor.Fuse.Input.{TickInput}
use lictor.Fuse.Decide.{decide}
use lictor.Fuse.Decide.Box.{stop_action-Inside}

module _ {F : Type 0} ⦃fl : Float F⦄ where
  open fl use {add, sub, le}

  compile_mode :
      (digest_bytes : SafetyEnvelope F → List ℕ × List ℕ) (e : SafetyEnvelope F) (mode : FuseMode)
      (given : Option (CalibrationC F)) {cfg : FuseConfig F}
      → compile digest_bytes e mode given ≡ ok cfg
      → (cfg.mode ≡ mode) × (cfg.kind ≡ e.embodiment.action_kind)
  unfolding flatten
  compile_mode digest_bytes e mode given h =
      let c = compile-Compiled digest_bytes e mode given h in
      (
        sym (ap (λ (x : FuseConfig F). x.mode) c.result),
        sym (ap (λ (x : FuseConfig F). x.kind) c.result),
      )

  -- An envelope with a position command that compiles for Enforce mode gives a fuse whose stops stay
  -- in the box: the action of every verdict that reports a stop lies inside the configured box in
  -- each coordinate, from any state and for any input.
  pub compiled_stop-Inside :
      (laws : FloatLaws F) (digest_bytes : SafetyEnvelope F → List ℕ × List ℕ)
      (e : SafetyEnvelope F) (given : Option (CalibrationC F)) (cfg : FuseConfig F) (rt : FuseRt F)
      (inp : TickInput F) (c : ℕ)
      → compile digest_bytes e FuseMode.enforce given ≡ ok cfg
      → is_velocity e.embodiment.action_kind ≡ false
      → is_stop (decide cfg rt inp).1.state ≡ true
      → c < min cfg.dim max_d
      → Inside cfg c (at (decide cfg rt inp).1.action c)
  compiled_stop-Inside laws digest_bytes e given cfg rt inp c h pos stop k =
      let sound = compile-IsSound laws digest_bytes e FuseMode.enforce given h in
      let (mode, kind) = compile_mode digest_bytes e FuseMode.enforce given h in
      stop_action-Inside laws cfg rt inp c mode (ap is_velocity kind ∙ pos) sound.box stop k

  -- In the configuration of an envelope that compiles, the window counts the hits among the last n
  -- pushes onto an empty window, for the n of the envelope.
  pub compiled_hits :
      (laws : FloatLaws F) (digest_bytes : SafetyEnvelope F → List ℕ × List ℕ)
      (e : SafetyEnvelope F) (mode : FuseMode) (given : Option (CalibrationC F))
      (cfg : FuseConfig F) (bs : List Bool)
      → compile digest_bytes e mode given ≡ ok cfg
      → Window.hits (pushed cfg.window_mask bs) ≡ count_hits (take cfg.hyst.n bs)
  compiled_hits laws digest_bytes e mode given cfg bs h =
      let sound = compile-IsSound laws digest_bytes e mode given h in
      rw sound.mask (hits-pushed cfg.hyst.n bs sound.window.2)
