-- ===== src/Fuse/Episode/Violations.antt =====
-- What Enforce mode lets through (crates/lictor-fuse/src/fuse.rs, tally.rs).
use lictor.Prelude.{◌≡◌, refl, ap, ◌∙◌, false, inl, inr, List, [], ◌∷◌, Bool-cases}
use lictor.Float.{Float}
use lictor.Core.State.{FuseMode}
use lictor.Core.Config.{FuseConfig}
use lictor.Fuse.Runtime.{FuseRt, Tally}
use lictor.Fuse.Tally.{tick_if}
use lictor.Fuse.Input.{TickInput}
use lictor.Fuse.Decide.{decide}
use lictor.Fuse.Decide.Verdicts.{refused, decide_fail_closed, decide-Enforced}
use lictor.Fuse.Episode.{run}
use lictor.Fuse.Episode.Counts.{decide_tally, record_tick_violations}

module _ {F : Type 0} ⦃fl : Float F⦄ where
  decide_unchecked :
      (cfg : FuseConfig F) (rt : FuseRt F) (inp : TickInput F)
      → cfg.mode ≡ FuseMode.enforce
      → (decide cfg rt inp).1.violation_reached_env ≡ false
  decide_unchecked cfg rt inp m = elim (Bool-cases (refused cfg rt inp)) [
    | inl e ↦ (decide_fail_closed cfg rt inp e).unchecked
    | inr e ↦ (decide-Enforced cfg rt inp m e).unchecked
  ]

  decide_violations :
      (cfg : FuseConfig F) (rt : FuseRt F) (inp : TickInput F)
      → cfg.mode ≡ FuseMode.enforce
      → (decide cfg rt inp).0.tally.violations_reached_env ≡ rt.tally.violations_reached_env
  decide_violations cfg rt inp m =
      let (t, ev, same, e) = decide_tally cfg rt inp in
      ap (λ (x : Tally F). x.violations_reached_env) e
      ∙ record_tick_violations t (decide cfg rt inp).1 ev
      ∙ ap (λ b. tick_if b t.violations_reached_env) (decide_unchecked cfg rt inp m)
      ∙ same.violations

  -- In Enforce mode no episode counts a violation that reached the environment.
  pub run_violations :
      (cfg : FuseConfig F) (rt : FuseRt F) (inps : List (TickInput F))
      → cfg.mode ≡ FuseMode.enforce
      → (run cfg rt inps).0.tally.violations_reached_env ≡ rt.tally.violations_reached_env
  unfolding run
  run_violations cfg rt [] m = refl
  run_violations cfg rt (inp ∷ rest) m =
      run_violations cfg (decide cfg rt inp).0 rest m ∙ decide_violations cfg rt inp m
