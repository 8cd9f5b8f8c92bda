-- ===== src/Tests/Episodes.antt =====
-- Episodes of a few ticks, and the theorems about episodes at them.
use lictor.Prelude.{
  ◌≡◌, refl, ◌⊎◌, none, some, ◌∷◌, List, [], true, false, ◌+◌, ◌≤◌, max, arith, ℕ, All, take,
}
use lictor.Float.Sample.{Sample, sample_float}
use lictor.Core.State.{FuseMode, armed, braking, held, escalated, fault, terminated, is_terminal}
use lictor.Core.Scores.{is_armed}
use lictor.Core.Chunk
use lictor.Core.Config.{FuseConfig}
use lictor.Detect.Tier0.{check_chunk}
use lictor.Detect.Brake.{brake_feasible}
use lictor.Fuse.Fsm.{next}
use lictor.Fuse.Guard.{guard}
use lictor.Fuse.Input.{TickInput}
use lictor.Fuse.Stages.{prepare, ingest, tier0, deliver, tier1, shift_window}
use lictor.Fuse.Decide.{decide, conclude, machine_input}
use lictor.Fuse.Episode.{run}
use lictor.Fuse.Episode.Latch.{run_terminal}
use lictor.Fuse.Episode.Acks.{ack_single_use}
use lictor.Fuse.Episode.Budget.{auto_rearms, auto_rearms_bounded}
use lictor.Fuse.Episode.Limits.{braking_ends, held_ends, escalated_ends}
use lictor.Fuse.Episode.Counts.{
  Balanced, counter, reports, run-Balanced, first_stop, run-first_stop,
}
use lictor.Core.Verdict.{Status}
use lictor.Tests.Setup.{config, fuse, first_tick, here, operator_resume}

abbrev enforcing : FuseConfig Sample
enforcing = config FuseMode.enforce

abbrev sound : TickInput Sample
sound = first_tick here none

-- An operator resumes on this tick.
abbrev resumed : TickInput Sample
resumed = first_tick here (some operator_resume)

-- A tick that brings no chunk after another.
abbrev later : TickInput Sample
later = record sound {
  obs = record { t = 1; pos = here; vel = none; aux = []; ext = [] };
  chunk = none;
  idx = 1;
}

abbrev ticks : List (TickInput Sample)
ticks = sound ∷ later ∷ later ∷ []

-- The operator's Resume is applied.
resume_applied : (decide enforcing (fuse held) resumed).1.ack_consumed ≡ true
unfolding decide guard conclude next machine_input prepare tier0 deliver Chunk.view check_chunk
    brake_feasible ingest shift_window tier1 is_armed
resume_applied = refl

ack_single_use_example :
    (decide enforcing
      (run enforcing (decide enforcing (fuse held) resumed).0 (later ∷ [])).0
      resumed).1.ack_consumed
    ≡ false
ack_single_use_example =
    ack_single_use enforcing (fuse held) resumed operator_resume (later ∷ []) resumed refl
      resume_applied refl refl

run_terminal_example :
    All (λ v. is_terminal v.state ≡ true) (run enforcing (fuse terminated) ticks).1
unfolding is_terminal
run_terminal_example = run_terminal enforcing (fuse terminated) ticks refl

auto_rearms_bounded_example : auto_rearms (run enforcing (fuse held) ticks).1 + 0 ≤ max 0 2
auto_rearms_bounded_example =
    auto_rearms_bounded enforcing (fuse held) ticks (omega arith) (omega arith)

braking_ends_example :
    (k : ℕ) × (k ≤ 3)
    × (((run enforcing (fuse braking) (take k ticks)).0.state ≡ held)
        ⊎ ((run enforcing (fuse braking) (take k ticks)).0.state ≡ fault))
braking_ends_example = braking_ends enforcing (fuse braking) ticks (omega arith) refl (omega arith)

held_ends_example :
    (k : ℕ) × (k ≤ 3)
    × (((run enforcing (fuse held) (take k ticks)).0.state ≡ armed)
        ⊎ ((run enforcing (fuse held) (take k ticks)).0.state ≡ escalated)
        ⊎ ((run enforcing (fuse held) (take k ticks)).0.state ≡ terminated)
        ⊎ ((run enforcing (fuse held) (take k ticks)).0.state ≡ fault))
held_ends_example = held_ends enforcing (fuse held) ticks (omega arith) refl (omega arith)

escalated_ends_example :
    (k : ℕ) × (k ≤ 3)
    × (((run enforcing (fuse escalated) (take k ticks)).0.state ≡ armed)
        ⊎ ((run enforcing (fuse escalated) (take k ticks)).0.state ≡ terminated)
        ⊎ ((run enforcing (fuse escalated) (take k ticks)).0.state ≡ fault))
escalated_ends_example =
    escalated_ends enforcing (fuse escalated) ticks (omega arith) refl (omega arith)

-- The first of these ticks reports Nominal.
run-Balanced_example :
    (counter Status.nominal (run enforcing (fuse armed) ticks).0.tally
      ≡ 0 + reports Status.nominal (run enforcing (fuse armed) ticks).1)
    × ((run enforcing (fuse armed) ticks).0.tally.ticks ≡ 0 + 3)
    × Balanced (run enforcing (fuse armed) ticks).0.tally
run-Balanced_example = run-Balanced enforcing (fuse armed) ticks Status.nominal refl (omega arith)

run-first_stop_example :
    (run enforcing (fuse held) ticks).0.tally.first_stop_tick
    ≡ first_stop (run enforcing (fuse held) ticks).1
run-first_stop_example = run-first_stop enforcing (fuse held) ticks refl
