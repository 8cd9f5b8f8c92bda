-- ===== src/Tests/Actions.antt =====
-- What the fuse commands at concrete ticks: the theorems about actions, routes and deliveries.
use lictor.Prelude.{◌≡◌, refl, ◌∷◌, [], true, none, arith, zero, suc, take}
use lictor.Float.Sample.{Sample, sample_float, sample_laws}
use lictor.Core.State.{FuseMode, held, escalated, is_stop}
use lictor.Core.Fmath.{at}
use lictor.Core.Scores.{is_armed}
use lictor.Core.Chunk.{ChunkView, copy_at, action}
use lictor.Core.Chunk
use lictor.Core.Config.{FuseConfig}
use lictor.Detect.Tier0.{check_chunk}
use lictor.Detect.Brake.{brake_feasible}
use lictor.Detect.Brake.Box.{IsBox, Inside}
use lictor.Fuse.Fsm.{next}
use lictor.Fuse.Guard.{guard, nonfinite_input, schema_broken}
use lictor.Fuse.Input.{TickInput, zero_row}
use lictor.Fuse.Stages.{prepare, ingest, tier0, deliver, tier1, shift_window}
use lictor.Fuse.Decide.{decide, conclude, machine_input}
use lictor.Fuse.Decide.Box.{stop_action-Inside}
use lictor.Fuse.Decide.Delivery.{observe_passes_raw}
use lictor.Fuse.Episode.{run}
use lictor.Fuse.Episode.Routes.{Route, states, run-Route}
use lictor.Fuse.Episode.Violations.{run_violations}
use lictor.Tests.Setup.{config, fuse, first_tick, here, first_chunk}

abbrev enforcing : FuseConfig Sample
enforcing = config FuseMode.enforce

abbrev observing : FuseConfig Sample
observing = config FuseMode.observe

abbrev sound : TickInput Sample
sound = first_tick here none

box : IsBox enforcing 2
box zero h = (refl, refl, refl)
box (suc zero) h = (refl, refl, refl)
box (suc (suc c)) h = absurd (omega arith)

-- An escalated fuse stays so on a sound tick.
escalated_stop : is_stop (decide enforcing (fuse escalated) sound).1.state ≡ true
unfolding is_stop decide guard conclude next machine_input prepare tier0 deliver Chunk.view
    check_chunk brake_feasible ingest shift_window tier1 is_armed
escalated_stop = refl

stop_action-Inside_example :
    Inside enforcing 1 (at (decide enforcing (fuse escalated) sound).1.action 1)
stop_action-Inside_example =
    stop_action-Inside sample_laws enforcing (fuse escalated) sound 1 refl refl box escalated_stop
      (omega arith)

observe_passes_raw_example :
    (decide observing (fuse held) sound).1.action
    ≡ copy_at zero_row 0 (take 2 (action first_chunk 0))
unfolding nonfinite_input schema_broken
observe_passes_raw_example =
    observe_passes_raw observing (fuse held) sound first_chunk refl refl refl (refl, omega arith)

run-Route_example : Route held (states (run enforcing (fuse held) (sound ∷ sound ∷ [])).1)
run-Route_example = run-Route enforcing (fuse held) (sound ∷ sound ∷ [])

run_violations_example : (run enforcing (fuse held) (sound ∷ [])).0.tally.violations_reached_env ≡ 0
run_violations_example = run_violations enforcing (fuse held) (sound ∷ []) refl
