-- ===== src/Tests/Machine.antt =====
-- The verdicts of one tick, and the rows of the state machine, at inputs that exercise them.
use lictor.Prelude.{◌≡◌, refl, none, some, ◌∷◌, List, [], true}
use lictor.Float.Sample.{Sample, undefined, sample_float}
use lictor.Core.State.{FuseMode, armed, held, escalated, is_stop}
use lictor.Core.Trips
use lictor.Core.Scores.{is_armed}
use lictor.Core.Chunk
use lictor.Core.Config.{FuseConfig}
use lictor.Detect.Tier0.{check_chunk}
use lictor.Detect.Brake.{brake_feasible}
use lictor.Fuse.Fsm.{FsmInput, next}
use lictor.Fuse.Fsm.Safety.{Release, next-Release}
use lictor.Fuse.Guard.{guard, nonfinite_input}
use lictor.Fuse.Input.{TickInput}
use lictor.Fuse.Stages.{prepare, ingest, tier0, deliver, tier1, shift_window}
use lictor.Fuse.Decide.{decide, conclude, machine_input}
use lictor.Fuse.Decide.Verdicts.{Holds, Withheld, decide_fail_closed, stop_withholds_policy}
use lictor.Tests.Setup.{config, fuse, first_tick, here, n, quiet, operator_resume}

abbrev lost_position : List Sample
lost_position = undefined ∷ n 100 ∷ []

abbrev enforcing : FuseConfig Sample
enforcing = config FuseMode.enforce

-- The position of this tick is no number.
abbrev broken : TickInput Sample
broken = first_tick lost_position none

abbrev sound : TickInput Sample
sound = first_tick here none

-- An operator resumes.
abbrev resumed : FsmInput
resumed = quiet (some operator_resume)

-- The chunk held a value that is not finite.
abbrev poisoned : FsmInput
poisoned = record (quiet none) { trips = Trips.nonfinite }

decide_fail_closed_example :
    Holds enforcing
      (decide enforcing (fuse armed) broken).0
      (decide enforcing (fuse armed) broken).1
unfolding nonfinite_input
decide_fail_closed_example = decide_fail_closed enforcing (fuse armed) broken refl

-- An escalated fuse stays so on a sound tick.
still_escalated : is_stop (decide enforcing (fuse escalated) sound).1.state ≡ true
unfolding is_stop decide guard conclude next machine_input prepare tier0 deliver Chunk.view
    check_chunk brake_feasible ingest shift_window tier1 is_armed
still_escalated = refl

stop_withholds_policy_example :
    Withheld enforcing
      (decide enforcing (fuse escalated) sound).0
      (decide enforcing (fuse escalated) sound).1
stop_withholds_policy_example =
    stop_withholds_policy enforcing (fuse escalated) sound refl still_escalated

next-Release_example : Release enforcing (fuse held) resumed
unfolding is_stop next
next-Release_example = next-Release enforcing (fuse held) resumed refl refl
