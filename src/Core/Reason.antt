-- ===== src/Core/Reason.antt =====
-- The reason codes and their texts: crates/lictor-core/src/reason.rs.
use Prim.Native.String.{String}
use lictor.Prelude.{List, [], ◌∷◌}

pub data ReasonCode : Type 0 where
  ok observe_only watch_band clamp_workspace clamp_speed clamp_accel clamp_jerk clamp_reach
        clamp_contact brake_infeasible brake_tier1_cp brake_clamp_budget stopping held_standstill
        escalate_hold_timeout escalate_rearm_budget escalate_tier1_persistent fault_non_finite
        fault_schema fault_watchdog fault_brake_timeout fault_internal rearmed_auto rearmed_ack
        terminated_abort terminated_timeout terminated_retune episode_end :
      ReasonCode

pub ReasonCode-discrete : Discrete ReasonCode
ReasonCode-discrete = hlevel

-- Every code, in declaration order.
unfoldable pub all_reasons : List ReasonCode
all_reasons =
    ReasonCode.ok ∷ ReasonCode.observe_only ∷ ReasonCode.watch_band ∷ ReasonCode.clamp_workspace
    ∷ ReasonCode.clamp_speed ∷ ReasonCode.clamp_accel ∷ ReasonCode.clamp_jerk
    ∷ ReasonCode.clamp_reach ∷ ReasonCode.clamp_contact ∷ ReasonCode.brake_infeasible
    ∷ ReasonCode.brake_tier1_cp ∷ ReasonCode.brake_clamp_budget ∷ ReasonCode.stopping
    ∷ ReasonCode.held_standstill ∷ ReasonCode.escalate_hold_timeout
    ∷ ReasonCode.escalate_rearm_budget ∷ ReasonCode.escalate_tier1_persistent
    ∷ ReasonCode.fault_non_finite ∷ ReasonCode.fault_schema ∷ ReasonCode.fault_watchdog
    ∷ ReasonCode.fault_brake_timeout ∷ ReasonCode.fault_internal ∷ ReasonCode.rearmed_auto
    ∷ ReasonCode.rearmed_ack ∷ ReasonCode.terminated_abort ∷ ReasonCode.terminated_timeout
    ∷ ReasonCode.terminated_retune ∷ ReasonCode.episode_end ∷ []

unfoldable pub reason_text : ReasonCode → String
reason_text ReasonCode.ok = "No limit was reached; the policy action was passed through unchanged."
reason_text ReasonCode.observe_only =
    "The fuse is observing only: it scored this tick but did not change the action."
reason_text ReasonCode.watch_band =
    "A predictive score is close to its threshold; the fuse is watching but has not intervened."
reason_text ReasonCode.clamp_workspace =
    "A commanded position left the allowed workspace and was pulled back inside it."
reason_text ReasonCode.clamp_speed =
    "A commanded step was faster than the speed limit and was shortened to fit."
reason_text ReasonCode.clamp_accel =
    "The commanded motion accelerated harder than allowed and was smoothed to the limit."
reason_text ReasonCode.clamp_jerk =
    "The commanded motion changed acceleration faster than allowed and was smoothed."
reason_text ReasonCode.clamp_reach =
    "The first commanded position was too far from the current position and was pulled closer."
reason_text ReasonCode.clamp_contact =
    "The commanded speed close to the object exceeded the contact limit and was reduced."
reason_text ReasonCode.brake_infeasible =
    "The committed motion could not be stopped inside the workspace; the fuse is braking."
reason_text ReasonCode.brake_tier1_cp =
    "The predictive detector fired often enough in a row that the fuse is braking."
reason_text ReasonCode.brake_clamp_budget =
    "Commands had to be corrected too many times in a row; the fuse is braking."
reason_text ReasonCode.stopping =
    "A controlled stop is in progress; the setpoint is held at the current position."
reason_text ReasonCode.held_standstill =
    "The robot has stopped and is being held still at its current position."
reason_text ReasonCode.escalate_hold_timeout =
    "The robot has been held still for too long without a clean re-arm; a person must decide."
reason_text ReasonCode.escalate_rearm_budget =
    "The fuse has already re-armed as often as allowed this episode; a person must decide."
reason_text ReasonCode.escalate_tier1_persistent =
    "The predictive detector kept firing while the robot was held; a person must decide."
reason_text ReasonCode.fault_non_finite =
    "An input contained a non-finite number; the fuse holds position until the episode ends."
reason_text ReasonCode.fault_schema =
    "A message broke the agreed format or ordering; the fuse holds position until the episode ends."
reason_text ReasonCode.fault_watchdog =
    "Too many ticks were missed in a row; the fuse holds position until the episode ends."
reason_text ReasonCode.fault_brake_timeout =
    "The robot did not come to a stop within the braking time limit; the fuse holds position."
reason_text ReasonCode.fault_internal =
    "The fuse found an internal inconsistency and holds position until the episode ends."
reason_text ReasonCode.rearmed_auto =
    "The robot stood still cleanly for the required time and control returned to the policy."
reason_text ReasonCode.rearmed_ack =
    "A signed operator acknowledgement resumed the episode and control returned to the policy."
reason_text ReasonCode.terminated_abort =
    "A signed operator acknowledgement aborted the episode; the robot stays held."
reason_text ReasonCode.terminated_timeout =
    "No operator decision arrived in time; the episode ended with the robot held."
reason_text ReasonCode.terminated_retune =
    "A signed operator acknowledgement ended the episode so the envelope can be retuned."
reason_text ReasonCode.episode_end = "The episode ended normally."
