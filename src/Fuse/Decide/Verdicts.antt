-- ===== src/Fuse/Decide/Verdicts.antt =====
-- What the verdict of a tick may be: crates/lictor-fuse/src/fuse.rs.
use lictor.Prelude.{
  ℕ, ◌≡◌, ◌≢◌, sym, ◌∙◌, min, take, refl, ap, ◌⊎◌, inl, inr, Bool, true, false, ◌||◌, not, ◌==◌,
  ltb, arith, Bool-cases, has, none, List,
}
use lictor.Float.{Float}
use lictor.Core.State.{FuseState, fault, braking, is_stop, FuseMode}
use lictor.Core.Config.{FuseConfig}
use lictor.Core.Verdict.{SafetyVerdict, ActionSource}
use lictor.Fuse.Runtime.{FuseRt}
use lictor.Fuse.Fsm.{next, fault_bits}
use lictor.Fuse.Fsm.Safety.{next-fault_bits}
use lictor.Core.Chunk.{max_d, max_pos, copy_at}
use lictor.Detect.Brake.{brake_action}
use lictor.Fuse.Input.{TickInput, source_of, is_policy, zero_row}
use lictor.Fuse.Guard.{guard, nonfinite_input, schema_broken}
use lictor.Fuse.Stages.{prepare}
use lictor.Fuse.Decide.{
  decide, fault_tick, conclude, fault_start, fault_input, machine_input, candidate_row, action_of,
  hold_row,
}

abbrev is_brake : FuseState → Bool
is_brake braking = true
is_brake _ = false

fault_apart : fault ≢ braking
fault_apart h = cc

stop_source :
    (st : FuseState)
    → is_stop st ≡ true
    → ((st ≡ braking) × (source_of st ≡ ActionSource.brake))
      ⊎ ((st ≢ braking) × (source_of st ≡ ActionSource.hold))
unfolding is_stop source_of
stop_source st h = elim (Bool-cases (is_brake st)) [
  | inl b ↦ inl (ground arith, ground arith)
  | inr b ↦ inr (λ e. ground arith, ground arith)
]

module _ {F : Type 0} ⦃fl : Float F⦄ where
  -- What the guard refuses.
  abbrev pub refused : FuseConfig F → FuseRt F → TickInput F → Bool
  refused cfg rt inp =
      nonfinite_input inp
      || schema_broken cfg rt inp
      || ltb cfg.hyst.watchdog_ticks inp.missed_ticks

  guard-refused :
      (cfg : FuseConfig F) (rt : FuseRt F) (inp : TickInput F)
      → ((refused cfg rt inp ≡ true)
          × (has (guard cfg rt inp) fault_bits ≡ true)
          × (not (guard cfg rt inp == 0) ≡ true))
        ⊎ ((refused cfg rt inp ≡ false) × (guard cfg rt inp ≡ 0))
  unfolding guard
  guard-refused cfg rt inp = ground arith

  -- A held verdict: the action is the hold action at the latched setpoint.
  pub record Holds (cfg : FuseConfig F) (rt : FuseRt F) (v : SafetyVerdict F) : Type 0 where
    pub state : v.state ≡ fault
    pub source : v.action_src ≡ ActionSource.hold
    pub action : v.action ≡ hold_row cfg rt
    pub substituted : v.substituted ≡ true
    pub unchecked : v.violation_reached_env ≡ false
    pub ack : v.ack_consumed ≡ false
    pub no_handoff : v.handoff_seq ≡ none

  fault_tick-Holds :
      (cfg : FuseConfig F) (rt : FuseRt F) (inp : TickInput F) (bits : ℕ) (prev : FuseState)
      → has bits fault_bits ≡ true
      → Holds cfg (fault_tick cfg rt inp bits prev).0 (fault_tick cfg rt inp bits prev).1
  unfolding fault_tick
  fault_tick-Holds cfg rt inp bits prev h =
      ground (arith, next-fault_bits cfg (fault_start cfg rt inp) (fault_input cfg inp bits) h)

  -- In either mode, a tick with a number that is not finite, a broken schema or continuity, or too
  -- many missed ticks ends in Fault and holds the robot at the latched setpoint; no
  -- acknowledgement is applied, nothing unchecked reaches the environment, and the verdict says that
  -- the action was substituted, in Observe mode too.
  pub decide_fail_closed :
      (cfg : FuseConfig F) (rt : FuseRt F) (inp : TickInput F)
      → refused cfg rt inp ≡ true
      → Holds cfg (decide cfg rt inp).0 (decide cfg rt inp).1
  unfolding decide
  decide_fail_closed cfg rt inp h = elim (guard-refused cfg rt inp) [
    | inl (r, b, e) ↦ rw (e, decide) (fault_tick-Holds cfg rt inp (guard cfg rt inp) rt.state b)
    | inr (r, e) ↦ cc
  ]

  -- The rows that the tick could pass on: the committed row of the chunk in force, and of its
  -- projection.
  abbrev policy_row : FuseConfig F → FuseRt F → TickInput F → List F
  policy_row cfg rt inp = candidate_row cfg (prepare cfg rt inp).0.cur inp.idx

  abbrev projected_row : FuseConfig F → FuseRt F → TickInput F → List F
  projected_row cfg rt inp = candidate_row cfg (prepare cfg rt inp).0.scratch inp.idx

  -- The verdict of Enforce mode: the source follows the state, and the action follows the source.
  pub record Enforced (cfg : FuseConfig F) (rt after : FuseRt F) (inp : TickInput F)
      (v : SafetyVerdict F) : Type 0 where
    pub source : v.action_src ≡ source_of v.state
    pub action :
        v.action
        ≡ action_of (source_of v.state) cfg after (policy_row cfg rt inp) (projected_row cfg rt inp)
    pub substituted : v.substituted ≡ not (is_policy (source_of v.state))
    pub unchecked : v.violation_reached_env ≡ false

  -- The verdict of Observe mode: the policy's row passes unchanged, and a tick on which the fuse
  -- would have acted is reported.
  pub record Observed (cfg : FuseConfig F) (rt : FuseRt F) (inp : TickInput F) (v : SafetyVerdict F)
      : Type 0 where
    pub source : v.action_src ≡ ActionSource.policy
    pub action : v.action ≡ policy_row cfg rt inp
    pub substituted : v.substituted ≡ false
    pub reported : v.violation_reached_env ≡ not (is_policy (source_of v.state))

  -- The action reads the position, the velocity and the setpoint of the state alone.
  action_of_same :
      (s : ActionSource) (cfg : FuseConfig F) (a b : FuseRt F) (policy projected : List F)
      → a.pos ≡ b.pos
      → a.vel ≡ b.vel
      → a.hold ≡ b.hold
      → action_of s cfg a policy projected ≡ action_of s cfg b policy projected
  unfolding action_of
  action_of_same s cfg a b policy projected p v h = ground arith

  conclude-Enforced :
      (cfg : FuseConfig F) (rt : FuseRt F) (inp : TickInput F)
      → cfg.mode ≡ FuseMode.enforce
      → let (after, v) = conclude cfg rt.state inp (prepare cfg rt inp) in
        Enforced cfg rt after inp v
  unfolding conclude
  conclude-Enforced cfg rt inp h =
      let p = prepare cfg rt inp in
      let out = next cfg p.0 (machine_input cfg p.0 inp p.1 p.4) in
      let after = (conclude cfg rt.state inp p).0 in
      let same =
        action_of_same (source_of out.1) cfg out.0 after (policy_row cfg rt inp)
          (projected_row cfg rt inp) refl refl refl in
      record {
        source = ground arith;
        action = ground (arith, same);
        substituted = ground arith;
        unchecked = ground arith;
      }

  conclude-Observed :
      (cfg : FuseConfig F) (rt : FuseRt F) (inp : TickInput F)
      → cfg.mode ≡ FuseMode.observe
      → Observed cfg rt inp (conclude cfg rt.state inp (prepare cfg rt inp)).1
  unfolding conclude
  conclude-Observed cfg rt inp h = ground arith

  accepted :
      (cfg : FuseConfig F) (rt : FuseRt F) (inp : TickInput F)
      → refused cfg rt inp ≡ false
      → not (guard cfg rt inp == 0) ≡ false
  accepted cfg rt inp h = ground (arith, guard-refused cfg rt inp)

  -- In Enforce mode a tick that passes the guard carries the action that its state calls for, and
  -- nothing unchecked reaches the environment.
  pub decide-Enforced :
      (cfg : FuseConfig F) (rt : FuseRt F) (inp : TickInput F)
      → cfg.mode ≡ FuseMode.enforce
      → refused cfg rt inp ≡ false
      → Enforced cfg rt (decide cfg rt inp).0 inp (decide cfg rt inp).1
  unfolding decide
  decide-Enforced cfg rt inp m h =
      rw (accepted cfg rt inp h, decide) (conclude-Enforced cfg rt inp m)

  -- In Observe mode a tick that passes the guard passes the policy's row on, and reports whether
  -- the fuse would have acted.
  pub decide-Observed :
      (cfg : FuseConfig F) (rt : FuseRt F) (inp : TickInput F)
      → cfg.mode ≡ FuseMode.observe
      → refused cfg rt inp ≡ false
      → Observed cfg rt inp (decide cfg rt inp).1
  unfolding decide
  decide-Observed cfg rt inp m h =
      rw (accepted cfg rt inp h, decide) (conclude-Observed cfg rt inp m)

  -- The brake action at the position and the velocity of a state.
  abbrev pub brake_row : FuseConfig F → FuseRt F → List F
  brake_row cfg rt =
      let n = min cfg.pos_dim max_pos in
      copy_at zero_row 0
        (brake_action cfg (take n rt.pos) (take n rt.vel) (take (min cfg.dim max_d) zero_row))

  -- A verdict that hands on nothing of the chunk: the brake action while Braking, and the hold action
  -- in every other stop, each computed from the fuse's own state.
  abbrev pub Withheld : FuseConfig F → FuseRt F → SafetyVerdict F → Type 0
  Withheld cfg after v =
      ((v.state ≡ braking) × (v.action_src ≡ ActionSource.brake) × (v.action ≡ brake_row cfg after))
      ⊎ ((v.state ≢ braking) × (v.action_src ≡ ActionSource.hold) × (v.action ≡ hold_row cfg after))

  Enforced-Withheld :
      (cfg : FuseConfig F) (rt after : FuseRt F) (inp : TickInput F) (v : SafetyVerdict F)
      → Enforced cfg rt after inp v
      → is_stop v.state ≡ true
      → Withheld cfg after v
  unfolding action_of
  Enforced-Withheld cfg rt after inp v e s =
      let policy = policy_row cfg rt inp in
      let projected = projected_row cfg rt inp in
      elim (stop_source v.state s) [
        | inl (b, same) ↦
            inl
              (b, e.source ∙ same, e.action ∙ ap (λ x. action_of x cfg after policy projected) same)
        | inr (b, same) ↦
            inr
              (b, e.source ∙ same, e.action ∙ ap (λ x. action_of x cfg after policy projected) same)
      ]

  -- In Enforce mode the action of a verdict that reports a stop is computed from the fuse's own state,
  -- not taken from the chunk or its projection, whether the guard refused the tick or not: while
  -- Braking it is the brake action at the position and velocity of the fuse's state after the tick,
  -- and in every other stop it is the hold action at the setpoint of that state; the source says
  -- which.
  pub stop_withholds_policy :
      (cfg : FuseConfig F) (rt : FuseRt F) (inp : TickInput F)
      → cfg.mode ≡ FuseMode.enforce
      → is_stop (decide cfg rt inp).1.state ≡ true
      → Withheld cfg (decide cfg rt inp).0 (decide cfg rt inp).1
  stop_withholds_policy cfg rt inp m s = elim (Bool-cases (refused cfg rt inp)) [
    | inl e ↦
        let k = decide_fail_closed cfg rt inp e in
        inr (λ b. absurd (fault_apart (sym k.state ∙ b)), k.source, k.action)
    | inr e ↦ Enforced-Withheld cfg rt _ inp _ (decide-Enforced cfg rt inp m e) s
  ]
