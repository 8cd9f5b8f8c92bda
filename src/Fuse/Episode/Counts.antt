-- ===== src/Fuse/Episode/Counts.antt =====
-- The tally of an episode agrees with its verdicts (crates/lictor-fuse/src/tally.rs).
use lictor.Prelude.{
  ℕ, Bool, true, false, ◌+◌, ◌≤◌, ◌<◌, ◌≡◌, refl, sym, ap, ◌∙◌, inl, inr, not, ◌==◌, List, [], ◌∷◌,
  Option, none, some, length, arith, u32_max, saturating_suc, if◌then◌else◌, Bool-cases,
}
use lictor.Float.{Float}
use lictor.Core.State.{FuseState, is_stop}
use lictor.Core.Config.{FuseConfig}
use lictor.Core.Verdict.{SafetyVerdict, Status}
use lictor.Fuse.Runtime.{FuseRt, Tally}
use lictor.Fuse.Fsm.{FsmInput, next}
use lictor.Fuse.Input.{TickInput, status_of}
use lictor.Fuse.Guard.{guard}
use lictor.Fuse.Tally.{
  TickEvents, no_events, count_state, record_tick, record_chunk, first_if, tick_if,
}
use lictor.Fuse.Stages.{Prepared, prepare, ingest, tier0, deliver, recheck, tier1, shift_window}
use lictor.Fuse.Decide.{
  decide, fault_tick, conclude, fault_start, fault_input, machine_input, events,
}
use lictor.Fuse.Episode.{run}

abbrev or_else : Option ℕ → Option ℕ → Option ℕ
or_else none b = b
or_else (some a) b = some a

abbrev pub same_status : Status → Status → Bool
same_status Status.nominal Status.nominal = true
same_status Status.watching Status.watching = true
same_status Status.clamped Status.clamped = true
same_status Status.braking Status.braking = true
same_status Status.held Status.held = true
same_status Status.escalated Status.escalated = true
same_status Status.fault Status.fault = true
same_status Status.terminated Status.terminated = true
same_status _ _ = false

module _ {F : Type 0} where
  -- The sum of the counters of the states.
  abbrev pub states_sum : Tally F → ℕ
  states_sum t =
      t.nominal + t.watching + t.clamped + t.braking + t.held + t.escalated + t.fault + t.terminated

  -- The state counters add up to the ticks.
  abbrev pub Balanced : Tally F → Type 0
  Balanced t = states_sum t ≡ t.ticks

  -- The counter of a status.
  abbrev pub counter : Status → Tally F → ℕ
  counter Status.nominal t = t.nominal
  counter Status.watching t = t.watching
  counter Status.clamped t = t.clamped
  counter Status.braking t = t.braking
  counter Status.held t = t.held
  counter Status.escalated t = t.escalated
  counter Status.fault t = t.fault
  counter Status.terminated t = t.terminated

  -- How many verdicts report a status.
  abbrev pub reports : Status → List (SafetyVerdict F) → ℕ
  reports s [] = 0
  reports s (v ∷ vs) = let rest = reports s vs in if same_status v.status s then rest + 1 else rest

  -- The time of the first verdict whose state is a stop.
  abbrev pub first_stop : List (SafetyVerdict F) → Option ℕ
  first_stop [] = none
  first_stop (v ∷ vs) = if is_stop v.state then some v.t else first_stop vs

module _ {F : Type 0} ⦃fl : Float F⦄ where
  record_tick_states :
      (t : Tally F) (v : SafetyVerdict F) (ev : TickEvents)
      → Balanced t
      → t.ticks < u32_max
      → Balanced (record_tick t v ev) × ((record_tick t v ev).ticks ≡ t.ticks + 1)
  unfolding record_tick
  record_tick_states t v ev h k = ground arith

  counter_le : (s : Status) (t : Tally F) → counter s t ≤ states_sum t
  counter_le s t = ground arith

  counter-count_state :
      (s : Status) (st : FuseState) (t : Tally F)
      → counter s t < u32_max
      → counter s (count_state st t)
        ≡ (if same_status (status_of st) s then counter s t + 1 else counter s t)
  unfolding count_state status_of
  counter-count_state s st t h = ground (arith, h)

  recorded_counter :
      (s : Status) (t : Tally F) (v : SafetyVerdict F) (ev : TickEvents)
      → counter s (record_tick t v ev)
        ≡ counter s (count_state v.state (record t { ticks = saturating_suc u32_max t.ticks }))
  unfolding record_tick
  recorded_counter Status.nominal t v ev = refl
  recorded_counter Status.watching t v ev = refl
  recorded_counter Status.clamped t v ev = refl
  recorded_counter Status.braking t v ev = refl
  recorded_counter Status.held t v ev = refl
  recorded_counter Status.escalated t v ev = refl
  recorded_counter Status.fault t v ev = refl
  recorded_counter Status.terminated t v ev = refl

  same_ticks : (s : Status) (t : Tally F) (n : ℕ) → counter s (record t { ticks = n }) ≡ counter s t
  same_ticks s t n = ground arith

  -- Only the counter of the status advances.
  counter-record_tick :
      (s : Status) (t : Tally F) (v : SafetyVerdict F) (ev : TickEvents)
      → v.status ≡ status_of v.state
      → counter s t < u32_max
      → counter s (record_tick t v ev)
        ≡ (if same_status v.status s then counter s t + 1 else counter s t)
  counter-record_tick s t v ev h k =
      let ticks = saturating_suc u32_max t.ticks in
      let same = same_ticks s t ticks in
      recorded_counter s t v ev
      ∙ counter-count_state s v.state (record t { ticks = ticks }) (omega (arith, same, k))
      ∙ ap
          (λ x.
            if same_status x s
            then counter s (record t { ticks = ticks }) + 1
            else counter s (record t { ticks = ticks }))
          (sym h)
      ∙ ap (λ n. if same_status v.status s then n + 1 else n) same

  decide_status :
      (cfg : FuseConfig F) (rt : FuseRt F) (inp : TickInput F)
      → (decide cfg rt inp).1.status ≡ status_of (decide cfg rt inp).1.state
  unfolding decide fault_tick conclude
  decide_status cfg rt inp = ground arith

  record_tick_first_stop :
      (t : Tally F) (v : SafetyVerdict F) (ev : TickEvents)
      → (record_tick t v ev).first_stop_tick ≡ first_if (is_stop v.state) v.t t.first_stop_tick
  unfolding record_tick
  record_tick_first_stop t v ev = ground arith

  pub record_tick_violations :
      (t : Tally F) (v : SafetyVerdict F) (ev : TickEvents)
      → (record_tick t v ev).violations_reached_env
        ≡ tick_if v.violation_reached_env t.violations_reached_env
  unfolding record_tick
  record_tick_violations t v ev = ground arith

  next_tally :
      (cfg : FuseConfig F) (rt : FuseRt F) (inp : FsmInput) → (next cfg rt inp).0.tally ≡ rt.tally
  unfolding next
  next_tally cfg rt inp = ground arith

  -- Stage 2 counts chunks and nothing else.
  pub record SameTally (a b : Tally F) : Type 0 where
    pub counters : (s : Status) → counter s a ≡ counter s b
    pub balance : states_sum a ≡ states_sum b
    pub ticks : a.ticks ≡ b.ticks
    pub first_stop_tick : a.first_stop_tick ≡ b.first_stop_tick
    pub violations : a.violations_reached_env ≡ b.violations_reached_env

  tier0_tally :
      (cfg : FuseConfig F) (rt : FuseRt F) (inp : TickInput F)
      → SameTally (tier0 cfg rt inp).0.tally rt.tally
  unfolding tier0 deliver recheck record_chunk
  tier0_tally cfg rt inp = record {
    counters = λ s. ground arith;
    balance = ground arith;
    ticks = ground arith;
    first_stop_tick = ground arith;
    violations = ground arith;
  }

  prepare_tally :
      (cfg : FuseConfig F) (rt : FuseRt F) (inp : TickInput F)
      → SameTally (prepare cfg rt inp).0.tally rt.tally
  unfolding prepare ingest tier1 shift_window
  prepare_tally cfg rt inp =
      let k = tier0_tally cfg (ingest cfg rt inp) inp in
      record {
        counters = λ s. ground (arith, k.counters s);
        balance = ground (arith, k.balance);
        ticks = ground (arith, k.ticks);
        first_stop_tick = ground (arith, k.first_stop_tick);
        violations = ground (arith, k.violations);
      }

  fault_tick_tally :
      (cfg : FuseConfig F) (rt : FuseRt F) (inp : TickInput F) (bits : ℕ) (prev : FuseState)
      → let (rt', v) = fault_tick cfg rt inp bits prev in
        rt'.tally ≡ record_tick rt.tally v no_events
  unfolding fault_tick
  fault_tick_tally cfg rt inp bits prev =
      ap (λ (t : Tally F). record_tick t (fault_tick cfg rt inp bits prev).1 no_events)
        (next_tally cfg (fault_start cfg rt inp) (fault_input cfg inp bits))

  conclude_tally :
      (cfg : FuseConfig F) (prev : FuseState) (inp : TickInput F) (p : Prepared F)
      → let (rt', v) = conclude cfg prev inp p in
        (ev : TickEvents) × (rt'.tally ≡ record_tick p.0.tally v ev)
  unfolding conclude
  conclude_tally cfg prev inp p =
      let machine = machine_input cfg p.0 inp p.1 p.4 in
      let out = next cfg p.0 machine in
      let ev = events cfg prev p.0 out.0 out.1 p.4 in
      (
        ev,
        ap (λ (t : Tally F). record_tick t (conclude cfg prev inp p).1 ev)
            (next_tally cfg p.0 machine),
      )

  -- The tally after a tick is one that agrees with the tally before, and the verdict recorded.
  pub decide_tally :
      (cfg : FuseConfig F) (rt : FuseRt F) (inp : TickInput F)
      → (t : Tally F) × (ev : TickEvents) × SameTally t rt.tally
        × ((decide cfg rt inp).0.tally ≡ record_tick t (decide cfg rt inp).1 ev)
  unfolding decide
  decide_tally cfg rt inp = elim (Bool-cases (not (guard cfg rt inp == 0))) [
    | inl e ↦ (
      rt.tally,
      no_events,
      record {
        counters = λ s. refl;
        balance = refl;
        ticks = refl;
        first_stop_tick = refl;
        violations = refl;
      },
      rw (e, decide) (fault_tick_tally cfg rt inp (guard cfg rt inp) rt.state),
    )
    | inr e ↦
        let (ev, p) = conclude_tally cfg rt.state inp (prepare cfg rt inp) in
        ((prepare cfg rt inp).0.tally, ev, prepare_tally cfg rt inp, rw (e, decide) p)
  ]

  record_tick_ticks :
      (t : Tally F) (v : SafetyVerdict F) (ev : TickEvents)
      → (record_tick t v ev).ticks ≡ saturating_suc u32_max t.ticks
  unfolding record_tick
  record_tick_ticks t v ev = ground arith

  -- Each tick is counted once, as far as a u32 goes.
  pub decide_ticks :
      (cfg : FuseConfig F) (rt : FuseRt F) (inp : TickInput F)
      → (decide cfg rt inp).0.tally.ticks ≡ saturating_suc u32_max rt.tally.ticks
  decide_ticks cfg rt inp =
      let (t, ev, same, e) = decide_tally cfg rt inp in
      ap (λ (x : Tally F). x.ticks) e
      ∙ record_tick_ticks t (decide cfg rt inp).1 ev
      ∙ ap (saturating_suc u32_max) same.ticks

  decide-Balanced :
      (cfg : FuseConfig F) (rt : FuseRt F) (inp : TickInput F)
      → Balanced rt.tally
      → rt.tally.ticks < u32_max
      → Balanced (decide cfg rt inp).0.tally
        × ((decide cfg rt inp).0.tally.ticks ≡ rt.tally.ticks + 1)
  decide-Balanced cfg rt inp h k =
      let (t, ev, same, e) = decide_tally cfg rt inp in
      let (b, n) =
        record_tick_states t (decide cfg rt inp).1 ev (omega (arith, same.balance, same.ticks))
          (omega (arith, same.ticks)) in
      rw e (b, omega (arith, n, same.ticks))

  counter-decide :
      (s : Status) (cfg : FuseConfig F) (rt : FuseRt F) (inp : TickInput F)
      → counter s rt.tally < u32_max
      → counter s (decide cfg rt inp).0.tally ≡ (
          if same_status (decide cfg rt inp).1.status s
          then counter s rt.tally + 1
          else counter s rt.tally)
  counter-decide s cfg rt inp k =
      let (t, ev, same, e) = decide_tally cfg rt inp in
      let was = same.counters s in
      let now =
        counter-record_tick s t (decide cfg rt inp).1 ev (decide_status cfg rt inp)
          (omega (arith, was)) in
      ap (counter s) e
      ∙ now
      ∙ ap (λ n. if same_status (decide cfg rt inp).1.status s then n + 1 else n) was

  run_counter :
      (s : Status) (cfg : FuseConfig F) (rt : FuseRt F) (inps : List (TickInput F))
      → counter s rt.tally + length inps ≤ u32_max
      → counter s (run cfg rt inps).0.tally ≡ counter s rt.tally + reports s (run cfg rt inps).1
  unfolding run
  run_counter s cfg rt [] h = omega arith
  run_counter s cfg rt (inp ∷ rest) h =
      let now = counter-decide s cfg rt inp (omega arith) in
      let later = run_counter s cfg (decide cfg rt inp).0 rest in
      elim (Bool-cases (same_status (decide cfg rt inp).1.status s)) [
        | inl e ↦
            let k : counter s (decide cfg rt inp).0.tally ≡ counter s rt.tally + 1 =
              ground (arith, now, e) in
            rw e (omega (arith, k, h, later (omega (arith, k, h))))
        | inr e ↦
            let k : counter s (decide cfg rt inp).0.tally ≡ counter s rt.tally =
              ground (arith, now, e) in
            rw e (omega (arith, k, h, later (omega (arith, k, h))))
      ]

  run_total :
      (cfg : FuseConfig F) (rt : FuseRt F) (inps : List (TickInput F))
      → Balanced rt.tally
      → rt.tally.ticks + length inps ≤ u32_max
      → Balanced (run cfg rt inps).0.tally
        × ((run cfg rt inps).0.tally.ticks ≡ rt.tally.ticks + length inps)
  unfolding run
  run_total cfg rt [] h k = (h, omega arith)
  run_total cfg rt (inp ∷ rest) h k =
      let (b, n) = decide-Balanced cfg rt inp h (omega arith) in
      let (b', n') = run_total cfg (decide cfg rt inp).0 rest b (omega arith) in (b', omega arith)

  -- Over an episode whose ticks fit a u32, and whose tally starts with state counters that add up to
  -- its ticks, the counter of each status grows by the number of verdicts that report the status, the
  -- ticks grow by the number of ticks, and the state counters still add up to them.
  pub run-Balanced :
      (cfg : FuseConfig F) (rt : FuseRt F) (inps : List (TickInput F)) (s : Status)
      → Balanced rt.tally
      → rt.tally.ticks + length inps ≤ u32_max
      → (counter s (run cfg rt inps).0.tally ≡ counter s rt.tally + reports s (run cfg rt inps).1)
        × ((run cfg rt inps).0.tally.ticks ≡ rt.tally.ticks + length inps)
        × Balanced (run cfg rt inps).0.tally
  run-Balanced cfg rt inps s h k =
      let (balanced, ticks) = run_total cfg rt inps h k in
      let below = counter_le s rt.tally in
      (run_counter s cfg rt inps (omega (arith, below, h, k)), ticks, balanced)

  first_stop_from :
      (cfg : FuseConfig F) (rt : FuseRt F) (inps : List (TickInput F))
      → (run cfg rt inps).0.tally.first_stop_tick
        ≡ or_else rt.tally.first_stop_tick (first_stop (run cfg rt inps).1)
  unfolding run
  first_stop_from cfg rt [] = ground arith
  first_stop_from cfg rt (inp ∷ rest) =
      let (t, ev, same, e) = decide_tally cfg rt inp in
      let f = record_tick_first_stop t (decide cfg rt inp).1 ev in
      let now = ap (λ (x : Tally F). x.first_stop_tick) e ∙ f in
      first_stop_from cfg (decide cfg rt inp).0 rest ∙ ground (arith, now, same.first_stop_tick)

  -- An episode whose tally starts with no first stop records as its first stop the time of the first verdict
  -- that reports Braking, Held, Escalated, Fault or Terminated, and none if no verdict does.
  pub run-first_stop :
      (cfg : FuseConfig F) (rt : FuseRt F) (inps : List (TickInput F))
      → rt.tally.first_stop_tick ≡ none
      → (run cfg rt inps).0.tally.first_stop_tick ≡ first_stop (run cfg rt inps).1
  run-first_stop cfg rt inps h =
      first_stop_from cfg rt inps ∙ ap (λ o. or_else o (first_stop (run cfg rt inps).1)) h
