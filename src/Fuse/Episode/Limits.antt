-- ===== src/Fuse/Episode/Limits.antt =====
-- No stop lasts longer than its limit (crates/lictor-fuse/src/fsm.rs, rows 7, 12 and 14).
use lictor.Prelude.{
  ℕ, suc, ◌≤◌, ◌<◌, ◌≡◌, ◌∙◌, ◌⊎◌, inl, inr, List, [], ◌∷◌, length, take, arith, u16_max, u32_max,
}
use lictor.Float.{Float}
use lictor.Core.State.{FuseState, armed, braking, held, escalated, fault, terminated}
use lictor.Core.Config.{FuseConfig}
use lictor.Fuse.Runtime.{FuseRt}
use lictor.Fuse.Fsm.Progress.{left, next_braking, next_held, next_escalated}
use lictor.Fuse.Input.{TickInput}
use lictor.Fuse.Decide.{decide}
use lictor.Fuse.Decide.Machine.{
  machine_state, machine_tick, machine_state_same, decide_machine, next_state,
}
use lictor.Fuse.Episode.{run}

module _ {F : Type 0} ⦃fl : Float F⦄ (cfg : FuseConfig F) where
  -- Some number of ticks, at most all, leads to a state with the property.
  abbrev Within : (FuseState → Type 0) → FuseRt F → List (TickInput F) → Type 0
  Within P rt inps = (k : ℕ) × (k ≤ length inps) × P (run cfg rt (take k inps)).0.state

  -- A state that a measure drives out is left within that measure.
  within :
      (P : FuseState → Type 0) (s : FuseState) (measure : FuseRt F → ℕ)
      → ((rt : FuseRt F) (inp : TickInput F)
          → rt.state ≡ s
          → P (decide cfg rt inp).0.state
            ⊎ (((decide cfg rt inp).0.state ≡ s) × (measure (decide cfg rt inp).0 < measure rt)))
      → (rt : FuseRt F) (inps : List (TickInput F)) → rt.state ≡ s
      → measure rt < length inps
      → Within P rt inps
  unfolding run
  within P s measure each rt [] e h = absurd (omega arith)
  within P s measure each rt (inp ∷ rest) e h = elim (each rt inp e) [
    | inl done ↦ (1, omega arith, done)
    | inr (stays, less) ↦
        let (k, le, p) = within P s measure each (decide cfg rt inp).0 rest stays (omega arith) in
        (suc k, omega arith, p)
  ]

  abbrev Stopped : FuseState → Type 0
  Stopped s = (s ≡ held) ⊎ (s ≡ fault)

  decide_braking :
      cfg.hyst.brake_timeout_ticks ≤ u16_max
      → (rt : FuseRt F) (inp : TickInput F) → rt.state ≡ braking
      → Stopped (decide cfg rt inp).0.state
        ⊎ (((decide cfg rt inp).0.state ≡ braking)
            × (left braking cfg (decide cfg rt inp).0 < left braking cfg rt))
  decide_braking h rt inp e =
      let same = machine_state_same cfg rt inp in
      let after = (decide_machine cfg rt inp).counters in
      let ticks = after.brake_ticks in
      let state =
        after.state ∙ next_state cfg (machine_state cfg rt inp) (machine_tick cfg rt inp) in
      elim (next_braking cfg (machine_state cfg rt inp) (machine_tick cfg rt inp) (same.state ∙ e)
        h) [
          | inl p ↦ inl (inl (state ∙ p))
          | inr (inl p) ↦ inl (inr (state ∙ p))
          | inr (inr (p, q)) ↦ inr (state ∙ p, omega (arith, same.brake_ticks))
        ]

  -- From Braking, any ticks more than `brake_timeout_ticks` less those already spent reach Held
  -- or Fault on the way. (`brake_timeout_ticks` is a u16.)
  pub braking_ends :
      (rt : FuseRt F) (inps : List (TickInput F))
      → cfg.hyst.brake_timeout_ticks ≤ u16_max
      → rt.state ≡ braking
      → left braking cfg rt < length inps
      → (k : ℕ) × (k ≤ length inps)
        × (((run cfg rt (take k inps)).0.state ≡ held)
            ⊎ ((run cfg rt (take k inps)).0.state ≡ fault))
  braking_ends rt inps h e n =
      within Stopped braking (left braking cfg) (decide_braking h) rt inps e n

  abbrev Decided : FuseState → Type 0
  Decided s = (s ≡ armed) ⊎ (s ≡ escalated) ⊎ (s ≡ terminated) ⊎ (s ≡ fault)

  decide_held :
      cfg.hyst.escalate_after_hold_ticks ≤ u16_max
      → (rt : FuseRt F) (inp : TickInput F) → rt.state ≡ held
      → Decided (decide cfg rt inp).0.state
        ⊎ (((decide cfg rt inp).0.state ≡ held)
            × (left held cfg (decide cfg rt inp).0 < left held cfg rt))
  decide_held h rt inp e =
      let same = machine_state_same cfg rt inp in
      let after = (decide_machine cfg rt inp).counters in
      let ticks = after.held_ticks in
      let state =
        after.state ∙ next_state cfg (machine_state cfg rt inp) (machine_tick cfg rt inp) in
      elim (next_held cfg (machine_state cfg rt inp) (machine_tick cfg rt inp) (same.state ∙ e) h) [
        | inl p ↦ inl (inl (state ∙ p))
        | inr (inl p) ↦ inl (inr (inl (state ∙ p)))
        | inr (inr (inl p)) ↦ inl (inr (inr (inl (state ∙ p))))
        | inr (inr (inr (inl p))) ↦ inl (inr (inr (inr (state ∙ p))))
        | inr (inr (inr (inr (p, q)))) ↦ inr (state ∙ p, omega (arith, same.held_ticks))
      ]

  -- From Held, any ticks more than `escalate_after_hold_ticks` less those already spent reach, on
  -- the way, Armed, Escalated, Terminated or Fault. (`escalate_after_hold_ticks` is a u16.)
  pub held_ends :
      (rt : FuseRt F) (inps : List (TickInput F))
      → cfg.hyst.escalate_after_hold_ticks ≤ u16_max
      → rt.state ≡ held
      → left held cfg rt < length inps
      → (k : ℕ) × (k ≤ length inps)
        × (((run cfg rt (take k inps)).0.state ≡ armed)
            ⊎ ((run cfg rt (take k inps)).0.state ≡ escalated)
            ⊎ ((run cfg rt (take k inps)).0.state ≡ terminated)
            ⊎ ((run cfg rt (take k inps)).0.state ≡ fault))
  held_ends rt inps h e n = within Decided held (left held cfg) (decide_held h) rt inps e n

  abbrev Closed : FuseState → Type 0
  Closed s = (s ≡ armed) ⊎ (s ≡ terminated) ⊎ (s ≡ fault)

  decide_escalated :
      cfg.hyst.handoff_timeout_ticks ≤ u32_max
      → (rt : FuseRt F) (inp : TickInput F) → rt.state ≡ escalated
      → Closed (decide cfg rt inp).0.state
        ⊎ (((decide cfg rt inp).0.state ≡ escalated)
            × (left escalated cfg (decide cfg rt inp).0 < left escalated cfg rt))
  decide_escalated h rt inp e =
      let same = machine_state_same cfg rt inp in
      let after = (decide_machine cfg rt inp).counters in
      let ticks = after.escalated_ticks in
      let state =
        after.state ∙ next_state cfg (machine_state cfg rt inp) (machine_tick cfg rt inp) in
      elim (next_escalated cfg (machine_state cfg rt inp) (machine_tick cfg rt inp) (same.state ∙ e)
        h) [
          | inl p ↦ inl (inl (state ∙ p))
          | inr (inl p) ↦ inl (inr (inl (state ∙ p)))
          | inr (inr (inl p)) ↦ inl (inr (inr (state ∙ p)))
          | inr (inr (inr (p, q))) ↦ inr (state ∙ p, omega (arith, same.escalated_ticks))
        ]

  -- From Escalated, any ticks more than `handoff_timeout_ticks` less those already spent reach, on
  -- the way, Armed, Terminated or Fault. (`handoff_timeout_ticks` is a u32.)
  pub escalated_ends :
      (rt : FuseRt F) (inps : List (TickInput F))
      → cfg.hyst.handoff_timeout_ticks ≤ u32_max
      → rt.state ≡ escalated
      → left escalated cfg rt < length inps
      → (k : ℕ) × (k ≤ length inps)
        × (((run cfg rt (take k inps)).0.state ≡ armed)
            ⊎ ((run cfg rt (take k inps)).0.state ≡ terminated)
            ⊎ ((run cfg rt (take k inps)).0.state ≡ fault))
  escalated_ends rt inps h e n =
      within Closed escalated (left escalated cfg) (decide_escalated h) rt inps e n
