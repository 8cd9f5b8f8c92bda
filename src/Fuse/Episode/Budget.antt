-- ===== src/Fuse/Episode/Budget.antt =====
-- The automatic re-arms of an episode stay within their budget (crates/lictor-fuse/src/fsm.rs).
use lictor.Prelude.{
  ℕ, suc, ◌+◌, ◌≤◌, ◌<◌, ◌≡◌, sym, ◌∙◌, Bool, true, false, List, [], ◌∷◌, max, if◌then◌else◌, arith,
  u8_max, saturating_suc, Bool-cases, inl, inr,
}
use lictor.Float.{Float}
use lictor.Core.Reason.{ReasonCode}
use lictor.Core.Config.{FuseConfig}
use lictor.Core.Verdict.{SafetyVerdict}
use lictor.Fuse.Runtime.{FuseRt}
use lictor.Fuse.Fsm.Acks.{next_rearms}
use lictor.Fuse.Input.{TickInput}
use lictor.Fuse.Decide.{decide}
use lictor.Fuse.Decide.Machine.{machine_state, machine_tick, machine_state_same, decide_machine}
use lictor.Fuse.Episode.{run}

abbrev pub is_auto_rearm : ReasonCode → Bool
is_auto_rearm ReasonCode.rearmed_auto = true
is_auto_rearm _ = false

auto_reason : (r : ReasonCode) → is_auto_rearm r ≡ true → r ≡ ReasonCode.rearmed_auto
auto_reason r h = ground arith

module _ {F : Type 0} where
  -- How many verdicts report an automatic re-arm.
  abbrev pub auto_rearms : List (SafetyVerdict F) → ℕ
  auto_rearms [] = 0
  auto_rearms (v ∷ vs) = if is_auto_rearm v.reason then suc (auto_rearms vs) else auto_rearms vs

module _ {F : Type 0} ⦃fl : Float F⦄ where
  decide_rearms :
      (cfg : FuseConfig F) (rt : FuseRt F) (inp : TickInput F)
      → rt.rearms ≤ u8_max
      → (rt.rearms ≤ (decide cfg rt inp).0.rearms)
        × ((decide cfg rt inp).0.rearms ≤ u8_max)
        × (is_auto_rearm (decide cfg rt inp).1.reason ≡ true
            → (rt.rearms < cfg.hyst.max_rearms)
              × ((decide cfg rt inp).0.rearms ≡ saturating_suc u8_max rt.rearms))
  decide_rearms cfg rt inp h =
      let same = (machine_state_same cfg rt inp).rearms in
      let shows = decide_machine cfg rt inp in
      let after = shows.counters.rearms in
      let (up, cap, auto) =
        next_rearms cfg (machine_state cfg rt inp) (machine_tick cfg rt inp) (omega arith) in
      (
        omega arith,
        omega arith,
        λ e.
            let (room, one) = auto (sym shows.reason ∙ auto_reason _ e) in
            (omega arith, omega arith),
      )

  -- Over any ticks the verdicts report at most as many automatic re-arms as the budget has left;
  -- re-arms by operators use it up too. (`max_rearms` is a u8.)
  pub auto_rearms_bounded :
      (cfg : FuseConfig F) (rt : FuseRt F) (inps : List (TickInput F))
      → rt.rearms ≤ u8_max
      → cfg.hyst.max_rearms ≤ u8_max
      → auto_rearms (run cfg rt inps).1 + rt.rearms ≤ max rt.rearms cfg.hyst.max_rearms
  unfolding run
  auto_rearms_bounded cfg rt [] h k = omega arith
  auto_rearms_bounded cfg rt (inp ∷ rest) h k =
      let (up, cap, auto) = decide_rearms cfg rt inp h in
      let ih = auto_rearms_bounded cfg (decide cfg rt inp).0 rest cap k in
      elim (Bool-cases (is_auto_rearm (decide cfg rt inp).1.reason)) [
        | inl e ↦ let (room, one) = auto e in rw e (omega arith)
        | inr e ↦ rw e (omega arith)
      ]
