-- ===== src/Fuse/Episode/Acks.antt =====
-- No acknowledgement serves twice in an episode (crates/lictor-fuse/src/fsm.rs, fuse.rs).
use lictor.Prelude.{
  ℕ, ◌≤◌, ◌<◌, ◌≡◌, sym, ap, ◌∙◌, true, false, List, [], ◌∷◌, some, get_or, length, get_or-set_self,
  arith, Bool-cases, inl, inr,
}
use mathlib.Core.Path.{subst}
use lictor.Float.{Float}
use lictor.Core.State.{VerifiedAck}
use lictor.Core.Config.{FuseConfig, max_operators}
use lictor.Fuse.Runtime.{FuseRt}
use lictor.Fuse.Fsm.{is_ack_reason}
use lictor.Fuse.Fsm.Acks.{next_nonces_mono, next_ack_applied, used}
use lictor.Fuse.Input.{TickInput}
use lictor.Fuse.Decide.{decide, fault_tick, conclude, machine_input}
use lictor.Fuse.Decide.Machine.{machine_state, machine_tick, machine_state_same, decide_machine}
use lictor.Fuse.Episode.{run}

module _ {F : Type 0} ⦃fl : Float F⦄ where
  -- The highest nonce that an operator's slot has used.
  abbrev nonce_of : FuseRt F → ℕ → ℕ
  nonce_of rt slot = get_or rt.last_nonce slot 0

  consumed_reason :
      (cfg : FuseConfig F) (rt : FuseRt F) (inp : TickInput F)
      → (decide cfg rt inp).1.ack_consumed ≡ true
      → is_ack_reason (decide cfg rt inp).1.reason ≡ true
  unfolding decide fault_tick conclude
  consumed_reason cfg rt inp h = ground arith

  tick_ack :
      (cfg : FuseConfig F) (rt : FuseRt F) (inp : TickInput F) {a : VerifiedAck}
      → (machine_tick cfg rt inp).ack ≡ some a
      → inp.ack ≡ some a
  unfolding machine_input
  tick_ack cfg rt inp h = ground arith

  -- A tick whose verdict says that an acknowledgement was applied was given one whose nonce is
  -- above the last one of its operator, and records that nonce.
  pub decide_consumed :
      (cfg : FuseConfig F) (rt : FuseRt F) (inp : TickInput F)
      → (decide cfg rt inp).1.ack_consumed ≡ true
      → (a : VerifiedAck) × (inp.ack ≡ some a)
        × (a.operator_slot < max_operators)
        × (nonce_of rt a.operator_slot < a.nonce)
        × ((decide cfg rt inp).0.last_nonce ≡ used rt.last_nonce a)
  decide_consumed cfg rt inp h =
      let same = machine_state_same cfg rt inp in
      let shows = decide_machine cfg rt inp in
      let r = ap is_ack_reason (sym shows.reason) ∙ consumed_reason cfg rt inp h in
      let (a, g, f, n, s, d) =
        next_ack_applied cfg (machine_state cfg rt inp) (machine_tick cfg rt inp) r in
      (
        a,
        tick_ack cfg rt inp g,
        f.slot_in_range,
        omega (arith, f.unused, ap (λ l. get_or l a.operator_slot 0) same.last_nonce),
        shows.counters.last_nonce ∙ n ∙ ap (λ l. used l a) same.last_nonce,
      )

  decide_nonces_mono :
      (cfg : FuseConfig F) (rt : FuseRt F) (inp : TickInput F) (slot : ℕ)
      → nonce_of rt slot ≤ nonce_of (decide cfg rt inp).0 slot
  decide_nonces_mono cfg rt inp slot =
      let same = machine_state_same cfg rt inp in
      let shows = decide_machine cfg rt inp in
      omega (
        arith,
        next_nonces_mono cfg (machine_state cfg rt inp) (machine_tick cfg rt inp) slot,
        ap (λ l. get_or l slot 0) same.last_nonce,
        ap (λ l. get_or l slot 0) shows.counters.last_nonce,
      )

  run_nonces_mono :
      (cfg : FuseConfig F) (rt : FuseRt F) (inps : List (TickInput F)) (slot : ℕ)
      → nonce_of rt slot ≤ nonce_of (run cfg rt inps).0 slot
  unfolding run
  run_nonces_mono cfg rt [] slot = omega arith
  run_nonces_mono cfg rt (inp ∷ rest) slot = omega (
    arith,
    decide_nonces_mono cfg rt inp slot,
    run_nonces_mono cfg (decide cfg rt inp).0 rest slot,
  )

  not_consumed :
      (cfg : FuseConfig F) (rt : FuseRt F) (inp : TickInput F) (a : VerifiedAck)
      → inp.ack ≡ some a
      → a.nonce ≤ nonce_of rt a.operator_slot
      → (decide cfg rt inp).1.ack_consumed ≡ false
  not_consumed cfg rt inp a g h = elim (Bool-cases (decide cfg rt inp).1.ack_consumed) [
    | inl e ↦ let (b, k, s, n, u) = decide_consumed cfg rt inp e in absurd (ground (arith, n, k))
    | inr e ↦ e
  ]

  -- An acknowledgement that a tick applied is applied by no later tick of the episode, however the
  -- ticks between them go and whatever acknowledgements those bring.
  pub ack_single_use :
      (cfg : FuseConfig F) (rt : FuseRt F) (inp : TickInput F) (a : VerifiedAck)
      (later : List (TickInput F)) (again : TickInput F)
      → length rt.last_nonce ≡ max_operators
      → (decide cfg rt inp).1.ack_consumed ≡ true
      → inp.ack ≡ some a
      → again.ack ≡ some a
      → (decide cfg (run cfg (decide cfg rt inp).0 later).0 again).1.ack_consumed ≡ false
  ack_single_use cfg rt inp a later again w h g g' =
      let (b, k, s, n, u) = decide_consumed cfg rt inp h in
      let same : b ≡ a = ground (arith, k) in
      let kept : b.nonce ≤ nonce_of (decide cfg rt inp).0 b.operator_slot =
        rw (u, get_or-set_self rt.last_nonce b.operator_slot b.nonce 0 (omega arith))
          (omega arith) in
      let spent =
        subst (λ (x : VerifiedAck). x.nonce ≤ nonce_of (decide cfg rt inp).0 x.operator_slot) same
          kept in
      not_consumed cfg _ again a g'
        (omega (arith, spent, run_nonces_mono cfg (decide cfg rt inp).0 later a.operator_slot))
