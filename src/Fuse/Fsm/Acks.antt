-- ===== src/Fuse/Fsm/Acks.antt =====
-- Acknowledgements and re-arms over one tick of the state machine (crates/lictor-fuse/src/fsm.rs).
use lictor.Prelude.{
  ℕ, zero, suc, ◌≤◌, List, [], ◌∷◌, if◌then◌else◌, ◌<◌, ◌≡◌, refl, ◌⊎◌, inl, inr, Bool, true, false,
  Option, none, some, get_or, set, has, arith, Bool-cases, u8_max, saturating_suc,
}
use lictor.Float.{Float}
use lictor.Core.State.{
  FuseState, armed, held, escalated, terminated, AckDecision, resume, VerifiedAck,
}
use lictor.Core.Reason.{ReasonCode}
use lictor.Core.Config.{FuseConfig, max_operators}
use lictor.Fuse.Runtime.{FuseRt}
use lictor.Fuse.Fsm.{
  FsmInput, Outcome, fault_bits, is_ack_reason, is_clean, fault_reason, accepted_ack, count_clean,
  state_rows, transition, next,
}
use lictor.Fuse.Fsm.Safety.{Fresh, accepted_ack-Fresh}

-- The nonces after an acknowledgement is used up.
abbrev pub used : List ℕ → VerifiedAck → List ℕ
used nonces a = set nonces a.operator_slot a.nonce

abbrev pub is_resume : AckDecision → Bool
is_resume resume = true
is_resume _ = false

fault_reason-no_ack : (trips : ℕ) → is_ack_reason (fault_reason trips) ≡ false
unfolding fault_reason
fault_reason-no_ack trips = ground arith

get_or-set_le :
    (xs : List ℕ) (i v j : ℕ) → get_or xs i 0 < v → get_or xs j 0 ≤ get_or (set xs i v) j 0
get_or-set_le [] i v j h = omega arith
get_or-set_le (x ∷ xs) zero v zero h = omega arith
get_or-set_le (x ∷ xs) zero v (suc j) h = omega arith
get_or-set_le (x ∷ xs) (suc i) v zero h = omega arith
get_or-set_le (x ∷ xs) (suc i) v (suc j) h = get_or-set_le xs i v j h

module _ {F : Type 0} ⦃fl : Float F⦄ where
  -- A tick whose reason is no acknowledgement's leaves every nonce as it was.
  pub next_nonces_kept :
      (cfg : FuseConfig F) (rt : FuseRt F) (inp : FsmInput)
      → is_ack_reason (next cfg rt inp).3 ≡ false
      → (next cfg rt inp).0.last_nonce ≡ rt.last_nonce
  unfolding next
  next_nonces_kept cfg rt inp h = ground arith

  -- With no acknowledgement no row of the table has such a reason.
  rows_without_ack :
      (cfg : FuseConfig F) (s : FuseState) (rt : FuseRt F) (clean : Bool) (inp : FsmInput)
      → is_ack_reason (state_rows s cfg rt clean none inp).3 ≡ false
  unfolding state_rows
  rows_without_ack cfg held rt clean inp = ground arith
  rows_without_ack cfg s rt clean inp = ground arith

  -- What such a row does with the acknowledgement.
  Applied : FuseRt F → VerifiedAck → FuseState → Outcome F → Type 0
  Applied rt a s out =
      (out.0.last_nonce ≡ used rt.last_nonce a)
      × ((s ≡ held) ⊎ (s ≡ escalated))
      × (out.1 ≡ (if is_resume a.decision then armed else terminated))

  rows_with_ack :
      (cfg : FuseConfig F) (s : FuseState) (rt : FuseRt F) (clean : Bool) (a : VerifiedAck)
      (inp : FsmInput)
      → a.operator_slot < max_operators
      → is_ack_reason (state_rows s cfg rt clean (some a) inp).3 ≡ true
      → Applied rt a s (state_rows s cfg rt clean (some a) inp)
  unfolding state_rows Applied
  rows_with_ack cfg held rt clean a inp k h = (ground arith, inl refl, ground arith)
  rows_with_ack cfg escalated rt clean a inp k h = (ground arith, inr refl, ground arith)
  rows_with_ack cfg s rt clean a inp k h = absurd (ground arith)

  state_ack-Applied :
      (cfg : FuseConfig F) (rt rt1 : FuseRt F) (given ack : Option VerifiedAck) (inp : FsmInput)
      → accepted_ack rt1 given ≡ ack
      → is_ack_reason (state_rows rt.state cfg rt1 (is_clean inp) ack inp).3 ≡ true
      → (a : VerifiedAck) × (given ≡ some a)
        × Fresh rt1 a
        × Applied rt1 a rt.state (state_rows rt.state cfg rt1 (is_clean inp) ack inp)
  state_ack-Applied cfg rt rt1 given none inp e h =
      absurd (cc (rows_without_ack cfg rt.state rt1 (is_clean inp) inp))
  state_ack-Applied cfg rt rt1 given (some a) inp e h =
      let (g, f) = accepted_ack-Fresh rt1 given e in
      (a, g, f, rows_with_ack cfg rt.state rt1 (is_clean inp) a inp f.slot_in_range h)

  -- A tick whose reason is an acknowledgement's was given one that is fresh, in Held or Escalated;
  -- it uses up the nonce in the operator's slot, and a Resume ends in Armed, any other decision in
  -- Terminated.
  pub next_ack_applied :
      (cfg : FuseConfig F) (rt : FuseRt F) (inp : FsmInput)
      → is_ack_reason (next cfg rt inp).3 ≡ true
      → (a : VerifiedAck) × (inp.ack ≡ some a)
        × Fresh rt a
        × ((next cfg rt inp).0.last_nonce ≡ used rt.last_nonce a)
        × ((rt.state ≡ held) ⊎ (rt.state ≡ escalated))
        × ((next cfg rt inp).1 ≡ (if is_resume a.decision then armed else terminated))
  unfolding next Applied
  next_ack_applied cfg rt inp h = elim (Bool-cases (has inp.trips fault_bits)) [
    | inl e ↦ absurd (cc (fault_reason-no_ack inp.trips, rw (e, transition) at h))
    | inr e ↦
        let (a, g, f, p) =
          state_ack-Applied cfg rt (count_clean rt inp) inp.ack _ inp refl
            (rw (e, transition) at h) in
        (
          a,
          g,
          record { slot_in_range = f.slot_in_range; answers = f.answers; unused = f.unused },
          rw (e, transition) p.0,
          p.1,
          rw (e, transition) p.2,
        )
  ]

  -- No tick lowers a nonce.
  pub next_nonces_mono :
      (cfg : FuseConfig F) (rt : FuseRt F) (inp : FsmInput) (slot : ℕ)
      → get_or rt.last_nonce slot 0 ≤ get_or (next cfg rt inp).0.last_nonce slot 0
  next_nonces_mono cfg rt inp slot = elim (Bool-cases (is_ack_reason (next cfg rt inp).3)) [
    | inl e ↦
        let (a, g, f, n, s, d) = next_ack_applied cfg rt inp e in
        rw n (get_or-set_le rt.last_nonce a.operator_slot a.nonce slot f.unused)
    | inr e ↦ rw (next_nonces_kept cfg rt inp e) (omega arith)
  ]

  -- No tick lowers the number of re-arms, which stays a u8; an automatic re-arm needs budget left and
  -- takes one of it.
  pub next_rearms :
      (cfg : FuseConfig F) (rt : FuseRt F) (inp : FsmInput)
      → rt.rearms ≤ u8_max
      → (rt.rearms ≤ (next cfg rt inp).0.rearms)
        × ((next cfg rt inp).0.rearms ≤ u8_max)
        × ((next cfg rt inp).3 ≡ ReasonCode.rearmed_auto
            → (rt.rearms < cfg.hyst.max_rearms)
              × ((next cfg rt inp).0.rearms ≡ saturating_suc u8_max rt.rearms))
  unfolding next
  next_rearms cfg rt inp h = (ground arith, ground arith, λ e. (ground arith, ground arith))
