-- ===== src/Receipt/Verify/Held.antt =====
-- When the fuse held, by the record: `evaluate_fuse` of crates/lictor-receipt/src/body.rs and its
-- recomputation in crates/lictor-receipt/src/sign.rs.
use Prim.Native.String.{String}
use lictor.Prelude.{
  ℕ, ◌≡◌, ◌≢◌, sym, ◌∙◌, ◌↔◌, refl, inl, inr, Bool, true, false, not, ◌&&◌, Option, none, some,
  List, [], ◌∷◌, ◌++◌, arith, Bool-cases, option, same_text_iff, is_empty_text, ltb,
}
use lictor.Core.State.{FuseMode, FuseState}
use lictor.Receipt.Body.{
  BudgetBinding, VerdictCounts, Note, evaluate_fuse, exec_mode_missing, is_observed, is_fault,
  note_if, is_no_note,
}

-- A digest is bound, and is not the empty text.
abbrev pub IsBound : Option String → Type 0
IsBound none = ⊥
IsBound (some d) = d ≢ ""

-- What the record must say for the fuse to have held.
pub record Held (budget : BudgetBinding) (counts : VerdictCounts) (digest : Option String)
    (ephemeral : Bool) : Type 0 where
  pub enforced : budget.mode ≡ FuseMode.enforce
  pub no_violation : counts.violations_reached_env ≡ 0
  pub calibrated : budget.tier1_armed ≡ true → IsBound digest
  pub not_faulted : counts.terminal_state ≢ FuseState.fault
  pub own_key : ephemeral ≡ false

append-is_no_note : (xs ys : List Note) → is_no_note (xs ++ ys) ≡ (is_no_note xs && is_no_note ys)
append-is_no_note [] ys = refl
append-is_no_note (x ∷ xs) ys = refl

note_if-none : (b : Bool) (n : Note) → is_no_note (note_if b n) ≡ not b
note_if-none true n = refl
note_if-none false n = refl

never_missing : (b : BudgetBinding) → exec_mode_missing b ≡ false
unfolding exec_mode_missing
never_missing b = ground arith

IsBound-iff : (o : Option String) → (option o true is_empty_text ≡ false) ↔ IsBound o
IsBound-iff none = (λ h. ground arith, λ h. absurd h)
IsBound-iff (some d) = (
  λ h e. ground (arith, (same_text_iff d "").1 e),
  λ h. elim (Bool-cases (is_empty_text d)) [
    | inl e ↦ absurd (h ((same_text_iff d "").0 e))
    | inr e ↦ e
  ],
)

armed_bound :
    (armed : Bool) (o : Option String)
    → (armed ≡ true → IsBound o)
    → (armed && option o true is_empty_text) ≡ false
armed_bound true o h = (IsBound-iff o).1 (h refl)
armed_bound false o h = refl

observed_iff : (m : FuseMode) → (is_observed m ≡ false) ↔ (m ≡ FuseMode.enforce)
observed_iff FuseMode.observe = (λ h. ground arith, λ h. ground arith)
observed_iff FuseMode.enforce = (λ h. refl, λ h. refl)

fault_iff : (s : FuseState) → (is_fault s ≡ false) ↔ (s ≢ FuseState.fault)
fault_iff s = (
  λ h e. ground arith,
  λ h. elim (Bool-cases (is_fault s)) [ inl e ↦ absurd (h (ground arith)) | inr e ↦ e ],
)

six_parts :
    (a b c d e f : Bool)
    → ((((((not a && not b) && not c) && not d) && not e) && not f) ≡ true)
      ↔ ((a ≡ false) × (b ≡ false) × (c ≡ false) × (d ≡ false) × (e ≡ false) × (f ≡ false))
six_parts a b c d e f = (λ h. ground arith, λ h. ground arith)

six_silent :
    (a b c d e f : Bool) (k l m n o p : Note)
    → is_no_note
        (note_if a k ++ note_if b l ++ note_if c m ++ note_if d n ++ note_if e o ++ note_if f p)
      ≡ (((((not a && not b) && not c) && not d) && not e) && not f)
six_silent a b c d e f k l m n o p = simp (append-is_no_note, note_if-none)

no_violation_iff : (n : ℕ) → (ltb 0 n ≡ false) ↔ (n ≡ 0)
no_violation_iff n = (λ h. ground arith, λ h. ground arith)

-- The receipt's flag is set exactly when the mode was Enforce, no violation reached the environment,
-- an armed tier 1 has a calibration's digest, the fuse did not end in Fault and the key was not
-- made for the run.
pub evaluate_fuse-Held :
    (budget : BudgetBinding) (counts : VerdictCounts) (digest : Option String) (ephemeral : Bool)
    → ((evaluate_fuse budget counts digest ephemeral).0 ≡ true)
      ↔ Held budget counts digest ephemeral
unfolding evaluate_fuse
evaluate_fuse-Held budget counts digest ephemeral =
    let a = is_observed budget.mode in
    let b = ltb 0 counts.violations_reached_env in
    let c = budget.tier1_armed && option digest true is_empty_text in
    let d = is_fault counts.terminal_state in
    let e = ltb 0 budget.delay_steps && exec_mode_missing budget in
    let same =
      six_silent a b c d e ephemeral Note.observed (Note.violations counts.violations_reached_env)
        Note.tier1_uncalibrated Note.faulted Note.delay_without_exec Note.ephemeral_key in
    let parts = six_parts a b c d e ephemeral in
    (
      λ h.
          let (ha, hb, hc, hd, he, hf) = parts.0 (sym same ∙ h) in
          record {
            enforced = (observed_iff budget.mode).0 ha;
            no_violation = (no_violation_iff counts.violations_reached_env).0 hb;
            calibrated = λ t. (IsBound-iff digest).0 (ground arith);
            not_faulted = (fault_iff counts.terminal_state).0 hd;
            own_key = hf;
          },
      λ k.
          same
          ∙ parts.1 (
            (observed_iff budget.mode).1 k.enforced,
            (no_violation_iff counts.violations_reached_env).1 k.no_violation,
            armed_bound budget.tier1_armed digest k.calibrated,
            (fault_iff counts.terminal_state).1 k.not_faulted,
            ground (arith, never_missing budget),
            k.own_key,
          ),
    )
