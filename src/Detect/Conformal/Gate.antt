-- ===== src/Detect/Conformal/Gate.antt =====
-- The gate as a formula: the aggregate exceeds the threshold exactly if every channel of some live
-- term does (crates/lictor-detect/src/conformal.rs).
use lictor.Prelude.{
  ℕ, zero, suc, ◌^◌, ◌≡◌, ap, ◌∙◌, Bool, true, false, ◌&&◌, ◌||◌, not, List, get_or, has, bit_and,
  if◌then◌else◌, ltb, arith,
}
use lictor.Float.{Float}
use lictor.Float.Laws.{IsNumber, FloatLaws}
use lictor.Core.Fmath.{fmin, fmax, at}
use lictor.Core.Fmath.Bounds.{lt-fmin, lt-fmax, fmin-IsNumber, fmax-IsNumber}
use lictor.Core.Scores.{Scores, CalibrationC, nfeat, max_terms}
use lictor.Detect.Conformal.{is_live, term_min, gate_loop, aggregate, trip}

or_assoc : (a b c : Bool) → ((a || b) || c) ≡ (a || (b || c))
or_assoc a b c = ground arith

module _ {F : Type 0} ⦃fl : Float F⦄ where
  open fl use {lt, infinity, neg_infinity}

  -- Every channel that a term names is above the threshold: n channels from j on.
  abbrev pub term_above : F → ℕ → List F → ℕ → ℕ → Bool
  term_above tau tm z j zero = true
  term_above tau tm z j (suc n) =
      (not (has tm (2 ^ j)) || lt tau (at z j)) && term_above tau tm z (suc j) n

  -- Some live term is above the threshold in all its channels: n terms from i on.
  abbrev pub gate_above : F → List ℕ → ℕ → List F → ℕ → ℕ → Bool
  gate_above tau terms live z i zero = false
  gate_above tau terms live z i (suc n) =
      (is_live (get_or terms i 0) live && term_above tau (get_or terms i 0) z 0 nfeat)
      || gate_above tau terms live z (suc i) n

  module _ (laws : FloatLaws F) (tau : F) (z : List F) (numbers : (j : ℕ) → IsNumber (at z j)) where
    step_IsNumber :
        (b : Bool) (v : F) (j : ℕ) → IsNumber v → IsNumber (if b then fmin v (at z j) else v)
    step_IsNumber true v j h = fmin-IsNumber laws v (at z j) h (numbers j)
    step_IsNumber false v j h = h

    term_min-IsNumber : (tm j n : ℕ) (v : F) → IsNumber v → IsNumber (term_min tm z j n v)
    unfolding term_min
    term_min-IsNumber tm j zero v h = h
    term_min-IsNumber tm j (suc n) v h =
        term_min-IsNumber tm (suc j) n _ (step_IsNumber (has tm (2 ^ j)) v j h)

    lt-step :
        (b : Bool) (v : F) (j : ℕ)
        → IsNumber v
        → lt tau (if b then fmin v (at z j) else v) ≡ (lt tau v && (not b || lt tau (at z j)))
    lt-step true v j h = lt-fmin laws tau v (at z j) h (numbers j)
    lt-step false v j h = ground arith

    -- The least channel of a term is above the threshold exactly if all of them are.
    lt-term_min :
        (tm j n : ℕ) (v : F)
        → IsNumber v
        → lt tau (term_min tm z j n v) ≡ (lt tau v && term_above tau tm z j n)
    unfolding term_min
    lt-term_min tm j zero v h = ground arith
    lt-term_min tm j (suc n) v h = ground (
      arith,
      lt-term_min tm (suc j) n (if has tm (2 ^ j) then fmin v (at z j) else v)
          (step_IsNumber (has tm (2 ^ j)) v j h),
      lt-step (has tm (2 ^ j)) v j h,
    )

    pick_IsNumber :
        (b : Bool) (s m : F) → IsNumber s → IsNumber m → IsNumber (if b then fmax s m else s)
    pick_IsNumber true s m h k = fmax-IsNumber laws s m h k
    pick_IsNumber false s m h k = h

    lt-pick :
        (b : Bool) (s m : F)
        → IsNumber s
        → IsNumber m
        → lt tau (if b then fmax s m else s) ≡ (lt tau s || (b && lt tau m))
    lt-pick true s m h k = lt-fmax laws tau s m h k
    lt-pick false s m h k = ground arith

    -- The least channel of a term, from infinity on.
    least : ℕ → F
    least tm = term_min tm z 0 nfeat infinity

    least-IsNumber : (tm : ℕ) → IsNumber (least tm)
    unfolding least
    least-IsNumber tm = term_min-IsNumber tm 0 nfeat infinity laws.infinity_number

    lt-least : (tm : ℕ) → lt tau infinity ≡ true → lt tau (least tm) ≡ term_above tau tm z 0 nfeat
    unfolding least
    lt-least tm t = rw t at (lt-term_min tm 0 nfeat infinity laws.infinity_number)

    -- The greatest live term is above it exactly if one of them is.
    lt-gate_loop :
        (terms : List ℕ) (live i n : ℕ) (s : F)
        → lt tau infinity ≡ true
        → IsNumber s
        → lt tau (gate_loop terms live z i n s) ≡ (lt tau s || gate_above tau terms live z i n)
    unfolding gate_loop least
    lt-gate_loop terms live i zero s t h = ground arith
    lt-gate_loop terms live i (suc n) s t h =
        let tm = get_or terms i 0 in
        let b = is_live tm live in
        lt-gate_loop terms live (suc i) n (if b then fmax s (least tm) else s) t
          (pick_IsNumber b s (least tm) h (least-IsNumber tm))
        ∙ ap (λ (x : Bool). x || gate_above tau terms live z (suc i) n)
            (lt-pick b s (least tm) h (least-IsNumber tm)
              ∙ ap (λ (x : Bool). lt tau s || (b && x)) (lt-least tm t))
        ∙ or_assoc (lt tau s) _ _

  -- The predictive channel fires exactly if some live term of the gate has all its channels above
  -- the threshold: for scores that are numbers and a threshold between the infinities.
  pub trip-aggregate :
      (laws : FloatLaws F) (cal : CalibrationC F) (sc : Scores F)
      → ((j : ℕ) → IsNumber (at sc.z j))
      → lt cal.tau infinity ≡ true
      → lt cal.tau neg_infinity ≡ false
      → trip cal (aggregate cal sc)
        ≡ gate_above cal.tau cal.gate.terms
            (bit_and cal.mask sc.valid)
            sc.z
            0
            (if ltb max_terms cal.gate.n_terms then max_terms else cal.gate.n_terms)
  unfolding trip aggregate
  trip-aggregate laws cal sc numbers t u =
      let live = bit_and cal.mask sc.valid in
      let n = if ltb max_terms cal.gate.n_terms then max_terms else cal.gate.n_terms in
      let above = gate_above cal.tau cal.gate.terms live sc.z 0 n in
      lt-gate_loop laws cal.tau sc.z numbers cal.gate.terms live 0 n neg_infinity t
        laws.neg_infinity_number
      ∙ ap (λ (x : Bool). x || above) u
