-- ===== src/Detect/Conformal.antt =====
-- The runtime half of split-conformal prediction: crates/lictor-detect/src/conformal.rs.
pub mod Gate
use lictor.Prelude.{
  ℕ, zero, suc, ◌+◌, ◌-◌, ◌^◌, Bool, ◌&&◌, not, List, [], get_or, set, if◌then◌else◌, ltb, leb,
  ◌==◌, has, bit_and, bit_or,
}
use lictor.Float.{Float}
use lictor.Core.Fmath.{fmin, fmax, at}
use lictor.Core.Scores.{Scores, CalibrationC, nfeat, max_t_grid, max_terms, bin}

-- A term is live if it names a channel and all of its channels are valid and masked in.
abbrev pub is_live : ℕ → ℕ → Bool
is_live tm live = not (tm == 0) && (bit_and tm live == tm)

module _ {F : Type 0} ⦃fl : Float F⦄ where
  open fl use {of_nat, sub, div, lt, infinity, neg_infinity}

  abbrev pub row_at : List (List F) → ℕ → List F
  row_at table b = get_or table b []

  -- n channels remain, from j on.
  unfoldable pub standardise_loop : CalibrationC F → ℕ → ℕ → List F → ℕ → ℕ → List F → List F
  standardise_loop cal b live f j zero z = z
  standardise_loop cal b live f j (suc n) z =
      let v = div (sub (at f j) (at (row_at cal.center b) j)) (at (row_at cal.scale b) j) in
      standardise_loop cal b live f (suc j) n (set z j (if has live (2 ^ j) then v else of_nat 0))

  unfoldable pub standardise : CalibrationC F → ℕ → Scores F → Scores F
  unfolding standardise_loop bin
  standardise cal t sc =
      let b0 = bin cal t in
      let b = if leb max_t_grid b0 then max_t_grid - 1 else b0 in
      record sc { z = standardise_loop cal b (bit_and cal.mask sc.valid) sc.f 0 nfeat sc.z }

  -- The least of the channels that a term names.
  unfoldable pub term_min : ℕ → List F → ℕ → ℕ → F → F
  unfolding fmin
  term_min tm z j zero v = v
  term_min tm z j (suc n) v =
      term_min tm z (suc j) n (if has tm (2 ^ j) then fmin v (at z j) else v)

  -- The greatest over the terms that are live.
  unfoldable pub gate_loop : List ℕ → ℕ → List F → ℕ → ℕ → F → F
  gate_loop terms live z term zero s = s
  gate_loop terms live z term (suc n) s =
      let tm = get_or terms term 0 in
      gate_loop terms live z (suc term) n
        (if is_live tm live then fmax s (term_min tm z 0 nfeat infinity) else s)

  unfoldable pub fired_loop : F → ℕ → List F → ℕ → ℕ → ℕ → ℕ
  fired_loop tau live z j zero fired = fired
  fired_loop tau live z j (suc n) fired =
      fired_loop tau live z (suc j) n
        (if has live (2 ^ j) && lt tau (at z j) then bit_or fired (2 ^ j) else fired)

  -- The scores with `fired` and `s` set; the result of `aggregate` is the new `s`.
  unfoldable pub aggregate : CalibrationC F → Scores F → Scores F
  unfolding gate_loop fired_loop
  aggregate cal sc =
      let live = bit_and cal.mask sc.valid in
      let n_terms = if ltb max_terms cal.gate.n_terms then max_terms else cal.gate.n_terms in
      record sc {
        s = gate_loop cal.gate.terms live sc.z 0 n_terms neg_infinity;
        fired = fired_loop cal.tau live sc.z 0 nfeat 0;
      }

  unfoldable pub trip : CalibrationC F → Scores F → Bool
  trip cal sc = lt cal.tau sc.s
