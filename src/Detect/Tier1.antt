-- ===== src/Detect/Tier1.antt =====
-- The failure signals of the action stream: crates/lictor-detect/src/tier1.rs.
use lictor.Prelude.{
  ℕ, zero, suc, ◌+◌, ◌-◌, ◌*◌, ◌^◌, Bool, true, false, ◌&&◌, Option, List, length, set, take,
  replicate, if◌then◌else◌, ltb, leb, ◌==◌, min, has, bit_and, bit_or, option,
}
use lictor.Float.{Float}
use lictor.Core.Fmath.{fmin, fmax, norm, dist, at}
use lictor.Core.Scores.{Scores, Feat, index, feat_bit, nfeat, chunk_boundary_mask}
use lictor.Core.Chunk.{ChunkView, ChunkBuf, ObsView, max_d, max_h, max_pos, max_ext}
use lictor.Core.Chunk
use lictor.Core.Config.{FuseConfig}
use lictor.Detect.Trail
use lictor.Detect.Tier0.{row, before, start_row, live_rows}
use lictor.Detect.Trail.{Trail}

abbrev pub pe_window : ℕ
pe_window = 20

pub record Tier1Rt (F : Type 0) : Type 0 where
  pub prev : ChunkBuf F
  pub have_prev : Bool
  pub trail : Trail F
  pub held : List F
  pub held_valid : ℕ

-- A set of held features: values and valid bits.
abbrev Held : Type 0 → Type 0
Held F = List F × ℕ

module _ {F : Type 0} ⦃fl : Float F⦄ where
  open fl use {of_nat, decimal, add, sub, mul, div, neg, sqrt}

  unfoldable pub new_tier1 : Tier1Rt F
  unfolding Chunk.new Trail.new
  new_tier1 = record {
    prev = Chunk.new;
    have_prev = false;
    trail = Trail.new;
    held = replicate nfeat (of_nat 0);
    held_valid = 0;
  }

  unfoldable pub reset_tier1 : Tier1Rt F → Tier1Rt F
  unfolding Chunk.clear Trail.clear
  reset_tier1 r = record r {
    prev = Chunk.clear r.prev;
    have_prev = false;
    trail = Trail.clear r.trail;
    held = replicate nfeat (of_nat 0);
    held_valid = 0;
  }

  abbrev eps : F
  eps = decimal 1 9

  abbrev stall_vref_frac : F
  stall_vref_frac = decimal 5 2

  abbrev hold_feat : Held F → Feat → F → Held F
  hold_feat h j x = (set h.0 (index j) x, bit_or h.1 (feat_bit j))

  -- A normalised entry of a chunk of d columns.
  abbrev abar : FuseConfig F → ChunkView F → ℕ → ℕ → ℕ → F
  abar cfg ch d i c =
      mul (sub (at ch.rows (i * d + c)) (at cfg.norm_center c)) (at cfg.inv_norm_scale c)

  -- The sum of the squares of e i c, over n columns of a row and over k rows.
  unfoldable pub columns_sum : (ℕ → ℕ → F) → ℕ → ℕ → ℕ → F → F
  columns_sum e i c zero acc = acc
  columns_sum e i c (suc n) acc = columns_sum e i (suc c) n (add acc (mul (e i c) (e i c)))

  unfoldable pub rows_sum : (ℕ → ℕ → F) → ℕ → ℕ → ℕ → F → F
  unfolding columns_sum
  rows_sum e d i zero acc = acc
  rows_sum e d i (suc k) acc = rows_sum e d (suc i) k (columns_sum e i 0 d acc)

  -- The step between row i and the one before.
  abbrev step_entry : FuseConfig F → ChunkView F → ℕ → ℕ → ℕ → F
  step_entry cfg ch d i c = sub (abar cfg ch d i c) (abar cfg ch d (i - 1) c)

  -- tce and acc over l rows of overlap, the new chunk s ticks after the previous one.
  unfoldable pub overlap_feats :
      FuseConfig F → ChunkView F → ChunkView F → ℕ → ℕ → ℕ → Held F → Held F
  unfolding rows_sum
  overlap_feats cfg prev new d s l h =
      let num =
        rows_sum (λ i c. sub (abar cfg prev d (s + i) c) (abar cfg new d i c)) d 0 l (of_nat 0) in
      let den = rows_sum (step_entry cfg new d) d 1 (l - 1) (of_nat 0) in
      hold_feat (hold_feat h Feat.tce (sqrt (div num (of_nat (l * d))))) Feat.acc
        (sqrt (div num (add den eps)))

  unfoldable pub tce_acc : FuseConfig F → ChunkView F → ChunkView F → ℕ → ℕ → Held F → Held F
  unfolding overlap_feats
  tce_acc cfg prev new d h held =
      let pd = min prev.dim max_d in
      let ph = if pd == 0 then 0 else live_rows prev pd in
      let s = new.t_emit - prev.t_emit in
      let l = min (ph - s) h in
      if (pd == d) && leb prev.t_emit new.t_emit && ltb s ph && leb 2 l
      then overlap_feats cfg prev new d s l held
      else held

  unfoldable pub diff_loop : (ℕ → ℕ → F) → ℕ → ℕ → ℕ → List F → List F
  diff_loop e i c zero diff = diff
  diff_loop e i c (suc n) diff = diff_loop e i (suc c) n (set diff c (e i c))

  unfoldable pub step_norms : FuseConfig F → ChunkView F → ℕ → ℕ → ℕ → List F → F → F
  unfolding diff_loop norm
  step_norms cfg ch d i zero diff acc = acc
  step_norms cfg ch d i (suc k) diff acc =
      let diff' = diff_loop (step_entry cfg ch d) i 0 d diff in
      step_norms cfg ch d (suc i) k diff' (add acc (norm diff' d))

  unfoldable pub acm_neg : FuseConfig F → ChunkView F → ℕ → ℕ → Held F → Held F
  unfolding step_norms
  acm_neg cfg new d h held =
      let acc = step_norms cfg new d 1 (h - 1) (replicate max_d (of_nat 0)) (of_nat 0) in
      if leb 2 h then hold_feat held Feat.acm_neg (neg (div acc (of_nat (h - 1)))) else held

  unfoldable pub njr : FuseConfig F → ChunkView F → ℕ → ℕ → Held F → Held F
  unfolding rows_sum
  njr cfg new d h held =
      let third = λ (i c : ℕ).
        sub
          (add (sub (abar cfg new d (i + 3) c) (mul (of_nat 3) (abar cfg new d (i + 2) c)))
            (mul (of_nat 3) (abar cfg new d (i + 1) c)))
          (abar cfg new d i c) in
      let first = λ (i c : ℕ). sub (abar cfg new d (i + 1) c) (abar cfg new d i c) in
      let num = rows_sum third d 0 (h - 3) (of_nat 0) in
      let den = rows_sum first d 0 (h - 1) (of_nat 0) in
      if leb 4 h
      then hold_feat held Feat.njr
          (div (div num (of_nat (h - 3))) (add eps (div den (of_nat (h - 1)))))
      else held

  unfoldable pub reach : FuseConfig F → ObsView F → ChunkView F → ℕ → ℕ → ℕ → Held F → Held F
  unfolding dist
  reach cfg obs new d h nb held =
      if leb 1 h && ltb 0 nb
      then hold_feat held Feat.reach (div (dist (take d new.rows) obs.pos nb) cfg.norm_scale_iso)
      else held

  unfoldable pub peak_loop : ChunkView F → ℕ → List F → ℕ → ℕ → F → F
  unfolding dist fmax
  peak_loop ch d q0 i zero peak = peak
  peak_loop ch d q0 i (suc k) peak =
      peak_loop ch d q0 (suc i) k (fmax peak (dist (row ch d i) (before ch d q0 i) d))

  unfoldable pub speed_peak : FuseConfig F → ObsView F → ChunkView F → ℕ → ℕ → ℕ → Held F → Held F
  unfolding peak_loop
  speed_peak cfg obs new d h nb held =
      let peak = peak_loop new d (start_row new obs d nb) 0 h (of_nat 0) in
      if leb 1 h then hold_feat held Feat.speed_peak (div peak cfg.norm_scale_iso) else held

  unfoldable pub boundary : FuseConfig F → Tier1Rt F → ObsView F → ChunkView F → Tier1Rt F
  unfolding tce_acc acm_neg njr reach speed_peak Chunk.view Chunk.copy_from
  boundary cfg rt obs new =
      let d = min new.dim max_d in
      let h = if d == 0 then 0 else live_rows new d in
      let nb = min (min d cfg.pos_dim) (min (length obs.pos) max_pos) in
      let h0 : Held F = (replicate nfeat (of_nat 0), 0) in
      let h1 =
        if leb 1 h && rt.have_prev
        then option (Chunk.view rt.prev) h0 (λ prev. tce_acc cfg prev new d h h0)
        else h0 in
      let h2 = njr cfg new d h (acm_neg cfg new d h h1) in
      let h3 = speed_peak cfg obs new d h nb (reach cfg obs new d h nb h2) in
      record rt {
        held = h3.0;
        held_valid = h3.1;
        prev = Chunk.copy_from rt.prev new;
        have_prev = true;
      }

  unfoldable pub held_loop : List F → ℕ → ℕ → ℕ → List F → List F
  held_loop held valid j zero f = f
  held_loop held valid j (suc n) f =
      held_loop held valid (suc j) n (set f j (if has valid (2 ^ j) then at held j else of_nat 0))

  unfoldable pub ext_loop : List F → ℕ → ℕ → Held F → Held F
  ext_loop ext k zero h = h
  ext_loop ext k (suc n) h =
      let j = index Feat.ext0 + k in
      ext_loop ext (suc k) n (set h.0 j (at ext k), bit_or h.1 (2 ^ j))

  unfoldable pub trail_feats : FuseConfig F → Tier1Rt F → Held F → Held F
  unfolding Trail.net Trail.path fmax fmin
  trail_feats cfg rt h =
      let pd = min cfg.pos_dim max_pos in
      let n = Trail.net rt.trail pd pe_window in
      let p = Trail.path rt.trail pd pe_window in
      let v_ref = div (mul stall_vref_frac cfg.norm_scale_iso) cfg.dt in
      let denom = mul (mul v_ref (of_nat pe_window)) cfg.dt in
      let f1 = set h.0 (index Feat.path_ineff) (sub (of_nat 1) (div n (fmax p eps))) in
      let f2 = set f1 (index Feat.stall) (sub (of_nat 1) (fmin (of_nat 1) (div n denom))) in
      if leb pe_window rt.trail.len
      then (f2, bit_or h.1 (bit_or (feat_bit Feat.path_ineff) (feat_bit Feat.stall)))
      else h

  -- The runtime state and the scores with `f` and `valid` written.
  unfoldable pub features :
      FuseConfig F
      → Tier1Rt F
      → ObsView F
      → Option (ChunkView F)
      → ℕ
      → Scores F
      → Tier1Rt F × Scores F
  unfolding boundary held_loop trail_feats ext_loop
  features cfg rt0 obs chunk idx sc =
      let rt = option chunk rt0 (boundary cfg rt0 obs) in
      let valid = bit_and rt.held_valid chunk_boundary_mask in
      let h1 : Held F = (held_loop rt.held valid 0 nfeat sc.f, valid) in
      let h2 = trail_feats cfg rt h1 in
      let h3 = ext_loop obs.ext 0 (min (length obs.ext) max_ext) h2 in
      (rt, record sc { f = h3.0; valid = h3.1 })
