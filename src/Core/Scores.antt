-- ===== src/Core/Scores.antt =====
-- Features and the runtime calibration table: crates/lictor-core/src/scores.rs, with the gate
-- of envelope.rs.
pub mod Bins
use lictor.Prelude.{ℕ, ◌-◌, ◌*◌, ◌/◌, ◌^◌, Bool, not, List, replicate, if◌then◌else◌, leb, ◌==◌}
use lictor.Float.{Float}

abbrev pub nfeat : ℕ
nfeat = 12

abbrev pub max_t_grid : ℕ
max_t_grid = 100

abbrev pub max_terms : ℕ
max_terms = 8

pub data Feat : Type 0 where
  tce acc acm_neg njr reach path_ineff stall speed_peak ext0 ext1 ext2 ext3 : Feat

-- `feat as usize`.
abbrev pub index : Feat → ℕ
index Feat.tce = 0
index Feat.acc = 1
index Feat.acm_neg = 2
index Feat.njr = 3
index Feat.reach = 4
index Feat.path_ineff = 5
index Feat.stall = 6
index Feat.speed_peak = 7
index Feat.ext0 = 8
index Feat.ext1 = 9
index Feat.ext2 = 10
index Feat.ext3 = 11

abbrev pub feat_bit : Feat → ℕ
feat_bit f = 2 ^ index f

abbrev pub chunk_boundary_mask : ℕ
chunk_boundary_mask = 0b0000_1001_1111

abbrev pub per_tick_mask : ℕ
per_tick_mask = 0b1111_0110_0000

pub record Scores (F : Type 0) : Type 0 where
  pub f : List F
  pub z : List F
  pub s : F
  pub valid : ℕ
  pub fired : ℕ

pub data CalMethod : Type 0 where
  static binned : CalMethod

-- A gate in disjunctive form: each term is a mask of features.
pub record GateSpec : Type 0 where
  pub n_terms : ℕ
  pub terms : List ℕ

pub record CalibrationC (F : Type 0) : Type 0 where
  pub method : CalMethod
  pub alpha_num : ℕ
  pub alpha_den : ℕ
  pub n_calib : ℕ
  pub horizon_ticks : ℕ
  pub t_grid : ℕ
  pub center : List (List F)
  pub scale : List (List F)
  pub mask : ℕ
  pub gate : GateSpec
  pub tau : F
  pub digest : List ℕ

unfoldable pub bin_of : ℕ → ℕ → ℕ → ℕ
bin_of t horizon_ticks t_grid =
    let h = if horizon_ticks == 0 then 1 else horizon_ticks in
    let b = t * t_grid / h in if leb t_grid b then t_grid - 1 else b

module _ {F : Type 0} where
  unfoldable pub bin : CalibrationC F → ℕ → ℕ
  unfolding bin_of
  bin cal t = bin_of t cal.horizon_ticks cal.t_grid

  unfoldable pub is_armed : CalibrationC F → Bool
  is_armed cal = not (cal.mask == 0)

abbrev pub disarmed_gate : GateSpec
disarmed_gate = record { n_terms = 0; terms = replicate max_terms 0 }

module _ {F : Type 0} ⦃fl : Float F⦄ where
  open fl use {of_nat, infinity, neg_infinity}

  -- `CalibrationC::DISARMED`.
  unfoldable pub disarmed : CalibrationC F
  disarmed = record {
    method = CalMethod.static;
    alpha_num = 0;
    alpha_den = 1;
    n_calib = 0;
    horizon_ticks = 1;
    t_grid = 1;
    center = replicate max_t_grid (replicate nfeat (of_nat 0));
    scale = replicate max_t_grid (replicate nfeat (of_nat 1));
    mask = 0;
    gate = disarmed_gate;
    tau = infinity;
    digest = replicate 32 0;
  }

  -- `disarmed_scores()` of crates/lictor-fuse/src/fuse.rs.
  unfoldable pub disarmed_scores : Scores F
  disarmed_scores = record {
    f = replicate nfeat (of_nat 0);
    z = replicate nfeat (of_nat 0);
    s = neg_infinity;
    valid = 0;
    fired = 0;
  }
