-- ===== src/Core/Names.antt =====
-- The names of the trip bits (crates/lictor-core/src/verdict.rs) and of the features (scores.rs).
use Prim.Native.String.{String}
use lictor.Prelude.{
  ℕ, zero, suc, ◌^◌, Option, none, some, List, [], ◌∷◌, if◌then◌else◌, has, same_text,
}
use lictor.Core.Scores.{Feat}

unfoldable pub trip_names : List String
trip_names =
    "workspace" ∷ "speed" ∷ "accel" ∷ "jerk" ∷ "reach" ∷ "contact" ∷ "brake" ∷ "nonfinite"
    ∷ "schema" ∷ "watchdog" ∷ "tier1_cp" ∷ "clamp_budget" ∷ "handoff_timeout" ∷ "operator_abort"
    ∷ "brake_timeout" ∷ "rearm_budget" ∷ []

-- The names of the bits that are set, from bit i on.
unfoldable pub names_from : ℕ → ℕ → List String → List String
names_from m i [] = []
names_from m i (n ∷ ns) =
    let rest = names_from m (suc i) ns in if has m (2 ^ i) then n ∷ rest else rest

unfoldable pub names_of_trips : ℕ → List String
unfolding names_from trip_names
names_of_trips m = names_from m 0 trip_names

-- `iter().position(|n| *n == s)`, counted from i on.
unfoldable pub position_from : ℕ → List String → String → Option ℕ
position_from i [] s = none
position_from i (n ∷ ns) s = if same_text n s then some i else position_from (suc i) ns s

unfoldable pub trip_from_name : String → Option ℕ
unfolding position_from trip_names
trip_from_name s = elim (position_from 0 trip_names s) [ none ↦ none | some i ↦ some (2 ^ i) ]

unfoldable pub feat_names : List String
feat_names =
    "tce" ∷ "acc" ∷ "acm_neg" ∷ "njr" ∷ "reach" ∷ "path_ineff" ∷ "stall" ∷ "speed_peak" ∷ "ext0"
    ∷ "ext1" ∷ "ext2" ∷ "ext3" ∷ []

unfoldable pub all_feats : List Feat
all_feats =
    Feat.tce ∷ Feat.acc ∷ Feat.acm_neg ∷ Feat.njr ∷ Feat.reach ∷ Feat.path_ineff ∷ Feat.stall
    ∷ Feat.speed_peak ∷ Feat.ext0 ∷ Feat.ext1 ∷ Feat.ext2 ∷ Feat.ext3 ∷ []

abbrev nth_feat : ℕ → List Feat → Option Feat
nth_feat i [] = none
nth_feat zero (f ∷ fs) = some f
nth_feat (suc i) (f ∷ fs) = nth_feat i fs

unfoldable pub feat_from_name : String → Option Feat
unfolding position_from feat_names all_feats
feat_from_name s = elim (position_from 0 feat_names s) [
  | none ↦ none
  | some i ↦ nth_feat i all_feats
]
