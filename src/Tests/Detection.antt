-- ===== src/Tests/Detection.antt =====
-- The theorems about scores, bins and bounds at concrete inputs.
use lictor.Prelude.{◌≡◌, refl, ◌∷◌, [], true, arith, ℕ, zero, suc, bit_and}
use lictor.Float.Laws.{IsNumber}
use lictor.Float.Sample.{Sample, sample_float, sample_laws}
use lictor.Core.Fmath.{at}
use lictor.Core.Scores.{Scores, CalibrationC}
use lictor.Detect.Conformal.{aggregate, trip}
use lictor.Detect.Conformal.Gate.{gate_above, trip-aggregate}
use lictor.Prelude.{none, some, false, has, not, ◌==◌, ◌&&◌, ◌≢◌, ◌⊎◌, ◌≤◌, length, ◌*◌}
use lictor.Core.State.{FuseMode}
use lictor.Core.Trips
use lictor.Core.Chunk.{ObsView, fill, view, max_h, max_d}
use lictor.Core.Chunk.RoundTrip.{view-fill}
use lictor.Detect.Window.{hits}
use lictor.Detect.Window.Counts.{pushed, count_hits, hits-pushed}
use lictor.Detect.Tier0.{check_chunk, box_dims, live_rows, start_row}
use lictor.Detect.Tier0.Raised.{some_outside, some_far, check_chunk_workspace, check_chunk_speed}
use lictor.Tests.Setup.{calibration, n, no_chunk, first_chunk, config, here}

-- The first two channels are live; the gate asks for both, or for the third.
abbrev armed_calibration : CalibrationC Sample
armed_calibration = record calibration {
  mask = 3;
  gate = record { n_terms = 2; terms = 3 ∷ 4 ∷ [] };
  tau = n 10;
}

abbrev scores : Scores Sample
scores = record { f = []; valid = 7; z = n 12 ∷ n 11 ∷ n 50 ∷ []; s = n 0; fired = 0 }

channels : (j : ℕ) → IsNumber (at scores.z j)
channels zero = refl
channels (suc zero) = refl
channels (suc (suc zero)) = refl
channels (suc (suc (suc j))) = refl

trip-aggregate_example :
    trip armed_calibration (aggregate armed_calibration scores)
    ≡ gate_above (n 10) (3 ∷ 4 ∷ []) (bit_and 3 7) scores.z 0 2
trip-aggregate_example = trip-aggregate sample_laws armed_calibration scores channels refl refl

-- The last three of four pushes hold two hits.
hits-pushed_example :
    hits (pushed 7 (true ∷ false ∷ true ∷ true ∷ [])) ≡ count_hits (true ∷ false ∷ true ∷ [])
hits-pushed_example = hits-pushed 3 (true ∷ false ∷ true ∷ true ∷ []) (omega arith)

abbrev seen : ObsView Sample
seen = record { t = 0; pos = here; vel = none; aux = []; ext = [] }

check_chunk_workspace_example :
    has (check_chunk (config FuseMode.enforce) seen first_chunk no_chunk).0.trips Trips.workspace
    ≡ (not (2 == 0)
        && has 0x7f Trips.workspace
        && some_outside
            (config FuseMode.enforce)
            first_chunk
            2
            (box_dims (config FuseMode.enforce) seen 2)
            0
            (live_rows first_chunk 2))
check_chunk_workspace_example =
    check_chunk_workspace (config FuseMode.enforce) seen first_chunk no_chunk

check_chunk_speed_example :
    has (check_chunk (config FuseMode.enforce) seen first_chunk no_chunk).0.trips Trips.speed ≡ (
      not (2 == 0)
      && has 0x7f Trips.speed
      && some_far
          (n 100)
          first_chunk
          2
          (start_row first_chunk seen 2 (box_dims (config FuseMode.enforce) seen 2))
          0
          (live_rows first_chunk 2))
check_chunk_speed_example = check_chunk_speed (config FuseMode.enforce) seen first_chunk no_chunk

-- A chunk of one row of two entries.
view-fill_example :
    (((fill no_chunk 4 9 1 2 1 here).1 ≢ none) × ((fill no_chunk 4 9 1 2 1 here).0 ≡ no_chunk))
    ⊎ (((fill no_chunk 4 9 1 2 1 here).1 ≡ none)
        × (view (fill no_chunk 4 9 1 2 1 here).0
            ≡ some
                (record { seq = 4; t_emit = 9; horizon = 1; dim = 2; exec_steps = 1; rows = here }))
        × (1 ≤ 1)
        × (1 ≤ max_h)
        × (1 ≤ 2)
        × (2 ≤ max_d)
        × (1 ≤ 1)
        × (length here ≡ 1 * 2))
view-fill_example = view-fill no_chunk 4 9 1 2 1 here
