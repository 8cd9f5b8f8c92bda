-- ===== src/Detect/Trail.antt =====
-- The ring of the last positions and its two path statistics: crates/lictor-detect/src/window.rs.
use lictor.Prelude.{
  ℕ, zero, suc, ◌+◌, ◌-◌, ◌%◌, ◌||◌, not, ◌&&◌, List, length, get_or, set, take, replicate,
  if◌then◌else◌, ltb, leb, ◌==◌, min,
}
use lictor.Float.{Float}
use lictor.Core.Fmath.{dist}
use lictor.Core.Chunk.{max_pos, copy_at}

abbrev pub trail_w : ℕ
trail_w = 32

pub record Trail (F : Type 0) : Type 0 where
  pub buf : List (List F)
  pub head : ℕ
  pub len : ℕ

-- `p[..d]` bounded by the array and by `p`.
abbrev dim_of : ℕ → ℕ → ℕ
dim_of p_len d = let d' = if ltb max_pos d then max_pos else d in if ltb p_len d' then p_len else d'

module _ {F : Type 0} where
  unfoldable pub clear : Trail F → Trail F
  clear t = record t { head = 0; len = 0 }

  unfoldable pub push : Trail F → List F → ℕ → Trail F
  push t p d =
      let row = copy_at (get_or t.buf t.head p) 0 (take (dim_of (length p) d) p) in
      record {
        buf = set t.buf t.head row;
        head = (t.head + 1) % trail_w;
        len = if ltb t.len trail_w then t.len + 1 else t.len;
      }

  -- The slot of the sample k steps older than the newest.
  unfoldable pub slot_back : Trail F → ℕ → ℕ
  slot_back t k = (t.head + trail_w - 1 - k) % trail_w

module _ {F : Type 0} ⦃fl : Float F⦄ where
  open fl use {of_nat, add}

  unfoldable pub new : Trail F
  new = record { buf = replicate trail_w (replicate max_pos (of_nat 0)); head = 0; len = 0 }

  abbrev sample : Trail F → ℕ → List F
  sample t k = get_or t.buf (slot_back t k) (replicate max_pos (of_nat 0))

  unfoldable pub net : Trail F → ℕ → ℕ → F
  unfolding slot_back dist
  net t d w =
      if w == 0 || ltb trail_w w || ltb t.len w
      then of_nat 0
      else dist (sample t 0) (sample t (w - 1)) (min d max_pos)

  -- k steps remain, from the k-th oldest sample to the newest.
  unfoldable pub path_loop : Trail F → ℕ → ℕ → F → F
  unfolding slot_back dist
  path_loop t d zero acc = acc
  path_loop t d (suc k) acc = path_loop t d k (add acc (dist (sample t (suc k)) (sample t k) d))

  unfoldable pub path : Trail F → ℕ → ℕ → F
  unfolding path_loop
  path t d w =
      if not (leb 2 w && leb w trail_w) || ltb t.len w
      then of_nat 0
      else path_loop t (min d max_pos) (w - 1) (of_nat 0)
