-- ===== src/Core/Chunk.antt =====
-- Action chunks and observations: crates/lictor-core/src/chunk.rs. A view borrows the rows of a
-- buffer; here it carries them.
pub mod RoundTrip
use lictor.Prelude.{
  ℕ, ◌+◌, ◌-◌, ◌*◌, Bool, true, false, ◌||◌, not, Option, none, some, List, [], ◌++◌, length, take,
  drop, replicate, if◌then◌else◌, leb, ltb, ◌==◌,
}
use lictor.Float.{Float}
use lictor.Core.Fmath.{all_finite}

abbrev pub max_h : ℕ
max_h = 64

abbrev pub max_d : ℕ
max_d = 32

abbrev pub max_pos : ℕ
max_pos = 32

abbrev pub max_aux : ℕ
max_aux = 16

abbrev pub max_ext : ℕ
max_ext = 4

pub data ActionKind : Type 0 where
  ee_position ee_delta joint_position joint_velocity other : ActionKind

pub data ChunkError : Type 0 where
  too_long too_wide len_mismatch exec_exceeds_horizon empty : ChunkError

pub record ChunkBuf (F : Type 0) : Type 0 where
  pub data_buf : List F
  pub seq : ℕ
  pub t_emit : ℕ
  pub horizon : ℕ
  pub dim : ℕ
  pub exec_steps : ℕ
  pub filled : Bool

pub record ChunkView (F : Type 0) : Type 0 where
  pub seq : ℕ
  pub t_emit : ℕ
  pub horizon : ℕ
  pub dim : ℕ
  pub exec_steps : ℕ
  pub rows : List F

pub record ObsView (F : Type 0) : Type 0 where
  pub t : ℕ
  pub pos : List F
  pub vel : Option (List F)
  pub aux : List F
  pub ext : List F

-- Row i, at most the last: the index of its first entry.
abbrev pub row_start : ℕ → ℕ → ℕ → ℕ
row_start h d i = (if ltb i h then i else h - 1) * d

module _ {F : Type 0} where
  -- `dst[k..k + src.len()].copy_from_slice(src)`, for `src` that fits.
  abbrev pub copy_at : List F → ℕ → List F → List F
  copy_at dst k src = take k dst ++ (src ++ drop (k + length src) dst)

  -- `copy_row`: as many values as both slices hold.
  unfoldable pub copy_row : List F → List F → List F
  copy_row dst src = copy_at dst 0 (take (length dst) src)

  unfoldable pub fill : ChunkBuf F → ℕ → ℕ → ℕ → ℕ → ℕ → List F → ChunkBuf F × Option ChunkError
  fill b seq t_emit h d exec src =
      if h == 0 || d == 0
      then (b, some ChunkError.empty)
      else if ltb max_h h
      then (b, some ChunkError.too_long)
      else if ltb max_d d
      then (b, some ChunkError.too_wide)
      else if ltb h exec
      then (b, some ChunkError.exec_exceeds_horizon)
      else if not (length src == h * d)
      then (b, some ChunkError.len_mismatch)
      else (
        record {
          data_buf = copy_at b.data_buf 0 src;
          seq = seq;
          t_emit = t_emit;
          horizon = h;
          dim = d;
          exec_steps = exec;
          filled = true;
        },
        none,
      )

  unfoldable pub copy_from : ChunkBuf F → ChunkView F → ChunkBuf F
  copy_from b v = record {
    data_buf = copy_at b.data_buf 0 (take (max_h * max_d) v.rows);
    seq = v.seq;
    t_emit = v.t_emit;
    horizon = v.horizon;
    dim = v.dim;
    exec_steps = v.exec_steps;
    filled = true;
  }

  unfoldable pub view : ChunkBuf F → Option (ChunkView F)
  view b =
      if not b.filled
      then none
      else some (record {
        seq = b.seq;
        t_emit = b.t_emit;
        horizon = b.horizon;
        dim = b.dim;
        exec_steps = b.exec_steps;
        rows = take (b.horizon * b.dim) b.data_buf;
      })

  unfoldable pub clear : ChunkBuf F → ChunkBuf F
  clear b = record b { filled = false }

  -- `*buf.row_mut(i)`: the row read, and the row written back.
  unfoldable pub row_of : ChunkBuf F → ℕ → List F
  row_of b i =
      if b.horizon == 0 || b.dim == 0
      then []
      else take b.dim (drop (row_start b.horizon b.dim i) b.data_buf)

  unfoldable pub write_row : ChunkBuf F → ℕ → List F → ChunkBuf F
  write_row b i row =
      if b.horizon == 0 || b.dim == 0
      then b
      else record b { data_buf = copy_at b.data_buf (row_start b.horizon b.dim i) row }

  -- A row that the data does not hold in full is empty.
  unfoldable pub action : ChunkView F → ℕ → List F
  action v i =
      let start = row_start v.horizon v.dim i in
      if v.horizon == 0 || v.dim == 0
      then []
      else if leb (start + v.dim) (length v.rows)
      then take v.dim (drop start v.rows)
      else []

module _ {F : Type 0} ⦃fl : Float F⦄ where
  open fl use {of_nat}

  unfoldable pub new : ChunkBuf F
  new = record {
    data_buf = replicate (max_h * max_d) (of_nat 0);
    seq = 0;
    t_emit = 0;
    horizon = 0;
    dim = 0;
    exec_steps = 0;
    filled = false;
  }

  unfoldable pub chunk_all_finite : ChunkView F → Bool
  unfolding all_finite
  chunk_all_finite v = all_finite v.rows
