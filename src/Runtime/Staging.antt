-- ===== src/Runtime/Staging.antt =====
-- `Staging`, the one conversion of a tick request into an input of the fuse:
-- crates/lictor-runtime/src/session.rs.
pub mod Faithful
use lictor.Prelude.{
  ℕ, suc, ◌+◌, ◌*◌, ◌-◌, ◌%◌, ◌^◌, Bool, true, false, not, Option, none, some, List, [], ◌∷◌,
  length, take, map, min, replicate, if◌then◌else◌, ltb, leb, ◌==◌, option, Result, ok, err, ◌>>◌,
  reject_if,
}
use lictor.Float.{Float}
use lictor.Core.State.{VerifiedAck}
use lictor.Core.Chunk.{ChunkBuf, max_h, max_d, max_pos, max_aux, max_ext, copy_at}
use lictor.Core.Chunk
use lictor.Core.Config.{FuseConfig}
use lictor.Fuse.Input.{TickInput}
use lictor.Runtime.Wire.{TickReq, ChunkMsg, StageError}

pub record Staging (F : Type 0) : Type 0 where
  pub pos : List F
  pub vel : List F
  pub aux : List F
  pub ext : List F
  pub n_pos : ℕ
  pub n_vel : ℕ
  pub n_aux : ℕ
  pub n_ext : ℕ
  pub have_vel : Bool
  pub flat : List F
  pub chunk : ChunkBuf F
  pub have_chunk : Bool
  pub next_seq : ℕ

abbrev pub Staged : Type 0
Staged = Result StageError (Unit {0})

module _ {F : Type 0} ⦃fl : Float F⦄ where
  open fl use {of_nat, nan}

  unfoldable pub new : Staging F
  unfolding Chunk.new
  new = record {
    pos = replicate max_pos (of_nat 0);
    vel = replicate max_pos (of_nat 0);
    aux = replicate max_aux (of_nat 0);
    ext = replicate max_ext (of_nat 0);
    n_pos = 0;
    n_vel = 0;
    n_aux = 0;
    n_ext = 0;
    have_vel = false;
    flat = replicate (max_h * max_d) (of_nat 0);
    chunk = Chunk.new;
    have_chunk = false;
    next_seq = 0;
  }

  abbrev pub nan_or : Option F → F
  nan_or x = option x nan (λ v. v)

  -- As many values as both hold, and their number.
  unfoldable pub copy_opt : List F → List (Option F) → List F × ℕ
  copy_opt dst src =
      let n = min (length src) (length dst) in (copy_at dst 0 (take n (map nan_or src)), n)

  -- The copies of the observation that come before every check.
  unfoldable pub stage_obs : Staging F → TickReq F → Staging F
  stage_obs s req =
      let (pos, n_pos) = copy_opt s.pos req.obs.pos in
      let (vel, n_vel) = option req.obs.vel (s.vel, 0) (λ v. copy_opt s.vel v) in
      let (aux, n_aux) = copy_opt s.aux req.obs.aux in
      let (ext, n_ext) = copy_opt s.ext req.obs.ext in
      record s {
        pos = pos;
        n_pos = n_pos;
        have_vel = option req.obs.vel false (λ v. true);
        vel = vel;
        n_vel = n_vel;
        aux = aux;
        n_aux = n_aux;
        ext = ext;
        n_ext = n_ext;
        have_chunk = false;
        next_seq = if req.t == 0 then 0 else s.next_seq;
      }

  unfoldable pub check_obs : FuseConfig F → TickReq F → Staged
  check_obs cfg req = do
    reject_if (not (length req.obs.pos == cfg.pos_dim)) StageError.pos_length
    reject_if (option req.obs.vel false (λ v. not (length v == cfg.pos_dim))) StageError.vel_length
    reject_if (ltb max_aux (length req.obs.aux)) StageError.aux_length
    reject_if (ltb max_ext (length req.obs.ext)) StageError.ext_length
    reject_if (leb cfg.horizon req.idx) StageError.idx_range

  unfoldable pub check_widths : ℕ → List (List (Option F)) → Staged
  check_widths dim [] = ok tt
  check_widths dim (row ∷ rows) = do
    reject_if (not (length row == dim)) StageError.chunk_row_length
    check_widths dim rows

  unfoldable pub check_chunk_msg : FuseConfig F → TickReq F → ChunkMsg F → ℕ → Staged
  check_chunk_msg cfg req c next_seq = do
    reject_if (not (c.h == cfg.horizon)) StageError.chunk_h
    reject_if (not (c.d == cfg.dim)) StageError.chunk_d
    reject_if (not (c.exec == cfg.exec)) StageError.chunk_exec
    reject_if (not (length c.a == cfg.horizon)) StageError.chunk_rows
    check_widths cfg.dim c.a
    reject_if (ltb req.t c.t_emit) StageError.t_emit_later
    reject_if (not (req.idx == req.t - c.t_emit)) StageError.idx_not_age
    reject_if (not (c.seq == next_seq)) StageError.chunk_seq

  -- The rows from row i on, written into the flat buffer.
  unfoldable pub write_rows : ℕ → List F → ℕ → List (List (Option F)) → List F
  write_rows dim flat i [] = flat
  write_rows dim flat i (row ∷ rows) =
      write_rows dim (copy_at flat (i * dim) (map nan_or row)) (suc i) rows

  unfoldable pub stage_chunk :
      Staging F → FuseConfig F → TickReq F → ChunkMsg F → Staging F × Staged
  stage_chunk s cfg req c = elim (check_chunk_msg cfg req c s.next_seq) [
    | err e ↦ (s, err e)
    | ok u ↦
        let flat = write_rows cfg.dim s.flat 0 c.a in
        let (chunk, refused) =
          Chunk.fill s.chunk c.seq c.t_emit c.h c.d c.exec (take (cfg.horizon * cfg.dim) flat) in
        elim refused [
          | some e ↦ (record s { flat = flat; chunk = chunk }, err (StageError.buffer e))
          | none ↦ (
            record s {
              flat = flat;
              chunk = chunk;
              have_chunk = true;
              next_seq = (c.seq + 1) % 2 ^ 32;
            },
            ok tt,
          )
        ]
  ]

  unfoldable pub stage : Staging F → FuseConfig F → TickReq F → Staging F × Staged
  stage s0 cfg req =
      let s = stage_obs s0 req in
      elim (check_obs cfg req) [
        | err e ↦ (s, err e)
        | ok u ↦ option req.chunk (s, ok tt) (λ c. stage_chunk s cfg req c)
      ]

  unfoldable pub input : Staging F → TickReq F → Option VerifiedAck → Bool → TickInput F
  unfolding Chunk.view
  input s req ack schema_fault = record {
    obs = record {
      t = req.t;
      pos = take s.n_pos s.pos;
      vel = if s.have_vel then some (take s.n_vel s.vel) else none;
      aux = take s.n_aux s.aux;
      ext = take s.n_ext s.ext;
    };
    chunk = if s.have_chunk then Chunk.view s.chunk else none;
    idx = req.idx;
    missed_ticks = req.missed_ticks;
    ack = ack;
    schema_fault = schema_fault;
  }
