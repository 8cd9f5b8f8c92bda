-- ===== src/Runtime/Staging/Faithful.antt =====
-- What a tick that is staged hands to the fuse: `Staging::stage` and `input` of
-- crates/lictor-runtime/src/session.rs.
use lictor.Prelude.{
  ℕ, zero, suc, ◌+◌, ◌*◌, ◌≡◌, sym, ap, ◌∙◌, Bool, true, Option, none, some, List, [], ◌∷◌, ◌++◌,
  length, take, drop, map, arith, ok, inl, inr, if◌then◌else◌, length-append, length-map,
  take-append_length,
}
use mathlib.Core.List.{append_assoc, append-nil}
use lictor.Float.{Float}
use lictor.Core.State.{VerifiedAck}
use lictor.Core.Chunk.{ChunkView, copy_at}
use lictor.Core.Chunk
use lictor.Core.Chunk.RoundTrip.{view-fill}
use lictor.Core.Config.{FuseConfig}
use lictor.Runtime.Wire.{TickReq, ChunkMsg}
use lictor.Runtime.Staging.{
  Staging, stage, stage_obs, stage_chunk, check_widths, check_chunk_msg, write_rows, input, nan_or,
}

drop-append :
    {A : Type 0} (n k : ℕ) (xs ys : List A) → length xs ≡ n → drop (n + k) (xs ++ ys) ≡ drop k ys
drop-append zero k [] ys h = let same : 0 + k ≡ k = omega arith in ap (λ j. drop j ys) same
drop-append zero k (x ∷ xs) ys h = absurd (omega arith)
drop-append (suc n) k [] ys h = absurd (omega arith)
drop-append (suc n) k (x ∷ xs) ys h =
    let same : suc n + k ≡ suc (n + k) = omega arith in
    ap (λ j. drop j (x ∷ (xs ++ ys))) same ∙ drop-append n k xs ys (omega arith)

module _ {F : Type 0} ⦃fl : Float F⦄ where
  -- The values of a message, row after row, with NaN for null.
  abbrev pub values : List (List (Option F)) → List F
  values [] = []
  values (row ∷ rows) = map nan_or row ++ values rows

  copy_at-prefix :
      (before rest row : List F) (k : ℕ)
      → length before ≡ k
      → copy_at (before ++ rest) k row ≡ (before ++ row) ++ drop (length row) rest
  copy_at-prefix before rest row k h =
      rw (take-append_length k before rest h, drop-append k (length row) before rest h)
        (sym (append_assoc before row (drop (length row) rest)))

  -- Rows of one width are written one behind the other.
  write_rows-values :
      (dim i : ℕ) (rows : List (List (Option F))) (before rest : List F)
      → check_widths dim rows ≡ ok tt
      → length before ≡ i * dim
      → (tail : List F) × (write_rows dim (before ++ rest) i rows ≡ (before ++ values rows) ++ tail)
        × (length (values rows) ≡ length rows * dim)
  unfolding write_rows check_widths
  write_rows-values dim i [] before rest h k =
      (rest, ap (λ xs. xs ++ rest) (sym (append-nil before)), omega arith)
  write_rows-values dim i (row ∷ rows) before rest h k =
      let r = map nan_or row in
      let width : length row ≡ dim = ground arith in
      let others : check_widths dim rows ≡ ok tt = ground arith in
      let size = length-map nan_or row in
      let (tail, written, n) =
        write_rows-values dim (suc i) rows (before ++ r) (drop (length r) rest) others
          (omega (arith, length-append before r, size, width, k)) in
      (
        tail,
        ap (λ xs. write_rows dim xs (suc i) rows) (copy_at-prefix before rest r (i * dim) k)
            ∙ written
            ∙ ap (λ xs. xs ++ tail) (append_assoc before r (values rows)),
        omega (arith, length-append r (values rows), size, width, n),
      )

  -- The chunk that a message carries.
  abbrev pub chunk_of : ChunkMsg F → ChunkView F
  chunk_of c = record {
    seq = c.seq;
    t_emit = c.t_emit;
    horizon = c.h;
    dim = c.d;
    exec_steps = c.exec;
    rows = values c.a;
  }

  stage_accepted :
      (s : Staging F) (cfg : FuseConfig F) (req : TickReq F) (c : ChunkMsg F)
      → req.chunk ≡ some c
      → (stage s cfg req).1 ≡ ok tt
      → stage s cfg req ≡ stage_chunk (stage_obs s req) cfg req c
  unfolding stage
  stage_accepted s cfg req c h e = ground (arith, h, e)

  -- The checks on a chunk that passed.
  message_checks :
      (cfg : FuseConfig F) (req : TickReq F) (c : ChunkMsg F) (next_seq : ℕ)
      → check_chunk_msg cfg req c next_seq ≡ ok tt
      → (c.h ≡ cfg.horizon)
        × (c.d ≡ cfg.dim)
        × (length c.a ≡ cfg.horizon)
        × (check_widths cfg.dim c.a ≡ ok tt)
  unfolding check_chunk_msg
  message_checks cfg req c next_seq h = ground arith

  flat-values :
      (cfg : FuseConfig F) (req : TickReq F) (c : ChunkMsg F) (next_seq : ℕ) (flat : List F)
      → check_chunk_msg cfg req c next_seq ≡ ok tt
      → take (cfg.horizon * cfg.dim) (write_rows cfg.dim flat 0 c.a) ≡ values c.a
  flat-values cfg req c next_seq flat h =
      let (rows, width, count, widths) = message_checks cfg req c next_seq h in
      let (tail, written, size) = write_rows-values cfg.dim 0 c.a [] flat widths (omega arith) in
      ap (λ xs. take (cfg.horizon * cfg.dim) xs) written
      ∙ take-append_length (cfg.horizon * cfg.dim) (values c.a) tail
          (size ∙ ap (λ k. k * cfg.dim) count)

  checks_passed :
      (s : Staging F) (cfg : FuseConfig F) (req : TickReq F) (c : ChunkMsg F)
      → (stage_chunk s cfg req c).1 ≡ ok tt
      → check_chunk_msg cfg req c s.next_seq ≡ ok tt
  unfolding stage_chunk
  checks_passed s cfg req c e = ground arith

  -- The filled buffer of a message.
  abbrev refill : Staging F → FuseConfig F → ChunkMsg F → Chunk.ChunkBuf F × Option Chunk.ChunkError
  refill s cfg c =
      Chunk.fill s.chunk c.seq c.t_emit c.h c.d c.exec
        (take (cfg.horizon * cfg.dim) (write_rows cfg.dim s.flat 0 c.a))

  staged_fill :
      (s : Staging F) (cfg : FuseConfig F) (req : TickReq F) (c : ChunkMsg F)
      → (stage_chunk s cfg req c).1 ≡ ok tt
      → ((refill s cfg c).1 ≡ none)
        × ((stage_chunk s cfg req c).0.have_chunk ≡ true)
        × ((stage_chunk s cfg req c).0.chunk ≡ (refill s cfg c).0)
  unfolding stage_chunk
  staged_fill s cfg req c e = (ground (arith, e), ground (arith, e), ground (arith, e))

  chunk_accepted :
      (s : Staging F) (cfg : FuseConfig F) (req : TickReq F) (c : ChunkMsg F)
      → (stage_chunk s cfg req c).1 ≡ ok tt
      → Chunk.view (stage_chunk s cfg req c).0.chunk ≡ some (chunk_of c)
  chunk_accepted s cfg req c e =
      let (accepted, _, filled) = staged_fill s cfg req c e in
      let flat = flat-values cfg req c s.next_seq s.flat (checks_passed s cfg req c e) in
      ap Chunk.view filled
      ∙ elim (view-fill s.chunk c.seq c.t_emit c.h c.d c.exec
          (take (cfg.horizon * cfg.dim) (write_rows cfg.dim s.flat 0 c.a))) [
            | inl (refused, _) ↦ absurd (refused accepted)
            | inr (_, seen, _, _, _, _, _, _) ↦
                seen
                ∙ ap
                    (λ xs. some (record {
                      seq = c.seq;
                      t_emit = c.t_emit;
                      horizon = c.h;
                      dim = c.d;
                      exec_steps = c.exec;
                      rows = xs;
                    }))
                    flat
          ]

  -- When a tick request that carries a chunk is staged without a refusal, the tick of the fuse reads
  -- just the chunk of the message: its header, and its rows one behind the other with NaN for null.
  pub stage-input :
      (s : Staging F) (cfg : FuseConfig F) (req : TickReq F) (c : ChunkMsg F)
      (ack : Option VerifiedAck) (schema_fault : Bool)
      → req.chunk ≡ some c
      → (stage s cfg req).1 ≡ ok tt
      → (input (stage s cfg req).0 req ack schema_fault).chunk ≡ some (chunk_of c)
  unfolding input
  stage-input s cfg req c ack schema_fault h e =
      let same = stage_accepted s cfg req c h e in
      let e' : (stage_chunk (stage_obs s req) cfg req c).1 ≡ ok tt = ap (λ r. r.1) (sym same) ∙ e in
      let (_, have, _) = staged_fill (stage_obs s req) cfg req c e' in
      ap (λ r. if r.0.have_chunk then Chunk.view r.0.chunk else none) same
      ∙ ap (λ b. if b then Chunk.view (stage_chunk (stage_obs s req) cfg req c).0.chunk else none)
          have
      ∙ chunk_accepted (stage_obs s req) cfg req c e'
