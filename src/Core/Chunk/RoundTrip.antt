-- ===== src/Core/Chunk/RoundTrip.antt =====
-- What is put into a chunk buffer is read back: crates/lictor-core/src/chunk.rs.
use lictor.Prelude.{
  ℕ, ◌+◌, ◌*◌, ◌≤◌, ◌≡◌, ◌≢◌, ap, ◌∙◌, List, length, take, drop, none, some, arith, take_all,
  take-append_length, ◌⊎◌,
}
use lictor.Core.Chunk.{ChunkBuf, ChunkView, max_h, max_d, fill, copy_from, view, copy_at}

module _ {F : Type 0} where
  -- A view whose rows fill its dimensions, within the capacity of a buffer.
  abbrev pub IsFull : ChunkView F → Type 0
  IsFull v = (length v.rows ≡ v.horizon * v.dim) × (length v.rows ≤ max_h * max_d)

  -- Copying a full chunk into any buffer and viewing the buffer gives the chunk.
  pub view-copy_from : (b : ChunkBuf F) (v : ChunkView F) → IsFull v → view (copy_from b v) ≡ some v
  unfolding view copy_from
  view-copy_from b v (full, fits) =
      let same = take_all (max_h * max_d) v.rows fits in
      ap (λ rows. some (record v { rows = rows }))
        (ap (λ (xs : List F). take (v.horizon * v.dim) (copy_at b.data_buf 0 xs)) same
          ∙ take-append_length (v.horizon * v.dim) v.rows _ full)

  -- `fill` either refuses, with an error and the buffer untouched, or accepts, and then the buffer
  -- views as just the chunk that was filled in, whose dimensions are in range.
  pub view-fill :
      (b : ChunkBuf F) (seq t_emit h d exec : ℕ) (src : List F)
      → let (b', err) = fill b seq t_emit h d exec src in
        ((err ≢ none) × (b' ≡ b))
        ⊎ ((err ≡ none)
            × (view b'
                ≡ some (record {
                  seq = seq;
                  t_emit = t_emit;
                  horizon = h;
                  dim = d;
                  exec_steps = exec;
                  rows = src;
                }))
            × (1 ≤ h)
            × (h ≤ max_h)
            × (1 ≤ d)
            × (d ≤ max_d)
            × (exec ≤ h)
            × (length src ≡ h * d))
  unfolding view fill
  view-fill b seq t_emit h d exec src =
      ground (arith, take-append_length (h * d) src (drop (0 + length src) b.data_buf))
