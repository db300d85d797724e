-- ===== src/ValueStorage/Buffer.antt =====
-- The write buffers of PRISM/src/ValueStorage.cpp: sort_w_buffer, write_chunk, write_gc_w_chunk,
-- read_gc_r_chunk and sort_moved_entry. What io_uring does with the requests is a parameter.
use hkv.Base.{
  ℕ, zero, suc, ◌+◌, ◌-◌, ◌*◌, ◌/◌, List, [], ◌∷◌, ◌++◌, map, ◌==◌, if◌then◌else◌, Run, ok,
  undefined, ◌>>◌, require, length, take, drop, replicate,
}
use hkv.Base.Sort.{sort_by}
use hkv.Config.{Config}
use hkv.ValueStorage.{VsEntry, blank, MovedEntry, WChunk, ValueStorage}

-- One request: the entries of a buffer that go to the place `offset`.
pub record WriteRequest : Type 0 where
  pub offset : ℕ
  pub payload : List VsEntry

-- The ring of liburing: `submit` is io_uring_submit followed by the wait for every completion, and
-- `read` is a completed read of `len` entries.
pub record IoUring : Type 0 where
  pub submit : List WriteRequest → (ℕ → VsEntry) → ℕ → VsEntry
  pub read : (ℕ → VsEntry) → ℕ → ℕ → List VsEntry

-- The entries of the buffer up to the first whose at_entry is NULL, `n` at most.
unfoldable pub filled : ℕ → List VsEntry → List VsEntry
filled zero buffer = []
filled (suc n) [] = []
filled (suc n) (e ∷ rest) = if e.at_entry == 0 then [] else e ∷ filled n rest

-- The filled entries by key, and zeroes behind them.
unfoldable pub sort_w_buffer : Config → List VsEntry → List VsEntry
unfolding filled sort_by
sort_w_buffer c buffer =
    let sorted = sort_by (λ e. e.key) (filled c.entries_per_chunk buffer) in
    sorted ++ replicate (c.entries_per_chunk - length sorted) blank

-- The loop over io_uring_get_sqe, which gives one request for each slot of the queue: each takes the
-- next `piece` entries of the buffer to the next `piece` places.
unfoldable pub prep_write : ℕ → ℕ → ℕ → List VsEntry → List WriteRequest
prep_write zero piece offset buffer = []
prep_write (suc q) piece offset buffer =
    record { offset = offset; payload = take piece buffer }
    ∷ prep_write q piece (offset + piece) (drop piece buffer)

module _ (io : IoUring) where
  -- write_chunk: the buffer is sorted in place and goes to the chunk.
  unfoldable pub write_chunk : Config → ValueStorage → WChunk → Run (ValueStorage × WChunk)
  unfolding sort_w_buffer prep_write
  write_chunk c vs chunk = do
    require chunk.buffers_set undefined
    let sorted = sort_w_buffer c chunk.w_buffer
    let requests =
        prep_write c.w_qd (c.entries_per_chunk / c.w_qd) (chunk.chunk_offset * c.entries_per_chunk)
          sorted
    ok (record vs { disk = io.submit requests vs.disk }, record chunk { w_buffer = sorted })

  -- write_gc_w_chunk: the same with GC_QD requests, and the buffer is zeroed behind it.
  unfoldable pub write_gc_w_chunk : Config → ValueStorage → ℕ → ValueStorage
  unfolding sort_w_buffer prep_write
  write_gc_w_chunk c vs gc_w_chunk_offset =
      let sorted = sort_w_buffer c vs.gc_w_chunk.w_buffer in
      let requests =
        prep_write c.gc_qd (c.entries_per_chunk / c.gc_qd) (gc_w_chunk_offset * c.entries_per_chunk)
          sorted in
      record vs {
        disk = io.submit requests vs.disk;
        gc_w_chunk = record (vs.gc_w_chunk) { w_buffer = replicate c.entries_per_chunk blank };
      }

  -- read_gc_r_chunk, the pieces one behind another, into a zeroed buffer.
  unfoldable pub read_pieces : (ℕ → VsEntry) → ℕ → ℕ → ℕ → List VsEntry
  read_pieces disk zero piece offset = []
  read_pieces disk (suc q) piece offset =
      io.read disk offset piece ++ read_pieces disk q piece (offset + piece)

  unfoldable pub read_gc_r_chunk : Config → ValueStorage → ℕ → List VsEntry
  unfolding read_pieces
  read_gc_r_chunk c vs gc_r_chunk_offset =
      read_pieces vs.disk c.gc_qd (c.entries_per_chunk / c.gc_qd)
        (gc_r_chunk_offset * c.entries_per_chunk)

-- The sorted address-table pointers, dealt out over the list in its order.
unfoldable pub deal : List MovedEntry → List (ℕ × ℕ) → List MovedEntry
deal [] sorted = []
deal (e ∷ rest) [] = e ∷ rest
deal (e ∷ rest) ((key, at_entry) ∷ sorted) = record e { at_entry = at_entry } ∷ deal rest sorted

abbrev pub key_and_at : MovedEntry → ℕ × ℕ
key_and_at e = (e.key, e.at_entry)

unfoldable pub sort_moved_entry : List MovedEntry → List MovedEntry
unfolding deal sort_by
sort_moved_entry moved = deal moved (sort_by (λ p. p.0) (map key_and_at moved))
