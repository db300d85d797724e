-- ===== src/ValueStorage/Put.antt =====
-- The write path of PRISM/src/ValueStorage.cpp: alloc, init_w_chunk, put_vs_entry and
-- forced_write_chunk. `i` is the id of the log whose thread writes.
use hkv.Base.{ℕ, ◌+◌, true, false, ◌==◌, ltb, if◌then◌else◌, Run, ok, ◌>>=◌, set, update}
use hkv.Config.{Config}
use hkv.Memory.{Memory, load_at, store_at, pre_valuestorage_val}
use hkv.ValueStorage.{
  VsEntry, Operation, WChunk, ValueStorage, get_free_chunk_offset, not_enough_free_chunk,
}
use hkv.ValueStorage.Buffer.{IoUring, write_chunk}
use hkv.ValueStorage.Link.{add_moved_entry_list, sync_with_at}
use hkv.ValueStorage.Collect.{garbage_collection}

unfoldable pub alloc : ℕ → ℕ → ℕ → Memory → Run (VsEntry × Memory)
unfolding load_at
alloc key val at_entry m = do
  e ← load_at at_entry m
  ok (
    record { at_entry = at_entry; key = key; val = val },
    store_at at_entry (record e { vs_offset = pre_valuestorage_val }) m,
  )

abbrev pub set_chunk : ValueStorage → ℕ → WChunk → ValueStorage
set_chunk vs i chunk = record vs { w_chunk = update vs.w_chunk i chunk }

-- The new entry takes the next place of the buffer.
unfoldable pub append_entry : ℕ → ℕ → ℕ → ℕ → ValueStorage → Memory → Run (ValueStorage × Memory)
unfolding alloc
append_entry i key val at_entry vs m = do
  (e, m') ← alloc key val at_entry m
  let chunk = vs.w_chunk i
  ok (
    set_chunk vs i (record chunk {
      w_buffer = set chunk.w_buffer chunk.entry_offset e;
      moved_entry_list =
          add_moved_entry_list chunk.moved_entry_list chunk.chunk_offset chunk.entry_offset e
            Operation.insert;
      entry_offset = chunk.entry_offset + 1;
    }),
    m',
  )

module _ (io : IoUring) (c : Config) where
  -- Garbage is collected first when the chunks run low.
  unfoldable pub collect_if_low : ValueStorage → Memory → Run (ValueStorage × Memory)
  unfolding garbage_collection not_enough_free_chunk
  collect_if_low vs m =
      if not_enough_free_chunk c vs
      then garbage_collection io c (record vs { is_writing = true; gc_done = true }) m
      else ok (record vs { is_writing = true; gc_done = false }, m)

  unfoldable pub init_w_chunk : ℕ → ValueStorage → Memory → Run (ValueStorage × Memory)
  unfolding collect_if_low get_free_chunk_offset
  init_w_chunk i vs m = do
    (vs1, m1) ← collect_if_low vs m
    (chunk, vs2) ← get_free_chunk_offset c vs1
    ok (
      record (set_chunk vs2 i
          (record (vs2.w_chunk i) { chunk_offset = chunk; entry_offset = 0; buffers_set = true })) {
            is_writing = false;
          },
      m1,
    )

  -- write_chunk and sync_with_at, which follow each other wherever they are called.
  unfoldable pub write_and_sync : ℕ → ValueStorage → Memory → Run (ValueStorage × Memory)
  unfolding write_chunk sync_with_at
  write_and_sync i vs m = do
    (vs1, chunk1) ← write_chunk io c vs (vs.w_chunk i)
    (vs2, m2, chunk2) ← sync_with_at c vs1 m chunk1
    ok (set_chunk vs2 i chunk2, m2)

  -- A chunk just begun is prepared, and a full one is written first.
  unfoldable pub fill_chunk : ℕ → ℕ → ℕ → ℕ → ValueStorage → Memory → Run (ValueStorage × Memory)
  unfolding append_entry write_and_sync init_w_chunk
  fill_chunk i key val at_entry vs m =
      if ltb (vs.w_chunk i).entry_offset c.entries_per_chunk
      then append_entry i key val at_entry vs m
      else if (vs.w_chunk i).entry_offset == c.entries_per_chunk
      then (do
        (vs1, m1) ← write_and_sync i vs m
        (vs2, m2) ← init_w_chunk i vs1 m1
        append_entry i key val at_entry vs2 m2)
      else ok (vs, m)

  unfoldable pub put_vs_entry : ℕ → ℕ → ℕ → ℕ → ValueStorage → Memory → Run (ValueStorage × Memory)
  unfolding fill_chunk init_w_chunk
  put_vs_entry i key val at_entry vs m =
      if (vs.w_chunk i).entry_offset == 0
      then (do (vs1, m1) ← init_w_chunk i vs m; fill_chunk i key val at_entry vs1 m1)
      else fill_chunk i key val at_entry vs m

  unfoldable pub forced_write_chunk : ℕ → ValueStorage → Memory → Run (ValueStorage × Memory)
  unfolding write_and_sync
  forced_write_chunk i vs m = do
    (vs1, m1) ← write_and_sync i vs m
    ok (set_chunk vs1 i (record (vs1.w_chunk i) { entry_offset = 0 }), m1)
