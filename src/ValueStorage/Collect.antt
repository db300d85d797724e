-- ===== src/ValueStorage/Collect.antt =====
-- Garbage collection of PRISM/src/ValueStorage.cpp: the used chunks by their number of valid entries,
-- and the copy of valid entries out of the emptiest ones.
use hkv.Base.{
  ℕ, zero, suc, ◌+◌, ◌-◌, ◌%◌, ◌^◌, true, ◌||◌, List, [], ◌∷◌, ltb, ◌==◌, if◌then◌else◌, Run, ok,
  ◌>>=◌, set, get_or, is_nil,
}
use hkv.Base.Sort.{sort_by}
use hkv.Config.{Config}
use hkv.Memory.{Memory}
use hkv.ValueStorage.{
  VsEntry, blank, Operation, ValueStorage, count, get_free_chunk_offset, get_used_chunk_num,
  add_free_chunk_list,
}
use hkv.ValueStorage.Buffer.{IoUring, write_gc_w_chunk, read_gc_r_chunk}
use hkv.ValueStorage.Link.{add_moved_entry_list, gc_sync_with_at}

-- The chunks from `chunk` on that hold a valid entry, each with its number of valid entries.
unfoldable pub used_from : Config → ValueStorage → ℕ → ℕ → List (ℕ × ℕ)
used_from c vs zero chunk = []
used_from c vs (suc n) chunk =
    let rest = used_from c vs n (chunk + 1) in
    if ltb 0 (count c vs chunk) then (chunk, count c vs chunk) ∷ rest else rest

-- create_used_chunk_list. `sort_by_entry` compares the numbers alone: its test for equal ones has no
-- effect.
unfoldable pub create_used_chunk_list : Config → ValueStorage → List (ℕ × ℕ)
unfolding used_from sort_by
create_used_chunk_list c vs = sort_by (λ p. p.1) (used_from c vs c.chunk_num 0)

unfoldable pub init_gc_w_chunk : Config → ValueStorage → Run ValueStorage
unfolding get_free_chunk_offset
init_gc_w_chunk c vs = do
  (chunk, vs') ← get_free_chunk_offset c vs
  ok (record vs' {
    gc_w_chunk = record (vs'.gc_w_chunk) {
      chunk_offset = chunk;
      entry_offset = 0;
      buffers_set = true;
    };
  })

-- The variables of garbage_collection; gc_w_chunk_offset is the offset of `gc_w_chunk`. The counter of
-- used chunks is an int; it is compared with unsigned 64-bit numbers and kept as one here.
pub record GcState : Type 0 where
  pub vs : ValueStorage
  pub memory : Memory
  pub w_offset : ℕ
  pub used_chunk_num : ℕ

pub data Step : Type 0 where
  finished : ValueStorage → Memory → Step
  continues : GcState → Step

-- An entry goes to the next place of the new chunk, and both moves are noted.
unfoldable pub copy_entry : ℕ → ℕ → VsEntry → GcState → ValueStorage
copy_entry victim i e st = record (st.vs) {
  gc_w_chunk = record (st.vs.gc_w_chunk) {
    w_buffer = set st.vs.gc_w_chunk.w_buffer st.w_offset e;
    moved_entry_list =
        add_moved_entry_list
          (add_moved_entry_list st.vs.gc_w_chunk.moved_entry_list st.vs.gc_w_chunk.chunk_offset
            st.w_offset e Operation.insert)
          victim i e Operation.remove;
  };
}

module _ (io : IoUring) (c : Config) where
  -- A full chunk is written and linked. Collection ends when nothing was gained, or below the low
  -- mark; else the next chunk is begun.
  unfoldable pub flush_gc : ℕ → ValueStorage → GcState → Run Step
  unfolding write_gc_w_chunk gc_sync_with_at init_gc_w_chunk
  flush_gc before vs st = do
    (vs1, m1) ← gc_sync_with_at c (write_gc_w_chunk io c vs vs.gc_w_chunk.chunk_offset) st.memory
    let used = (st.used_chunk_num + 1) % 2 ^ 64
    if (used == before) || ltb used c.vs_low_mark then ok (finished vs1 m1) else (do
      vs2 ← init_gc_w_chunk c vs1
      ok (continues (record { vs = vs2; memory = m1; w_offset = 0; used_chunk_num = used })))

  unfoldable pub gc_entry : ℕ → ℕ → List VsEntry → ℕ → GcState → Run Step
  unfolding copy_entry flush_gc
  gc_entry before victim r_buffer i st =
      if st.vs.bitmap victim i
      then (let vs = copy_entry victim i (get_or r_buffer i blank) st in
          if st.w_offset + 1 == c.entries_per_chunk
          then flush_gc before vs st
          else ok (continues (record st { vs = vs; w_offset = st.w_offset + 1 })))
      else ok (continues st)

  -- The entries of a victim from `i` on.
  unfoldable pub gc_entries : ℕ → ℕ → List VsEntry → ℕ → ℕ → GcState → Run Step
  unfolding gc_entry
  gc_entries before victim r_buffer zero i st = ok (continues st)
  gc_entries before victim r_buffer (suc n) i st = do
    step ← gc_entry before victim r_buffer i st
    elim step [
      | finished vs m ↦ ok (finished vs m)
      | continues st' ↦ gc_entries before victim r_buffer n (i + 1) st'
    ]

  -- No more victims: the chunk that was begun is given back if nothing was copied, else written.
  unfoldable pub gc_end : GcState → Run (ValueStorage × Memory)
  unfolding write_gc_w_chunk gc_sync_with_at add_free_chunk_list
  gc_end st =
      if is_nil st.vs.gc_w_chunk.moved_entry_list
      then ok (add_free_chunk_list st.vs st.vs.gc_w_chunk.chunk_offset, st.memory)
      else gc_sync_with_at c (write_gc_w_chunk io c st.vs st.vs.gc_w_chunk.chunk_offset) st.memory

  -- The do loop, over the victims in their order; a chunk full of valid entries is none.
  unfoldable pub gc_victims : ℕ → List (ℕ × ℕ) → GcState → Run (ValueStorage × Memory)
  unfolding gc_entries gc_end read_gc_r_chunk
  gc_victims before [] st = gc_end st
  gc_victims before ((victim, entries) ∷ rest) st =
      let none_left = gc_end st in
      let collected = do
        step ← gc_entries before victim (read_gc_r_chunk io c st.vs victim) c.entries_per_chunk 0 st
        elim step [
          | finished vs m ↦ ok (vs, m)
          | continues st' ↦
              gc_victims before rest
                (record st' { used_chunk_num = (st'.used_chunk_num + (2 ^ 64 - 1)) % 2 ^ 64 })
        ]
      in if entries == c.entries_per_chunk then none_left else collected

  unfoldable pub gc_begin : ValueStorage → Memory → List (ℕ × ℕ) → Run (ValueStorage × Memory)
  unfolding gc_victims init_gc_w_chunk
  gc_begin vs m used = do
    vs' ← init_gc_w_chunk c vs
    gc_victims (get_used_chunk_num c vs) used
        (record { vs = vs'; memory = m; w_offset = 0; used_chunk_num = get_used_chunk_num c vs })

  -- It takes two used chunks, the emptiest two of which fit into one.
  unfoldable pub choose : ValueStorage → Memory → List (ℕ × ℕ) → Run (ValueStorage × Memory)
  unfolding gc_begin
  choose vs m (p ∷ q ∷ used) =
      if ltb c.entries_per_chunk (p.1 + q.1) then ok (vs, m) else gc_begin vs m (p ∷ q ∷ used)
  choose vs m used = ok (vs, m)

  unfoldable pub garbage_collection : ValueStorage → Memory → Run (ValueStorage × Memory)
  unfolding choose create_used_chunk_list
  garbage_collection vs m = choose vs m (create_used_chunk_list c vs)
