-- ===== src/Tests/Storage.antt =====
-- Value storage at small inputs.
use hkv.Base.{◌≡◌, refl, true, [], ◌∷◌, arith, ok}
use hkv.Config.{tiny}
use hkv.Memory.{Memory}
use hkv.ValueStorage.{VsEntry, blank, Operation, WChunk, ValueStorage, put_bit}
use hkv.ValueStorage.Link.{unlink_to_at}
use hkv.ValueStorage.Chunks.{Unlinked, unlink_to_at-Unlinked}
use hkv.ValueStorage.Put.{write_and_sync, set_chunk}
use hkv.ValueStorage.Filling.{Buffered}
use hkv.ValueStorage.Flush.{Flushed, write_and_sync-Flushed}
use hkv.Base.{update}
use hkv.Mts.{World}
use hkv.Mts.Reads.{lookup}
use hkv.Mts.Flushed.{flush-lookup}
use hkv.Tests.{plain, logged_store, logged_store-InLog, ring, ring-IsFaithful, zeroes, storage}

abbrev one : VsEntry
one = record { at_entry = 4096; key = 7; val = 70 }

-- A chunk of two places that holds one entry.
abbrev half_full : WChunk
half_full = record {
  chunk_offset = 1;
  entry_offset = 1;
  buffers_set = true;
  w_buffer = one ∷ blank ∷ [];
  moved_entry_list =
      record {
        key = 7;
        at_entry = 4096;
        chunk_offset = 1;
        entry_offset = 0;
        op_type = Operation.insert;
      }
      ∷ [];
}

abbrev writing : ValueStorage
writing = set_chunk storage 0 half_full

half_full-Buffered : Buffered tiny half_full (one ∷ []) (blank ∷ [])
half_full-Buffered = record {
  set_up = refl;
  inside = omega arith;
  filled_to = refl;
  contents = refl;
  whole = refl;
  slots = (refl, refl, tt);
  pairs = refl;
  in_use = ((λ e. omega (arith, e)), tt);
}

write_and_sync-Flushed_example :
    (vs' : ValueStorage) × (m' : Memory) × (write_and_sync ring tiny 0 writing zeroes
      ≡ ok (vs', m'))
    × Flushed tiny 0 writing zeroes (one ∷ []) vs' m'
    × ((vs'.w_chunk 0).entry_offset ≡ (writing.w_chunk 0).entry_offset)
write_and_sync-Flushed_example =
    write_and_sync-Flushed ring tiny 0 writing zeroes (one ∷ []) (blank ∷ []) ring-IsFaithful refl
      half_full-Buffered (refl, tt) (tt, tt)

-- A storage with one valid entry.
abbrev marked : ValueStorage
marked = put_bit storage 1 0 true

unlink_to_at-Unlinked_example :
    (vs' : ValueStorage) × (unlink_to_at tiny marked 1 0 ≡ ok vs') × Unlinked tiny marked 1 0 vs'
unlink_to_at-Unlinked_example = unlink_to_at-Unlinked tiny marked 1 0 (omega arith) (omega arith)

-- A stale copy of the key 7 waits in the buffer of log 0.
abbrev stale_store : World plain
stale_store = record logged_store { storages = λ _. writing }

flush-lookup_example :
    (vs' : ValueStorage) × (m' : Memory) × (write_and_sync ring tiny 0 writing logged_store.memory
      ≡ ok (vs', m'))
    × (lookup ring tiny 7
          (record stale_store { storages = update stale_store.storages 0 vs'; memory = m' })
        ≡ ok (71, record stale_store { storages = update stale_store.storages 0 vs'; memory = m' }))
flush-lookup_example =
    flush-lookup ring tiny stale_store 0 0 7 4096 8192 71 (one ∷ []) (blank ∷ []) ring-IsFaithful
      refl half_full-Buffered (refl, tt) (tt, tt) refl logged_store-InLog
