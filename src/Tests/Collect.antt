-- ===== src/Tests/Collect.antt =====
-- Garbage collection at a small input.
use hkv.Base.{ℕ, ◌≡◌, ◌<◌, refl, inl, true, [], ◌∷◌, arith, ok, pos, replicate, update}
use hkv.Config.{Config, tiny}
use hkv.Memory.{Memory}
use hkv.ValueStorage
use hkv.ValueStorage.{VsEntry, blank, ValueStorage, put_bit, count, count_upto}
use hkv.ValueStorage.Chunks.{HasEmpty}
use hkv.ValueStorage.Collect.{create_used_chunk_list, garbage_collection, used_from}
use hkv.ValueStorage.Collected.{Collected}
use hkv.Base.Order.{Distinct}
use hkv.ValueStorage.Moved.{copies}
use hkv.ValueStorage.Ordered.{SortResult, TakesOrder, sort_by-SortResult}
use hkv.ValueStorage.Whole.{Collectable, collected_values, garbage_collection-Collected}
use hkv.Base.Sort.{sort_by, insert_by}
use hkv.Mts.{World}
use hkv.Mts.InLog.{InLog}
use hkv.Mts.Reads.{lookup, prep_reads}
use hkv.Mts.Collecting.{Stored, garbage_collection-prep_reads, garbage_collection-lookup}
use hkv.Tests.{plain, logged_store, ring, ring-IsFaithful, zeroes, storage}

-- Four entries to a chunk.
abbrev wide : Config
wide = record tiny { entries_per_chunk = 4 }

abbrev one : VsEntry
one = record { at_entry = 4096; key = 7; val = 70 }

abbrev two : VsEntry
two = record { at_entry = 4112; key = 8; val = 80 }

abbrev linked : Memory
linked = record zeroes {
  at =
      update (update zeroes.at 4096 (record (zeroes.at 4096) { vs_id = pos 0; vs_offset = pos 4 }))
        4112 (record (zeroes.at 4112) { vs_id = pos 0; vs_offset = pos 11 });
}

-- One valid entry in chunk 1 and one in chunk 2, with chunk 3 free.
abbrev fragmented : ValueStorage
fragmented = record (put_bit (put_bit storage 1 0 true) 2 3 true) {
  free_chunk_list = 3 ∷ [];
  disk = update (update (λ _. blank) 4 one) 11 two;
  gc_w_chunk = record (storage.gc_w_chunk) { w_buffer = replicate 4 blank; moved_entry_list = [] };
}

fragmented-HasEmpty : HasEmpty wide fragmented (3 ∷ [])
unfolding count count_upto ValueStorage.init
fragmented-HasEmpty = inl refl

fragmented-Collectable : Collectable wide fragmented
unfolding create_used_chunk_list used_from count count_upto sort_by insert_by ValueStorage.init
fragmented-Collectable = record {
  in_file = (omega arith, tt);
  has_empty = fragmented-HasEmpty;
  zeroed = refl;
  none_moved = refl;
  two = omega arith;
  room = omega arith;
  in_use = ((λ e. omega (arith, e)), ((λ e. omega (arith, e)), tt));
  apart = (((λ e. omega (arith, e)), tt), (tt, tt));
}

fragmented-Distinct : Distinct (λ e. e.key) (copies (collected_values wide fragmented))
unfolding create_used_chunk_list used_from count count_upto sort_by insert_by ValueStorage.init
fragmented-Distinct = (((λ e. omega (arith, e)), tt), (tt, tt))

fragmented-SortResult :
    SortResult
      (collected_values wide fragmented)
      (one ∷ two ∷ [])
      ((7, 4096) ∷ (7, 4096) ∷ (8, 4112) ∷ (8, 4112) ∷ [])
unfolding create_used_chunk_list used_from count count_upto sort_by insert_by ValueStorage.init
fragmented-SortResult = sort_by-SortResult (collected_values wide fragmented)

garbage_collection-Collected_example :
    (chunk : ℕ) × (vs' : ValueStorage) × (m' : Memory) × (garbage_collection ring wide fragmented
        linked
      ≡ ok (vs', m'))
    × (count wide fragmented chunk ≡ 0)
    × (chunk < 4)
    × Collected wide fragmented.vs_id chunk fragmented.disk linked
        (collected_values wide fragmented)
        vs'
        m'
    × TakesOrder chunk
        (collected_values wide fragmented)
        (one ∷ two ∷ [])
        ((7, 4096) ∷ (7, 4096) ∷ (8, 4112) ∷ (8, 4112) ∷ [])
garbage_collection-Collected_example =
    garbage_collection-Collected ring wide fragmented linked (one ∷ two ∷ [])
      ((7, 4096) ∷ (7, 4096) ∷ (8, 4112) ∷ (8, 4112) ∷ []) ring-IsFaithful refl
      fragmented-Collectable fragmented-Distinct fragmented-SortResult

-- The value of the key 7 is in the log, with a stale copy in chunk 1; that of `two` is in chunk 2.
abbrev store : World plain
store = record logged_store {
  storages = λ _. fragmented;
  memory = record (logged_store.memory) {
    at = update logged_store.memory.at 4112 (linked.at 4112);
  };
}

two-Stored : Stored wide fragmented store.memory 4112 2 3
unfolding ValueStorage.init
two-Stored = record {
  inside = omega arith;
  fits = omega arith;
  valid = refl;
  owner = refl;
  storage = refl;
  place = refl;
}

store-InLog : InLog store.memory 4096 8192 7 71
store-InLog = record {
  entry = λ e. omega (arith, e);
  place = λ e. omega (arith, e);
  user = omega arith;
  linked = refl;
  back = refl;
  holds = (refl, refl);
}

garbage_collection-prep_reads_example :
    (vs' : ValueStorage) × (m' : Memory) × (garbage_collection ring wide fragmented store.memory
      ≡ ok (vs', m'))
    × (prep_reads ring wide 1 0
          (4112 ∷ [])
          (record store { storages = update store.storages 0 vs'; memory = m' })
        ≡ prep_reads ring wide 1 0 (4112 ∷ []) store)
garbage_collection-prep_reads_example =
    garbage_collection-prep_reads ring wide ring-IsFaithful refl store 0 0 4112 2 3 (omega arith)
      fragmented-Collectable fragmented-Distinct two-Stored

garbage_collection-lookup_example :
    (vs' : ValueStorage) × (m' : Memory) × (garbage_collection ring wide fragmented store.memory
      ≡ ok (vs', m'))
    × (lookup ring wide 7 (record store { storages = update store.storages 0 vs'; memory = m' })
        ≡ ok (71, record store { storages = update store.storages 0 vs'; memory = m' }))
garbage_collection-lookup_example =
    garbage_collection-lookup ring wide ring-IsFaithful refl store 0 7 4096 8192 71
      fragmented-Collectable refl store-InLog
