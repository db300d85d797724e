-- ===== src/ValueStorage.antt =====
-- The state of PRISM/src/ValueStorage.cpp, a log-structured store of fixed-size entries on a disk,
-- in chunks: the bitmap of valid entries, the free chunks and the used ones. A place on the disk is
-- counted in entries (KV_SIZE bytes), so `vs_offset` is the place itself. Offsets are `int` in the
-- source and natural numbers here, below 2^31 for the sizes of mts-config.h.
pub mod Buffer
pub mod Link
pub mod Put
pub mod Collect
pub mod Chunks
pub mod Sorted
pub mod Linked
pub mod Filling
pub mod Flush
pub mod Started
pub mod Forced
pub mod Moved
pub mod Ordered
pub mod Relinked
pub mod Gathered
pub mod Collected
pub mod Chunkwise
pub mod Victims
pub mod Begun
pub mod Whole
pub mod Everywhere
use hkv.Base.{
  ℕ, zero, suc, ◌+◌, ◌-◌, ◌*◌, ◌%◌, ◌^◌, Bool, true, false, ◌&&◌, List, [], ◌∷◌, ◌++◌, ltb, leb,
  ◌==◌, if◌then◌else◌, Run, ok, stop, out_of_range, assertion, exit_failure, undefined, ◌>>=◌, ◌>>◌,
  require, length, update,
}
use hkv.Config.{Config}

-- vs_entry_t
pub record VsEntry : Type 0 where
  pub at_entry : ℕ
  pub key : ℕ
  pub val : ℕ

-- An entry of zeroed memory.
abbrev pub blank : VsEntry
blank = record { at_entry = 0; key = 0; val = 0 }

pub data Operation : Type 0 where
  insert remove : Operation

-- moved_entry_t
pub record MovedEntry : Type 0 where
  pub key : ℕ
  pub at_entry : ℕ
  pub chunk_offset : ℕ
  pub entry_offset : ℕ
  pub op_type : Operation

-- w_chunk_t. `w_buffer` holds what the buffer of that thread holds, `buffers_set` tells that the
-- pointers of the chunk have been set, and the two scratch lists of the sorts are empty between calls.
pub record WChunk : Type 0 where
  pub chunk_offset : ℕ
  pub entry_offset : ℕ
  pub buffers_set : Bool
  pub w_buffer : List VsEntry
  pub moved_entry_list : List MovedEntry

pub record ValueStorage : Type 0 where
  pub vs_id : ℕ
  pub gc_done : Bool
  pub is_writing : Bool
  pub w_chunk : ℕ → WChunk
  pub gc_w_chunk : WChunk
  pub free_chunk_list : List ℕ
  -- vs_bitmap_info, by chunk and entry
  pub bitmap : ℕ → ℕ → Bool
  -- the file
  pub disk : ℕ → VsEntry

unfoldable pub count_upto : (ℕ → Bool) → ℕ → ℕ
count_upto b zero = 0
count_upto b (suc n) = (if b n then 1 else 0) + count_upto b n

-- vs_bitmap_info->at(chunk).count()
unfoldable pub count : Config → ValueStorage → ℕ → ℕ
unfolding count_upto
count c vs chunk = count_upto (vs.bitmap chunk) c.entries_per_chunk

-- The vector is built with MTS_VS_CHUNK_NUM bitmaps and as many are pushed behind them; `at`,
-- `test`, `set` and `reset` throw outside.
abbrev pub check_chunk : Config → ℕ → Run (Unit {0})
check_chunk c chunk = require (ltb chunk (c.chunk_num + c.chunk_num)) out_of_range

abbrev pub check_place : Config → ℕ → ℕ → Run (Unit {0})
check_place c chunk entry =
    require (ltb chunk (c.chunk_num + c.chunk_num) && ltb entry c.entries_per_chunk) out_of_range

abbrev pub put_bit : ValueStorage → ℕ → ℕ → Bool → ValueStorage
put_bit vs chunk entry b = record vs {
  bitmap = update vs.bitmap chunk (update (vs.bitmap chunk) entry b);
}

unfoldable pub set_vs_bitmap_info : Config → ValueStorage → ℕ → ℕ → Run ValueStorage
set_vs_bitmap_info c vs chunk entry = do
  check_place c chunk entry
  require (leb (count c vs chunk) c.entries_per_chunk) assertion
  ok (put_bit vs chunk entry true)

unfoldable pub add_free_chunk_list : ValueStorage → ℕ → ValueStorage
add_free_chunk_list vs chunk = record vs { free_chunk_list = vs.free_chunk_list ++ chunk ∷ [] }

-- A chunk that loses its last valid entry is free.
unfoldable pub clear_vs_bitmap_info : Config → ValueStorage → ℕ → ℕ → Run ValueStorage
unfolding add_free_chunk_list
clear_vs_bitmap_info c vs chunk entry = do
  check_place c chunk entry
  let vs' = put_bit vs chunk entry false
  ok (if count c vs' chunk == 0 then add_free_chunk_list vs' chunk else vs')

unfoldable pub is_empty : Config → ValueStorage → ℕ → Run Bool
is_empty c vs chunk = do check_chunk c chunk; ok (count c vs chunk == 0)

-- `while (!is_empty(front)) erase(begin)`, then the front is taken. `front` of an empty vector is
-- undefined.
unfoldable pub first_free : Config → ValueStorage → List ℕ → Run (ℕ × List ℕ)
unfolding is_empty
first_free c vs [] = stop undefined
first_free c vs (chunk ∷ rest) = do
  empty ← is_empty c vs chunk
  let later = first_free c vs rest
  if empty then (do require (ltb chunk c.chunk_num) exit_failure; ok (chunk, rest)) else later

unfoldable pub get_free_chunk_offset : Config → ValueStorage → Run (ℕ × ValueStorage)
unfolding first_free
get_free_chunk_offset c vs = do
  (chunk, rest) ← first_free c vs vs.free_chunk_list
  ok (chunk, record vs { free_chunk_list = rest })

-- The difference is one of unsigned longs, cut down to an unsigned int.
unfoldable pub get_used_chunk_num : Config → ValueStorage → ℕ
get_used_chunk_num c vs =
    (c.chunk_num + 2 ^ 64 - length vs.free_chunk_list % 2 ^ 64) % 2 ^ 64 % 2 ^ 32

unfoldable pub not_enough_free_chunk : Config → ValueStorage → Bool
unfolding get_used_chunk_num
not_enough_free_chunk c vs = ltb c.vs_high_mark (get_used_chunk_num c vs)

unfoldable pub need_gc : ValueStorage → Bool
need_gc vs = vs.gc_done

upto : ℕ → List ℕ
upto zero = []
upto (suc n) = upto n ++ n ∷ []

abbrev pub empty_chunk : WChunk
empty_chunk = record {
  chunk_offset = 0;
  entry_offset = 0;
  buffers_set = false;
  w_buffer = [];
  moved_entry_list = [];
}

-- The constructor: no entry is valid and every chunk is free. The contents of the buffers and of the
-- file are what memory and disk happen to hold.
unfoldable pub init : Config → ℕ → (ℕ → List VsEntry) → List VsEntry → (ℕ → VsEntry) → ValueStorage
unfolding upto
init c id buffers gc_buffer disk = record {
  vs_id = id;
  gc_done = false;
  is_writing = false;
  w_chunk = λ i. record empty_chunk { w_buffer = buffers i };
  gc_w_chunk = record empty_chunk { w_buffer = gc_buffer };
  free_chunk_list = upto c.chunk_num;
  bitmap = λ _ _. false;
  disk = disk;
}
