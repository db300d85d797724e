-- ===== src/ValueStorage/Forced.antt =====
-- forced_write_chunk of PRISM/src/ValueStorage.cpp: a flush, after which the next chunk is begun.
use hkv.Base.{
  ℕ, ◌*◌, ◌/◌, ◌≡◌, refl, ap, ◌∙◌, List, All, ok, update_self, update_ne, sym, subst, [],
}
use hkv.Config.{Config}
use hkv.Memory.{Memory}
use hkv.ValueStorage.{VsEntry, WChunk, ValueStorage}
use hkv.ValueStorage.Buffer.{IoUring}
use hkv.ValueStorage.Filling.{Buffered}
use hkv.ValueStorage.Flush.{Flushed, write_and_sync-Flushed}
use hkv.ValueStorage.Linked.{DistinctAts}
use hkv.ValueStorage.Put.{set_chunk, write_and_sync, forced_write_chunk}
use hkv.ValueStorage.Sorted.{IsFaithful}

abbrev closed : ℕ → ValueStorage → ValueStorage
closed i vs = set_chunk vs i (record (vs.w_chunk i) { entry_offset = 0 })

closed-Flushed :
    (c : Config) (i : ℕ) (vs vs' : ValueStorage) (m m' : Memory) (es : List VsEntry)
    → Flushed c i vs m es vs' m'
    → Flushed c i vs m es (closed i vs') m'
closed-Flushed c i vs vs' m m' es r = record {
  kept = r.kept;
  ats_else = r.ats_else;
  bits_else = r.bits_else;
  bits_own = r.bits_own;
  disk_else = r.disk_else;
  same_free = r.same_free;
  others = ap (λ (v : ValueStorage). record v { w_chunk = (closed i vs').w_chunk }) r.others;
  w_chunk_else = λ j ne. update_ne vs'.w_chunk i j _ ne ∙ r.w_chunk_else j ne;
  w_chunk_own =
      subst
        (λ (k : WChunk). k ≡ record (vs.w_chunk i) {
          w_buffer = k.w_buffer;
          moved_entry_list = [];
          entry_offset = k.entry_offset;
        })
        (sym (update_self vs'.w_chunk i _))
        (ap (λ (k : WChunk). record k { entry_offset = 0 }) r.w_chunk_own);
  same_op = r.same_op;
  same_dc = r.same_dc;
  emptied = ap (λ (ch : WChunk). ch.moved_entry_list) (update_self vs'.w_chunk i _) ∙ r.emptied;
}

forced_write_chunk-closed :
    (io : IoUring) (c : Config) (i : ℕ) (vs vs' : ValueStorage) (m m' : Memory)
    → write_and_sync io c i vs m ≡ ok (vs', m')
    → forced_write_chunk io c i vs m ≡ ok (closed i vs', m')
unfolding forced_write_chunk
forced_write_chunk-closed io c i vs vs' m m' run = rw run refl

pub forced_write_chunk-Flushed :
    (io : IoUring) (c : Config) (i : ℕ) (vs : ValueStorage) (m : Memory) (es tail : List VsEntry)
    → IsFaithful io
    → c.entries_per_chunk ≡ c.w_qd * (c.entries_per_chunk / c.w_qd)
    → Buffered c (vs.w_chunk i) es tail
    → All (λ e. e.at_entry ≡ 0) tail
    → DistinctAts es
    → (vs' : ValueStorage) × (m' : Memory) × (forced_write_chunk io c i vs m ≡ ok (vs', m'))
      × Flushed c i vs m es vs' m'
      × ((vs'.w_chunk i).entry_offset ≡ 0)
forced_write_chunk-Flushed io c i vs m es tail f even b unused apart =
    let (vs', m', run, r, _) = write_and_sync-Flushed io c i vs m es tail f even b unused apart in
    (
      closed i vs',
      m',
      forced_write_chunk-closed io c i vs vs' m m' run,
      closed-Flushed c i vs vs' m m' es r,
      ap (λ (ch : WChunk). ch.entry_offset) (update_self vs'.w_chunk i _),
    )
