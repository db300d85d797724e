-- ===== src/OpLog/Reclaimed.antt =====
-- The rest of the thread of `OpLog::reclaim` in PRISM/src/OpLog.cpp, from its loop to its end.
use hkv.Base.{
  ℕ, ◌+◌, ◌*◌, ◌/◌, ◌^◌, ◌≤◌, ◌<◌, ◌≡◌, refl, sym, ap, subst, ◌∙◌, ◌≢◌, ◌⊎◌, Bool, true, false,
  none, List, [], ◌∷◌, arith, ok, length, All, ◌==◌, leb, pos, eq_ℤ,
}
use hkv.Config.{Config}
use hkv.Memory.{Memory, AtEntry, newly_updated_val}
use hkv.ValueStorage.{VsEntry, ValueStorage, count, count_upto}
use hkv.ValueStorage.Buffer.{IoUring}
use hkv.ValueStorage.Flush.{Kept, Flushed}
use hkv.ValueStorage.Linked.{DistinctAts}
use hkv.ValueStorage.Sorted.{IsFaithful}
use hkv.OpLog.{
  NvLog, OpLog, align_uint_to_cacheline, oplog_used, oplog_deq_persist, log_of, set_log,
}
use hkv.OpLog.Drained.{Drained, Draining, current}
use hkv.OpLog.Emptied.{reclaim_loop-Drained}
use hkv.OpLog.Live.{
  live-DistinctAts, mark_all, IsMarked, mark_all-IsMarked, mark_all-else, op-mark_all, dc-mark_all,
}
use hkv.OpLog.Logs.{log_of-set_log_self, set_log-set_log}
use hkv.OpLog.Queue.{IsValid, IsQueue, Entries, entry_size}
use hkv.OpLog.Reclaim.{Site, rounds, reclaim_end, reclaim_rest}

-- An entry takes a cache line at least.
line : (c : Config) → 0 < c.kv_size → c.kv_size + 126 < 2 ^ 32 → 64 ≤ entry_size c
unfolding align_uint_to_cacheline
line c positive h = omega arith

lines :
    (c : Config) (buffer tail : ℕ) (m : Memory) (cnt : ℕ) (es : List (ℕ × ℕ))
    → 64 ≤ entry_size c
    → Entries c buffer tail m cnt es
    → cnt + 64 * length es ≤ tail
lines c buffer tail m cnt [] le h = omega arith
lines c buffer tail m cnt (e ∷ es) le h =
    let rest = lines c buffer tail m (cnt + entry_size c) es le h.3 in omega arith

enough_rounds :
    (io : IoUring) (c : Config) (oplog : OpLog) (id : ℕ) (m : Memory) (es : List (ℕ × ℕ))
    → 64 ≤ entry_size c
    → IsQueue c (log_of oplog id) m es
    → length es ≤ rounds io c oplog id
unfolding oplog_used
enough_rounds io c oplog id m es le q =
    let log = log_of oplog id in
    let v : IsValid c log = q.valid in
    omega (arith, lines c log.buffer log.tail_cnt m log.head_cnt es le q.entries, v.bounded, v.low)

-- A value that reclaiming moved: its table entry points at a valid place of the chunk, where the disk
-- holds it.
abbrev pub Found : Config → ℕ → ℕ → Memory → ValueStorage → Memory → VsEntry → Type 0
Found c id chunk m vs' m' e =
    (j : ℕ) × (j < c.entries_per_chunk)
    × (m'.at e.at_entry ≡ record (m.at e.at_entry) {
      vs_id = pos id;
      vs_offset = pos (chunk * c.entries_per_chunk + j);
    })
    × (vs'.bitmap chunk j ≡ true)
    × (vs'.disk (chunk * c.entries_per_chunk + j) ≡ e)

Found-of_Kept :
    (c : Config) (id chunk : ℕ) (m marked : Memory) (vs' : ValueStorage) (m' : Memory) (e : VsEntry)
    → IsMarked m marked e
    → Kept c id chunk marked vs' m' e
    → Found c id chunk m vs' m' e
Found-of_Kept c id chunk m marked vs' m' e mark k =
    let (j, lt, at, valid, disk) =
      k.1 (ap (λ (x : AtEntry). eq_ℤ x.vs_offset newly_updated_val) mark) in
    (
      j,
      lt,
      at
          ∙ ap
              (λ (x : AtEntry). record x {
                vs_id = pos id;
                vs_offset = pos (chunk * c.entries_per_chunk + j);
              })
              mark,
      valid,
      disk,
    )

All-Found :
    (c : Config) (id chunk : ℕ) (m marked : Memory) (vs' : ValueStorage) (m' : Memory)
    (es : List VsEntry)
    → All (IsMarked m marked) es
    → All (Kept c id chunk marked vs' m') es
    → All (Found c id chunk m vs' m') es
All-Found c id chunk m marked vs' m' [] h k = tt
All-Found c id chunk m marked vs' m' (e ∷ es) h k = (
  Found-of_Kept c id chunk m marked vs' m' e h.0 k.0,
  All-Found c id chunk m marked vs' m' es h.1 k.1,
)

count-same :
    (c : Config) (vs vs' : ValueStorage) (chunk : ℕ)
    → vs'.bitmap ≡ vs.bitmap
    → count c vs chunk ≡ count c vs' chunk
unfolding count
count-same c vs vs' chunk e =
    ap (λ (b : ℕ → ℕ → Bool). count_upto (b chunk) c.entries_per_chunk) (sym e)

-- What the thread leaves behind: an empty log, the lock released, and the values `es` in a chunk of
-- the storage that held no valid entry. The persistent tail is not reset.
pub record Reclaimed (c : Config) (id vs_id : ℕ) (s : Site) (es : List VsEntry) (s' : Site)
    : Type 0 where
  pub rest : s'.oplog ≡ record (set_log s.oplog id (log_of s'.oplog id)) {
    reclaim_lock = false;
    reclaim_thread = none;
  }
  pub no_head : (log_of s'.oplog id).head_cnt ≡ 0
  pub no_tail : (log_of s'.oplog id).tail_cnt ≡ 0
  pub persistent : (log_of s'.oplog id).stored_head ≡ 0
  pub old_tail : (log_of s'.oplog id).stored_tail ≡ (log_of s.oplog id).stored_tail
  pub same_buffer : (log_of s'.oplog id).buffer ≡ (log_of s.oplog id).buffer
  pub same_size : (log_of s'.oplog id).log_size ≡ (log_of s.oplog id).log_size
  pub ready : (log_of s'.oplog id).ready ≡ true
  pub unlocked : s'.oplog.reclaim_lock ≡ false
  pub ended : s'.oplog.reclaim_thread ≡ none
  pub chunk : ℕ
  pub empty : count c (s.storages vs_id) chunk ≡ 0
  pub found : All (Found c (s.storages vs_id).vs_id chunk s.memory (s'.storages vs_id) s'.memory) es
  pub ats_else : (p : ℕ) → All (λ e. e.at_entry ≢ p) es → s'.memory.at p ≡ s.memory.at p
  pub bits_else :
      (ch j : ℕ) → ch ≢ chunk → (s'.storages vs_id).bitmap ch j ≡ (s.storages vs_id).bitmap ch j
  pub disk_else :
      (x : ℕ)
      → (x < chunk * c.entries_per_chunk) ⊎ (chunk * c.entries_per_chunk + c.entries_per_chunk ≤ x)
      → (s'.storages vs_id).disk x ≡ (s.storages vs_id).disk x
  pub others : (v : ℕ) → vs_id ≢ v → s'.storages v ≡ s.storages v
  pub same_op : s'.memory.op ≡ s.memory.op
  pub same_dc : s'.memory.dc ≡ s.memory.dc

persist-lem :
    (log : NvLog)
    → ((oplog_deq_persist log).head_cnt ≡ log.head_cnt)
      × ((oplog_deq_persist log).tail_cnt ≡ log.tail_cnt)
      × ((oplog_deq_persist log).stored_head ≡ log.head_cnt)
      × ((oplog_deq_persist log).stored_tail ≡ log.stored_tail)
      × ((oplog_deq_persist log).buffer ≡ log.buffer)
      × ((oplog_deq_persist log).log_size ≡ log.log_size)
unfolding oplog_deq_persist
persist-lem log =
    (ground arith, ground arith, ground arith, ground arith, ground arith, ground arith)

-- The log with both counters at 0 again.
abbrev restarted : NvLog → NvLog
restarted log = record (oplog_deq_persist (record log { head_cnt = 0; tail_cnt = 0 })) {
  ready = true;
}

abbrev released : ℕ → Site → Site
released id s = record s {
  oplog = record (set_log s.oplog id (restarted (log_of s.oplog id))) {
    reclaim_lock = false;
    reclaim_thread = none;
  };
}

module _ (io : IoUring) (c : Config) where
  reclaim_end-released :
      (id old_head : ℕ) (s : Site)
      → old_head < (log_of s.oplog id).head_cnt
      → reclaim_end io c id old_head s ≡ ok (released id s)
  unfolding reclaim_end
  reclaim_end-released id old_head s lt =
      let fine : leb old_head (log_of s.oplog id).head_cnt ≡ true = ground arith in
      let some_read : ((log_of s.oplog id).head_cnt == old_head) ≡ false = ground arith in
      rw (fine, some_read) refl

  released-Reclaimed :
      (id vs_id : ℕ) (s s1 : Site) (es : List VsEntry)
      → DistinctAts es
      → Drained c id vs_id s es (mark_all es s.memory) s1
      → Reclaimed c id vs_id s es (released id s1)
  released-Reclaimed id vs_id s s1 es apart d =
      let log = restarted (log_of s1.oplog id) in
      let now : log_of (set_log s1.oplog id log) id ≡ log = log_of-set_log_self s1.oplog id log in
      let was =
        ap (λ ol. log_of ol id) d.used_up
        ∙ log_of-set_log_self s.oplog id
            (record (log_of s.oplog id) { head_cnt = (log_of s.oplog id).tail_cnt }) in
      let p = persist-lem (record (log_of s1.oplog id) { head_cnt = 0; tail_cnt = 0 }) in
      let g = s.oplog.g_oplog_id in
      let flush : Flushed c g d.before (mark_all es s.memory) es (s1.storages vs_id) s1.memory =
        d.flushed in
      let chunk = (d.before.w_chunk g).chunk_offset in
      record {
        rest =
            ap
              (λ (ol : OpLog). record (set_log ol id log) {
                reclaim_lock = false;
                reclaim_thread = none;
              })
              d.used_up
            ∙ ap (λ (ol : OpLog). record ol { reclaim_lock = false; reclaim_thread = none })
                (set_log-set_log s.oplog id _ log ∙ ap (set_log s.oplog id) (sym now));
        no_head = ap (λ (l : NvLog). l.head_cnt) now ∙ p.0;
        no_tail = ap (λ (l : NvLog). l.tail_cnt) now ∙ p.1;
        persistent = ap (λ (l : NvLog). l.stored_head) now ∙ p.2;
        old_tail =
            ap (λ (l : NvLog). l.stored_tail) now ∙ p.3 ∙ ap (λ (l : NvLog). l.stored_tail) was;
        same_buffer = ap (λ (l : NvLog). l.buffer) now ∙ p.4 ∙ ap (λ (l : NvLog). l.buffer) was;
        same_size = ap (λ (l : NvLog). l.log_size) now ∙ p.5 ∙ ap (λ (l : NvLog). l.log_size) was;
        ready = ap (λ (l : NvLog). l.ready) now;
        unlocked = refl;
        ended = refl;
        chunk = chunk;
        empty = count-same c (s.storages vs_id) d.before chunk d.same.bitmap ∙ d.empty;
        found =
            subst (λ i. All (Found c i chunk s.memory (s1.storages vs_id) s1.memory) es) d.same.id
              (All-Found c d.before.vs_id chunk s.memory (mark_all es s.memory) (s1.storages vs_id)
                s1.memory es (mark_all-IsMarked es s.memory apart) flush.kept);
        ats_else = λ q out. flush.ats_else q out ∙ mark_all-else es s.memory q out;
        bits_else =
            λ ch j ne. flush.bits_else ch j ne ∙ ap (λ (b : ℕ → ℕ → Bool). b ch j) d.same.bitmap;
        disk_else = λ x out. flush.disk_else x out ∙ ap (λ (b : ℕ → VsEntry). b x) d.same.disk;
        others = d.others;
        same_op = flush.same_op ∙ op-mark_all es s.memory;
        same_dc = flush.same_dc ∙ dc-mark_all es s.memory;
      }

  -- The ring does what is asked of it, writes divide a chunk evenly, and a value takes from 1 to
  -- 2^32 - 127 bytes. No entry of the log has lost its pointer to the table, one at least is current,
  -- and the head that the thread was given is not beyond the log's. The storage is not short of free
  -- chunks and has an empty one on its free list, and its write buffer is not begun, unused, and takes
  -- all current entries. Then the thread runs to its end. The value of every current entry is at a
  -- valid place of a chunk that held none, under its own table entry, the log is empty, and the lock is
  -- released. Other table entries, the bits and the disk outside that chunk, the other storages, the
  -- log's entries and the cache do not change; the free list and the write buffer of the storage do.
  -- The persistent head is reset, the persistent tail is not.
  pub reclaim_rest-Reclaimed :
      (id vs_id old_head : ℕ) (s : Site) (e : ℕ × ℕ) (queue : List (ℕ × ℕ)) (tail : List VsEntry)
      → IsFaithful io
      → c.entries_per_chunk ≡ c.w_qd * (c.entries_per_chunk / c.w_qd)
      → 0 < c.kv_size
      → c.kv_size + 126 < 2 ^ 32
      → Draining io c id vs_id s (e ∷ queue) [] tail
      → length (current io c id vs_id s (e ∷ queue)) ≤ length tail
      → 0 < length (current io c id vs_id s (e ∷ queue))
      → old_head ≤ (log_of s.oplog id).head_cnt
      → (s' : Site) × (reclaim_rest io c id vs_id old_head s ≡ ok s')
        × Reclaimed c id vs_id s (current io c id vs_id s (e ∷ queue)) s'
  unfolding reclaim_rest
  reclaim_rest-Reclaimed id vs_id old_head s e queue tail f even positive small d room some_in
        begun =
      let size = line c positive small in
      let apart =
        live-DistinctAts (entry_size c) (log_of s.oplog id).buffer s.memory (length (e ∷ queue))
          (log_of s.oplog id).head_cnt (omega (arith, size)) in
      let (s1, run, drained) =
        reclaim_loop-Drained io c id vs_id f even (rounds io c s.oplog id) s e queue [] tail
          (omega (arith, size)) (enough_rounds io c s.oplog id s.memory (e ∷ queue) size d.queued) d
          room some_in apart in
      let used =
        ap (λ ol. (log_of ol id).head_cnt) drained.used_up
        ∙ ap (λ (l : NvLog). l.head_cnt)
            (log_of-set_log_self s.oplog id
              (record (log_of s.oplog id) { head_cnt = (log_of s.oplog id).tail_cnt })) in
      let more =
        lines c (log_of s.oplog id).buffer (log_of s.oplog id).tail_cnt s.memory
          (log_of s.oplog id).head_cnt (e ∷ queue) size d.queued.entries in
      (
        released id s1,
        rw run (reclaim_end-released id old_head s1 (omega (arith, used, more, begun))),
        released-Reclaimed id vs_id s s1 (current io c id vs_id s (e ∷ queue)) apart drained,
      )
