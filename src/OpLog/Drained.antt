-- ===== src/OpLog/Drained.antt =====
-- The loop of `OpLog::reclaim` of PRISM/src/OpLog.cpp, on a log whose current entries fit into a chunk.
use hkv.Base.{
  ℕ, zero, suc, ◌+◌, ◌≤◌, ◌<◌, ◌≡◌, sym, ap, subst, ◌∙◌, ◌≢◌, true, false, some, List, ◌∷◌, ◌++◌,
  arith, length, All, ◌==◌, update_self, update_ne,
}
use mathlib.Core.Path.{subst₂}
use hkv.Config.{Config}
use hkv.Memory.{Memory, OpEntry}
use hkv.ValueStorage.{VsEntry, ValueStorage, count}
use hkv.ValueStorage.Buffer.{IoUring}
use hkv.ValueStorage.Flush.{Flushed}
use hkv.ValueStorage.Started.{Ready, SameFile, trans-SameFile}
use hkv.OpLog.{NvLog, oplog_used, oplog_peek_head, oplog_deq, log_of, set_log}
use hkv.OpLog.Live.{moved, live, mark_all, live-mark_all, op-mark_all}
use hkv.OpLog.Logs.{log_of-set_log_self, set_log-set_log, g_oplog_id-set_log}
use hkv.OpLog.Moving.{with_vs, Took, move_entry-Took}
use hkv.OpLog.Queue.{IsValid, IsQueue, Entries, entry_size, front-IsQueue}
use hkv.OpLog.Reclaim.{Site, with_log}

-- No entry has lost its pointer to the table.
abbrev pub Owned : ℕ → ℕ → (ℕ → OpEntry) → ℕ → ℕ → Type 0
Owned size buffer op zero cnt = Unit {0}
Owned size buffer op (suc n) cnt =
    ((op (buffer + cnt)).opa ≢ 0) × Owned size buffer op n (cnt + size)

-- A log is a queue by its entries alone.
pub IsQueue-of_op :
    (c : Config) (log : NvLog) (m m' : Memory) (es : List (ℕ × ℕ))
    → m'.op ≡ m.op
    → IsQueue c log m es
    → IsQueue c log m' es
IsQueue-of_op c log m m' es e q = record {
  valid = q.valid;
  entries =
      subst (λ op. Entries c log.buffer log.tail_cnt (record m { op = op }) log.head_cnt es) (sym e)
        q.entries;
}

-- What the loop leaves behind: the log is used up, and the storage has written `es`, which the memory
-- `marked` waits for, to a chunk that held no valid entry.
pub record Drained (c : Config) (id vs_id : ℕ) (s : Site) (es : List VsEntry) (marked : Memory)
    (s' : Site) : Type 0 where
  pub used_up :
      s'.oplog
      ≡ set_log s.oplog id (record (log_of s.oplog id) { head_cnt = (log_of s.oplog id).tail_cnt })
  pub others : (v : ℕ) → vs_id ≢ v → s'.storages v ≡ s.storages v
  pub before : ValueStorage
  pub same : SameFile (s.storages vs_id) before
  pub empty : count c before (before.w_chunk s.oplog.g_oplog_id).chunk_offset ≡ 0
  pub flushed : Flushed c s.oplog.g_oplog_id before marked es (s'.storages vs_id) s'.memory
  pub closed : ((s'.storages vs_id).w_chunk s.oplog.g_oplog_id).entry_offset ≡ 0

pub used_up-lem :
    (c : Config) (log : NvLog)
    → IsValid c log
    → log.head_cnt ≡ log.tail_cnt
    → (oplog_used log == 0) ≡ true
unfolding oplog_used
used_up-lem c log v e = ground (arith, v.low, v.bounded)

pub some_left :
    (c : Config) (log : NvLog)
    → IsValid c log
    → log.head_cnt < log.tail_cnt
    → (oplog_used log == 0) ≡ false
unfolding oplog_used
some_left c log v lt = ground (arith, v.low, v.bounded)

module _ (io : IoUring) (c : Config) (id vs_id : ℕ) where
  -- A log with entries, a buffer that holds `es` and has room for all that is current.
  pub record Draining (s : Site) (queue : List (ℕ × ℕ)) (es tail : List VsEntry) : Type 0 where
    pub queued : IsQueue c (log_of s.oplog id) s.memory queue
    pub owned :
        Owned
          (entry_size c)
          (log_of s.oplog id).buffer
          s.memory.op
          (length queue)
          (log_of s.oplog id).head_cnt
    pub ready : Ready c (s.storages vs_id) s.oplog.g_oplog_id es tail
    pub unused : All (λ e. e.at_entry ≡ 0) tail

  -- The current entries of the log.
  abbrev pub current : Site → List (ℕ × ℕ) → List VsEntry
  current s queue =
      live (entry_size c) (log_of s.oplog id).buffer s.memory (length queue)
        (log_of s.oplog id).head_cnt

  abbrev pub front : Site → ℕ
  front s = (log_of s.oplog id).buffer + (log_of s.oplog id).head_cnt

  abbrev pub next_log : Site → NvLog
  next_log s = record (log_of s.oplog id) { head_cnt = (log_of s.oplog id).head_cnt + entry_size c }

  abbrev pub next_memory : Site → Memory
  next_memory s = mark_all (moved s.memory (front s)) s.memory

  abbrev pub next_site : Site → ValueStorage → Site
  next_site s vs = with_log (with_vs s vs_id vs (next_memory s)) id (next_log s)

  -- The round at the head of the log.
  pub record Round (s : Site) (queue : List (ℕ × ℕ)) (es tail : List VsEntry) : Type 0 where
    pub took : Took io c vs_id s (front s) es tail
    pub peek : oplog_peek_head (log_of s.oplog id) ≡ some (front s)
    pub left : oplog_deq (log_of s.oplog id) (next_memory s) ≡ next_log s
    pub queued : IsQueue c (next_log s) (next_memory s) queue

  pub Round-of :
      (pos : 0 < entry_size c) (s : Site) (e : ℕ × ℕ) (queue : List (ℕ × ℕ))
      (es tail : List VsEntry)
      → Draining s (e ∷ queue) es tail
      → length (moved s.memory (front s)) ≤ length tail
      → Round s queue es tail
  Round-of pos s (key, val) queue es tail d room =
      let log = log_of s.oplog id in
      let q : IsQueue c log (next_memory s) ((key, val) ∷ queue) =
        IsQueue-of_op c log s.memory (next_memory s) ((key, val) ∷ queue)
          (op-mark_all (moved s.memory (front s)) s.memory) d.queued in
      let v : IsValid c log = d.queued.valid in
      let (peek, next, le) = front-IsQueue c log key val (next_memory s) queue pos q in
      record {
        took =
            move_entry-Took io c vs_id s (front s) es tail (omega (arith, v.based)) d.owned.0
              d.ready d.unused room;
        peek = peek;
        left = next;
        queued = record {
          valid = record {
            sized = v.sized;
            ordered = le;
            bounded = v.bounded;
            based = v.based;
            low = v.low;
          };
          entries = q.entries.3;
        };
      }

  -- The state before the next round.
  pub Draining-next :
      (s : Site) (e : ℕ × ℕ) (queue : List (ℕ × ℕ)) (es tail : List VsEntry)
      → Draining s (e ∷ queue) es tail
      → (r : Round s queue es tail)
      → Draining (next_site s r.took.vs) queue (es ++ moved s.memory (front s)) r.took.left
  Draining-next s e queue es tail d r =
      let log = sym (log_of-set_log_self s.oplog id (next_log s)) in
      record {
        queued = subst (λ l. IsQueue c l (next_memory s) queue) log r.queued;
        owned =
            subst (λ l. Owned (entry_size c) l.buffer (next_memory s).op (length queue) l.head_cnt)
              log
              (subst
                (λ op.
                  Owned (entry_size c) (next_log s).buffer op (length queue) (next_log s).head_cnt)
                (sym (op-mark_all (moved s.memory (front s)) s.memory)) d.owned.1);
        ready =
            subst₂ (λ vs i. Ready c vs i (es ++ moved s.memory (front s)) r.took.left)
              (sym (update_self s.storages vs_id r.took.vs))
              (sym (g_oplog_id-set_log s.oplog id (next_log s))) r.took.ready;
        unused = r.took.unused;
      }

  pub current-next :
      (s : Site) (queue : List (ℕ × ℕ)) (vs : ValueStorage)
      → current (next_site s vs) queue
        ≡ live
            (entry_size c)
            (log_of s.oplog id).buffer
            s.memory
            (length queue)
            ((log_of s.oplog id).head_cnt + entry_size c)
  current-next s queue vs =
      ap (λ l. live (entry_size c) l.buffer (next_memory s) (length queue) l.head_cnt)
        (log_of-set_log_self s.oplog id (next_log s))
      ∙ live-mark_all (entry_size c) (log_of s.oplog id).buffer (moved s.memory (front s)) s.memory
          (length queue) ((log_of s.oplog id).head_cnt + entry_size c)

  -- What the rounds after the first leave, they leave with it.
  pub Drained-first :
      (s s' : Site) (queue : List (ℕ × ℕ)) (es tail all : List VsEntry) (m : Memory)
      → (r : Round s queue es tail) → Drained c id vs_id (next_site s r.took.vs) all m s'
      → Drained c id vs_id s all m s'
  Drained-first s s' queue es tail all m r h =
      let g = g_oplog_id-set_log s.oplog id (next_log s) in
      record {
        used_up =
            h.used_up
            ∙ set_log-set_log s.oplog id (next_log s) _
            ∙ ap (λ l. set_log s.oplog id (record l { head_cnt = l.tail_cnt }))
                (log_of-set_log_self s.oplog id (next_log s));
        others = λ v ne. h.others v ne ∙ update_ne s.storages vs_id v r.took.vs ne;
        before = h.before;
        same =
            trans-SameFile (s.storages vs_id) r.took.vs h.before r.took.same
              (subst (λ vs. SameFile vs h.before) (update_self s.storages vs_id r.took.vs) h.same);
        empty = subst (λ i. count c h.before (h.before.w_chunk i).chunk_offset ≡ 0) g h.empty;
        flushed = subst (λ i. Flushed c i h.before m all (s'.storages vs_id) s'.memory) g h.flushed;
        closed = subst (λ i. ((s'.storages vs_id).w_chunk i).entry_offset ≡ 0) g h.closed;
      }
