-- ===== src/OpLog/Joined.antt =====
-- `enq` of PRISM/src/OpLog.cpp on a full log while the other one is still being reclaimed: it waits.
use hkv.Base.{
  ℕ, ◌+◌, ◌*◌, ◌/◌, ◌^◌, ◌≤◌, ◌<◌, ◌≡◌, sym, ap, subst, ◌∙◌, true, some, none, List, [], ◌∷◌, arith,
  ok, length,
}
use hkv.Config.{Config}
use hkv.ValueStorage.{VsEntry}
use hkv.ValueStorage.Buffer.{IoUring}
use hkv.ValueStorage.Sorted.{IsFaithful}
use hkv.OpLog.{OpLog, running, put_ol_entry, get_another_oplog, log_of}
use hkv.OpLog.Drained.{Draining, current}
use hkv.OpLog.Queue.{IsValid, IsQueue, entry_size, entry_size-small, put_ol_entry-full}
use hkv.OpLog.Reclaim.{Site, join, reclaim_rest, swap_and_put, enq}
use hkv.OpLog.Reclaimed.{Reclaimed, reclaim_rest-Reclaimed}
use hkv.OpLog.Swap.{Swapped, swap_and_put-Swapped, log_of-set_log, working-set_log}

enq-waits :
    (io : IoUring) (c : Config) (draws : List ℕ) (key val id vs_id old_head : ℕ) (s s1 : Site)
    → put_ol_entry c (log_of s.oplog s.oplog.working_oplog) key val s.memory ≡ ok none
    → s.oplog.reclaim_lock ≡ true
    → s.oplog.reclaim_thread ≡ some (running id vs_id old_head)
    → reclaim_rest io c id vs_id old_head s ≡ ok s1
    → enq io c draws key val s ≡ swap_and_put io c key val s1
unfolding enq join
enq-waits io c draws key val id vs_id old_head s s1 full locked thread run =
    rw full (simp (locked, thread, run))

-- A log that was reclaimed is an empty queue.
Reclaimed-IsQueue :
    (c : Config) (id vs_id : ℕ) (s s1 : Site) (es : List VsEntry)
    → IsValid c (log_of s.oplog id)
    → Reclaimed c id vs_id s es s1
    → IsQueue c (log_of s1.oplog id) s1.memory []
Reclaimed-IsQueue c id vs_id s s1 es v r = record {
  valid = record {
    sized = r.same_size ∙ v.sized;
    ordered = omega (arith, r.no_head, r.no_tail);
    bounded = omega (arith, r.no_tail);
    based = omega (arith, r.same_buffer, v.based);
    low = omega (arith, r.same_buffer, r.same_size, v.low);
  };
  entries = r.no_head ∙ sym r.no_tail;
}

-- With a ring that does what is asked of it, writes that divide a chunk evenly and entries that a
-- log has room for: the working log is full, and a thread that holds the lock reclaims the other one
-- as `reclaim_rest-Reclaimed` asks: no entry of it has lost its pointer to the table, one at least
-- is current, the head that the thread was given is not beyond that of the log, the storage is not
-- short of free chunks and has an empty one, and its write buffer is not begun, unused, and takes
-- all that are current. Then `enq` waits for that thread and returns a place: the values that were
-- current are in the storage, the entry is alone in the log that was reclaimed, which is the working
-- one then, and the counters of the full log are as they were, for the thread that was created to
-- reclaim it.
pub enq-Joined :
    (io : IoUring) (c : Config) (draws : List ℕ) (key val vs_id old_head : ℕ) (s : Site) (e : ℕ × ℕ)
    (queue : List (ℕ × ℕ)) (tail : List VsEntry)
    → IsFaithful io
    → c.entries_per_chunk ≡ c.w_qd * (c.entries_per_chunk / c.w_qd)
    → 0 < c.kv_size
    → c.kv_size + 126 < 2 ^ 32
    → entry_size c ≤ c.oplog_high_mark
    → IsValid c (log_of s.oplog s.oplog.working_oplog)
    → (log_of s.oplog s.oplog.working_oplog).head_cnt ≡ 0
    → c.oplog_high_mark < (log_of s.oplog s.oplog.working_oplog).tail_cnt + entry_size c
    → s.oplog.reclaim_lock ≡ true
    → s.oplog.reclaim_thread
      ≡ some (running (get_another_oplog s.oplog.working_oplog) vs_id old_head)
    → Draining io c (get_another_oplog s.oplog.working_oplog) vs_id s (e ∷ queue) [] tail
    → length (current io c (get_another_oplog s.oplog.working_oplog) vs_id s (e ∷ queue))
      ≤ length tail
    → 0 < length (current io c (get_another_oplog s.oplog.working_oplog) vs_id s (e ∷ queue))
    → old_head ≤ (log_of s.oplog (get_another_oplog s.oplog.working_oplog)).head_cnt
    → (p : ℕ) × (s1 : Site) × (s' : Site) × (enq io c draws key val s ≡ ok (some p, s'))
      × Reclaimed c
          (get_another_oplog s.oplog.working_oplog)
          vs_id
          s
          (current io c (get_another_oplog s.oplog.working_oplog) vs_id s (e ∷ queue))
          s1
      × Swapped c key val s1 s'
      × (s1.oplog.working_oplog ≡ s.oplog.working_oplog)
      × (log_of s1.oplog s.oplog.working_oplog ≡ log_of s.oplog s.oplog.working_oplog)
enq-Joined io c draws key val vs_id old_head s e queue tail f even h1 h2 room v front full locked
      thread d fits some_in begun =
    let id = s.oplog.working_oplog in
    let other = get_another_oplog id in
    let es = current io c other vs_id s (e ∷ queue) in
    let (s1, run, r) =
      reclaim_rest-Reclaimed io c other vs_id old_head s e queue tail f even h1 h2 d fits some_in
        begun in
    let works =
      ap (λ (ol : OpLog). ol.working_oplog) r.rest
      ∙ (working-set_log s.oplog other (log_of s1.oplog other)).0 in
    let kept =
      ap (λ ol. log_of ol id) r.rest ∙ (log_of-set_log s.oplog id (log_of s1.oplog other)).1 in
    let q = Reclaimed-IsQueue c other vs_id s s1 es d.queued.valid r in
    let (p, s', run', h) =
      swap_and_put-Swapped io c key val s1 h1 h2 room
        (subst (λ w. IsQueue c (log_of s1.oplog (get_another_oplog w)) s1.memory []) (sym works) q)
        (ap (λ w. (log_of s1.oplog (get_another_oplog w)).head_cnt) works ∙ r.no_head) in
    let no_room =
      put_ol_entry-full c (log_of s.oplog id) v front key val s.memory (entry_size-small c h2)
        (omega (arith, v.sized)) in
    (
      p,
      s1,
      s',
      enq-waits io c draws key val other vs_id old_head s s1 no_room locked thread run ∙ run',
      r,
      h,
      works,
      kept,
    )
