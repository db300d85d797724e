-- ===== src/OpLog/Emptied.antt =====
-- The loop of `OpLog::reclaim` of PRISM/src/OpLog.cpp ends, and empties the log.
use hkv.Base.{
  ℕ, zero, suc, ◌+◌, ◌*◌, ◌/◌, ◌≤◌, ◌<◌, ◌≡◌, refl, sym, ap, subst, ◌∙◌, inl, inr, true, false,
  some, List, [], ◌∷◌, ◌++◌, arith, ok, length, length-append, update, update_self, update_ne,
}
use mathlib.Core.Path.{subst₂}
use mathlib.Core.List.{append_assoc, append-nil}
use hkv.Config.{Config}
use hkv.ValueStorage.{VsEntry, ValueStorage}
use hkv.ValueStorage.Buffer.{IoUring}
use hkv.ValueStorage.Flush.{Flushed}
use hkv.ValueStorage.Forced.{forced_write_chunk-Flushed}
use hkv.ValueStorage.Linked.{DistinctAts}
use hkv.ValueStorage.Sorted.{IsFaithful}
use hkv.ValueStorage.Started.{Ready, Begun}
use hkv.ValueStorage.Put.{forced_write_chunk}
use hkv.OpLog.{oplog_peek_head, log_of, set_log}
use hkv.OpLog.Drained.{
  Drained, Draining, Round, Round-of, Draining-next, current, current-next, Drained-first,
  next_site, next_log, next_memory, front, used_up-lem, some_left,
}
use hkv.OpLog.Live.{moved, live, mark_all, mark_all-append}
use hkv.OpLog.Logs.{g_oplog_id-set_log}
use hkv.OpLog.Moving.{with_vs}
use hkv.OpLog.Queue.{entry_size, Entries-le}
use hkv.OpLog.Reclaim.{Site, with_log, reclaim_entry, reclaim_loop}
use hkv.OpLog.Rounds.{reclaim_entry-goes, reclaim_entry-ends}

Begun-of :
    (c : Config) (vs : ValueStorage) (i : ℕ) (es tail : List VsEntry)
    → 0 < length es
    → Ready c vs i es tail
    → Begun c vs i es tail
Begun-of c vs i es tail some_in (inl (none_in, fresh)) = absurd (omega (arith, ap length none_in))
Begun-of c vs i es tail some_in (inr b) = b

module _ (io : IoUring) (c : Config) (id vs_id : ℕ) (f : IsFaithful io)
    (even : c.entries_per_chunk ≡ c.w_qd * (c.entries_per_chunk / c.w_qd)) where
  reclaim_loop-goes :
      (fuel : ℕ) (s s' : Site) (p : ℕ)
      → oplog_peek_head (log_of s.oplog id) ≡ some p
      → reclaim_entry io c id vs_id p s ≡ ok (false, s')
      → reclaim_loop io c (suc fuel) id vs_id s ≡ reclaim_loop io c fuel id vs_id s'
  unfolding reclaim_loop
  reclaim_loop-goes fuel s s' p peek run = rw (peek, reclaim_loop) (rw run refl)

  reclaim_loop-ends :
      (fuel : ℕ) (s s' : Site) (p : ℕ)
      → oplog_peek_head (log_of s.oplog id) ≡ some p
      → reclaim_entry io c id vs_id p s ≡ ok (true, s')
      → reclaim_loop io c (suc fuel) id vs_id s ≡ ok s'
  unfolding reclaim_loop
  reclaim_loop-ends fuel s s' p peek run = rw (peek, reclaim_loop) (rw run refl)

  -- The last entry: the buffer is written.
  last-Round :
      (fuel : ℕ) (s : Site) (es tail : List VsEntry)
      → (r : Round io c id vs_id s [] es tail)
      → 0 < length (es ++ moved s.memory (front io c id vs_id s))
      → DistinctAts (es ++ moved s.memory (front io c id vs_id s))
      → (s' : Site) × (reclaim_loop io c (suc fuel) id vs_id s ≡ ok s')
        × Drained c id vs_id s
            (es ++ moved s.memory (front io c id vs_id s))
            (next_memory io c id vs_id s)
            s'
  last-Round fuel s es tail r some_in apart =
      let all = es ++ moved s.memory (front io c id vs_id s) in
      let log = next_log io c id vs_id s in
      let g = g_oplog_id-set_log s.oplog id log in
      let b : Begun c r.took.vs s.oplog.g_oplog_id all r.took.left =
        Begun-of c r.took.vs s.oplog.g_oplog_id all r.took.left some_in r.took.ready in
      let (vs', m', run, flushed, closed) =
        forced_write_chunk-Flushed io c s.oplog.g_oplog_id r.took.vs (next_memory io c id vs_id s)
          all r.took.left f even b.buffered r.took.unused apart in
      let run' : forced_write_chunk io c (set_log s.oplog id log).g_oplog_id
            ((update s.storages vs_id r.took.vs) vs_id) (next_memory io c id vs_id s)
          ≡ ok (vs', m') =
        subst₂ (λ i vs. forced_write_chunk io c i vs (next_memory io c id vs_id s) ≡ ok (vs', m'))
          (sym g) (sym (update_self s.storages vs_id r.took.vs)) run in
      let s1 = with_vs s vs_id r.took.vs (next_memory io c id vs_id s) in
      let s' = with_vs (with_log s1 id log) vs_id vs' m' in
      let now : s'.storages vs_id ≡ vs' =
        update_self (update s.storages vs_id r.took.vs) vs_id vs' in
      (
        s',
        reclaim_loop-ends fuel s s' (front io c id vs_id s) r.peek (
            reclaim_entry-ends io c id vs_id (front io c id vs_id s) s s1 log r.took.run r.left
              (r.queued.valid.ordered) vs' m' (used_up-lem c log r.queued.valid r.queued.entries)
              run'),
        record {
          used_up =
              ap (λ n. set_log s.oplog id (record (log_of s.oplog id) { head_cnt = n }))
                r.queued.entries;
          others = λ v ne.
              update_ne (update s.storages vs_id r.took.vs) vs_id v vs' ne
              ∙ update_ne s.storages vs_id v r.took.vs ne;
          before = r.took.vs;
          same = r.took.same;
          empty = b.empty;
          flushed =
              subst
                (λ vs.
                  Flushed c s.oplog.g_oplog_id r.took.vs (next_memory io c id vs_id s) all vs m')
                (sym now) flushed;
          closed =
              subst (λ (vs : ValueStorage). (vs.w_chunk s.oplog.g_oplog_id).entry_offset ≡ 0)
                (sym now) closed;
        },
      )

  -- On a log whose current entries fit into the buffer, one of them at least, the loop needs a round
  -- for each entry.
  pub reclaim_loop-Drained :
      (fuel : ℕ) (s : Site) (e : ℕ × ℕ) (queue : List (ℕ × ℕ)) (es tail : List VsEntry)
      → 0 < entry_size c
      → length (e ∷ queue) ≤ fuel
      → Draining io c id vs_id s (e ∷ queue) es tail
      → length (current io c id vs_id s (e ∷ queue)) ≤ length tail
      → 0 < length (es ++ current io c id vs_id s (e ∷ queue))
      → DistinctAts (es ++ current io c id vs_id s (e ∷ queue))
      → (s' : Site) × (reclaim_loop io c fuel id vs_id s ≡ ok s')
        × Drained c id vs_id s
            (es ++ current io c id vs_id s (e ∷ queue))
            (mark_all (current io c id vs_id s (e ∷ queue)) s.memory)
            s'
  reclaim_loop-Drained zero s e queue es tail pos le d room some_in apart = absurd (omega arith)
  reclaim_loop-Drained (suc fuel) s e [] es tail pos le d room some_in apart =
      let mv = moved s.memory (front io c id vs_id s) in
      let none = append-nil mv in
      let r =
        Round-of io c id vs_id pos s e [] es tail d
          (subst (λ l. length l ≤ length tail) none room) in
      subst
        (λ l.
          (s' : Site) × (reclaim_loop io c (suc fuel) id vs_id s ≡ ok s')
          × Drained c id vs_id s (es ++ l) (mark_all l s.memory) s')
        (sym none)
        (last-Round fuel s es tail r (subst (λ l. 0 < length (es ++ l)) none some_in)
          (subst (λ l. DistinctAts (es ++ l)) none apart))
  reclaim_loop-Drained (suc fuel) s e (e2 ∷ queue) es tail pos le d room some_in apart =
      let mv = moved s.memory (front io c id vs_id s) in
      let rest =
        live (entry_size c) (log_of s.oplog id).buffer s.memory (length (e2 ∷ queue))
          ((log_of s.oplog id).head_cnt + entry_size c) in
      let sum = length-append {0} mv rest in
      let r = Round-of io c id vs_id pos s e (e2 ∷ queue) es tail d (omega (arith, sum, room)) in
      let s2 = next_site io c id vs_id s r.took.vs in
      let cur : current io c id vs_id s2 (e2 ∷ queue) ≡ rest =
        current-next io c id vs_id s (e2 ∷ queue) r.took.vs in
      let all = ap (λ l. (es ++ mv) ++ l) cur ∙ append_assoc es mv rest in
      let marks =
        ap (λ l. mark_all l (next_memory io c id vs_id s)) cur
        ∙ sym (mark_all-append mv rest s.memory) in
      let (s', run, h) =
        reclaim_loop-Drained fuel s2 e2 queue (es ++ mv) r.took.left pos (omega arith)
          (Draining-next io c id vs_id s e (e2 ∷ queue) es tail d r)
          (omega (arith, ap length cur, sum, room, r.took.room))
          (subst (λ l. 0 < length l) (sym all) some_in) (subst DistinctAts (sym all) apart) in
      let later =
        Entries-le c (log_of s.oplog id).buffer (log_of s.oplog id).tail_cnt
          (next_memory io c id vs_id s) ((log_of s.oplog id).head_cnt + entry_size c + entry_size c)
          queue r.queued.entries.3 in
      let goes =
        reclaim_entry-goes io c id vs_id (front io c id vs_id s) s
          (with_vs s vs_id r.took.vs (next_memory io c id vs_id s)) (next_log io c id vs_id s)
          r.took.run r.left r.queued.valid.ordered
          (some_left c (next_log io c id vs_id s) r.queued.valid (omega (arith, later, pos))) in
      (
        s',
        reclaim_loop-goes fuel s s2 (front io c id vs_id s) r.peek goes ∙ run,
        subst₂ (λ l m. Drained c id vs_id s l m s') all marks
            (Drained-first io c id vs_id s s' (e2 ∷ queue) es tail _ _ r h),
      )
