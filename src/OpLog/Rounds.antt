-- ===== src/OpLog/Rounds.antt =====
-- The rounds of `OpLog::reclaim` of PRISM/src/OpLog.cpp: one that goes on, and the last one.
use hkv.Base.{ℕ, ◌≡◌, ◌≤◌, refl, true, false, arith, ok, leb, ◌==◌}
use hkv.Config.{Config}
use hkv.Memory.{Memory}
use hkv.ValueStorage.{ValueStorage}
use hkv.ValueStorage.Buffer.{IoUring}
use hkv.ValueStorage.Put.{forced_write_chunk}
use hkv.OpLog.{NvLog, oplog_used, oplog_deq, log_of}
use hkv.OpLog.Moving.{with_vs}
use hkv.OpLog.Reclaim.{Site, with_log, move_entry, reclaim_entry}

module _ (io : IoUring) (c : Config) (id vs_id p : ℕ) (s s1 : Site) (log : NvLog)
    (moved : move_entry io c vs_id p s ≡ ok s1)
    (left : oplog_deq (log_of s1.oplog id) s1.memory ≡ log)
    (ordered : log.head_cnt ≤ log.tail_cnt) where
  pub reclaim_entry-goes :
      (oplog_used log == 0) ≡ false
      → reclaim_entry io c id vs_id p s ≡ ok (false, with_log s1 id log)
  unfolding reclaim_entry
  reclaim_entry-goes more =
      let fine : leb log.head_cnt log.tail_cnt ≡ true = ground arith in
      rw (moved, left, fine, more) refl

  pub reclaim_entry-ends :
      (vs : ValueStorage) (m : Memory)
      → (oplog_used log == 0) ≡ true
      → forced_write_chunk io c (with_log s1 id log).oplog.g_oplog_id (s1.storages vs_id) s1.memory
        ≡ ok (vs, m)
      → reclaim_entry io c id vs_id p s ≡ ok (true, with_vs (with_log s1 id log) vs_id vs m)
  unfolding reclaim_entry
  reclaim_entry-ends vs m none_left run =
      let fine : leb log.head_cnt log.tail_cnt ≡ true = ground arith in
      rw (moved, left, fine, none_left, run) refl
