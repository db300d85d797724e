-- ===== src/OpLog/Reclaim.antt =====
-- The reclaiming half of PRISM/src/OpLog.cpp: pick_valuestorage, reclaim and enq. A reclaiming thread
-- is cut into steps: its start, one step for each entry of the log, its end. The random numbers that
-- it draws are an argument, the next one first.
use hkv.Base.{
  ℕ, zero, suc, ◌+◌, ◌/◌, Bool, true, false, ◌&&◌, Option, none, some, List, [], ◌∷◌, leb, ltb,
  ◌==◌, if◌then◌else◌, Run, ok, stop, spinning, assertion, out_of_fuel, ◌>>=◌, ◌>>◌, require,
  update,
}
use hkv.Config.{Config}
use hkv.Memory.{Memory, load_at, load_op, get_untagged_ptr}
use hkv.ValueStorage.{ValueStorage, need_gc, get_used_chunk_num}
use hkv.ValueStorage.Buffer.{IoUring}
use hkv.ValueStorage.Put.{put_vs_entry, forced_write_chunk}
use hkv.OpLog.{
  NvLog, OpLog, Task, spawned, running, oplog_used, oplog_peek_head, oplog_deq, oplog_deq_persist,
  put_ol_entry, get_another_oplog, log_of, set_log,
}

-- What a log and its reclaiming thread work on.
pub record Site : Type 0 where
  pub oplog : OpLog
  pub storages : ℕ → ValueStorage
  pub memory : Memory

-- `while (true)`, until the storage that was drawn is not being written.
unfoldable pub wait_idle : (ℕ → ValueStorage) → ℕ → List ℕ → Run ℕ
wait_idle storages vs_id [] = if (storages vs_id).is_writing then stop spinning else ok vs_id
wait_idle storages vs_id (draw ∷ draws) =
    let rest = wait_idle storages draw draws in
    if (storages vs_id).is_writing then rest else ok vs_id

-- Of two storages the one with fewer used chunks; the first draw is not used.
unfoldable pub pick_valuestorage : Config → (ℕ → ValueStorage) → List ℕ → Run ℕ
unfolding wait_idle need_gc
pick_valuestorage c storages (first ∷ id1 ∷ id2 ∷ draws) =
    let vs1 = storages id1 in
    let vs2 = storages id2 in
    let chosen =
      if need_gc vs1 && need_gc vs2
      then (if ltb id1 id2 then id1 else id2)
      else if ltb (get_used_chunk_num c vs1) (get_used_chunk_num c vs2)
      then id1
      else id2 in
    wait_idle storages chosen draws
pick_valuestorage c storages draws = stop spinning

abbrev pub with_log : Site → ℕ → NvLog → Site
with_log s id log = record s { oplog = set_log s.oplog id log }

-- The start of the thread.
unfoldable pub reclaim_begin : Config → List ℕ → ℕ → Site → Run Site
unfolding pick_valuestorage
reclaim_begin c draws id s = do
  vs_id ← pick_valuestorage c s.storages draws
  let log = log_of s.oplog id
  let oplog = set_log s.oplog id (record log { reclaimed = true; ready = false })
  ok (record s {
    oplog = record oplog {
      reclaim_lock = true;
      reclaim_thread = some (running id vs_id log.head_cnt);
    };
  })

module _ (io : IoUring) (c : Config) where
  -- The entry of the head: it moves on if its address-table entry still points at it.
  unfoldable pub move_entry : ℕ → ℕ → Site → Run Site
  unfolding load_op load_at put_vs_entry
  move_entry vs_id op_entry s = do
    e ← load_op op_entry s.memory
    a ← load_at e.opa s.memory
    if op_entry == get_untagged_ptr a.val_addr
        then (do
          (vs, m) ←
              put_vs_entry io c s.oplog.g_oplog_id e.key e.val e.opa (s.storages vs_id) s.memory
          ok (record s { storages = update s.storages vs_id vs; memory = m }))
        else ok s

  -- One round of the loop, which is to be left if the log is used up (MTS_OPLOG_LOW_MARK is 0).
  unfoldable pub reclaim_entry : ℕ → ℕ → ℕ → Site → Run (Bool × Site)
  unfolding move_entry oplog_deq oplog_used forced_write_chunk
  reclaim_entry id vs_id op_entry s = do
    s1 ← move_entry vs_id op_entry s
    let log = oplog_deq (log_of s1.oplog id) s1.memory
    require (leb log.head_cnt log.tail_cnt) assertion
    let s2 = with_log s1 id log
    if oplog_used log == 0
        then (do
          (vs, m) ← forced_write_chunk io c s2.oplog.g_oplog_id (s2.storages vs_id) s2.memory
          ok (true, record s2 { storages = update s2.storages vs_id vs; memory = m }))
        else ok (false, s2)

  -- The end of the thread: both counters start again at 0 if anything was reclaimed.
  unfoldable pub reclaim_end : ℕ → ℕ → Site → Run Site
  unfolding oplog_deq_persist
  reclaim_end id old_head s = do
    let log = log_of s.oplog id
    require (leb old_head log.head_cnt) assertion
    let log' =
        if log.head_cnt == old_head
        then log
        else oplog_deq_persist (record log { head_cnt = 0; tail_cnt = 0 })
    let oplog = set_log s.oplog id (record log' { ready = true })
    ok (record s { oplog = record oplog { reclaim_lock = false; reclaim_thread = none } })

  -- The loop.
  unfoldable pub reclaim_loop : ℕ → ℕ → ℕ → Site → Run Site
  unfolding oplog_peek_head reclaim_entry
  reclaim_loop zero id vs_id s = stop out_of_fuel
  reclaim_loop (suc fuel) id vs_id s = elim (oplog_peek_head (log_of s.oplog id)) [
    | none ↦ ok s
    | some op_entry ↦ do
      (empty, s') ← reclaim_entry id vs_id op_entry s
      elim empty [ true ↦ ok s' | false ↦ reclaim_loop fuel id vs_id s' ]
  ]

  -- An entry takes a cache line at least, so this many rounds are enough.
  abbrev pub rounds : OpLog → ℕ → ℕ
  rounds oplog id = oplog_used (log_of oplog id) / 64 + 1

  unfoldable pub reclaim_rest : ℕ → ℕ → ℕ → Site → Run Site
  unfolding reclaim_loop reclaim_end
  reclaim_rest id vs_id old_head s = do
    s' ← reclaim_loop (rounds s.oplog id) id vs_id s
    reclaim_end id old_head s'

  -- The whole thread.
  unfoldable pub reclaim : List ℕ → ℕ → Site → Run Site
  unfolding reclaim_begin reclaim_rest
  reclaim draws id s = do
    s' ← reclaim_begin c draws id s
    elim s'.oplog.reclaim_thread [
      | none ↦ ok s'
      | some task ↦ elim task [
        | spawned id' ↦ ok s'
        | running id' vs_id old_head ↦ reclaim_rest id' vs_id old_head s'
      ]
    ]

  -- reclaim_thread->join(): the thread runs to its end.
  unfoldable pub join : List ℕ → Option Task → Site → Run Site
  unfolding reclaim reclaim_rest
  join draws none s = ok s
  join draws (some (spawned id)) s = reclaim draws id s
  join draws (some (running id vs_id old_head)) s = reclaim_rest id vs_id old_head s

  -- The full log is handed to a new thread, and the other log takes the entry.
  unfoldable pub swap_and_put : ℕ → ℕ → Site → Run (Option ℕ × Site)
  unfolding put_ol_entry get_another_oplog
  swap_and_put key val s = do
    let id = s.oplog.working_oplog
    let other = get_another_oplog id
    r ← put_ol_entry c (log_of s.oplog other) key val s.memory
    let swapped = record (s.oplog) {
      working_oplog = other;
      reclaimed_oplog = id;
      reclaim_thread = some (spawned id);
    }
    elim r [
      | none ↦ ok (none, record s { oplog = swapped })
      | some (op_entry, log, m) ↦
          ok (some op_entry, record s { oplog = set_log swapped other log; memory = m })
    ]

  -- The thread before is awaited only if it has taken the lock. `none` is a null pointer.
  unfoldable pub enq : List ℕ → ℕ → ℕ → Site → Run (Option ℕ × Site)
  unfolding put_ol_entry swap_and_put join
  enq draws key val s = do
    r ← put_ol_entry c (log_of s.oplog s.oplog.working_oplog) key val s.memory
    elim r [
      | some (op_entry, log, m) ↦ ok (
        some op_entry,
        record s { oplog = set_log s.oplog s.oplog.working_oplog log; memory = m },
      )
      | none ↦ do
        s' ← if s.oplog.reclaim_lock then join draws s.oplog.reclaim_thread s else ok s
        swap_and_put key val s'
    ]
