-- ===== src/OpLog.antt =====
-- PRISM/src/OpLog.cpp: the persistent write buffer (PWB), two logs of fixed-size entries of which one
-- is written while the other is reclaimed into value storage. The control structure of a log is
-- ts_nvlog_t of PRISM/lib/TSOpLog.
pub mod Reclaim
pub mod Queue
pub mod Swap
pub mod Pick
pub mod Live
pub mod Moving
pub mod Logs
pub mod Rounds
pub mod Drained
pub mod Emptied
pub mod Reclaimed
pub mod Joined
use hkv.Base.{
  ℕ, ◌+◌, ◌-◌, ◌*◌, ◌/◌, ◌%◌, ◌^◌, Bool, true, false, Option, none, some, List, [], ltb, ◌==◌,
  if◌then◌else◌, Run, ok, stop, null_pointer, ◌>>=◌,
}
use hkv.Config.{Config}
use hkv.Memory.{OpEntry, Memory, load_op, store_op, load_at, store_at, get_untagged_ptr}

-- `stored_head` and `stored_tail` are the counters in persistent memory. `buffer` is the address of
-- the first entry.
pub record NvLog : Type 0 where
  pub id : ℕ
  pub head_cnt : ℕ
  pub tail_cnt : ℕ
  pub stored_head : ℕ
  pub stored_tail : ℕ
  pub buffer : ℕ
  pub log_size : ℕ
  pub ready : Bool
  pub reclaimed : Bool

-- How far the thread of `OpLog::reclaim` has come: not begun, or in its loop.
pub data Task : Type 0 where
  spawned : ℕ → Task
  running : (oplog_id vs_id old_head : ℕ) → Task

-- `working_oplog` and `reclaimed_oplog` are the ids of the logs that the source points at, and
-- `reclaim_thread` is the thread that was created last and not joined.
pub record OpLog : Type 0 where
  pub g_oplog_id : ℕ
  pub oplog1 : NvLog
  pub oplog2 : NvLog
  pub working_oplog : ℕ
  pub reclaimed_oplog : ℕ
  pub reclaim_lock : Bool
  pub reclaim_thread : Option Task

-- `(unum + 63) & ~63` on an unsigned int.
unfoldable pub align_uint_to_cacheline : ℕ → ℕ
align_uint_to_cacheline unum = (unum + 63) % 2 ^ 32 / 64 * 64

-- The counters are unsigned longs.
unfoldable pub oplog_used : NvLog → ℕ
oplog_used log = (log.tail_cnt + 2 ^ 64 - log.head_cnt) % 2 ^ 64

-- `cnt & ~mask`: the mask is ~(log_size - 1) and log_size a power of two, so it is the remainder.
unfoldable pub nvlog_index : NvLog → ℕ → ℕ
nvlog_index log cnt = cnt % log.log_size

unfoldable pub oplog_at : NvLog → ℕ → ℕ
unfolding nvlog_index
oplog_at log cnt = log.buffer + nvlog_index log cnt

-- The place for a new entry, with its size written; `none` is the overflow exit, `NULL`.
unfoldable pub nvlog_enq : NvLog → ℕ → Memory → Option (ℕ × NvLog × Memory)
unfolding align_uint_to_cacheline oplog_at
nvlog_enq log obj_size m =
    let entry_size = align_uint_to_cacheline obj_size in
    let hdr = oplog_at log log.tail_cnt in
    if ltb log.log_size entry_size
    then none
    else if ltb log.log_size
        (((log.tail_cnt + entry_size) % 2 ^ 64 + 2 ^ 64 - log.head_cnt) % 2 ^ 64)
    then none
    else some (
      hdr,
      record log { tail_cnt = (log.tail_cnt + entry_size) % 2 ^ 64 },
      store_op hdr (record (m.op hdr) { size = entry_size }) m,
    )

-- The entry is filled and the tail made persistent.
unfoldable pub oplog_enq : NvLog → ℕ → ℕ → ℕ → Memory → Run (ℕ × NvLog × Memory)
unfolding nvlog_enq
oplog_enq log entry_size key val m = elim (nvlog_enq log entry_size m) [
  | none ↦ stop null_pointer
  | some (hdr, log', m') ↦ ok (
    hdr,
    record log' { stored_tail = log'.tail_cnt },
    store_op hdr (record (m'.op hdr) { key = key; val = val }) m',
  )
]

-- `none` is NEED_RECLAIM: the entry would not fit.
unfoldable pub put_ol_entry : Config → NvLog → ℕ → ℕ → Memory → Run (Option (ℕ × NvLog × Memory))
unfolding oplog_enq oplog_used
put_ol_entry c log key val m =
    let entry_size = align_uint_to_cacheline c.kv_size in
    if ltb c.oplog_high_mark ((oplog_used log + entry_size) % 2 ^ 64)
    then ok none
    else (do r ← oplog_enq log entry_size key val m; ok (some r))

unfoldable pub oplog_peek_head : NvLog → Option ℕ
unfolding oplog_at
oplog_peek_head log =
    if log.head_cnt == log.tail_cnt then none else some (oplog_at log log.head_cnt)

-- The first entry is left behind. An empty log is left as it is.
unfoldable pub oplog_deq : NvLog → Memory → NvLog
unfolding oplog_at
oplog_deq log m =
    if log.head_cnt == log.tail_cnt
    then log
    else record log { head_cnt = (log.head_cnt + (m.op (oplog_at log log.head_cnt)).size) % 2 ^ 64 }

-- The head is made persistent, where it differs.
unfoldable pub oplog_deq_persist : NvLog → NvLog
oplog_deq_persist log =
    if log.stored_head == log.head_cnt then log else record log { stored_head = log.head_cnt }

-- The entry is pointed back at its address-table entry.
unfoldable pub link_to_at : ℕ → ℕ → Memory → Run Memory
unfolding load_op
link_to_at op_entry at_entry m = do
  e ← load_op op_entry m
  ok (store_op op_entry (record e { opa = at_entry }) m)

-- A removed key: both pointers are cleared.
unfoldable pub unlink_to_at : ℕ → Memory → Run Memory
unfolding load_at load_op
unlink_to_at at_entry m = do
  a ← load_at at_entry m
  let op_entry = get_untagged_ptr a.val_addr
  e ← load_op op_entry m
  ok (store_at at_entry (record a { val_addr = 0 }) (store_op op_entry (record e { opa = 0 }) m))

unfoldable pub get_another_oplog : ℕ → ℕ
get_another_oplog id = if id == 0 then 1 else 0

abbrev pub log_of : OpLog → ℕ → NvLog
log_of ol id = if id == 0 then ol.oplog1 else ol.oplog2

abbrev pub set_log : OpLog → ℕ → NvLog → OpLog
set_log ol id log = if id == 0 then record ol { oplog1 = log } else record ol { oplog2 = log }

abbrev pub new_log : ℕ → ℕ → ℕ → Bool → NvLog
new_log id buffer size ready = record {
  id = id;
  head_cnt = 0;
  tail_cnt = 0;
  stored_head = 0;
  stored_tail = 0;
  buffer = buffer;
  log_size = size;
  ready = ready;
  reclaimed = false;
}

-- The constructor, once the two logs of `oplog_high_mark` bytes are allocated.
unfoldable pub init : Config → ℕ → ℕ → ℕ → OpLog
init c id buffer1 buffer2 = record {
  g_oplog_id = id;
  oplog1 = new_log 0 buffer1 c.oplog_high_mark true;
  oplog2 = new_log 1 buffer2 c.oplog_high_mark false;
  working_oplog = 0;
  reclaimed_oplog = 0;
  reclaim_lock = false;
  reclaim_thread = none;
}
