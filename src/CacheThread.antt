-- ===== src/CacheThread.antt =====
-- PRISM/src/CacheThread.cpp: the thread that keeps recently read values in DRAM, in an active and an
-- inactive list, and writes the values of one scan together when it evicts them. What `malloc`
-- returns and the random numbers are streams of the state, the next one first.
pub mod Evict
pub mod Places
pub mod Cached
pub mod Promoted
use hkv.Base.{
  ℕ, zero, suc, ◌+◌, Bool, true, false, ◌&&◌, List, [], ◌∷◌, pos, is_neg, eq_ℤ, exceeds, ◌==◌, not,
  if◌then◌else◌, Run, ok, stop, spinning, undefined, exit_failure, ◌>>=◌, Option, none, some,
}
use hkv.Config.{Config}
use hkv.Memory.{
  AtEntry, DcEntry, Memory, load_at, store_at, load_dc, get_tag, get_untagged_ptr, put_tagged_ptr,
  dcache_val, oplog_val,
}
use hkv.ValueStorage.{ValueStorage}
use hkv.Mts.{CqEntry, CacheOp, ct_lookup, ct_scan}
use hkv.LruList.{
  LruList, active_list, inactive_list, write_dc, alloc_entry, free_entry, insert_head, move_to_head,
  remove_tail, remove_entry,
}

pub record CacheThread : Type 0 where
  pub active : LruList
  pub inactive : LruList
  pub storages : ℕ → ValueStorage
  pub memory : Memory
  pub mallocs : List ℕ
  pub draws : List ℕ

unfoldable pub which_list : ℕ → Memory → Run ℕ
unfolding load_dc
which_list p m = if p == 0 then ok 0 else (do e ← load_dc p m; ok e.list_type)

-- A value in the log is not hidden behind a cached one.
unfoldable pub link_to_at : ℕ → Memory → Run Memory
unfolding load_dc load_at get_tag put_tagged_ptr
link_to_at p m = do
  d ← load_dc p m
  a ← load_at d.at_entry m
  ok (
      if is_neg a.vs_id && eq_ℤ (get_tag a.val_addr) (pos oplog_val)
      then m
      else store_at d.at_entry (record a { val_addr = put_tagged_ptr p dcache_val }) m)

-- The pointer is used with its tag.
unfoldable pub free_operation : ℕ → CacheThread → Run CacheThread
unfolding load_at load_dc remove_entry free_entry
free_operation at_entry t = do
  a ← load_at at_entry t.memory
  let p = a.val_addr
  if p == 0 then ok t else (do
    let m = store_at at_entry (record a { val_addr = 0 }) t.memory
    d ← load_dc p m
    if d.list_type == active_list
        then (do
          (l, m1) ← remove_entry p t.active m
          m2 ← free_entry p m1
          ok (record t { active = l; memory = m2 }))
        else (do
          (l, m1) ← remove_entry p t.inactive m
          m2 ← free_entry p m1
          ok (record t { inactive = l; memory = m2 })))

-- The values of one scan are chained, under the tests of the source. `s_dc` is the entry before.
unfoldable pub chain : Bool → ℕ → ℕ → Memory → Run Memory
unfolding load_dc write_dc
chain scan_ops s_dc p m =
    if scan_ops && not (s_dc == 0)
    then (do
      s ← load_dc s_dc m
      m1 ← if s.s_prev == 0 then ok m else write_dc s_dc (λ d. record d { s_prev = p }) m
      e ← load_dc p m1
      if e.s_next == 0 then ok m1 else write_dc p (λ d. record d { s_next = s_dc }) m1)
    else ok m
