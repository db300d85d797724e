-- ===== src/CacheThread/Evict.antt =====
-- Eviction and the cache operation of PRISM/src/CacheThread.cpp: pick_valuestorage, evict_entry and
-- cacheOperation. `fuel` bounds the walks along the chain of a scan.
use hkv.Base.{
  ℕ, zero, suc, ◌+◌, Bool, true, false, ◌&&◌, ◌||◌, List, [], ◌∷◌, pos, is_neg, eq_ℤ, exceeds, ltb,
  ◌==◌, if◌then◌else◌, Run, ok, stop, spinning, undefined, exit_failure, out_of_fuel, ◌>>=◌, Option,
  none, some, update,
}
use hkv.Config.{Config}
use hkv.Memory.{DcEntry, Memory, load_at, load_dc, get_tag, get_untagged_ptr, dcache_val, oplog_val}
use hkv.ValueStorage.{get_used_chunk_num}
use hkv.ValueStorage.Buffer.{IoUring}
use hkv.ValueStorage.Put.{put_vs_entry, forced_write_chunk}
use hkv.Mts.{CqEntry, ct_lookup, ct_scan}
use hkv.LruList.{
  active_list, inactive_list, alloc_entry, free_entry, insert_head, move_to_head, remove_tail,
  remove_entry,
}
use hkv.CacheThread.{CacheThread, which_list, link_to_at, chain}

-- `while (true)`, until the storage is not being written.
unfoldable pub wait_writable : ℕ → List ℕ → CacheThread → Run (ℕ × CacheThread)
wait_writable vs_id [] t =
    if (t.storages vs_id).is_writing then stop spinning else ok (vs_id, record t { draws = [] })
wait_writable vs_id (draw ∷ draws) t =
    let rest = wait_writable draw draws t in
    if (t.storages vs_id).is_writing then rest else ok (vs_id, record t { draws = draw ∷ draws })

-- Of two storages the one with fewer used chunks.
unfoldable pub pick_from : Config → List ℕ → CacheThread → Run (ℕ × CacheThread)
unfolding wait_writable
pick_from c (id1 ∷ id2 ∷ draws) t =
    let fewer =
      ltb (get_used_chunk_num c (t.storages id1)) (get_used_chunk_num c (t.storages id2)) in
    wait_writable (if fewer then id1 else id2) draws t
pick_from c draws t = stop spinning

unfoldable pub pick_valuestorage : Config → CacheThread → Run (ℕ × CacheThread)
unfolding pick_from
pick_valuestorage c t = pick_from c t.draws t

-- remove_entry and free_entry of the inactive list.
unfoldable pub drop_inactive : ℕ → CacheThread → Run CacheThread
unfolding remove_entry free_entry
drop_inactive p t = do
  (l, m) ← remove_entry p t.inactive t.memory
  m' ← free_entry p m
  ok (record t { inactive = l; memory = m' })

-- The first entry of the chain, and whether one before the tail is active.
unfoldable pub first_of_chain : ℕ → ℕ → Bool → Memory → Run (ℕ × Bool)
unfolding load_dc
first_of_chain zero p active m = stop out_of_fuel
first_of_chain (suc fuel) p active m = do
  e ← load_dc p m
  elim (e.s_prev == 0) [
    | true ↦ ok (p, active)
    | false ↦ do
      q ← load_dc e.s_prev m
      first_of_chain fuel e.s_prev (active || (q.list_type == active_list)) m
  ]

-- The variables of evict_entry; `vs` is NULL as `none`.
pub record Eviction : Type 0 where
  pub thread : CacheThread
  pub i : ℕ
  pub written_active_list_entry : Bool
  pub vs : Option ℕ

module _ (io : IoUring) (c : Config) where
  -- The value is written beside the others of its scan.
  unfoldable pub write_entry : ℕ → Option ℕ → DcEntry → CacheThread → Run CacheThread
  unfolding put_vs_entry
  write_entry g_oplog_id none e t = stop undefined
  write_entry g_oplog_id (some vs_id) e t = do
    (vs, m) ← put_vs_entry io c g_oplog_id e.key e.val e.at_entry (t.storages vs_id) t.memory
    ok (record t { storages = update t.storages vs_id vs; memory = m })

  -- The second loop over the chain.
  unfoldable pub evict_chain : ℕ → ℕ → Bool → ℕ → Eviction → Run Eviction
  unfolding load_dc write_entry drop_inactive
  evict_chain zero g_oplog_id has_active p ev = stop out_of_fuel
  evict_chain (suc fuel) g_oplog_id has_active p ev = elim (p == 0) [
    | true ↦ ok ev
    | false ↦ do
      e ← load_dc p ev.thread.memory
      t1 ← if has_active then write_entry g_oplog_id ev.vs e ev.thread else ok ev.thread
      t2 ← if e.list_type == inactive_list then drop_inactive p t1 else ok t1
      elim (eq_ℤ t2.inactive.cur_size (pos 0)) [
        | true ↦ ok (record ev { thread = t2 })
        | false ↦
            evict_chain fuel g_oplog_id has_active e.s_next
              (record ev { thread = t2; i = ev.i + 1 })
      ]
  ]

  unfoldable pub force_write : ℕ → Eviction → Run Eviction
  unfolding forced_write_chunk
  force_write g_oplog_id ev = elim ev.vs [
    | none ↦ ok ev
    | some vs_id ↦ do
      (vs, m) ← forced_write_chunk io c g_oplog_id (ev.thread.storages vs_id) ev.thread.memory
      ok (record ev {
        thread = record (ev.thread) { storages = update ev.thread.storages vs_id vs; memory = m };
      })
  ]

  -- CT_SCAN. The first component tells that the inactive list is empty, which ends the eviction.
  unfoldable pub evict_scan : ℕ → ℕ → ℕ → Eviction → Run (Bool × Eviction)
  unfolding first_of_chain pick_valuestorage evict_chain force_write
  evict_scan fuel g_oplog_id p ev = do
    (first, has_active) ← first_of_chain fuel p false ev.thread.memory
    ev1 ←
        if has_active
        then (do
          (vs_id, t) ← pick_valuestorage c ev.thread
          ok (record ev { thread = t; written_active_list_entry = true; vs = some vs_id }))
        else ok ev
    ev2 ← evict_chain fuel g_oplog_id has_active first ev1
    elim (eq_ℤ ev2.thread.inactive.cur_size (pos 0)) [
      | true ↦ ok (true, ev2)
      | false ↦ do
        ev3 ← if ev2.written_active_list_entry then force_write g_oplog_id ev2 else ok ev2
        ok (false, ev3)
    ]

  -- The body of the loop: the tail, which is superseded, or read alone, or one of a scan.
  unfoldable pub evict_one : ℕ → ℕ → Eviction → Run (Bool × Eviction)
  unfolding load_dc load_at get_untagged_ptr drop_inactive evict_scan
  evict_one fuel g_oplog_id ev = do
    let p = ev.thread.inactive.tail
    e ← load_dc p ev.thread.memory
    a ← load_at e.at_entry ev.thread.memory
    let superseded = if p == get_untagged_ptr a.val_addr then false else true
    if superseded || (e.s_prev == 0)
        then (do t ← drop_inactive p ev.thread; ok (false, record ev { thread = t; i = ev.i + 1 }))
        else evict_scan fuel g_oplog_id p ev

  unfoldable pub evict_loop : ℕ → ℕ → ℕ → Eviction → Run CacheThread
  unfolding evict_one
  evict_loop zero fuel g_oplog_id ev = ok ev.thread
  evict_loop (suc rounds) fuel g_oplog_id ev = elim (ltb ev.i c.reclaim_pages_num) [
    | false ↦ ok ev.thread
    | true ↦ do
      (done, ev') ← evict_one fuel g_oplog_id ev
      elim done [
        | true ↦ ok ev'.thread
        | false ↦ evict_loop rounds fuel g_oplog_id (record ev' { i = ev'.i + 1 })
      ]
  ]

  -- `i` grows with every round, so there are as many as reclaim_pages_num at most.
  unfoldable pub evict_entry : ℕ → CacheThread → Run CacheThread
  unfolding evict_loop
  evict_entry fuel t = elim t.draws [
    | [] ↦ stop spinning
    | g_oplog_id ∷ draws ↦ evict_loop c.reclaim_pages_num fuel g_oplog_id (record {
      thread = record t { draws = draws };
      i = 0;
      written_active_list_entry = false;
      vs = none;
    })
  ]

  unfoldable pub evict_if_full : ℕ → CacheThread → Run CacheThread
  unfolding evict_entry
  evict_if_full fuel t =
      if exceeds t.inactive.cur_size t.inactive.max_size then evict_entry fuel t else ok t

  -- What the three cases share: the chain of the scan, and the link of the address table.
  unfoldable pub chain_and_link : Bool → ℕ → ℕ → CacheThread → Run CacheThread
  unfolding chain link_to_at
  chain_and_link scan_ops s_dc p t = do
    m1 ← chain scan_ops s_dc p t.memory
    m2 ← link_to_at p m1
    ok (record t { memory = m2 })

  -- Case 1: to the active list, whose tail makes room.
  unfoldable pub hit_inactive : ℕ → Bool → ℕ → ℕ → CacheThread → Run CacheThread
  unfolding remove_entry insert_head remove_tail chain_and_link evict_if_full
  hit_inactive fuel scan_ops s_dc p t = do
    (l1, m1) ← remove_entry p t.inactive t.memory
    (l2, m2) ← insert_head p t.active m1
    t' ← chain_and_link scan_ops s_dc p (record t { inactive = l1; active = l2; memory = m2 })
    if exceeds t'.active.cur_size t'.active.max_size
        then (do
          (moved, l3, m3) ← remove_tail t'.active t'.memory
          (l4, m4) ← insert_head moved t'.inactive m3
          evict_if_full fuel (record t' { active = l3; inactive = l4; memory = m4 }))
        else ok t'

  -- Case 2.
  unfoldable pub hit_active : Bool → ℕ → ℕ → CacheThread → Run CacheThread
  unfolding move_to_head chain_and_link
  hit_active scan_ops s_dc p t = do
    (l, m) ← move_to_head p t.active t.memory
    chain_and_link scan_ops s_dc p (record t { active = l; memory = m })

  -- Case 3. Without room `malloc` returns NULL, which alloc_entry tests.
  unfoldable pub first_access : ℕ → Bool → ℕ → CqEntry → CacheThread → Run (ℕ × CacheThread)
  unfolding alloc_entry insert_head chain_and_link evict_if_full
  first_access fuel scan_ops s_dc cq t = elim t.mallocs [
    | [] ↦ stop exit_failure
    | p ∷ mallocs ↦ do
      m1 ← alloc_entry p cq.at_entry cq.key cq.val t.inactive t.memory
      (l, m2) ← insert_head p t.inactive m1
      t1 ←
          chain_and_link scan_ops s_dc p (record t { inactive = l; memory = m2; mallocs = mallocs })
      t2 ← evict_if_full fuel t1
      ok (p, t2)
  ]

  -- One entry of the vector; the number is the value of s_dc_entry.
  unfoldable pub cache_entry : ℕ → Bool → CqEntry → ℕ → CacheThread → Run (ℕ × CacheThread)
  unfolding load_at get_tag get_untagged_ptr which_list hit_inactive hit_active first_access
  cache_entry fuel scan_ops cq s_dc t = elim (cq.at_entry == 0) [
    | true ↦ ok (s_dc, t)
    | false ↦ do
      a ← load_at cq.at_entry t.memory
      let p = get_untagged_ptr a.val_addr
      let s_dc' = if scan_ops then p else s_dc
      elim (is_neg a.vs_id && eq_ℤ (get_tag a.val_addr) (pos oplog_val)) [
        | true ↦ ok (s_dc, t)
        | false ↦ elim (eq_ℤ (get_tag a.val_addr) (pos dcache_val)) [
          | false ↦ do
            (q, t') ← first_access fuel scan_ops s_dc cq t
            ok (if scan_ops then q else s_dc, t')
          | true ↦ do
            list ← which_list p t.memory
            if list == inactive_list
                then (do t' ← hit_inactive fuel scan_ops s_dc p t; ok (s_dc', t'))
                else if list == active_list
                then (do t' ← hit_active scan_ops s_dc p t; ok (s_dc', t'))
                else ok (s_dc, t)
        ]
      ]
  ]

  unfoldable pub cache_entries : ℕ → Bool → List CqEntry → ℕ → CacheThread → Run CacheThread
  unfolding cache_entry
  cache_entries fuel scan_ops [] s_dc t = ok t
  cache_entries fuel scan_ops (cq ∷ cqs) s_dc t = do
    (s_dc', t') ← cache_entry fuel scan_ops cq s_dc t
    cache_entries fuel scan_ops cqs s_dc' t'

  -- The first entry of the vector tells what read it.
  unfoldable pub cache_operation : ℕ → List CqEntry → CacheThread → Run CacheThread
  unfolding cache_entries
  cache_operation fuel [] t = stop undefined
  cache_operation fuel (cq ∷ cqs) t =
      let scan_ops : Bool = elim cq.ops [ ct_lookup ↦ false | ct_scan ↦ true ] in
      cache_entries fuel scan_ops (cq ∷ cqs) 0 t
