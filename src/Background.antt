-- ===== src/Background.antt =====
-- The background threads of PRISM/src/MTS.cpp: the cache thread, which empties the queues of the store,
-- and the threads that complete its reads. A round of a loop is a function, and the flags that start
-- and end the threads are its caller's.
pub mod Completed
pub mod Scanned
pub mod Served
use hkv.Base.{
  ℕ, zero, suc, ◌+◌, Bool, true, false, List, [], ◌∷◌, ◌++◌, ltb, ◌==◌, if◌then◌else◌, Run, ok,
  ◌>>=◌, update, is_nil,
}
use hkv.Config.{Config}
use hkv.ValueStorage.{VsEntry}
use hkv.ValueStorage.Buffer.{IoUring}
use hkv.Mts.{KeyIndex, World, CqEntry, CacheOp, ct_scan, cache_kv_items, complete_pending_ios}
use hkv.CacheThread.{CacheThread, free_operation}
use hkv.CacheThread.Evict.{cache_operation}

-- The store with its cache thread, whose own view of the storages and of memory is the store's.
pub record Store (k : KeyIndex) : Type 0 where
  pub world : World k
  pub cache : CacheThread

module _ {k : KeyIndex} where
  abbrev pub view : Store k → CacheThread
  view s = record (s.cache) { storages = s.world.storages; memory = s.world.memory }

  abbrev pub put_back : Store k → CacheThread → Store k
  put_back s t = record s {
    cache = t;
    world = record (s.world) { storages = t.storages; memory = t.memory };
  }

-- `while (!empty())` over a queue of entries to free.
unfoldable pub free_all : List ℕ → CacheThread → Run CacheThread
unfolding free_operation
free_all [] t = ok t
free_all (at_entry ∷ queue) t = do t' ← free_operation at_entry t; free_all queue t'

-- The next index of a queue.
abbrev pub next_queue : Config → ℕ → ℕ
next_queue c i = if i + 1 == c.cachequeue_num then 0 else i + 1

module _ (io : IoUring) (c : Config) where
  -- The same over a queue of vectors to cache.
  unfoldable pub cache_all : ℕ → List (List CqEntry) → CacheThread → Run CacheThread
  unfolding cache_operation
  cache_all fuel [] t = ok t
  cache_all fuel (cq_entry_vec ∷ queue) t = do
    t' ← cache_operation io c fuel cq_entry_vec t
    cache_all fuel queue t'

  module _ {k : KeyIndex} where
    unfoldable pub drain_free_queue : ℕ → Store k → Run (Store k)
    unfolding free_all
    drain_free_queue i s = do
      t ← free_all (s.world.free_queue i) (view s)
      let s' = put_back s t
      ok (record s' { world = record (s'.world) { free_queue = update s'.world.free_queue i [] } })

    unfoldable pub drain_cache_queue : ℕ → ℕ → Store k → Run (Store k)
    unfolding cache_all
    drain_cache_queue fuel j s = do
      t ← cache_all fuel (s.world.cache_queue j) (view s)
      let s' = put_back s t
      ok (record s' {
        world = record (s'.world) { cache_queue = update s'.world.cache_queue j [] };
      })

    -- One round of DramCacheThreadExec, with the queues that the next one looks at.
    unfoldable pub cache_round : ℕ → ℕ → ℕ → Store k → Run (ℕ × ℕ × Store k)
    unfolding drain_free_queue drain_cache_queue
    cache_round fuel i j s = do
      s1 ← drain_free_queue i s
      s2 ← drain_cache_queue fuel j s1
      ok (next_queue c i, next_queue c j, s2)

    -- `n` rounds from the queues `i` and `j` on.
    unfoldable pub cache_rounds : ℕ → ℕ → ℕ → ℕ → Store k → Run (Store k)
    unfolding cache_round
    cache_rounds fuel zero i j s = ok s
    cache_rounds fuel (suc n) i j s = do
      (i', j', s') ← cache_round fuel i j s
      cache_rounds fuel n i' j' s'

    -- The loop over the storages that a completer is in charge of, with the reads of lookups, from
    -- `vs_id` on, `n` of them at most.
    unfoldable pub complete_lookups : ℕ → ℕ → World k → World k
    unfolding complete_pending_ios
    complete_lookups zero vs_id w = w
    complete_lookups (suc n) vs_id w =
        let rest =
          complete_lookups n (vs_id + c.io_completer_num) (complete_pending_ios vs_id 0 w) in
        if ltb vs_id c.vs_num then rest else w

    -- complete_pending_ios for scans: the entries go to the vector of the caller.
    unfoldable pub complete_scan_ios :
        ℕ → ℕ → CacheOp → List CqEntry → World k → List CqEntry × World k
    unfolding cache_kv_items
    complete_scan_ios vs_id ring ops cq_entry_vec w = (
      cq_entry_vec ++ cache_kv_items ops (w.pending vs_id ring),
      record w { pending = update w.pending vs_id (update (w.pending vs_id) ring []) },
    )

    -- The loop over the storages from `vs_id` on, `n` of them.
    unfoldable pub scan_storages_ios : ℕ → ℕ → ℕ → List CqEntry → World k → List CqEntry × World k
    unfolding complete_scan_ios
    scan_storages_ios zero vs_id ring cq_entry_vec w = (cq_entry_vec, w)
    scan_storages_ios (suc n) vs_id ring cq_entry_vec w =
        let (vec, w') = complete_scan_ios vs_id ring ct_scan cq_entry_vec w in
        scan_storages_ios n (vs_id + 1) ring vec w'

    -- What one ring has brought in, from all storages, is one vector of its queue.
    unfoldable pub complete_ring : ℕ → World k → World k
    unfolding scan_storages_ios
    complete_ring ring w =
        let (vec, w') = scan_storages_ios c.vs_num 0 ring [] w in
        if is_nil vec then w' else record w' {
          cache_queue = update w'.cache_queue ring (w'.cache_queue ring ++ vec ∷ []);
        }

    -- The loop over the rings that a completer is in charge of.
    unfoldable pub complete_scans : ℕ → ℕ → World k → World k
    unfolding complete_ring
    complete_scans zero ring w = w
    complete_scans (suc n) ring w =
        let rest = complete_scans n (ring + c.io_completer_num) (complete_ring ring w) in
        if ltb ring c.rring_num then rest else w

    -- One round of IOCompleterThreadExec for the thread `init_id`.
    unfoldable pub completer_round : Bool → ℕ → World k → World k
    unfolding complete_lookups complete_scans
    completer_round ioc_scan init_id w =
        if ioc_scan
        then complete_scans c.rring_num init_id w
        else complete_lookups c.vs_num init_id w
