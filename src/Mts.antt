-- ===== src/Mts.antt =====
-- The store as a whole, MTSImpl of PRISM/src/MTS.cpp: its state, the places a value can be in, and
-- the queues to the cache thread. A call runs on the thread with the id `thread`, to its end; the
-- work of other threads is between calls.
pub mod Reads
pub mod Calls
pub mod InLog
pub mod Inserted
pub mod Updated
pub mod Flushed
pub mod Combined
pub mod Leaders
pub mod Fetched
pub mod Removed
pub mod Collecting
pub mod Reclaiming
use hkv.Base.{
  ℕ, Bool, true, false, not, ◌&&◌, ◌||◌, List, [], ◌∷◌, ◌++◌, ℤ, pos, is_neg, eq_ℤ, if◌then◌else◌,
  Option, none, some, Run, ok, stop, undefined, ◌>>=◌, update,
}
use hkv.Memory.{AtEntry, Memory, load_at, get_tag, dcache_val, oplog_val}
use hkv.AddressTable.{AddressTable}
use hkv.ValueStorage.{VsEntry, ValueStorage}
use hkv.OpLog.{OpLog}
use hkv.OpLog.Reclaim.{Site}

-- The index (PACTREEIndex of PRISM/src/KeyIndex.h), which PRISM/lib/pactree implements: keys to
-- pointers, 0 for a key that is not there.
pub record KeyIndex : Type 1 where
  pub Index : Type 0
  pub insert : ℕ → ℕ → Index → Index
  pub remove : ℕ → Index → Index
  pub lookup : ℕ → Index → ℕ
  pub scan : ℕ → ℕ → Index → List ℕ

-- CT_LOOKUP and CT_SCAN
pub data CacheOp : Type 0 where
  ct_lookup ct_scan : CacheOp

-- cq_entry_t
pub record CqEntry : Type 0 where
  pub at_entry : ℕ
  pub key : ℕ
  pub val : ℕ
  pub ops : CacheOp

-- The global variables of MTS.cpp. `pending` holds, for a storage and a ring, the entries that the
-- submitted reads have brought into the read buffers and that are not yet completed, and `waiting`
-- the vector src_at_entry_vec of that ring.
pub record World (k : KeyIndex) : Type 0 where
  pub index : k.Index
  pub tables : ℕ → AddressTable
  pub logs : ℕ → OpLog
  pub storages : ℕ → ValueStorage
  pub memory : Memory
  pub free_queue : ℕ → List ℕ
  pub cache_queue : ℕ → List (List CqEntry)
  pub pending : ℕ → ℕ → List VsEntry
  pub waiting : ℕ → ℕ → List ℕ

pub data ValPos : Type 0 where
  dcache oplog : ValPos
  -- with the storage, which the source returns through a pointer
  valuestorage : ℕ → ValPos

-- Without a value anywhere the function ends with no return.
unfoldable pub get_val_pos : ℕ → Memory → Run ValPos
unfolding load_at get_tag
get_val_pos at_entry m = do
  e ← load_at at_entry m
  let tag = get_tag e.val_addr
  elim e.vs_id [
    | ℤ.pos id ↦
        if not (is_neg e.vs_offset)
        then (if eq_ℤ tag (pos dcache_val) then ok dcache else ok (valuestorage id))
        else if eq_ℤ tag (pos oplog_val)
        then ok oplog
        else stop undefined
    | ℤ.negsuc _ ↦ if eq_ℤ tag (pos oplog_val) then ok oplog else stop undefined
  ]

unfoldable pub is_cached : ℕ → Memory → Run Bool
unfolding load_at get_tag
is_cached at_entry m = do e ← load_at at_entry m; ok (eq_ℤ (get_tag e.val_addr) (pos dcache_val))

-- Values that reads brought in, handed to the cache thread.
unfoldable pub cache_kv_items : CacheOp → List VsEntry → List CqEntry
cache_kv_items ops [] = []
cache_kv_items ops (e ∷ es) =
    record { at_entry = e.at_entry; key = e.key; val = e.val; ops = ops } ∷ cache_kv_items ops es

module _ {k : KeyIndex} where
  -- The part of the world that a log and its reclaiming thread see.
  abbrev pub site_of : World k → ℕ → Site
  site_of w thread = record { oplog = w.logs thread; storages = w.storages; memory = w.memory }

  abbrev pub with_site : World k → ℕ → Site → World k
  with_site w thread s = record w {
    logs = update w.logs thread s.oplog;
    storages = s.storages;
    memory = s.memory;
  }

  -- A cached entry is handed to the cache thread to be freed.
  unfoldable pub cache_free_kv_items : ℕ → ℕ → World k → Run (World k)
  unfolding is_cached
  cache_free_kv_items at_entry thread w = do
    cached ← is_cached at_entry w.memory
    ok (
        if cached
        then record w {
          free_queue = update w.free_queue thread (w.free_queue thread ++ at_entry ∷ []);
        }
        else w)

  -- complete_pending_ios for lookups: one vector for the queue of the ring, if there is anything.
  unfoldable pub complete_pending_ios : ℕ → ℕ → World k → World k
  unfolding cache_kv_items
  complete_pending_ios vs_id ring w = elim (w.pending vs_id ring) [
    | [] ↦ w
    | e ∷ es ↦ record w {
      pending = update w.pending vs_id (update (w.pending vs_id) ring []);
      cache_queue =
          update w.cache_queue ring (w.cache_queue ring ++ cache_kv_items ct_lookup (e ∷ es) ∷ []);
    }
  ]
