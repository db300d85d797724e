-- ===== src/Mts/Calls.antt =====
-- The calls of PRISM/src/MTS.cpp that change the store: insert, update, remove and recover.
use hkv.Base.{
  ℕ, zero, suc, ◌+◌, ◌-◌, ◌/◌, ◌%◌, ◌^◌, Bool, true, false, ◌&&◌, not, List, ℤ, is_neg, magnitude,
  ◌==◌, if◌then◌else◌, Option, none, some, Run, ok, stop, undefined, ◌>>=◌, update,
}
use hkv.Config.{Config}
use hkv.Memory.{AtEntry, load_at, store_at}
use hkv.AddressTable
use hkv.AddressTable.{AddressTable, get_at_id, assign, link_to_ol, relink_to_ol}
use hkv.ValueStorage.{set_vs_bitmap_info}
use hkv.ValueStorage.Buffer.{IoUring}
use hkv.ValueStorage.Link.{unlink_to_at}
use hkv.OpLog
use hkv.OpLog.{OpLog}
use hkv.OpLog.Reclaim.{enq}
use hkv.Mts.{
  KeyIndex, World, dcache, oplog, valuestorage, get_val_pos, site_of, with_site,
  cache_free_kv_items,
}

-- A null `op_entry` is dereferenced by what follows.
abbrev pub pointer : Option ℕ → ℕ
pointer none = 0
pointer (some p) = p

-- `(vs_idx_t *)&at_entry->val_addr`: the upper half of the pointer, read as an int.
unfoldable pub misread_offset : AtEntry → ℕ
misread_offset e = e.val_addr / 2 ^ 32 % 2 ^ 32

module _ (io : IoUring) (c : Config) {k : KeyIndex} where
  unfoldable pub insert : ℕ → List ℕ → ℕ → ℕ → World k → Run (Bool × World k)
  unfolding enq assign link_to_ol OpLog.link_to_at
  insert thread draws key val w = do
    (op_entry, s) ← enq io c draws key val (site_of w thread)
    let w1 = with_site w thread s
    (at_entry, table, m1) ← assign c (w1.tables thread) w1.memory
    m2 ← OpLog.link_to_at (pointer op_entry) at_entry m1
    m3 ← link_to_ol at_entry (pointer op_entry) m2
    ok (
      true,
      record w1 {
        tables = update w1.tables thread table;
        memory = m3;
        index = k.insert key at_entry w1.index;
      },
    )

  -- The place that the old value had on the disk is given up.
  unfoldable pub unlink_past : ℤ → ℤ → World k → Run (World k)
  unfolding unlink_to_at
  unlink_past past_vs_id past_vs_offset w =
      if not (is_neg past_vs_offset) && not (is_neg past_vs_id)
      then (do
        let offset = magnitude past_vs_offset
        let id = magnitude past_vs_id
        vs ←
            unlink_to_at c (w.storages id) (offset / c.entries_per_chunk)
              (offset % c.entries_per_chunk)
        ok (record w { storages = update w.storages id vs }))
      else ok w

  unfoldable pub write_update : ℕ → List ℕ → ℕ → ℕ → ℕ → World k → Run (Bool × World k)
  unfolding enq relink_to_ol OpLog.link_to_at unlink_past cache_free_kv_items
  write_update thread draws key val at_entry w = do
    (op_entry, s) ← enq io c draws key val (site_of w thread)
    let w1 = with_site w thread s
    m1 ← OpLog.link_to_at (pointer op_entry) at_entry w1.memory
    (past_vs_id, past_vs_offset, m2) ← relink_to_ol at_entry (pointer op_entry) m1
    w2 ← unlink_past past_vs_id past_vs_offset (record w1 { memory = m2 })
    w3 ← cache_free_kv_items at_entry thread w2
    ok (true, w3)

  unfoldable pub update_key : ℕ → List ℕ → ℕ → ℕ → World k → Run (Bool × World k)
  unfolding write_update
  update_key thread draws key val w =
      let a = k.lookup key w.index in
      if a == 0 then ok (false, w) else write_update thread draws key val a w

  -- The value leaves the log or the storage. For a cached value the storage is an uninitialised
  -- variable.
  unfoldable pub unlink_value : ℕ → ℕ → World k → Run (World k)
  unfolding get_val_pos OpLog.unlink_to_at unlink_to_at misread_offset load_at
  unlink_value thread at_entry w = do
    where_it_is ← get_val_pos at_entry w.memory
    elim where_it_is [
      | oplog ↦ do m ← OpLog.unlink_to_at at_entry w.memory; ok (record w { memory = m })
      | dcache ↦ stop undefined
      | valuestorage id ↦ do
        e ← load_at at_entry w.memory
        let offset = misread_offset e
        vs ←
            unlink_to_at c (w.storages id) (offset / c.entries_per_chunk)
              (offset % c.entries_per_chunk)
        ok (record w { storages = update w.storages id vs })
    ]

  -- The first of the tables from `i` on that holds the entry, or the last one.
  unfoldable pub find_table : ℕ → ℕ → ℕ → World k → ℕ
  unfolding get_at_id
  find_table zero i at_entry w = i - 1
  find_table (suc n) i at_entry w =
      let later = find_table n (i + 1) at_entry w in
      if is_neg (get_at_id c (w.tables i) at_entry) then later else i

  -- The pointer that the index returned is used with no test for NULL.
  unfoldable pub remove : ℕ → ℕ → World k → Run (Bool × World k)
  unfolding unlink_value find_table AddressTable.free
  remove thread key w = do
    let a = k.lookup key w.index
    w1 ← unlink_value thread a w
    let i = find_table c.at_num 0 a w1
    (table, m) ← AddressTable.free (w1.tables i) a w1.memory
    ok (
      true,
      record w1 { tables = update w1.tables i table; memory = m; index = k.remove key w1.index },
    )

  unfoldable pub set_place : AtEntry → World k → Run (World k)
  unfolding set_vs_bitmap_info
  set_place e w = do
    let id = magnitude e.vs_id
    let offset = magnitude e.vs_offset
    vs ←
        set_vs_bitmap_info c (w.storages id) (offset / c.entries_per_chunk)
          (offset % c.entries_per_chunk)
    ok (record w { storages = update w.storages id vs })

  -- One key after a restart: the bitmap is rebuilt, and a pointer into the lost cache is cleared.
  unfoldable pub recover : ℕ → World k → Run (Bool × World k)
  unfolding get_val_pos set_place load_at
  recover key w =
      let a = k.lookup key w.index in
      if a == 0 then ok (false, w) else (do
        where_it_is ← get_val_pos a w.memory
        e ← load_at a w.memory
        elim where_it_is [
          | oplog ↦ ok (true, w)
          | dcache ↦ do
            w' ← set_place e (record w { memory = store_at a (record e { val_addr = 0 }) w.memory })
            ok (true, w')
          | valuestorage id ↦ do w' ← set_place e w; ok (true, w')
        ])
