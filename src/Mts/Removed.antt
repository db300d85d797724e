-- ===== src/Mts/Removed.antt =====
-- `remove` of PRISM/src/MTS.cpp, and the reclaiming of the log entry that it leaves behind.
use hkv.Base.{
  ℕ, ◌≡◌, refl, sym, subst, ap, ◌∙◌, ◌≢◌, true, [], ◌∷◌, ◌++◌, arith, ok, stop, null_pointer,
  update, update_self,
}
use hkv.Config.{Config}
use hkv.Memory.{
  OpEntry, Memory, load_at, load_op, store_at, store_op, put_tagged_ptr, oplog_val, clean_entry,
}
use hkv.Memory.Tags.{get_untagged-put_self}
use hkv.AddressTable
use hkv.AddressTable.{AddressTable, unstored, get_at_offset}
use hkv.ValueStorage.Buffer.{IoUring}
use hkv.OpLog
use hkv.OpLog.Reclaim.{Site, move_entry}
use hkv.Mts.{KeyIndex, World, site_of}
use hkv.Mts.Reads.{lookup}
use hkv.Mts.Calls.{remove, unlink_value, find_table}
use hkv.Mts.InLog.{InLog, get_val_pos-InLog}

-- What the index promises of `remove`.
pub record Removes (k : KeyIndex) : Type 0 where
  pub lookup-remove : (key : ℕ) (i : k.Index) → k.lookup key (k.remove key i) ≡ 0

free-ok :
    (t : AddressTable) (a : ℕ) (m : Memory)
    → a ≢ 0
    → AddressTable.free t a m
      ≡ ok (
        record t { free_at_offset_list = t.free_at_offset_list ++ get_at_offset t a ∷ [] },
        store_at a (unstored (put_tagged_ptr (m.at a).val_addr clean_entry)) m,
      )
unfolding AddressTable.free load_at
free-ok t a m h = ground arith

-- An entry of the log without its pointer to the table stops the reclaiming thread.
move_entry-null :
    (io : IoUring) (c : Config) (vs_id p : ℕ) (s : Site)
    → p ≢ 0
    → (s.memory.op p).opa ≡ 0
    → move_entry io c vs_id p s ≡ stop null_pointer
unfolding move_entry load_op load_at
move_entry-null io c vs_id p s h e = ground (arith, h, e)

module _ (io : IoUring) (c : Config) {k : KeyIndex} where
  -- The memory that `remove` leaves of a value in the log.
  abbrev pub unlinked : World k → ℕ → ℕ → Memory
  unlinked w a p =
      store_at a (record (w.memory.at a) { val_addr = 0 })
        (store_op p (record (w.memory.op p) { opa = 0 }) w.memory)

  unlink_value-InLog :
      (w : World k) (thread a p key val : ℕ)
      → InLog w.memory a p key val
      → unlink_value io c thread a w ≡ ok (record w { memory = unlinked w a p })
  unfolding unlink_value OpLog.unlink_to_at load_at load_op
  unlink_value-InLog w thread a p key val l = rw (get_val_pos-InLog w.memory a p key val l) (
      ground
        (arith, l.entry, l.place, l.linked, get_untagged-put_self p oplog_val l.user (omega arith)))

  abbrev pub removed : World k → ℕ → ℕ → ℕ → World k
  removed w key a p =
      let w1 : World k = record w { memory = unlinked w a p } in
      let i = find_table io c c.at_num 0 a w1 in
      record w1 {
        tables = update w.tables i (record (w.tables i) {
          free_at_offset_list =
              (w.tables i).free_at_offset_list ++ get_at_offset (w.tables i) a ∷ [];
        });
        memory =
            store_at a (unstored (put_tagged_ptr ((unlinked w a p).at a).val_addr clean_entry))
              (unlinked w a p);
        index = k.remove key w.index;
      }

  remove_self :
      (w : World k) (thread key p val : ℕ)
      → InLog w.memory (k.lookup key w.index) p key val
      → remove io c thread key w ≡ ok (true, removed w key (k.lookup key w.index) p)
  unfolding remove
  remove_self w thread key p val l =
      let a = k.lookup key w.index in
      let i = find_table io c c.at_num 0 a (record w { memory = unlinked w a p }) in
      rw
        (unlink_value-InLog w thread a p key val l, free-ok (w.tables i) a (unlinked w a p) l.entry)
        refl

  remove-removed :
      (w : World k) (thread key a p val : ℕ)
      → k.lookup key w.index ≡ a
      → InLog w.memory a p key val
      → remove io c thread key w ≡ ok (true, removed w key a p)
  remove-removed w thread key a p val e l =
      remove_self w thread key p val (subst (λ x. InLog w.memory x p key val) (sym e) l)
      ∙ ap (λ x. ok (true, removed w key x p)) e

  lookup-absent : (w : World k) (key : ℕ) → k.lookup key w.index ≡ 0 → lookup io c key w ≡ ok (0, w)
  unfolding lookup
  lookup-absent w key e = rw e refl

  -- Removing a key whose value is in the log returns true and takes the key out of the index: lookup
  -- finds it no more.
  -- The log entry stays, without its pointer to the table, and the thread that reclaims the log
  -- stops at it with an access through a null pointer.
  pub remove-move_entry :
      (w : World k) (thread vs_id key a p val : ℕ)
      → Removes k
      → k.lookup key w.index ≡ a
      → InLog w.memory a p key val
      → (w' : World k) × (remove io c thread key w ≡ ok (true, w'))
        × (lookup io c key w' ≡ ok (0, w'))
        × (move_entry io c vs_id p (site_of w' thread) ≡ stop null_pointer)
  remove-move_entry w thread vs_id key a p val laws e l = (
    removed w key a p,
    remove-removed w thread key a p val e l,
    lookup-absent (removed w key a p) key (laws.lookup-remove key w.index),
    move_entry-null io c vs_id p (site_of (removed w key a p) thread) l.place
        (ap (λ (o : OpEntry). o.opa) (update_self w.memory.op p _)),
  )
