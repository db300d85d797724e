-- ===== src/Mts/Inserted.antt =====
-- `insert` of PRISM/src/MTS.cpp, and what `lookup` returns after it.
use hkv.Base.{
  ℕ, ◌≤◌, ◌<◌, ◌≡◌, refl, sym, ap, ◌∙◌, subst, ◌≢◌, true, false, some, List, pos, eq_ℤ, eq_ℤ→≡, All,
  arith, ok, update, update_self,
}
use hkv.Config.{Config}
use hkv.Memory.{
  AtEntry, OpEntry, Memory, clean_entry, store_at, store_op, get_tag, put_tagged_ptr, oplog_val,
}
use hkv.AddressTable
use hkv.AddressTable.Assign
use hkv.AddressTable.{AddressTable, slot, alloc, is_empty, assign, link_to_ol, relink_to_ol}
use hkv.AddressTable.Assign.{Assigned, assign_total}
use hkv.ValueStorage.Buffer.{IoUring}
use hkv.OpLog.Reclaim.{Site, enq}
use hkv.Mts.{KeyIndex, World, site_of, with_site}
use hkv.Mts.Calls.{insert}
use hkv.Mts.InLog.{
  InLog, linked-InLog, HasRoom, log_for, new_place, logged, logged_site, enq-HasRoom,
  new_place-user,
}

-- Where `insert` finds a slot: the table of the thread is valid and not yet written to its end, and
-- `o` is an empty slot that was not handed out.
pub record HasSlot (c : Config) (t : AddressTable) (m : Memory) (o : ℕ) : Type 0 where
  pub valid : AddressTable.Assign.IsValid c t m
  pub based : 0 < t.at_starting_addr
  pub unfinished : t.whole_file_written ≡ false
  pub ahead : t.next_empty_at_offset ≤ o
  pub inside : o < c.at_entry_num
  pub empty : is_empty t o m ≡ true

slot_clean :
    (t : AddressTable) (o : ℕ) (m : Memory)
    → is_empty t o m ≡ true
    → get_tag (m.at (slot t o)).val_addr ≡ pos clean_entry
unfolding is_empty
slot_clean t o m h = eq_ℤ→≡ _ _ h

-- The log entry does not touch the table.
logged-HasSlot :
    (c : Config) (t : AddressTable) (m m' : Memory) (o : ℕ)
    → m'.at ≡ m.at
    → HasSlot c t m o
    → HasSlot c t m' o
unfolding is_empty
logged-HasSlot c t m m' o e h = record {
  valid = record {
    bounded = h.valid.bounded;
    whole = h.valid.whole;
    listed =
        subst
          (λ (f : ℕ → AtEntry).
            All
              (λ x.
                (x < t.next_empty_at_offset)
                × (eq_ℤ (get_tag (f (slot t x)).val_addr) (pos clean_entry) ≡ true))
              t.free_at_offset_list)
          (sym e) h.valid.listed;
    distinct = h.valid.distinct;
  };
  based = h.based;
  unfinished = h.unfinished;
  ahead = h.ahead;
  inside = h.inside;
  empty =
      subst (λ (f : ℕ → AtEntry). eq_ℤ (get_tag (f (slot t o)).val_addr) (pos clean_entry) ≡ true)
        (sym e) h.empty;
}

module _ (io : IoUring) (c : Config) {k : KeyIndex} where
  -- The world that `insert` leaves, once the log gave `p` and the table `a`.
  abbrev pub inserted : World k → ℕ → ℕ → Site → ℕ → ℕ → AddressTable → Memory → World k
  inserted w thread key s p a table m = record (with_site w thread s) {
    tables = update w.tables thread table;
    memory =
        store_at a (record (m.at a) { val_addr = put_tagged_ptr p oplog_val })
          (store_op p (record (m.op p) { opa = a }) m);
    index = k.insert key a w.index;
  }

  insert-inserted :
      (w : World k) (thread : ℕ) (draws : List ℕ) (key val p a : ℕ) (s : Site)
      (table : AddressTable) (m : Memory)
      → enq io c draws key val (site_of w thread) ≡ ok (some p, s)
      → assign c (w.tables thread) s.memory ≡ ok (a, table, m)
      → p ≢ 0
      → a ≢ 0
      → insert io c thread draws key val w ≡ ok (true, inserted w thread key s p a table m)
  unfolding insert
  insert-inserted w thread draws key val p a s table m e1 e2 pne ane =
      rw (e1, e2) (ground (arith, pne, ane))

  -- What a call of `insert` leaves behind.
  pub record Inserted (w : World k) (thread key val : ℕ) (w' : World k) : Type 0 where
    pub at_entry : ℕ
    pub was_empty : get_tag (w.memory.at at_entry).val_addr ≡ pos clean_entry
    pub indexed : w'.index ≡ k.insert key at_entry w.index
    pub in_log : InLog w'.memory at_entry (new_place w thread) key val
    pub ats_else : (q : ℕ) → q ≢ at_entry → w'.memory.at q ≡ w.memory.at q
    pub ops_else : (q : ℕ) → q ≢ new_place w thread → w'.memory.op q ≡ w.memory.op q
    pub same_storages : w'.storages ≡ w.storages

  pub insert-Inserted :
      (w : World k) (thread : ℕ) (draws : List ℕ) (key val o : ℕ)
      → HasRoom c (log_for w thread)
      → HasSlot c (w.tables thread) w.memory o
      → (w' : World k) × (insert io c thread draws key val w ≡ ok (true, w'))
        × Inserted w thread key val w'
  insert-Inserted w thread draws key val o r h =
      let h' = logged-HasSlot c (w.tables thread) w.memory (logged c w thread key val) o refl h in
      let (out, run, done) =
        assign_total c (w.tables thread) (logged c w thread key val) o h'.valid h'.unfinished
          h'.ahead h'.inside h'.empty in
      let a = slot (w.tables thread) done.offset in
      let m = store_at a alloc (logged c w thread key val) in
      let p = new_place w thread in
      let ane : a ≢ 0 = λ q. omega (arith, h.based) in
      let (pne, user) = new_place-user c w thread r in
      (
        inserted w thread key (logged_site c w thread key val) p a out.1 m,
        insert-inserted w thread draws key val p a (logged_site c w thread key val) out.1 m
            (enq-HasRoom io c w thread draws key val r)
            (run ∙ λ i. ok (done.address i, out.1, done.written i)) pne ane,
        record {
          at_entry = a;
          was_empty =
              slot_clean (w.tables thread) done.offset (logged c w thread key val) done.was_empty;
          indexed = refl;
          in_log =
              linked-InLog m a p key val _ ane pne user
                (ap (λ (e : AtEntry). record e { val_addr = put_tagged_ptr p oplog_val })
                  (update_self w.memory.at a alloc))
                (
                  ap (λ (o : OpEntry). o.key) (update_self w.memory.op p _),
                  ap (λ (o : OpEntry). o.val) (update_self w.memory.op p _),
                );
          ats_else = λ q ne. ground arith;
          ops_else = λ q ne. ground arith;
          same_storages = refl;
        },
      )
