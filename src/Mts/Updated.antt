-- ===== src/Mts/Updated.antt =====
-- `update` of PRISM/src/MTS.cpp, and what `lookup` returns after it.
use hkv.Base.{
  ℕ, ◌+◌, ◌/◌, ◌%◌, ◌<◌, ◌≡◌, refl, ap, ◌∙◌, ◌≢◌, ◌⊎◌, inl, inr, true, List, ℤ, pos, is_neg, arith,
  ok, update, update_self,
}
use native.Mathlib.Nat.{mod-lt}
use hkv.Config.{Config}
use hkv.Memory.{OpEntry, Memory, load_at, load_op, store_at, store_op, put_tagged_ptr, oplog_val}
use hkv.Memory.Tags.{IsUserPtr, get_tag-put_self}
use hkv.AddressTable.{unstored, relink_to_ol}
use hkv.ValueStorage.{ValueStorage}
use hkv.ValueStorage.Buffer.{IoUring}
use hkv.ValueStorage.Chunks.{Unlinked, unlink_to_at-Unlinked}
use hkv.OpLog
use hkv.Mts.{KeyIndex, World, is_cached, with_site, cache_free_kv_items}
use hkv.Mts.Reads.{lookup}
use hkv.Mts.Calls.{write_update, update_key, unlink_past}
use hkv.Mts.InLog.{
  InLog, lookup-InLog, linked-InLog, HasRoom, log_for, new_place, logged, logged_site, enq-HasRoom,
  InLog-of, new_place-user,
}

-- The place in a storage that a table entry names is inside the bitmap, if it names one.
pub data Old (c : Config) : ℤ → ℤ → Type 0 where
  nowhere : (id off : ℤ) → (is_neg off ≡ true) ⊎ (is_neg id ≡ true) → Old c id off
  stored :
      (id off : ℕ)
      → 0 < c.entries_per_chunk
      → off / c.entries_per_chunk < c.chunk_num + c.chunk_num
      → Old c (pos id) (pos off)

-- What becomes of the storages: the old place is given up, if there was one.
pub data GivenUp (c : Config) (storages : ℕ → ValueStorage)
    : ℤ → ℤ → (ℕ → ValueStorage) → Type 0 where
  none_was :
      (id off : ℤ) → (is_neg off ≡ true) ⊎ (is_neg id ≡ true) → GivenUp c storages id off storages
  given_up :
      (id off : ℕ) (vs' : ValueStorage)
      → Unlinked c (storages id) (off / c.entries_per_chunk) (off % c.entries_per_chunk) vs'
      → GivenUp c storages (pos id) (pos off) (update storages id vs')

link_to_at-ok :
    (p a : ℕ) (m : Memory)
    → p ≢ 0
    → OpLog.link_to_at p a m ≡ ok (store_op p (record (m.op p) { opa = a }) m)
unfolding OpLog.link_to_at load_op
link_to_at-ok p a m h = ground arith

relink_to_ol-ok :
    (a p : ℕ) (m : Memory)
    → a ≢ 0
    → relink_to_ol a p m
      ≡ ok
          ((m.at a).vs_id, (m.at a).vs_offset, store_at a (unstored (put_tagged_ptr p oplog_val)) m)
unfolding relink_to_ol load_at
relink_to_ol-ok a p m h = ground arith

module _ (io : IoUring) (c : Config) {k : KeyIndex} where
  unlink_past-GivenUp :
      (w : World k) {id off : ℤ}
      → Old c id off
      → (st : ℕ → ValueStorage) × (unlink_past io c id off w ≡ ok (record w { storages = st }))
        × GivenUp c w.storages id off st
  unfolding unlink_past
  unlink_past-GivenUp w (nowhere id off (inl h)) =
      (w.storages, ground (arith, h), none_was id off (inl h))
  unlink_past-GivenUp w (nowhere id off (inr h)) =
      (w.storages, ground (arith, h), none_was id off (inr h))
  unlink_past-GivenUp w (stored id off pos_entries inside) =
      let (vs', run, u) =
        unlink_to_at-Unlinked c (w.storages id) (off / c.entries_per_chunk)
          (off % c.entries_per_chunk) inside (mod-lt off pos_entries) in
      (update w.storages id vs', rw run refl, given_up id off vs' u)

  -- `link_to_ol` has tagged the entry as one of the log by the time it is looked at.
  cache_free_kv_items-logged :
      (w : World k) (a p thread : ℕ)
      → a ≢ 0
      → IsUserPtr p
      → w.memory.at a ≡ unstored (put_tagged_ptr p oplog_val)
      → cache_free_kv_items a thread w ≡ ok w
  unfolding cache_free_kv_items is_cached load_at
  cache_free_kv_items-logged w a p thread ane user h =
      ground (arith, h, ane, get_tag-put_self p oplog_val user (omega arith))

  -- What a call of `update` on the table entry `a` leaves behind.
  pub record Updated (w : World k) (thread key val a : ℕ) (w' : World k) : Type 0 where
    pub in_log : InLog w'.memory a (new_place w thread) key val
    pub ats_else : (q : ℕ) → q ≢ a → w'.memory.at q ≡ w.memory.at q
    pub ops_else : (q : ℕ) → q ≢ new_place w thread → w'.memory.op q ≡ w.memory.op q
    pub old_place : GivenUp c w.storages (w.memory.at a).vs_id (w.memory.at a).vs_offset w'.storages
    pub same_index : w'.index ≡ w.index
    pub same_queue : w'.free_queue ≡ w.free_queue

  abbrev updated_memory : World k → ℕ → ℕ → ℕ → ℕ → Memory
  updated_memory w thread key val a =
      let m = logged c w thread key val in
      let p = new_place w thread in
      store_at a (unstored (put_tagged_ptr p oplog_val))
        (store_op p (record (m.op p) { opa = a }) m)

  abbrev updated : World k → ℕ → ℕ → ℕ → ℕ → (ℕ → ValueStorage) → World k
  updated w thread key val a st = record (with_site w thread (logged_site c w thread key val)) {
    memory = updated_memory w thread key val a;
    storages = st;
  }

  write_update-run :
      (w : World k) (thread : ℕ) (draws : List ℕ) (key val a : ℕ) (st : ℕ → ValueStorage)
      → HasRoom c (log_for w thread)
      → a ≢ 0
      → unlink_past io c
          (w.memory.at a).vs_id
          (w.memory.at a).vs_offset
          (updated w thread key val a w.storages)
        ≡ ok (updated w thread key val a st)
      → cache_free_kv_items a thread (updated w thread key val a st)
        ≡ ok (updated w thread key val a st)
      → write_update io c thread draws key val a w ≡ ok (true, updated w thread key val a st)
  unfolding write_update
  write_update-run w thread draws key val a st r ane past free =
      let (pne, user) = new_place-user c w thread r in
      rw
        (
          enq-HasRoom io c w thread draws key val r,
          link_to_at-ok (new_place w thread) a (logged c w thread key val) pne,
          relink_to_ol-ok a (new_place w thread)
              (store_op (new_place w thread)
                (record ((logged c w thread key val).op (new_place w thread)) { opa = a })
                (logged c w thread key val))
              ane,
          past,
          free,
        )
        refl

  -- With room in the log `write_update` returns. The value is in the log then, under the same table
  -- entry, the place that it had in a storage is given up, the index and the other entries stay, and
  -- nothing is handed to the cache thread to be freed: the entry does not look cached any more.
  pub write_update-Updated :
      (w : World k) (thread : ℕ) (draws : List ℕ) (key val a : ℕ)
      → HasRoom c (log_for w thread)
      → a ≢ 0
      → Old c (w.memory.at a).vs_id (w.memory.at a).vs_offset
      → (w' : World k) × (write_update io c thread draws key val a w ≡ ok (true, w'))
        × Updated w thread key val a w'
  write_update-Updated w thread draws key val a r ane old =
      let p = new_place w thread in
      let (pne, user) = new_place-user c w thread r in
      let (st, past, gone) = unlink_past-GivenUp (updated w thread key val a w.storages) old in
      (
        updated w thread key val a st,
        write_update-run w thread draws key val a st r ane past (
            cache_free_kv_items-logged (updated w thread key val a st) a p thread ane user
              (update_self w.memory.at a _)),
        record {
          in_log =
              linked-InLog (logged c w thread key val) a p key val
                (unstored (put_tagged_ptr p oplog_val)) ane pne user refl
                (
                  ap (λ (o : OpEntry). o.key) (update_self w.memory.op p _),
                  ap (λ (o : OpEntry). o.val) (update_self w.memory.op p _),
                );
          ats_else = λ q ne. ground arith;
          ops_else = λ q ne. ground arith;
          old_place = gone;
          same_index = refl;
          same_queue = refl;
        },
      )

  -- A key that is there is updated: `update` returns true, `lookup` returns the new value from then
  -- on, and what it returns for another key in another place of the log stays.
  pub update-lookup :
      (w : World k) (thread : ℕ) (draws : List ℕ) (key val a : ℕ)
      → k.lookup key w.index ≡ a
      → a ≢ 0
      → HasRoom c (log_for w thread)
      → Old c (w.memory.at a).vs_id (w.memory.at a).vs_offset
      → (w' : World k) × (update_key io c thread draws key val w ≡ ok (true, w'))
        × (lookup io c key w' ≡ ok (val, w'))
        × ((other b p v : ℕ)
            → k.lookup other w.index ≡ b
            → b ≢ a
            → p ≢ new_place w thread
            → InLog w.memory b p other v
            → lookup io c other w' ≡ ok (v, w'))
  unfolding update_key
  update-lookup w thread draws key val a e ane r old =
      let (w', run, done) = write_update-Updated w thread draws key val a r ane old in
      (
        w',
        ground (arith, e, ane, run),
        lookup-InLog io c w' key a _ val (ap (k.lookup key) done.same_index ∙ e) done.in_log,
        λ other b p v eb ne pne l.
            lookup-InLog io c w' other b p v (ap (k.lookup other) done.same_index ∙ eb) (
              InLog-of w.memory w'.memory b p other v (done.ats_else b ne) (done.ops_else p pne) l),
      )
