-- ===== src/Mts/Fetched.antt =====
-- `lookup` of PRISM/src/MTS.cpp for a value in storage: the read that it submits, and what
-- complete_pending_ios hands to the cache thread.
use hkv.Base.{
  ℕ, ◌<◌, ◌≡◌, refl, ap, ◌∙◌, ◌≢◌, false, List, [], ◌∷◌, ◌++◌, pos, inl, eq_ℤ, arith, ok,
  update_self,
}
use hkv.Config.{Config}
use hkv.Memory.{load_at, get_tag, dcache_val}
use hkv.ValueStorage.{VsEntry}
use hkv.ValueStorage.Buffer.{IoUring}
use hkv.ValueStorage.Sorted.{IsFaithful}
use hkv.Mts.{
  KeyIndex, World, ct_lookup, valuestorage, get_val_pos, cache_kv_items, complete_pending_ios,
}
use hkv.Mts.Combined.{submitted, lead-submitted, pending-submitted, complete_pending_ios-handed}
use hkv.Mts.Reads.{apply_ops, lookup}

-- The value of the table entry `a` is at `place` of the storage `id`, which holds `e` there.
pub record Stored {k : KeyIndex} (w : World k) (a id place : ℕ) (e : VsEntry) : Type 0 where
  pub entry : a ≢ 0
  pub in_storage : (w.memory.at a).vs_id ≡ pos id
  pub at_place : (w.memory.at a).vs_offset ≡ pos place
  pub uncached : eq_ℤ (get_tag (w.memory.at a).val_addr) (pos dcache_val) ≡ false
  pub on_disk : (w.storages id).disk place ≡ e

get_val_pos-Stored :
    {k : KeyIndex} (w : World k) (a id place : ℕ) (e : VsEntry)
    → Stored w a id place e
    → get_val_pos a w.memory ≡ ok (valuestorage id)
unfolding get_val_pos load_at
get_val_pos-Stored w a id place e s = ground (arith, s.entry, s.in_storage, s.at_place, s.uncached)

module _ (io : IoUring) (c : Config) {k : KeyIndex} where
  apply_ops-Stored :
      (w : World k) (a id place : ℕ) (e : VsEntry)
      → IsFaithful io
      → 0 < c.r_qd
      → 0 < c.read_io_entries
      → Stored w a id place e
      → w.pending id 0 ≡ []
      → w.waiting id 0 ≡ []
      → apply_ops io c a id 0 w ≡ ok (submitted io c w id 0 e [])
  unfolding apply_ops
  apply_ops-Stored w a id place e f h1 h2 s idle none_waiting =
      rw
        (lead-submitted io c w id 0 (record { at_entry = a; place = place; found = e }) [] [] f h2
          (omega arith) (inl refl) (record { at_place = s.at_place; on_disk = s.on_disk }, tt) idle
          none_waiting)
        refl

  lookup-run :
      (w w' : World k) (key a id place : ℕ) (e : VsEntry)
      → k.lookup key w.index ≡ a
      → Stored w a id place e
      → apply_ops io c a id 0 w ≡ ok w'
      → lookup io c key w ≡ ok (0, w')
  unfolding lookup
  lookup-run w w' key a id place e found s run =
      ground (arith, found, s.entry, s.in_storage, s.at_place, s.uncached, run)

  -- The call leaves the world with the read submitted.
  pub lookup-submitted :
      (w : World k) (key a id place : ℕ) (e : VsEntry)
      → IsFaithful io
      → 0 < c.r_qd
      → 0 < c.read_io_entries
      → k.lookup key w.index ≡ a
      → Stored w a id place e
      → w.pending id 0 ≡ []
      → w.waiting id 0 ≡ []
      → lookup io c key w ≡ ok (0, submitted io c w id 0 e [])
  lookup-submitted w key a id place e f h1 h2 found s idle none_waiting =
      lookup-run w (submitted io c w id 0 e []) key a id place e found s
        (apply_ops-Stored w a id place e f h1 h2 s idle none_waiting)

  -- Looking up a value in storage returns 0, with a read of the value submitted. Once the read is
  -- completed, one batch with that value and its table entry is behind the others in the queue of
  -- the cache thread, and no read is pending.
  pub lookup-Stored :
      (w : World k) (key a id place : ℕ) (e : VsEntry)
      → IsFaithful io
      → 0 < c.r_qd
      → 0 < c.read_io_entries
      → k.lookup key w.index ≡ a
      → Stored w a id place e
      → w.pending id 0 ≡ []
      → w.waiting id 0 ≡ []
      → (w' : World k) × (lookup io c key w ≡ ok (0, w'))
        × ((complete_pending_ios id 0 w').cache_queue 0
            ≡ w.cache_queue 0
              ++ (record { at_entry = e.at_entry; key = e.key; val = e.val; ops = ct_lookup } ∷ [])
                ∷ [])
        × ((complete_pending_ios id 0 w').pending id 0 ≡ [])
  unfolding cache_kv_items
  lookup-Stored w key a id place e f h1 h2 found s idle none_waiting =
      let w' = submitted io c w id 0 e [] in
      let there = pending-submitted io c w id 0 e [] in
      let run = complete_pending_ios-handed io c w' id 0 e [] there in
      (
        w',
        lookup-submitted w key a id place e f h1 h2 found s idle none_waiting,
        ap (λ (x : World k). x.cache_queue 0) run ∙ update_self w.cache_queue 0 _,
        ap (λ (x : World k). x.pending id 0) run
            ∙ ap (λ (g : ℕ → List VsEntry). g 0) (update_self w'.pending id _)
            ∙ update_self (w'.pending id) 0 [],
      )
