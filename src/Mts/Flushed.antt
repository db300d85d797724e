-- ===== src/Mts/Flushed.antt =====
-- An update against the flush of a stale copy: `lookup` of PRISM/src/MTS.cpp after write_chunk and
-- sync_with_at of PRISM/src/ValueStorage.cpp.
use hkv.Base.{
  ℕ, ◌*◌, ◌/◌, ◌≡◌, ap, ◌≢◌, ◌⊎◌, inl, inr, true, List, [], ◌∷◌, All, ℕ_discrete, subst, eq_ℤ, ok,
  update,
}
use hkv.Config.{Config}
use hkv.Memory.{AtEntry, OpEntry, Memory, newly_updated_val}
use hkv.ValueStorage.{VsEntry, ValueStorage}
use hkv.ValueStorage.Buffer.{IoUring}
use hkv.ValueStorage.Put.{write_and_sync}
use hkv.ValueStorage.Sorted.{IsFaithful}
use hkv.ValueStorage.Linked.{DistinctAts}
use hkv.ValueStorage.Filling.{Buffered}
use hkv.ValueStorage.Flush.{Kept, write_and_sync-Flushed}
use hkv.Mts.{KeyIndex, World}
use hkv.Mts.Reads.{lookup}
use hkv.Mts.InLog.{InLog, InLog-of, lookup-InLog}

-- Either the table entry `a` is among those of the buffer and is kept, or it is not.
Kept-or_absent :
    (c : Config) (id chunk : ℕ) (m : Memory) (vs' : ValueStorage) (m' : Memory) (a : ℕ)
    (es : List VsEntry)
    → eq_ℤ (m.at a).vs_offset newly_updated_val ≡ true
    → All (Kept c id chunk m vs' m') es
    → (m'.at a ≡ m.at a) ⊎ All (λ e. e.at_entry ≢ a) es
Kept-or_absent c id chunk m vs' m' a [] new kept = inr tt
Kept-or_absent c id chunk m vs' m' a (e ∷ es) new kept = elim (ℕ_discrete e.at_entry a) [
  | yes same ↦ inl (
      subst (λ x. eq_ℤ (m.at x).vs_offset newly_updated_val ≡ true → m'.at x ≡ m.at x) same kept.0.0
        new)
  | no other ↦ elim (Kept-or_absent c id chunk m vs' m' a es new kept.1) [
    | inl h ↦ inl h
    | inr absent ↦ inr (other, absent)
  ]
]

module _ (io : IoUring) (c : Config) {k : KeyIndex} where
  -- With a ring that does what is asked of it and writes that divide a chunk evenly, a flush of a chunk
  -- that is full, or unused behind its entries, each with a table entry of its own, returns and keeps
  -- what `lookup` returns of a value in the log, also where the chunk holds a stale copy of it that was
  -- reclaimed before the update.
  pub flush-lookup :
      (w : World k) (vs_id i key a p val : ℕ) (es tail : List VsEntry)
      → IsFaithful io
      → c.entries_per_chunk ≡ c.w_qd * (c.entries_per_chunk / c.w_qd)
      → Buffered c ((w.storages vs_id).w_chunk i) es tail
      → All (λ e. e.at_entry ≡ 0) tail
      → DistinctAts es
      → k.lookup key w.index ≡ a
      → InLog w.memory a p key val
      → (vs' : ValueStorage) × (m' : Memory) × (write_and_sync io c i (w.storages vs_id) w.memory
          ≡ ok (vs', m'))
        × (lookup io c key (record w { storages = update w.storages vs_id vs'; memory = m' })
            ≡ ok (val, record w { storages = update w.storages vs_id vs'; memory = m' }))
  flush-lookup w vs_id i key a p val es tail f even b unused apart e l =
      let (vs', m', run, done, _) =
        write_and_sync-Flushed io c i (w.storages vs_id) w.memory es tail f even b unused apart in
      let new : eq_ℤ (w.memory.at a).vs_offset newly_updated_val ≡ true =
        ap (λ (x : AtEntry). eq_ℤ x.vs_offset newly_updated_val) l.linked in
      let same : m'.at a ≡ w.memory.at a =
        elim (Kept-or_absent c _ _ w.memory vs' m' a es new done.kept) [
          | inl h ↦ h
          | inr absent ↦ done.ats_else a absent
        ] in
      (
        vs',
        m',
        run,
        lookup-InLog io c (record w { storages = update w.storages vs_id vs'; memory = m' }) key a p
            val e
            (InLog-of w.memory m' a p key val same (ap (λ (o : ℕ → OpEntry). o p) done.same_op) l),
      )
