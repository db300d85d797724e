-- ===== src/Mts/Collecting.antt =====
-- Readers against garbage collection: `lookup` of PRISM/src/MTS.cpp and the batches of reads of
-- PRISM/src/ValueStorage.cpp after garbage_collection.
use hkv.Base.{
  ℕ, suc, ◌+◌, ◌*◌, ◌/◌, ◌<◌, ◌≡◌, refl, sym, ap, subst, ◌∙◌, ◌≢◌, ◌⊎◌, inl, inr, true, false, List,
  [], ◌∷◌, map, All, ℕ_discrete, ok, ◌==◌, update, update_self, pos, ==_iff, arith,
}
use hkv.Config.{Config}
use hkv.Memory.{AtEntry, OpEntry, Memory}
use hkv.ValueStorage.{VsEntry, ValueStorage}
use hkv.ValueStorage.Buffer.{IoUring}
use hkv.ValueStorage.Collect.{garbage_collection}
use hkv.ValueStorage.Sorted.{IsFaithful}
use hkv.ValueStorage.Relinked.{stays}
use hkv.ValueStorage.Collected.{Kept}
use hkv.ValueStorage.Everywhere.{all_valid-everywhere}
use hkv.Base.Order.{Distinct}
use hkv.Base.Sort.{sort_by}
use hkv.ValueStorage.Moved.{copies, doubled}
use hkv.ValueStorage.Ordered.{sort_by-SortResult}
use hkv.ValueStorage.Sorted.{vs_pair}
use hkv.ValueStorage.Whole.{
  Collectable, collected_values, garbage_collection-Collected, garbage_collection-Collected_stable,
}
use hkv.Mts.{KeyIndex, World}
use hkv.Mts.Combined.{prep_reads-brought}
use hkv.Mts.Reads.{lookup, prep_reads}
use hkv.Mts.InLog.{InLog, InLog-of, lookup-InLog}

-- The value of the table entry `a` is at a valid place of the storage, which names `a` as its owner.
pub record Stored (c : Config) (vs : ValueStorage) (m : Memory) (a victim slot : ℕ) : Type 0 where
  pub inside : victim < c.chunk_num
  pub fits : slot < c.entries_per_chunk
  pub valid : vs.bitmap victim slot ≡ true
  pub owner : (vs.disk (victim * c.entries_per_chunk + slot)).at_entry ≡ a
  pub storage : (m.at a).vs_id ≡ pos vs.vs_id
  pub place : (m.at a).vs_offset ≡ pos (victim * c.entries_per_chunk + slot)

stays-Stored :
    (c : Config) (vs : ValueStorage) (m : Memory) (a victim slot : ℕ)
    → Stored c vs m a victim slot
    → stays vs.vs_id (m.at a) ≡ false
stays-Stored c vs m a victim slot h =
    let self : (vs.vs_id == vs.vs_id) ≡ true = (==_iff vs.vs_id vs.vs_id).1 refl in
    rw (h.place, h.storage, self) refl

-- Either the table entry `a` is among those of the copies and stays, or it is not.
stays-or_absent :
    (c : Config) (id chunk : ℕ) (m : Memory) (vs' : ValueStorage) (m' : Memory) (a : ℕ)
    (es : List VsEntry)
    → stays id (m.at a) ≡ true
    → All (Kept c id chunk m vs' m') es
    → (m'.at a ≡ m.at a) ⊎ All (λ e. e.at_entry ≢ a) es
stays-or_absent c id chunk m vs' m' a [] new kept = inr tt
stays-or_absent c id chunk m vs' m' a (e ∷ es) new kept = elim (ℕ_discrete e.at_entry a) [
  | yes same ↦ inl (subst (λ x. stays id (m.at x) ≡ true → m'.at x ≡ m.at x) same kept.0.0 new)
  | no other ↦ elim (stays-or_absent c id chunk m vs' m' a es new kept.1) [
    | inl h ↦ inl h
    | inr absent ↦ inr (other, absent)
  ]
]

module _ (io : IoUring) (c : Config) {k : KeyIndex} (f : IsFaithful io) where
  prep_reads-at :
      (w : World k) (n s a o : ℕ)
      → 0 < c.read_io_entries
      → (w.memory.at a).vs_offset ≡ pos o
      → prep_reads io c (suc n) s (a ∷ []) w ≡ (w.storages s).disk o ∷ []
  prep_reads-at w n s a o some e =
      prep_reads-brought io c (suc n) s w
        (record { at_entry = a; place = o; found = (w.storages s).disk o } ∷ []) f some
        (omega arith) (record { at_place = e; on_disk = refl }, tt)

  module _ (even : c.entries_per_chunk ≡ c.gc_qd * (c.entries_per_chunk / c.gc_qd)) where
    abbrev pub collected : World k → ℕ → ValueStorage → Memory → World k
    collected w s vs' m' = record w { storages = update w.storages s vs'; memory = m' }

    -- The ring does what is asked of it, reads and writes divide a chunk evenly, and a read is of one
    -- entry or more. Two chunks or more of the storage are in use, one has room for all their valid
    -- values, which have distinct keys and table entries of their own, and a chunk of the free list is
    -- empty; the collecting buffer is zeroed with no moves noted. Then garbage_collection returns, and
    -- the read of a value that was at a valid place of this storage brings the same entry as before.
    pub garbage_collection-prep_reads :
        (w : World k) (s n a victim slot : ℕ)
        → 0 < c.read_io_entries
        → Collectable c (w.storages s)
        → Distinct (λ e. e.key) (copies (collected_values c (w.storages s)))
        → Stored c (w.storages s) w.memory a victim slot
        → (vs' : ValueStorage) × (m' : Memory) × (garbage_collection io c (w.storages s) w.memory
            ≡ ok (vs', m'))
          × (prep_reads io c (suc n) s (a ∷ []) (collected w s vs' m')
              ≡ prep_reads io c (suc n) s (a ∷ []) w)
    garbage_collection-prep_reads w s n a victim slot some ready distinct h =
        let vs = w.storages s in
        let o = victim * c.entries_per_chunk + slot in
        let e = vs.disk o in
        let values = collected_values c vs in
        let (chunk, vs', m', run, is_empty, inside, r, _) =
          garbage_collection-Collected io c vs w.memory (sort_by (λ e. e.key) (copies values))
            (sort_by (λ p. p.0) (doubled (map vs_pair (copies values)))) f even ready distinct
            (sort_by-SortResult values) in
        let kept : Kept c vs.vs_id chunk w.memory vs' m' e =
          all_valid-everywhere (Kept c vs.vs_id chunk w.memory vs' m') c vs r.kept victim slot
            h.inside h.fits h.valid in
        let goes : stays vs.vs_id (w.memory.at e.at_entry) ≡ false =
          ap (λ x. stays vs.vs_id (w.memory.at x)) h.owner
          ∙ stays-Stored c vs w.memory a victim slot h in
        let (j, lt, at, bit, disk) = kept.1 goes in
        let to = chunk * c.entries_per_chunk + j in
        let now : (m'.at a).vs_offset ≡ pos to =
          ap (λ x. (m'.at x).vs_offset) (sym h.owner) ∙ ap (λ (x : AtEntry). x.vs_offset) at in
        let vs_now : (update w.storages s vs') s ≡ vs' = update_self w.storages s vs' in
        (
          vs',
          m',
          run,
          prep_reads-at (collected w s vs' m') n s a to some now
              ∙ ap (λ (v : ValueStorage). v.disk to ∷ []) vs_now
              ∙ ap (λ x. x ∷ []) disk
              ∙ sym (prep_reads-at w n s a o some h.place),
        )

    -- The ring does what is asked of it, and reads and writes divide a chunk evenly. Two chunks or more
    -- of the storage are in use, one has room for all their valid values, which have table entries of
    -- their own, and a chunk of the free list is empty; the collecting buffer is zeroed with no moves
    -- noted. Then garbage_collection returns, and `lookup` of a value in the log returns that value
    -- after it, also where the storage holds a stale copy of it.
    pub garbage_collection-lookup :
        (w : World k) (s key a place val : ℕ)
        → Collectable c (w.storages s)
        → k.lookup key w.index ≡ a
        → InLog w.memory a place key val
        → (vs' : ValueStorage) × (m' : Memory) × (garbage_collection io c (w.storages s) w.memory
            ≡ ok (vs', m'))
          × (lookup io c key (collected w s vs' m') ≡ ok (val, collected w s vs' m'))
    garbage_collection-lookup w s key a place val ready found l =
        let vs = w.storages s in
        let (chunk, vs', m', run, is_empty, inside, r) =
          garbage_collection-Collected_stable io c vs w.memory f even ready in
        let new : stays vs.vs_id (w.memory.at a) ≡ true = ap (stays vs.vs_id) l.linked in
        let same : m'.at a ≡ w.memory.at a =
          elim (stays-or_absent c _ _ w.memory vs' m' a _ new r.kept) [
            | inl h ↦ h
            | inr absent ↦ r.ats_else a absent
          ] in
        (
          vs',
          m',
          run,
          lookup-InLog io c (collected w s vs' m') key a place val found (
              InLog-of w.memory m' a place key val same
                (ap (λ (o : ℕ → OpEntry). o place) r.same_op) l),
        )
