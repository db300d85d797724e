-- ===== src/Mts/Reclaiming.antt =====
-- `lookup` of PRISM/src/MTS.cpp after the thread of `OpLog::reclaim` in PRISM/src/OpLog.cpp moved the value
-- from the log to a storage.
use hkv.Base.{
  ℕ, zero, suc, ◌+◌, ◌*◌, ◌/◌, ◌^◌, ◌≤◌, ◌<◌, ◌≡◌, sym, ap, subst, ◌∙◌, true, pos, eq_ℤ, List, [],
  ◌∷◌, ◌++◌, arith, ok, length, All, All-front, All-back, ==_iff,
}
use hkv.Config.{Config}
use hkv.Memory.{Memory, AtEntry, get_untagged_ptr, get_tag, dcache_val, oplog_val}
use hkv.Memory.Tags.{get_tag-put_self, get_untagged-put_self}
use hkv.ValueStorage.{VsEntry}
use hkv.ValueStorage.Buffer.{IoUring}
use hkv.ValueStorage.Sorted.{IsFaithful}
use hkv.OpLog.{log_of}
use hkv.OpLog.Drained.{Draining, current}
use hkv.OpLog.Live.{is_current, moved, live}
use hkv.OpLog.Queue.{entry_size}
use hkv.OpLog.Reclaim.{Site, reclaim_rest}
use hkv.OpLog.Reclaimed.{Found, reclaim_rest-Reclaimed}
use hkv.Mts.{KeyIndex, World, ct_lookup, complete_pending_ios, site_of, with_site}
use hkv.Mts.Fetched.{Stored, lookup-Stored}
use hkv.Mts.InLog.{InLog}
use hkv.Mts.Reads.{lookup}

-- What holds of all current entries of a log holds of the one at place `i`, if it is current.
live-at :
    (P : VsEntry → Type 0) (size buffer : ℕ) (m : Memory) (n cnt i : ℕ)
    → All P (live size buffer m n cnt)
    → i < n
    → is_current m (buffer + (cnt + i * size)) ≡ true
    → P (record {
      at_entry = (m.op (buffer + (cnt + i * size))).opa;
      key = (m.op (buffer + (cnt + i * size))).key;
      val = (m.op (buffer + (cnt + i * size))).val;
    })
live-at P size buffer m zero cnt i h lt now = absurd (omega arith)
live-at P size buffer m (suc n) cnt zero h lt now =
    let here : cnt + 0 * size ≡ cnt = omega arith in
    let front = All-front P (moved m (buffer + cnt)) (live size buffer m n (cnt + size)) h in
    let is_here : is_current m (buffer + cnt) ≡ true =
      ap (λ k. is_current m (buffer + k)) (sym here) ∙ now in
    subst
      (λ k. P (record {
        at_entry = (m.op (buffer + k)).opa;
        key = (m.op (buffer + k)).key;
        val = (m.op (buffer + k)).val;
      }))
      (sym here) (rw is_here at front).0
live-at P size buffer m (suc n) cnt (suc i) h lt now =
    let next : cnt + size + i * size ≡ cnt + suc i * size = grind arith in
    let back = All-back P (moved m (buffer + cnt)) (live size buffer m n (cnt + size)) h in
    subst
      (λ k. P (record {
        at_entry = (m.op (buffer + k)).opa;
        key = (m.op (buffer + k)).key;
        val = (m.op (buffer + k)).val;
      }))
      next
      (live-at P size buffer m n (cnt + size) i back (omega arith)
        (ap (λ k. is_current m (buffer + k)) next ∙ now))

InLog-is_current : (m : Memory) (a p key val : ℕ) → InLog m a p key val → is_current m p ≡ true
InLog-is_current m a p key val h = (==_iff p (get_untagged_ptr (m.at (m.op p).opa).val_addr)).1 (
    sym (get_untagged-put_self p oplog_val h.user (omega arith))
    ∙ sym (
        ap (λ x. get_untagged_ptr (m.at x).val_addr) h.back
        ∙ ap (λ (x : AtEntry). get_untagged_ptr x.val_addr) h.linked))

everywhere : (P : Type 0) (l : List VsEntry) → P → All (λ _. P) l
everywhere P [] h = tt
everywhere P (x ∷ l) h = (h, everywhere P l h)

all_some : (l : List VsEntry) → All (λ _. 0 < length l) l
all_some [] = tt
all_some (x ∷ l) = everywhere (0 < length (x ∷ l)) (x ∷ l) (omega arith)

module _ (io : IoUring) (c : Config) {k : KeyIndex} where
  -- The place of the entry `i` of the log that is reclaimed.
  abbrev pub place_of : World k → ℕ → ℕ → ℕ → ℕ
  place_of w thread id i =
      let log = log_of (w.logs thread) id in log.buffer + (log.head_cnt + i * entry_size c)

  Found-Stored :
      (w w' : World k) (a p key val vs_id id chunk : ℕ)
      → InLog w.memory a p key val
      → id ≡ vs_id
      → Found c id chunk w.memory (w'.storages vs_id) w'.memory (record {
        at_entry = (w.memory.op p).opa;
        key = (w.memory.op p).key;
        val = (w.memory.op p).val;
      })
      → (place : ℕ) × Stored w' a vs_id place (record { at_entry = a; key = key; val = val })
  Found-Stored w w' a p key val vs_id id chunk l same (j, lt, at, valid, disk) =
      let there : w'.memory.at a ≡ record (w.memory.at a) {
        vs_id = pos id;
        vs_offset = pos (chunk * c.entries_per_chunk + j);
      } =
        subst
          (λ x. w'.memory.at x ≡ record (w.memory.at x) {
            vs_id = pos id;
            vs_offset = pos (chunk * c.entries_per_chunk + j);
          })
          l.back at in
      (
        chunk * c.entries_per_chunk + j,
        record {
          entry = l.entry;
          in_storage = ap (λ (x : AtEntry). x.vs_id) there ∙ ap pos same;
          at_place = ap (λ (x : AtEntry). x.vs_offset) there;
          uncached =
              ap (λ (x : AtEntry). eq_ℤ (get_tag x.val_addr) (pos dcache_val)) there
              ∙ ap (λ (x : AtEntry). eq_ℤ (get_tag x.val_addr) (pos dcache_val)) l.linked
              ∙ ap (λ t. eq_ℤ t (pos dcache_val))
                  (get_tag-put_self p oplog_val l.user (omega arith));
          on_disk =
              disk
              ∙ (λ j'. record { at_entry = l.back j'; key = l.holds.0 j'; val = l.holds.1 j' });
        },
      )

  -- The ring does what is asked of it, writes divide a chunk evenly, rings and reads are of one entry
  -- or more, and a value takes from 1 to 2^32 - 127 bytes. A value is in a log that a thread reclaims,
  -- no entry of which has lost its pointer to the table, and the head that the thread was given is not
  -- beyond the log's. The storage is not short of free chunks and has an empty one on its free list,
  -- its write buffer is not begun, unused, and takes all current entries, and no read of a lookup is
  -- pending or waits at it. Then the thread runs to its end, `lookup` returns 0 with a read of the value
  -- submitted, and the completed read puts the value under its key and table entry behind the others
  -- in the queue of the cache thread.
  pub reclaim-lookup :
      (w : World k) (thread id vs_id old_head key a val i : ℕ) (e : ℕ × ℕ) (queue : List (ℕ × ℕ))
      (tail : List VsEntry)
      → IsFaithful io
      → c.entries_per_chunk ≡ c.w_qd * (c.entries_per_chunk / c.w_qd)
      → 0 < c.kv_size
      → c.kv_size + 126 < 2 ^ 32
      → 0 < c.r_qd
      → 0 < c.read_io_entries
      → Draining io c id vs_id (site_of w thread) (e ∷ queue) [] tail
      → length (current io c id vs_id (site_of w thread) (e ∷ queue)) ≤ length tail
      → old_head ≤ (log_of (w.logs thread) id).head_cnt
      → (w.storages vs_id).vs_id ≡ vs_id
      → i < length (e ∷ queue)
      → k.lookup key w.index ≡ a
      → InLog w.memory a (place_of w thread id i) key val
      → w.pending vs_id 0 ≡ []
      → w.waiting vs_id 0 ≡ []
      → (s' : Site) × (w' : World k) × (reclaim_rest io c id vs_id old_head (site_of w thread)
          ≡ ok s')
        × (lookup io c key (with_site w thread s') ≡ ok (0, w'))
        × ((complete_pending_ios vs_id 0 w').cache_queue 0
            ≡ w.cache_queue 0
              ++ (record { at_entry = a; key = key; val = val; ops = ct_lookup } ∷ []) ∷ [])
  reclaim-lookup w thread id vs_id old_head key a val i e queue tail f even positive small h1 h2 d
        room begun named lt found l idle none_waiting =
      let s = site_of w thread in
      let log = log_of (w.logs thread) id in
      let p = place_of w thread id i in
      let now = InLog-is_current w.memory a p key val l in
      let some_in =
        live-at (λ _. 0 < length (current io c id vs_id s (e ∷ queue))) (entry_size c) log.buffer
          w.memory (length (e ∷ queue)) log.head_cnt i
          (all_some (current io c id vs_id s (e ∷ queue))) lt now in
      let (s', run, r) =
        reclaim_rest-Reclaimed io c id vs_id old_head s e queue tail f even positive small d room
          some_in begun in
      let w1 = with_site w thread s' in
      let id' = (w.storages vs_id).vs_id in
      let at_place =
        live-at (Found c id' r.chunk w.memory (s'.storages vs_id) s'.memory) (entry_size c)
          log.buffer w.memory (length (e ∷ queue)) log.head_cnt i r.found lt now in
      let (place, stored) = Found-Stored w w1 a p key val vs_id id' r.chunk l named at_place in
      let (w', looked, queued, finished) =
        lookup-Stored io c w1 key a vs_id place (record { at_entry = a; key = key; val = val }) f h1
          h2 found stored idle none_waiting in
      (s', w', run, looked, queued)
