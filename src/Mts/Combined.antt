-- ===== src/Mts/Combined.antt =====
-- The batches of reads in PRISM/src/AIO.cpp: what a leader submits of the requests that wait for it,
-- and how leaders that follow one another get through all of them.
use hkv.Base.{
  ℕ, zero, suc, ◌+◌, ◌*◌, ◌/◌, ◌%◌, ◌<◌, ◌≤◌, ◌≡◌, refl, sym, ap, ◌∙◌, ◌⊎◌, inl, inr, false, List,
  [], ◌∷◌, ◌++◌, map, pos, is_neg, magnitude, arith, get_or, ok, update, update_self, length,
  length-map, All, All-mono,
}
use mathlib.Core.List.{append_assoc, append-nil}
use native.Mathlib.Omega.{div_any}
use hkv.Config.{Config}
use hkv.ValueStorage.{VsEntry, blank}
use hkv.ValueStorage.Buffer.{IoUring}
use hkv.ValueStorage.Sorted.{IsFaithful, slice}
use hkv.Mts.{KeyIndex, World, ct_lookup, cache_kv_items, complete_pending_ios}
use hkv.Mts.Reads.{prep_reads, submit_reads, combine, lead}

-- A request, with the place that its table entry has in a storage and what is on the disk there.
pub record Request : Type 0 where
  pub at_entry : ℕ
  pub place : ℕ
  pub found : VsEntry

pub record IsReadable {k : KeyIndex} (w : World k) (id : ℕ) (r : Request) : Type 0 where
  pub at_place : (w.memory.at r.at_entry).vs_offset ≡ pos r.place
  pub on_disk : (w.storages id).disk r.place ≡ r.found

abbrev pub requests : List Request → List ℕ
requests rs = map (λ r. r.at_entry) rs

abbrev pub brought : List Request → List VsEntry
brought rs = map (λ r. r.found) rs

get_or-slice :
    (disk : ℕ → VsEntry) (place n : ℕ) → 0 < n → get_or (slice disk place n) 0 blank ≡ disk place
get_or-slice disk place zero h = absurd (omega arith)
get_or-slice disk place (suc n) h = refl

same_place : (off n : ℕ) → off / n * n + off % n ≡ off
same_place off n = grind (arith, div_any off n)

combine-all :
    (n : ℕ) (ats more batch : List ℕ)
    → length ats ≤ n
    → (more ≡ []) ⊎ (length ats ≡ n)
    → combine n (ats ++ more) batch ≡ (batch ++ ats, more)
unfolding combine
combine-all zero [] more batch h last = ap (λ l. (l, more)) (sym (append-nil batch))
combine-all zero (a ∷ ats) more batch h last = absurd (omega arith)
combine-all (suc n) [] more batch h (inl none) = rw (none, append-nil batch) refl
combine-all (suc n) [] more batch h (inr full) = absurd (omega arith)
combine-all (suc n) (a ∷ ats) more batch h last =
    combine-all n ats more (batch ++ a ∷ []) (omega arith)
      (elim last [ inl none ↦ inl none | inr full ↦ inr (omega arith) ])
    ∙ ap (λ l. (l, more)) (append_assoc batch (a ∷ []) ats)

module _ (io : IoUring) (c : Config) {k : KeyIndex} where
  prep_reads-nil : (n id : ℕ) (w : World k) → prep_reads io c n id [] w ≡ []
  unfolding prep_reads
  prep_reads-nil zero id w = refl
  prep_reads-nil (suc n) id w = refl

  pub prep_reads-brought :
      (n id : ℕ) (w : World k) (rs : List Request)
      → IsFaithful io
      → 0 < c.read_io_entries
      → length rs ≤ n
      → All (IsReadable w id) rs
      → prep_reads io c n id (requests rs) w ≡ brought rs
  unfolding prep_reads
  prep_reads-brought n id w [] f h fits s = prep_reads-nil n id w
  prep_reads-brought zero id w (r ∷ rs) f h fits s = absurd (omega arith)
  prep_reads-brought (suc n) id w (r ∷ rs) f h fits s =
      let off = magnitude (w.memory.at r.at_entry).vs_offset in
      let x = off / c.entries_per_chunk * c.entries_per_chunk + off % c.entries_per_chunk in
      let disk = (w.storages id).disk in
      let neg : is_neg (w.memory.at r.at_entry).vs_offset ≡ false = ap is_neg s.0.at_place in
      let there : x ≡ r.place = same_place off c.entries_per_chunk ∙ ap magnitude s.0.at_place in
      let found : get_or (io.read disk x c.read_io_entries) 0 blank ≡ r.found =
        ap (λ l. get_or l 0 blank) (f.read disk x c.read_io_entries)
        ∙ get_or-slice disk x c.read_io_entries h
        ∙ ap disk there
        ∙ s.0.on_disk in
      simp (neg, found, prep_reads-brought n id w rs f h (omega arith) s.1)

  -- The world with a batch submitted.
  abbrev pub submitted : World k → ℕ → ℕ → VsEntry → List VsEntry → World k
  submitted w id ring e es = record w {
    waiting = update w.waiting id (update (w.waiting id) ring []);
    pending = update w.pending id (update (w.pending id) ring (e ∷ es));
  }

  submit_reads-run :
      (w : World k) (id ring : ℕ) (ats : List ℕ) (e : VsEntry) (es : List VsEntry)
      → prep_reads io c c.r_qd id ats w ≡ e ∷ es
      → submit_reads io c id ring ats w
        ≡ record w { pending = update w.pending id (update (w.pending id) ring (e ∷ es)) }
  unfolding submit_reads
  submit_reads-run w id ring ats e es h = rw (submit_reads, h) refl

  lead-run :
      (w : World k) (id ring : ℕ) (queue batch rest : List ℕ)
      → combine c.r_qd queue [] ≡ (batch, rest)
      → w.pending id ring ≡ []
      → w.waiting id ring ≡ []
      → lead io c id ring queue w
        ≡ ok (
          rest,
          submit_reads io c id ring batch
              (record w { waiting = update w.waiting id (update (w.waiting id) ring []) }),
        )
  unfolding lead
  lead-run w id ring queue batch rest h idle none_waiting = rw (none_waiting, h, idle) refl

  pub lead-submitted :
      (w : World k) (id ring : ℕ) (r : Request) (rs : List Request) (more : List ℕ)
      → IsFaithful io
      → 0 < c.read_io_entries
      → length (r ∷ rs) ≤ c.r_qd
      → (more ≡ []) ⊎ (length (r ∷ rs) ≡ c.r_qd)
      → All (IsReadable w id) (r ∷ rs)
      → w.pending id ring ≡ []
      → w.waiting id ring ≡ []
      → lead io c id ring (requests (r ∷ rs) ++ more) w
        ≡ ok (more, submitted w id ring r.found (brought rs))
  lead-submitted w id ring r rs more f h fits last s idle none_waiting =
      let ats = requests (r ∷ rs) in
      let w1 : World k = record w {
        waiting = update w.waiting id (update (w.waiting id) ring []);
      } in
      let s1 : All (IsReadable w1 id) (r ∷ rs) =
        All-mono (r ∷ rs) (λ x y. record { at_place = y.at_place; on_disk = y.on_disk }) s in
      let same = length-map (r ∷ rs) (λ (x : Request). x.at_entry) in
      lead-run w id ring (ats ++ more) ats more
        (combine-all c.r_qd ats more [] (omega (arith, same))
          (elim last [ inl none ↦ inl none | inr full ↦ inr (same ∙ full) ]))
        idle none_waiting
      ∙ ap (λ x. ok (more, x))
          (submit_reads-run w1 id ring ats r.found (brought rs)
            (prep_reads-brought c.r_qd id w1 (r ∷ rs) f h fits s1))

  pub pending-submitted :
      (w : World k) (id ring : ℕ) (e : VsEntry) (es : List VsEntry)
      → (submitted w id ring e es).pending id ring ≡ e ∷ es
  pending-submitted w id ring e es =
      ap (λ (g : ℕ → List VsEntry). g ring) (update_self w.pending id _)
      ∙ update_self (w.pending id) ring (e ∷ es)

  -- The world once the pending reads are completed for the cache thread.
  abbrev pub handed : World k → ℕ → ℕ → VsEntry → List VsEntry → World k
  handed w id ring e es = record w {
    pending = update w.pending id (update (w.pending id) ring []);
    cache_queue =
        update w.cache_queue ring (w.cache_queue ring ++ cache_kv_items ct_lookup (e ∷ es) ∷ []);
  }

  pub complete_pending_ios-handed :
      (w : World k) (id ring : ℕ) (e : VsEntry) (es : List VsEntry)
      → w.pending id ring ≡ e ∷ es
      → complete_pending_ios id ring w ≡ handed w id ring e es
  unfolding complete_pending_ios
  complete_pending_ios-handed w id ring e es h = rw (complete_pending_ios, h) refl
