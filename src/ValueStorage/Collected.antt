-- ===== src/ValueStorage/Collected.antt =====
-- Garbage collection in PRISM/src/ValueStorage.cpp: a chunk of copied entries is written and linked.
use hkv.Base.{
  ℕ, ◌+◌, ◌*◌, ◌/◌, ◌≤◌, ◌<◌, ◌≡◌, refl, sym, ap, subst, ◌∙◌, ◌≢◌, ◌⊎◌, inl, inr, true, false, List,
  [], ◌∷◌, pos, arith, ok, All, length, length-append, length-map, replicate, is_nil,
}
use mathlib.Core.Path.{subst₂}
use hkv.Base.Sort.{sort_by, length-sort_by, All-sort_by, All-of_sort_by}
use hkv.Config.{Config}
use hkv.Memory.{Memory}
use hkv.ValueStorage.{VsEntry, blank, ValueStorage}
use hkv.ValueStorage.Buffer.{IoUring, prep_write, filled, sort_moved_entry, write_gc_w_chunk}
use hkv.ValueStorage.Link.{relink_all, gc_sync_with_at}
use hkv.ValueStorage.Linked.{DistinctAts}
use hkv.ValueStorage.Sorted.{
  place, IsFaithful, place_all-prep_write, Holds, Holds-place, Holds-append, place_else,
  filled-append,
}
use hkv.ValueStorage.Flush.{sorted_chunk, length-sorted_chunk, put_on_disk, DistinctAts-sort_by}
use hkv.ValueStorage.Moved.{Copied, copies, sort_moved_entry-notes}
use hkv.ValueStorage.Relinked.{stays, AllPlaced, Relinked, relink_all-Relinked}
use hkv.ValueStorage.Gathered.{Gathered}
use hkv.ValueStorage.Collect.{GcState, gc_end}

-- What a collection does to the table entry of a copy: it stays where the value has moved on, and
-- otherwise points at a valid place of the new chunk, where the disk holds this very entry.
abbrev pub Kept : Config → ℕ → ℕ → Memory → ValueStorage → Memory → VsEntry → Type 0
Kept c id chunk m vs' m' e =
    (stays id (m.at e.at_entry) ≡ true → m'.at e.at_entry ≡ m.at e.at_entry)
    × (stays id (m.at e.at_entry) ≡ false
        → (j : ℕ) × (j < c.entries_per_chunk)
          × (m'.at e.at_entry ≡ record (m.at e.at_entry) {
            vs_id = pos id;
            vs_offset = pos (chunk * c.entries_per_chunk + j);
          })
          × (vs'.bitmap chunk j ≡ true)
          × (vs'.disk (chunk * c.entries_per_chunk + j) ≡ e))

-- What a collection of `cs` into `chunk` leaves behind: the old places are given up, every copy is
-- kept, nothing else of the file or of the table changes, and the buffer is ready for the next one.
pub record Collected (c : Config) (id chunk : ℕ) (disk : ℕ → VsEntry) (m : Memory)
    (cs : List Copied) (vs' : ValueStorage) (m' : Memory) : Type 0 where
  pub kept : All (Kept c id chunk m vs' m') (copies cs)
  pub given_up : All (λ x. vs'.bitmap x.victim x.slot ≡ false) cs
  pub ats_else : (p : ℕ) → All (λ e. e.at_entry ≢ p) (copies cs) → m'.at p ≡ m.at p
  pub disk_else :
      (x : ℕ)
      → (x < chunk * c.entries_per_chunk) ⊎ (chunk * c.entries_per_chunk + c.entries_per_chunk ≤ x)
      → vs'.disk x ≡ disk x
  pub same_op : m'.op ≡ m.op
  pub same_dc : m'.dc ≡ m.dc
  pub emptied : vs'.gc_w_chunk.moved_entry_list ≡ []
  pub zeroed : vs'.gc_w_chunk.w_buffer ≡ replicate c.entries_per_chunk blank

Kept-all :
    (c : Config) (id chunk : ℕ) (m : Memory) (vs' : ValueStorage) (m' : Memory) (k : ℕ)
    (es : List VsEntry)
    → AllPlaced c id chunk m m' vs'.bitmap k es
    → Holds vs'.disk (chunk * c.entries_per_chunk + k) es
    → k + length es ≤ c.entries_per_chunk
    → All (Kept c id chunk m vs' m') es
Kept-all c id chunk m vs' m' k [] p h le = tt
Kept-all c id chunk m vs' m' k (e ∷ es) p h le = (
  (p.0.0, λ go. (k, omega arith, (p.0.1 go).0, (p.0.1 go).1, h.0)),
  Kept-all c id chunk m vs' m' (k + 1) es p.1 (subst (λ o. Holds vs'.disk o es) (omega arith) h.1)
      (omega arith),
)

-- The storage when the chunk is on the disk, with its buffer zeroed.
abbrev written : Config → List VsEntry → ValueStorage → ValueStorage
written c es vs = record (put_on_disk c vs.gc_w_chunk.chunk_offset es vs) {
  gc_w_chunk = record (vs.gc_w_chunk) { w_buffer = replicate c.entries_per_chunk blank };
}

abbrev emptied_list : ValueStorage → ValueStorage
emptied_list vs = record vs { gc_w_chunk = record (vs.gc_w_chunk) { moved_entry_list = [] } }

module _ (io : IoUring) (c : Config) (f : IsFaithful io)
    (even : c.entries_per_chunk ≡ c.gc_qd * (c.entries_per_chunk / c.gc_qd)) where
  write_gc_w_chunk-written :
      (st : GcState) (cs : List Copied) (tail : List VsEntry)
      → Gathered c st cs tail
      → write_gc_w_chunk io c st.vs st.vs.gc_w_chunk.chunk_offset ≡ written c (copies cs) st.vs
  unfolding write_gc_w_chunk
  write_gc_w_chunk-written st cs tail g =
      let es = copies cs in
      let vs = st.vs in
      let chunk = vs.gc_w_chunk.chunk_offset in
      let le : length es ≤ c.entries_per_chunk =
        omega (arith, ap length g.contents, g.whole, length-append {0} es tail) in
      let e1 : filled c.entries_per_chunk vs.gc_w_chunk.w_buffer ≡ es =
        ap (filled c.entries_per_chunk) g.contents
        ∙ filled-append c.entries_per_chunk es tail g.in_use g.unused le in
      let e2 : io.submit
            (prep_write c.gc_qd (c.entries_per_chunk / c.gc_qd) (chunk * c.entries_per_chunk)
              (sorted_chunk c es))
            vs.disk
          ≡ place (chunk * c.entries_per_chunk) (sorted_chunk c es) vs.disk =
        f.submit _ vs.disk
        ∙ place_all-prep_write c.gc_qd (c.entries_per_chunk / c.gc_qd) _ (sorted_chunk c es) vs.disk
            (length-sorted_chunk c es le ∙ even) in
      simp (e1, e2)

  Collected-of_Relinked :
      (vs vs2 : ValueStorage) (m m2 : Memory) (cs : List Copied)
      → length (copies cs) ≤ c.entries_per_chunk
      → Relinked c
          (written c (copies cs) vs)
          m
          vs.gc_w_chunk.chunk_offset
          0
          (sort_by (λ e. e.key) (copies cs))
          cs
          vs2
          m2
      → Collected c vs.vs_id vs.gc_w_chunk.chunk_offset vs.disk m cs (emptied_list vs2) m2
  Collected-of_Relinked vs vs2 m m2 cs le r = record {
    kept =
        All-of_sort_by _ (λ x. x.key) es
          (Kept-all c vs.vs_id chunk m (emptied_list vs2) m2 0 sorted r.places holds
            (omega (arith, len)));
    given_up = r.given_up;
    ats_else = λ p out. r.ats_else p (All-sort_by (λ e. e.at_entry ≢ p) (λ x. x.key) es out);
    disk_else = λ x out.
        ap (λ (d : ℕ → VsEntry). d x) disk
        ∙ place_else (chunk * c.entries_per_chunk) x (sorted_chunk c es) vs.disk (outside x out);
    same_op = r.same_op;
    same_dc = r.same_dc;
    emptied = refl;
    zeroed = ap (λ (v : ValueStorage). v.gc_w_chunk.w_buffer) r.same_vs;
  }
    where
      es : List VsEntry
      es = copies cs

      chunk : ℕ
      chunk = vs.gc_w_chunk.chunk_offset

      sorted : List VsEntry
      sorted = sort_by (λ x. x.key) es

      len : length sorted ≡ length es
      len = length-sort_by (λ x. x.key) es

      disk : vs2.disk ≡ place (chunk * c.entries_per_chunk) (sorted_chunk c es) vs.disk
      disk = ap (λ (v : ValueStorage). v.disk) r.same_vs

      holds : Holds vs2.disk (chunk * c.entries_per_chunk + 0) sorted
      holds =
          subst₂ (λ d o. Holds d o sorted) (sym disk) (omega arith)
            (Holds-append _ (chunk * c.entries_per_chunk) sorted _
              (Holds-place (chunk * c.entries_per_chunk) (sorted_chunk c es) vs.disk))

      outside :
          (x : ℕ)
          → (x < chunk * c.entries_per_chunk)
            ⊎ (chunk * c.entries_per_chunk + c.entries_per_chunk ≤ x)
          → (x < chunk * c.entries_per_chunk)
            ⊎ (chunk * c.entries_per_chunk + length (sorted_chunk c es) ≤ x)
      outside x (inl h) = inl h
      outside x (inr h) = inr (omega (arith, length-sorted_chunk c es le))

  sync_runs :
      (vs vs2 : ValueStorage) (m m2 : Memory)
      → relink_all c (sort_moved_entry vs.gc_w_chunk.moved_entry_list) vs m ≡ ok (vs2, m2)
      → gc_sync_with_at c vs m ≡ ok (emptied_list vs2, m2)
  unfolding gc_sync_with_at
  sync_runs vs vs2 m m2 run = rw run refl

  gc_end_writes :
      (st : GcState)
      → is_nil st.vs.gc_w_chunk.moved_entry_list ≡ false
      → gc_end io c st
        ≡ gc_sync_with_at c (write_gc_w_chunk io c st.vs st.vs.gc_w_chunk.chunk_offset) st.memory
  unfolding gc_end
  gc_end_writes st h = rw h refl

  -- No victim is left and copies were made: the chunk is written and linked.
  pub gc_end-Collected :
      (st : GcState) (x : Copied) (cs : List Copied) (tail : List VsEntry)
      → Gathered c st (x ∷ cs) tail
      → DistinctAts (copies (x ∷ cs))
      → (vs' : ValueStorage) × (m' : Memory) × (gc_end io c st ≡ ok (vs', m'))
        × Collected c st.vs.vs_id st.vs.gc_w_chunk.chunk_offset st.vs.disk st.memory (x ∷ cs) vs' m'
  gc_end-Collected st x cs tail g apart =
      let es = copies (x ∷ cs) in
      let chunk = st.vs.gc_w_chunk.chunk_offset in
      let le : length es ≤ c.entries_per_chunk =
        omega (arith, ap length g.contents, g.whole, length-append {0} es tail) in
      let len = length-sort_by (λ (e : VsEntry). e.key) es in
      let (vs2, m2, run, r) =
        relink_all-Relinked c chunk g.inside (sort_by (λ e. e.key) es) (x ∷ cs) 0
          (written c es st.vs) st.memory (len ∙ length-map (x ∷ cs) (λ y. y.entry))
          (All-sort_by (λ e. e.at_entry ≢ 0) (λ e. e.key) es g.in_use)
          (DistinctAts-sort_by es apart) g.sources (omega (arith, len)) in
      let list = ap sort_moved_entry g.moved ∙ sort_moved_entry-notes chunk (x ∷ cs) in
      (
        emptied_list vs2,
        m2,
        gc_end_writes st (ap is_nil g.moved)
            ∙ ap (λ v. gc_sync_with_at c v st.memory) (write_gc_w_chunk-written st (x ∷ cs) tail g)
            ∙ sync_runs (written c es st.vs) vs2 st.memory m2
                (ap (λ l. relink_all c l (written c es st.vs) st.memory) list ∙ run),
        Collected-of_Relinked st.vs vs2 st.memory m2 (x ∷ cs) le r,
      )
