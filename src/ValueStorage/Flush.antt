-- ===== src/ValueStorage/Flush.antt =====
-- Flushing a write chunk in PRISM/src/ValueStorage.cpp: write_chunk and sync_with_at bring the buffer to
-- the disk and to the address table.
use hkv.Base.{
  ℕ, ◌+◌, ◌-◌, ◌*◌, ◌/◌, ◌≤◌, ◌<◌, ◌≡◌, refl, sym, ap, subst, ◌∙◌, ◌≢◌, ◌⊎◌, inl, inr, true, false,
  List, [], ◌∷◌, ◌++◌, arith, pos, eq_ℤ, ok, length, length-append, length-replicate, update,
  update_self, update_ne, Bool, ltb, ltb→lt, ltb-false→le, ℕ_discrete, Bool-cases, leb, All,
  replicate,
}
use hkv.Base.Sort.{sort_by, insert_by, length-sort_by, All-sort_by, All-insert_by, All-of_sort_by}
use mathlib.Core.Path.{subst₂}
use hkv.Config.{Config}
use hkv.Memory.{AtEntry, Memory, newly_updated_val}
use hkv.ValueStorage.{VsEntry, blank, WChunk, ValueStorage}
use hkv.ValueStorage.Buffer.{IoUring, prep_write, filled, write_chunk, sort_moved_entry}
use hkv.ValueStorage.Link.{sync_with_at}
use hkv.ValueStorage.Linked.{Placed, AllPlaced, DistinctAts, Linked, link_all-Linked}
use hkv.ValueStorage.Put.{set_chunk, write_and_sync}
use hkv.ValueStorage.Sorted.{
  place, IsFaithful, place_all-prep_write, Holds, Holds-place, Holds-append, place_else,
  filled-append, sort_moved_entry-Aligned,
}
use hkv.ValueStorage.Filling.{Buffered}

-- What a flush does to the address-table entry of a buffered entry: one updated in the log
-- meanwhile is left alone, any other points at a valid place of the chunk, where the disk holds
-- this very entry.
abbrev pub Kept : Config → ℕ → ℕ → Memory → ValueStorage → Memory → VsEntry → Type 0
Kept c id chunk m vs' m' e =
    (eq_ℤ (m.at e.at_entry).vs_offset newly_updated_val ≡ true → m'.at e.at_entry ≡ m.at e.at_entry)
    × (eq_ℤ (m.at e.at_entry).vs_offset newly_updated_val ≡ false
        → (j : ℕ) × (j < c.entries_per_chunk)
          × (m'.at e.at_entry ≡ record (m.at e.at_entry) {
            vs_id = pos id;
            vs_offset = pos (chunk * c.entries_per_chunk + j);
          })
          × (vs'.bitmap chunk j ≡ true)
          × (vs'.disk (chunk * c.entries_per_chunk + j) ≡ e))

-- The bit of a place of the chunk is as it was, unless the entry that is on the disk there was not
-- updated meanwhile: its table entry points there then.
abbrev pub Own : Config → ℕ → ℕ → Memory → (ℕ → ℕ → Bool) → ValueStorage → Memory → ℕ → Type 0
Own c id chunk m before vs' m' j =
    (vs'.bitmap chunk j ≡ before chunk j)
    ⊎ ((eq_ℤ (m.at (vs'.disk (chunk * c.entries_per_chunk + j)).at_entry).vs_offset
            newly_updated_val
          ≡ false)
        × ((m'.at (vs'.disk (chunk * c.entries_per_chunk + j)).at_entry).vs_id ≡ pos id)
        × ((m'.at (vs'.disk (chunk * c.entries_per_chunk + j)).at_entry).vs_offset
            ≡ pos (chunk * c.entries_per_chunk + j)))

pub record Flushed (c : Config) (i : ℕ) (vs : ValueStorage) (m : Memory) (es : List VsEntry)
    (vs' : ValueStorage) (m' : Memory) : Type 0 where
  pub kept : All (Kept c vs.vs_id (vs.w_chunk i).chunk_offset m vs' m') es
  pub ats_else : (p : ℕ) → All (λ e. e.at_entry ≢ p) es → m'.at p ≡ m.at p
  pub bits_else : (ch j : ℕ) → ch ≢ (vs.w_chunk i).chunk_offset → vs'.bitmap ch j ≡ vs.bitmap ch j
  pub bits_own : (j : ℕ) → Own c vs.vs_id (vs.w_chunk i).chunk_offset m vs.bitmap vs' m' j
  pub disk_else :
      (x : ℕ)
      → (x < (vs.w_chunk i).chunk_offset * c.entries_per_chunk)
        ⊎ ((vs.w_chunk i).chunk_offset * c.entries_per_chunk + c.entries_per_chunk ≤ x)
      → vs'.disk x ≡ vs.disk x
  pub same_free : vs'.free_chunk_list ≡ vs.free_chunk_list
  pub others : vs' ≡ record vs { bitmap = vs'.bitmap; disk = vs'.disk; w_chunk = vs'.w_chunk }
  pub w_chunk_else : (j : ℕ) → i ≢ j → vs'.w_chunk j ≡ vs.w_chunk j
  pub w_chunk_own : vs'.w_chunk i ≡ record (vs.w_chunk i) {
    w_buffer = (vs'.w_chunk i).w_buffer;
    moved_entry_list = [];
    entry_offset = (vs'.w_chunk i).entry_offset;
  }
  pub same_op : m'.op ≡ m.op
  pub same_dc : m'.dc ≡ m.dc
  pub emptied : (vs'.w_chunk i).moved_entry_list ≡ []

Kept-all :
    (c : Config) (id chunk : ℕ) (m : Memory) (before : ℕ → ℕ → Bool) (vs' : ValueStorage)
    (m' : Memory) (k : ℕ) (es : List VsEntry)
    → AllPlaced c id chunk m m' before vs'.bitmap k es
    → Holds vs'.disk (chunk * c.entries_per_chunk + k) es
    → k + length es ≤ c.entries_per_chunk
    → All (Kept c id chunk m vs' m') es
Kept-all c id chunk m before vs' m' k [] p h le = tt
Kept-all c id chunk m before vs' m' k (e ∷ es) p h le = (
  ((λ skip. (p.0.0 skip).0), λ go. (k, omega arith, (p.0.1 go).0, (p.0.1 go).1, h.0)),
  Kept-all c id chunk m before vs' m' (k + 1) es p.1
      (subst (λ o. Holds vs'.disk o es) (omega arith) h.1) (omega arith),
)

Own-of_Placed :
    (c : Config) (id chunk : ℕ) (m : Memory) (before : ℕ → ℕ → Bool) (vs' : ValueStorage)
    (m' : Memory) (j : ℕ) (e : VsEntry)
    → Placed c id chunk (m.at e.at_entry) (m'.at e.at_entry) before vs'.bitmap j
    → vs'.disk (chunk * c.entries_per_chunk + j) ≡ e
    → Own c id chunk m before vs' m' j
Own-of_Placed c id chunk m before vs' m' j e p at_j =
    elim (Bool-cases (eq_ℤ (m.at e.at_entry).vs_offset newly_updated_val)) [
      | inl skip ↦ inl (p.0 skip).1
      | inr go ↦ inr (
        ap (λ (x : VsEntry). eq_ℤ (m.at x.at_entry).vs_offset newly_updated_val) at_j ∙ go,
        ap (λ (x : VsEntry). (m'.at x.at_entry).vs_id) at_j
            ∙ ap (λ (a : AtEntry). a.vs_id) (p.1 go).0,
        ap (λ (x : VsEntry). (m'.at x.at_entry).vs_offset) at_j
            ∙ ap (λ (a : AtEntry). a.vs_offset) (p.1 go).0,
      )
    ]

-- A place that is taken has one of the entries.
Own-all :
    (c : Config) (id chunk : ℕ) (m : Memory) (before : ℕ → ℕ → Bool) (vs' : ValueStorage)
    (m' : Memory) (k : ℕ) (es : List VsEntry) (j : ℕ)
    → AllPlaced c id chunk m m' before vs'.bitmap k es
    → Holds vs'.disk (chunk * c.entries_per_chunk + k) es
    → k ≤ j
    → j < k + length es
    → Own c id chunk m before vs' m' j
Own-all c id chunk m before vs' m' k [] j p h le lt = absurd (omega arith)
Own-all c id chunk m before vs' m' k (e ∷ es) j p h le lt = elim (ℕ_discrete k j) [
  | yes same ↦
      subst (Own c id chunk m before vs' m') same
        (Own-of_Placed c id chunk m before vs' m' k e p.0 h.0)
  | no other ↦
      Own-all c id chunk m before vs' m' (k + 1) es j p.1
        (subst (λ o. Holds vs'.disk o es) (omega arith) h.1) (omega (arith, other)) (omega arith)
]

-- The entries by key, and unused ones to the end of the chunk.
abbrev pub sorted_chunk : Config → List VsEntry → List VsEntry
sorted_chunk c es =
    let sorted = sort_by (λ (e : VsEntry). e.key) es in
    sorted ++ replicate (c.entries_per_chunk - length sorted) blank

pub length-sorted_chunk :
    (c : Config) (es : List VsEntry)
    → length es ≤ c.entries_per_chunk
    → length (sorted_chunk c es) ≡ c.entries_per_chunk
length-sorted_chunk c es le =
    let sorted = sort_by (λ (e : VsEntry). e.key) es in
    omega (
      arith,
      length-append {0} sorted (replicate (c.entries_per_chunk - length sorted) blank),
      length-replicate {0} (c.entries_per_chunk - length sorted) blank,
      length-sort_by {0} (λ (e : VsEntry). e.key) es,
    )

abbrev pub put_on_disk : Config → ℕ → List VsEntry → ValueStorage → ValueStorage
put_on_disk c chunk es vs = record vs {
  disk = place (chunk * c.entries_per_chunk) (sorted_chunk c es) vs.disk;
}

module _ (io : IoUring) (c : Config) (vs : ValueStorage) (f : IsFaithful io)
    (even : c.entries_per_chunk ≡ c.w_qd * (c.entries_per_chunk / c.w_qd)) where
  write_chunk-ok :
      (chunk : WChunk) (es tail : List VsEntry)
      → Buffered c chunk es tail
      → All (λ e. e.at_entry ≡ 0) tail
      → write_chunk io c vs chunk
        ≡ ok (put_on_disk c chunk.chunk_offset es vs, record chunk { w_buffer = sorted_chunk c es })
  unfolding write_chunk
  write_chunk-ok chunk es tail b unused =
      let le : length es ≤ c.entries_per_chunk =
        omega (arith, b.whole, length-append {0} es tail) in
      let e1 : filled c.entries_per_chunk chunk.w_buffer ≡ es =
        ap (filled c.entries_per_chunk) b.contents
        ∙ filled-append c.entries_per_chunk es tail b.in_use unused le in
      let e2 : io.submit
            (prep_write c.w_qd (c.entries_per_chunk / c.w_qd)
              (chunk.chunk_offset * c.entries_per_chunk) (sorted_chunk c es))
            vs.disk
          ≡ place (chunk.chunk_offset * c.entries_per_chunk) (sorted_chunk c es) vs.disk =
        f.submit _ vs.disk
        ∙ place_all-prep_write c.w_qd (c.entries_per_chunk / c.w_qd) _ (sorted_chunk c es) vs.disk
            (length-sorted_chunk c es le ∙ even) in
      simp (b.set_up, e1, e2)

DistinctAts-insert_by :
    (e : VsEntry) (es : List VsEntry)
    → All (λ x. x.at_entry ≢ e.at_entry) es
    → DistinctAts es
    → DistinctAts (insert_by (λ x. x.key) e es)
unfolding insert_by
DistinctAts-insert_by e [] n d = (tt, tt)
DistinctAts-insert_by e (x ∷ es) n d = elim (Bool-cases (leb e.key x.key)) [
  | inl h ↦ rw h (n, d)
  | inr h ↦ rw h (
    All-insert_by (λ y. y.at_entry ≢ x.at_entry) (λ y. y.key) e es (λ q. n.0 (sym q)) d.0,
    DistinctAts-insert_by e es n.1 d.1,
  )
]

pub DistinctAts-sort_by :
    (es : List VsEntry) → DistinctAts es → DistinctAts (sort_by (λ x. x.key) es)
unfolding sort_by
DistinctAts-sort_by [] d = tt
DistinctAts-sort_by (e ∷ es) d =
    DistinctAts-insert_by e (sort_by (λ x. x.key) es)
      (All-sort_by (λ x. x.at_entry ≢ e.at_entry) (λ x. x.key) es d.0) (DistinctAts-sort_by es d.1)

-- What the links add up to, in the order of the calls again.
Flushed-of_Linked :
    (c : Config) (i : ℕ) (vs vs2 : ValueStorage) (m m2 : Memory) (es : List VsEntry) (b : WChunk)
    → length es ≤ c.entries_per_chunk
    → Linked c
        (put_on_disk c (vs.w_chunk i).chunk_offset es vs)
        m
        (vs.w_chunk i).chunk_offset
        0
        (sort_by (λ e. e.key) es)
        vs2
        m2
    → b ≡ record (vs.w_chunk i) {
      w_buffer = b.w_buffer;
      moved_entry_list = [];
      entry_offset = b.entry_offset;
    }
    → Flushed c i vs m es (set_chunk vs2 i b) m2
Flushed-of_Linked c i vs vs2 m m2 es b le l e = record {
  kept =
      All-of_sort_by _ (λ x. x.key) es
        (Kept-all c vs.vs_id chunk m vs.bitmap (set_chunk vs2 i b) m2 0 sorted l.places holds
          (omega (arith, len)));
  ats_else = λ p out. l.ats_else p (All-sort_by (λ e. e.at_entry ≢ p) (λ x. x.key) es out);
  bits_else = λ ch j ne. l.bits_else ch j (inl ne);
  bits_own = λ j. elim (Bool-cases (ltb j (length sorted))) [
    | inl inside ↦
        Own-all c vs.vs_id chunk m vs.bitmap (set_chunk vs2 i b) m2 0 sorted j l.places holds
          (omega arith) (let lt : j < length sorted = ltb→lt _ _ inside in omega arith)
    | inr beyond ↦ inl (
        l.bits_else chunk j
          (inr (inr (let le2 : length sorted ≤ j = ltb-false→le _ _ beyond in omega arith))))
  ];
  disk_else = λ x out.
      ap (λ (d : ℕ → VsEntry). d x) disk
      ∙ place_else (chunk * c.entries_per_chunk) x (sorted_chunk c es) vs.disk (outside x out);
  same_free = ap (λ (v : ValueStorage). v.free_chunk_list) l.same_vs;
  same_op = l.same_op;
  same_dc = l.same_dc;
  others =
      ap
        (λ (v : ValueStorage). record v {
          bitmap = vs2.bitmap;
          disk = vs2.disk;
          w_chunk = update vs2.w_chunk i b;
        })
        l.same_vs;
  w_chunk_else =
      λ j ne. update_ne vs2.w_chunk i j b ne ∙ ap (λ (v : ValueStorage). v.w_chunk j) l.same_vs;
  w_chunk_own =
      subst
        (λ (k : WChunk). k ≡ record (vs.w_chunk i) {
          w_buffer = k.w_buffer;
          moved_entry_list = [];
          entry_offset = k.entry_offset;
        })
        (sym (update_self vs2.w_chunk i b)) e;
  emptied =
      ap (λ (k : WChunk). k.moved_entry_list) (update_self vs2.w_chunk i b)
      ∙ ap (λ (k : WChunk). k.moved_entry_list) e;
}
  where
    chunk : ℕ
    chunk = (vs.w_chunk i).chunk_offset

    sorted : List VsEntry
    sorted = sort_by (λ x. x.key) es

    len : length sorted ≡ length es
    len = length-sort_by (λ x. x.key) es

    disk : vs2.disk ≡ place (chunk * c.entries_per_chunk) (sorted_chunk c es) vs.disk
    disk = ap (λ (v : ValueStorage). v.disk) l.same_vs

    holds : Holds vs2.disk (chunk * c.entries_per_chunk + 0) sorted
    holds =
        subst₂ (λ d o. Holds d o sorted) (sym disk) (omega arith)
          (Holds-append _ (chunk * c.entries_per_chunk) sorted _
            (Holds-place (chunk * c.entries_per_chunk) (sorted_chunk c es) vs.disk))

    outside :
        (x : ℕ)
        → (x < chunk * c.entries_per_chunk)
          ⊎ (chunk * c.entries_per_chunk + c.entries_per_chunk ≤ x)
        → (x < chunk * c.entries_per_chunk)
          ⊎ (chunk * c.entries_per_chunk + length (sorted_chunk c es) ≤ x)
    outside x (inl h) = inl h
    outside x (inr h) = inr (omega (arith, length-sorted_chunk c es le))

-- With a ring that does what is asked of it, writes that divide a chunk evenly and entries that have
-- each a table entry of its own: a chunk that is full, or unused behind its entries, is written and
-- synchronised, and the call returns. Every entry that was not updated meanwhile is on the disk in a
-- valid place of the chunk, and its table entry points there; the table entry of one that was updated
-- is as it was. Of the bits only those of places whose entries were not updated may change, and of the
-- disk only the chunk. Of the write buffer only its order and its list of moved entries change, and
-- all else stays: the other table entries, the log and the cache, the free list, the other buffers,
-- and the state of garbage collection.
pub write_and_sync-Flushed :
    (io : IoUring) (c : Config) (i : ℕ) (vs : ValueStorage) (m : Memory) (es tail : List VsEntry)
    → IsFaithful io
    → c.entries_per_chunk ≡ c.w_qd * (c.entries_per_chunk / c.w_qd)
    → Buffered c (vs.w_chunk i) es tail
    → All (λ e. e.at_entry ≡ 0) tail
    → DistinctAts es
    → (vs' : ValueStorage) × (m' : Memory) × (write_and_sync io c i vs m ≡ ok (vs', m'))
      × Flushed c i vs m es vs' m'
      × ((vs'.w_chunk i).entry_offset ≡ (vs.w_chunk i).entry_offset)
unfolding write_and_sync sync_with_at
write_and_sync-Flushed io c i vs m es tail f even b unused apart =
    let chunk = vs.w_chunk i in
    let le : length es ≤ c.entries_per_chunk = omega (arith, b.whole, length-append {0} es tail) in
    let (vs2, m2, run, linked) =
      link_all-Linked c chunk.chunk_offset b.inside (sort_moved_entry chunk.moved_entry_list)
        (sort_by (λ e. e.key) es) 0 (put_on_disk c chunk.chunk_offset es vs) m
        (sort_moved_entry-Aligned chunk.chunk_offset chunk.moved_entry_list es b.slots b.pairs)
        (All-sort_by (λ e. e.at_entry ≢ 0) (λ e. e.key) es b.in_use) (DistinctAts-sort_by es apart)
        (omega (arith, length-sort_by {0} (λ (e : VsEntry). e.key) es)) in
    (
      set_chunk vs2 i (record chunk { w_buffer = sorted_chunk c es; moved_entry_list = [] }),
      m2,
      simp (write_chunk-ok io c vs f even chunk es tail b unused, run),
      Flushed-of_Linked c i vs vs2 m m2 es _ le linked refl,
      ap (λ (k : WChunk). k.entry_offset) (update_self vs2.w_chunk i _),
    )
