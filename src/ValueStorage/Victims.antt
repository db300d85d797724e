-- ===== src/ValueStorage/Victims.antt =====
-- Garbage collection in PRISM/src/ValueStorage.cpp: the victims, one after the other.
use hkv.Base.{
  ℕ, zero, suc, ◌+◌, ◌-◌, ◌*◌, ◌/◌, ◌%◌, ◌^◌, ◌<◌, ◌≡◌, refl, sym, ap, subst, ◌∙◌, ◌≢◌, Bool, false,
  inl, inr, List, [], ◌∷◌, ◌++◌, arith, ok, All, All-front, All-back, length, length-append, get_or,
  if◌then◌else◌, ◌==◌, Bool-cases,
}
use mathlib.Core.List.{append_assoc, append-nil}
use hkv.Config.{Config}
use hkv.Memory.{Memory}
use hkv.ValueStorage.{VsEntry, blank, ValueStorage}
use hkv.ValueStorage.Buffer.{IoUring, read_gc_r_chunk}
use hkv.ValueStorage.Chunkwise.{read_gc_r_chunk-slice}
use hkv.ValueStorage.Linked.{DistinctAts}
use hkv.ValueStorage.Sorted.{IsFaithful, slice}
use hkv.ValueStorage.Moved.{Copied, copies}
use hkv.ValueStorage.Relinked.{IsSource}
use hkv.ValueStorage.Gathered.{Gathered, Unmoved, copied, gc_entry-Gathered}
use hkv.ValueStorage.Collected.{Collected, gc_end-Collected}
use hkv.ValueStorage.Collect.{GcState, Step, gc_entry, gc_entries, gc_victims}

-- The valid entries of a victim from `i` on.
abbrev pub valid_from : (ℕ → Bool) → ℕ → List VsEntry → ℕ → ℕ → List Copied
valid_from bits victim r_buffer zero i = []
valid_from bits victim r_buffer (suc n) i =
    let rest = valid_from bits victim r_buffer n (i + 1) in
    if bits i
    then record { entry = get_or r_buffer i blank; victim = victim; slot = i } ∷ rest
    else rest

skip_entry :
    (io : IoUring) (c : Config) (before victim i : ℕ) (r_buffer : List VsEntry) (st : GcState)
    → st.vs.bitmap victim i ≡ false
    → gc_entry io c before victim r_buffer i st ≡ ok (Step.continues st)
unfolding gc_entry
skip_entry io c before victim i r_buffer st h = rw h refl

same-Unmoved : (st : GcState) → Unmoved st st
same-Unmoved st = record { bitmap = refl; disk = refl; chunk = refl; id = refl; memory = refl }

then-Unmoved : (a b d : GcState) → Unmoved a b → Unmoved b d → Unmoved a d
then-Unmoved a b d h k = record {
  bitmap = k.bitmap ∙ h.bitmap;
  disk = k.disk ∙ h.disk;
  chunk = k.chunk ∙ h.chunk;
  id = k.id ∙ h.id;
  memory = k.memory ∙ h.memory;
}

two_left :
    (tail : List VsEntry) (k : ℕ)
    → suc k < length tail
    → (t : VsEntry) × (u : VsEntry) × (rest : List VsEntry) × (tail ≡ t ∷ u ∷ rest)
two_left [] k h = absurd (omega arith)
two_left (t ∷ []) k h = absurd (omega arith)
two_left (t ∷ u ∷ rest) k h = (t, u, rest, refl)

-- A victim whose valid entries fit, with room left, is copied whole.
pub gc_entries-Gathered :
    (io : IoUring) (c : Config) (before victim : ℕ) (r_buffer : List VsEntry) (bits : ℕ → Bool)
    (n i : ℕ) (st : GcState) (cs : List Copied) (tail : List VsEntry)
    → st.vs.bitmap victim ≡ bits
    → Gathered c st cs tail
    → length (valid_from bits victim r_buffer n i) < length tail
    → All (λ x. x.entry.at_entry ≢ 0) (valid_from bits victim r_buffer n i)
    → All (IsSource c st.vs.gc_w_chunk.chunk_offset) (valid_from bits victim r_buffer n i)
    → (st' : GcState) × (rest : List VsEntry) × (gc_entries io c before victim r_buffer n i st
        ≡ ok (Step.continues st'))
      × Gathered c st' (cs ++ valid_from bits victim r_buffer n i) rest
      × Unmoved st st'
      × (length rest + length (valid_from bits victim r_buffer n i) ≡ length tail)
unfolding gc_entries
gc_entries-Gathered io c before victim r_buffer bits zero i st cs tail e g room real src = (
  st,
  tail,
  refl,
  subst (λ l. Gathered c st l tail) (sym (append-nil cs)) g,
  same-Unmoved st,
  omega arith,
)
gc_entries-Gathered io c before victim r_buffer bits (suc n) i st cs tail e g room real src =
    elim (Bool-cases (bits i)) [
      | inr no_bit ↦
          let skip =
            skip_entry io c before victim i r_buffer st (ap (λ (b : ℕ → Bool). b i) e ∙ no_bit) in
          let short : valid_from bits victim r_buffer (suc n) i
              ≡ valid_from bits victim r_buffer n (i + 1) =
            rw no_bit refl in
          let (st', rest, run, g', same, len) =
            gc_entries-Gathered io c before victim r_buffer bits n (i + 1) st cs tail e g
              (rw short at room) (rw short at real) (rw short at src) in
          rw short (st', rest, rw skip run, g', same, len)
      | inl bit ↦
          let x = copied io c before victim i r_buffer in
          let later = valid_from bits victim r_buffer n (i + 1) in
          let long : valid_from bits victim r_buffer (suc n) i ≡ x ∷ later = rw bit refl in
          let room' : suc (length later) < length tail = omega (arith, ap length long, room) in
          let real' : All (λ (y : Copied). y.entry.at_entry ≢ 0) (x ∷ later) = rw long at real in
          let src' : All (IsSource c st.vs.gc_w_chunk.chunk_offset) (x ∷ later) = rw long at src in
          let (t, u, left, split) = two_left tail (length later) room' in
          let (st1, run1, g1, same1) =
            gc_entry-Gathered io c before victim i r_buffer st cs t u left
              (subst (λ l. Gathered c st cs l) split g) (ap (λ (b : ℕ → Bool). b i) e ∙ bit) real'.0
              src'.0 in
          let (st', rest, run, g', same, len) =
            gc_entries-Gathered io c before victim r_buffer bits n (i + 1) st1 (cs ++ x ∷ [])
              (u ∷ left) (ap (λ (b : ℕ → ℕ → Bool). b victim) same1.bitmap ∙ e) g1
              (omega (arith, ap length split, room')) real'.1
              (subst (λ k. All (IsSource c k) later) (sym same1.chunk) src'.1) in
          rw long (
            st',
            rest,
            rw run1 run,
            subst (λ l. Gathered c st' l rest) (append_assoc cs (x ∷ []) later) g',
            then-Unmoved st st1 st' same1 same,
            omega (arith, ap length split, len),
          )
    ]

-- The valid entries of all victims, as the disk holds them.
abbrev pub all_valid : Config → (ℕ → ℕ → Bool) → (ℕ → VsEntry) → List (ℕ × ℕ) → List Copied
all_valid c bits disk [] = []
all_valid c bits disk ((victim, k) ∷ rest) =
    valid_from (bits victim) victim (slice disk (victim * c.entries_per_chunk) c.entries_per_chunk)
      c.entries_per_chunk 0
    ++ all_valid c bits disk rest

abbrev pub NoneFull : Config → List (ℕ × ℕ) → Type 0
NoneFull c used = All (λ p. p.1 ≢ c.entries_per_chunk) used

recount :
    (c : Config) (st : GcState) (cs : List Copied) (tail : List VsEntry) (n : ℕ)
    → Gathered c st cs tail
    → Gathered c (record st { used_chunk_num = n }) cs tail
recount c st cs tail n g = record {
  contents = g.contents;
  whole = g.whole;
  moved = g.moved;
  next = g.next;
  in_use = g.in_use;
  unused = g.unused;
  inside = g.inside;
  sources = g.sources;
}

-- A state of a collection that began with these.
pub record Since (bits : ℕ → ℕ → Bool) (disk : ℕ → VsEntry) (chunk id : ℕ) (m : Memory)
    (st : GcState) : Type 0 where
  pub bitmap : st.vs.bitmap ≡ bits
  pub same_disk : st.vs.disk ≡ disk
  pub same_chunk : st.vs.gc_w_chunk.chunk_offset ≡ chunk
  pub same_id : st.vs.vs_id ≡ id
  pub same_memory : st.memory ≡ m

module _ (io : IoUring) (c : Config) (f : IsFaithful io)
    (even : c.entries_per_chunk ≡ c.gc_qd * (c.entries_per_chunk / c.gc_qd)) (bits : ℕ → ℕ → Bool)
    (disk : ℕ → VsEntry) (chunk id : ℕ) (m : Memory) where
  Collected-Since :
      (st : GcState) (cs : List Copied) (vs' : ValueStorage) (m' : Memory)
      → Since bits disk chunk id m st
      → Collected c st.vs.vs_id st.vs.gc_w_chunk.chunk_offset st.vs.disk st.memory cs vs' m'
      → Collected c id chunk disk m cs vs' m'
  Collected-Since st cs vs' m' s r =
      subst (λ d. Collected c id chunk d m cs vs' m') s.same_disk
        (subst (λ k. Collected c id k st.vs.disk m cs vs' m') s.same_chunk
          (subst (λ k. Collected c k st.vs.gc_w_chunk.chunk_offset st.vs.disk m cs vs' m') s.same_id
            (subst
              (λ k. Collected c st.vs.vs_id st.vs.gc_w_chunk.chunk_offset st.vs.disk k cs vs' m')
              s.same_memory r)))

  -- Victims that fit into the new chunk together, with room left, are all copied, and the chunk is
  -- written and linked.
  pub gc_victims-Collected :
      (before : ℕ) (used : List (ℕ × ℕ)) (st : GcState) (cs : List Copied) (tail : List VsEntry)
      (x : Copied) (xs : List Copied)
      → Since bits disk chunk id m st
      → Gathered c st cs tail
      → NoneFull c used
      → length (all_valid c bits disk used) < length tail
      → All (λ y. y.entry.at_entry ≢ 0) (all_valid c bits disk used)
      → All (IsSource c chunk) (all_valid c bits disk used)
      → cs ++ all_valid c bits disk used ≡ x ∷ xs
      → DistinctAts (copies (x ∷ xs))
      → (vs' : ValueStorage) × (m' : Memory) × (gc_victims io c before used st ≡ ok (vs', m'))
        × Collected c id chunk disk m (x ∷ xs) vs' m'
  unfolding gc_victims
  gc_victims-Collected before [] st cs tail x xs s g full room real src split apart =
      let (vs', m', run, r) =
        gc_end-Collected io c f even st x xs tail
          (subst (λ l. Gathered c st l tail) (sym (append-nil cs) ∙ split) g) apart in
      (vs', m', run, Collected-Since st (x ∷ xs) vs' m' s r)
  gc_victims-Collected before ((victim, k) ∷ used) st cs tail x xs s g full room real src split
        apart =
      let n = c.entries_per_chunk in
      let buffer = slice disk (victim * n) n in
      let v = valid_from (bits victim) victim buffer n 0 in
      let others = all_valid c bits disk used in
      let read : read_gc_r_chunk io c st.vs victim ≡ buffer =
        read_gc_r_chunk-slice io c st.vs victim f even
        ∙ ap (λ d. slice d (victim * n) n) s.same_disk in
      let sum = length-append {0} v others in
      let (st1, rest, run1, g1, same, len) =
        gc_entries-Gathered io c before victim buffer (bits victim) n 0 st cs tail
          (ap (λ (b : ℕ → ℕ → Bool). b victim) s.bitmap) g (omega (arith, sum, room))
          (All-front _ v others real)
          (subst (λ ch. All (IsSource c ch) v) (sym s.same_chunk) (All-front _ v others src)) in
      let count = (st1.used_chunk_num + (2 ^ 64 - 1)) % 2 ^ 64 in
      let (vs', m', run2, r) =
        gc_victims-Collected before used (record st1 { used_chunk_num = count }) (cs ++ v) rest x xs
          (record {
            bitmap = same.bitmap ∙ s.bitmap;
            same_disk = same.disk ∙ s.same_disk;
            same_chunk = same.chunk ∙ s.same_chunk;
            same_id = same.id ∙ s.same_id;
            same_memory = same.memory ∙ s.same_memory;
          })
          (recount c st1 (cs ++ v) rest count g1) full.1 (omega (arith, sum, len, room))
          (All-back _ v others real) (All-back _ v others src) (append_assoc cs v others ∙ split)
          apart in
      let some_room : (k == n) ≡ false = ground (arith, full.0) in
      (vs', m', rw (some_room, read, run1) run2, r)
