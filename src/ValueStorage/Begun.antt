-- ===== src/ValueStorage/Begun.antt =====
-- Garbage collection in PRISM/src/ValueStorage.cpp: a collection from its first chunk on.
use hkv.Base.{
  ℕ, zero, suc, ◌+◌, ◌*◌, ◌/◌, ◌≤◌, ◌<◌, ◌≡◌, refl, sym, ap, subst, ◌∙◌, ◌≢◌, Bool, true, inl, inr,
  List, [], ◌∷◌, arith, ok, All, All-append, length, length-replicate, replicate, Bool-cases,
}
use hkv.Config.{Config}
use hkv.Memory.{Memory}
use hkv.ValueStorage.{
  VsEntry, blank, ValueStorage, count, get_used_chunk_num, get_free_chunk_offset,
}
use hkv.ValueStorage.Buffer.{IoUring}
use hkv.ValueStorage.Chunks.{HasEmpty, get_free_chunk_offset-FirstFree}
use hkv.ValueStorage.Linked.{DistinctAts}
use hkv.ValueStorage.Sorted.{IsFaithful, slice}
use hkv.ValueStorage.Moved.{Copied, copies}
use hkv.ValueStorage.Relinked.{IsSource}
use hkv.ValueStorage.Gathered.{Gathered}
use hkv.ValueStorage.Collected.{Collected}
use hkv.ValueStorage.Victims.{valid_from, all_valid, NoneFull, gc_victims-Collected}
use hkv.ValueStorage.Collect.{GcState, init_gc_w_chunk, gc_victims, gc_begin}

-- Victims are chunks of the file that hold a valid entry.
abbrev pub AllUsed : Config → ValueStorage → List (ℕ × ℕ) → Type 0
AllUsed c vs used = All (λ p. (count c vs p.0 ≢ 0) × (p.0 < c.chunk_num)) used

valid_from-IsSource :
    (c : Config) (chunk : ℕ) (bits : ℕ → Bool) (victim : ℕ) (r_buffer : List VsEntry) (n i : ℕ)
    → victim ≢ chunk
    → victim < c.chunk_num
    → i + n ≤ c.entries_per_chunk
    → All (IsSource c chunk) (valid_from bits victim r_buffer n i)
valid_from-IsSource c chunk bits victim r_buffer zero i ne inside le = tt
valid_from-IsSource c chunk bits victim r_buffer (suc n) i ne inside le =
    let rest = valid_from-IsSource c chunk bits victim r_buffer n (i + 1) ne inside (omega arith) in
    elim (Bool-cases (bits i)) [
      | inl bit ↦ rw bit ((ne, omega arith, omega arith), rest)
      | inr no_bit ↦ rw no_bit rest
    ]

all_valid-IsSource :
    (c : Config) (vs : ValueStorage) (chunk : ℕ) (used : List (ℕ × ℕ))
    → count c vs chunk ≡ 0
    → AllUsed c vs used
    → All (IsSource c chunk) (all_valid c vs.bitmap vs.disk used)
all_valid-IsSource c vs chunk [] empty h = tt
all_valid-IsSource c vs chunk ((victim, k) ∷ used) empty h =
    let ne : victim ≢ chunk = λ e. h.0.0 (ap (count c vs) e ∙ empty) in
    All-append _ _ _
      (valid_from-IsSource c chunk (vs.bitmap victim) victim
        (slice vs.disk (victim * c.entries_per_chunk) c.entries_per_chunk) c.entries_per_chunk 0 ne
        h.0.1 (omega arith))
      (all_valid-IsSource c vs chunk used empty h.1)

all_unused : (n : ℕ) → All (λ e. e.at_entry ≡ 0) (replicate n blank)
all_unused zero = tt
all_unused (suc n) = (refl, all_unused n)

module _ (io : IoUring) (c : Config) where
  -- The storage when the new chunk is set up.
  abbrev begun : ℕ → List ℕ → ValueStorage → ValueStorage
  begun chunk rest vs = record vs {
    free_chunk_list = rest;
    gc_w_chunk = record (vs.gc_w_chunk) {
      chunk_offset = chunk;
      entry_offset = 0;
      buffers_set = true;
    };
  }

  abbrev first_state : ℕ → List ℕ → ValueStorage → Memory → GcState
  first_state chunk rest vs m = record {
    vs = begun chunk rest vs;
    memory = m;
    w_offset = 0;
    used_chunk_num = get_used_chunk_num c vs;
  }

  begun-Gathered :
      (vs : ValueStorage) (m : Memory) (chunk : ℕ) (rest : List ℕ)
      → vs.gc_w_chunk.w_buffer ≡ replicate c.entries_per_chunk blank
      → vs.gc_w_chunk.moved_entry_list ≡ []
      → chunk < c.chunk_num
      → Gathered c (first_state chunk rest vs m) [] (replicate c.entries_per_chunk blank)
  begun-Gathered vs m chunk rest zeroed none_moved inside = record {
    contents = zeroed;
    whole = ap length zeroed ∙ length-replicate {0} c.entries_per_chunk blank;
    moved = none_moved;
    next = refl;
    in_use = tt;
    unused = all_unused c.entries_per_chunk;
    inside = inside;
    sources = tt;
  }

  gc_begin-run :
      (vs : ValueStorage) (m : Memory) (used : List (ℕ × ℕ)) (chunk : ℕ) (rest : List ℕ)
      → init_gc_w_chunk c vs ≡ ok (begun chunk rest vs)
      → gc_begin io c vs m used
        ≡ gc_victims io c (get_used_chunk_num c vs) used (first_state chunk rest vs m)
  unfolding gc_begin
  gc_begin-run vs m used chunk rest run = rw run refl

  init_gc_w_chunk-begun :
      (vs : ValueStorage) (chunk : ℕ) (rest : List ℕ)
      → get_free_chunk_offset c vs ≡ ok (chunk, record vs { free_chunk_list = rest })
      → init_gc_w_chunk c vs ≡ ok (begun chunk rest vs)
  unfolding init_gc_w_chunk
  init_gc_w_chunk-begun vs chunk rest run = rw run refl

  -- A collection begins with a zeroed buffer and no noted moves, an empty chunk on the free list and a
  -- ring that does what is asked of it.
  pub gc_begin-Collected :
      (vs : ValueStorage) (m : Memory) (used : List (ℕ × ℕ)) (x : Copied) (xs : List Copied)
      → IsFaithful io
      → c.entries_per_chunk ≡ c.gc_qd * (c.entries_per_chunk / c.gc_qd)
      → All (λ ch. ch < c.chunk_num) vs.free_chunk_list
      → HasEmpty c vs vs.free_chunk_list
      → vs.gc_w_chunk.w_buffer ≡ replicate c.entries_per_chunk blank
      → vs.gc_w_chunk.moved_entry_list ≡ []
      → NoneFull c used
      → AllUsed c vs used
      → all_valid c vs.bitmap vs.disk used ≡ x ∷ xs
      → length (x ∷ xs) < c.entries_per_chunk
      → All (λ y. y.entry.at_entry ≢ 0) (x ∷ xs)
      → DistinctAts (copies (x ∷ xs))
      → (chunk : ℕ) × (vs' : ValueStorage) × (m' : Memory) × (gc_begin io c vs m used
          ≡ ok (vs', m'))
        × (count c vs chunk ≡ 0)
        × (chunk < c.chunk_num)
        × Collected c vs.vs_id chunk vs.disk m (x ∷ xs) vs' m'
  gc_begin-Collected vs m used x xs f even free empty zeroed none_moved full in_use split room real
        apart =
      let (chunk, rest, run, first) = get_free_chunk_offset-FirstFree c vs free empty in
      let (vs', m', run', r) =
        gc_victims-Collected io c f even vs.bitmap vs.disk chunk vs.vs_id m
          (get_used_chunk_num c vs) used (first_state chunk rest vs m) []
          (replicate c.entries_per_chunk blank) x xs
          (record {
            bitmap = refl;
            same_disk = refl;
            same_chunk = refl;
            same_id = refl;
            same_memory = refl;
          })
          (begun-Gathered vs m chunk rest zeroed none_moved first.inside) full
          (omega (arith, ap length split, room, length-replicate {0} c.entries_per_chunk blank))
          (subst (All (λ y. y.entry.at_entry ≢ 0)) (sym split) real)
          (all_valid-IsSource c vs chunk used first.empty in_use) split apart in
      (
        chunk,
        vs',
        m',
        gc_begin-run vs m used chunk rest (init_gc_w_chunk-begun vs chunk rest run) ∙ run',
        first.empty,
        first.inside,
        r,
      )
