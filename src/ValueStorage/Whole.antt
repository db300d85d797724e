-- ===== src/ValueStorage/Whole.antt =====
-- Garbage collection in PRISM/src/ValueStorage.cpp: its victims are all used chunks.
use hkv.Base.{
  ℕ, zero, suc, ◌+◌, ◌*◌, ◌/◌, ◌≤◌, ◌<◌, ◌≡◌, refl, sym, ap, subst, ◌∙◌, ◌≢◌, ◌⊎◌, Bool, false, inl,
  inr, List, [], ◌∷◌, arith, ok, All, All-mono, length, length-append, replicate, Bool-cases, ltb,
  if◌then◌else◌,
}
use hkv.Base.Sort.{All-sort_by}
use hkv.Config.{Config}
use hkv.Memory.{Memory}
use hkv.ValueStorage.{VsEntry, blank, ValueStorage, count, count_upto}
use hkv.ValueStorage.Buffer.{IoUring}
use hkv.ValueStorage.Chunks.{HasEmpty}
use hkv.ValueStorage.Linked.{DistinctAts}
use hkv.ValueStorage.Sorted.{IsFaithful, slice}
use hkv.ValueStorage.Moved.{Copied, copies}
use hkv.ValueStorage.Collected.{Collected}
use hkv.Base.Order.{Distinct}
use hkv.ValueStorage.Ordered.{SortResult, TakesOrder, takes_order}
use hkv.ValueStorage.Victims.{valid_from, all_valid, NoneFull}
use hkv.ValueStorage.Begun.{AllUsed, gc_begin-Collected}
use hkv.ValueStorage.Collect.{
  used_from, create_used_chunk_list, choose, gc_begin, garbage_collection,
}

abbrev weight : Bool → ℕ
weight b = if b then 1 else 0

length-valid_from :
    (bits : ℕ → Bool) (victim : ℕ) (r_buffer : List VsEntry) (n i : ℕ)
    → count_upto bits i + length (valid_from bits victim r_buffer n i) ≡ count_upto bits (i + n)
unfolding count_upto
length-valid_from bits victim r_buffer zero i =
    let e : count_upto bits i ≡ count_upto bits (i + 0) = ap (count_upto bits) (omega arith) in
    omega (arith, e)
length-valid_from bits victim r_buffer (suc n) i =
    let rest = length-valid_from bits victim r_buffer n (i + 1) in
    let one_up : count_upto bits (i + 1 + n) ≡ count_upto bits (i + suc n) =
      ap (count_upto bits) (omega arith) in
    let one_next : i + 1 ≡ suc i = omega arith in
    let next : count_upto bits (i + 1) ≡ (if bits i then 1 else 0) + count_upto bits i =
      ap (count_upto bits) one_next in
    elim (Bool-cases (bits i)) [
      | inl bit ↦ rw bit (omega (arith, rest, one_up, next, ap weight bit))
      | inr no_bit ↦ rw no_bit (omega (arith, rest, one_up, next, ap weight no_bit))
    ]

-- The numbers of a list of used chunks are theirs.
abbrev pub Counted : Config → ValueStorage → List (ℕ × ℕ) → Type 0
Counted c vs used = All (λ p. (p.1 ≡ count c vs p.0) × (0 < p.1) × (p.0 < c.chunk_num)) used

used_from-Counted :
    (c : Config) (vs : ValueStorage) (n chunk : ℕ)
    → chunk + n ≤ c.chunk_num
    → Counted c vs (used_from c vs n chunk)
unfolding used_from
used_from-Counted c vs zero chunk le = tt
used_from-Counted c vs (suc n) chunk le =
    let rest = used_from-Counted c vs n (chunk + 1) (omega arith) in
    elim (Bool-cases (ltb 0 (count c vs chunk))) [
      | inl some ↦ rw some ((refl, ground (arith, some), omega arith), rest)
      | inr none ↦ rw none rest
    ]

create_used_chunk_list-Counted :
    (c : Config) (vs : ValueStorage) → Counted c vs (create_used_chunk_list c vs)
unfolding create_used_chunk_list
create_used_chunk_list-Counted c vs =
    All-sort_by _ (λ p. p.1) (used_from c vs c.chunk_num 0)
      (used_from-Counted c vs c.chunk_num 0 (omega arith))

Counted-AllUsed :
    (c : Config) (vs : ValueStorage) (used : List (ℕ × ℕ)) → Counted c vs used → AllUsed c vs used
Counted-AllUsed c vs used h = All-mono used (λ p k. ((λ e. omega (arith, k.0, k.1, e)), k.2)) h

first_victim :
    (c : Config) (vs : ValueStorage) (p : ℕ × ℕ) (used : List (ℕ × ℕ))
    → p.1 ≡ count c vs p.0
    → p.1 + length (all_valid c vs.bitmap vs.disk used)
      ≡ length (all_valid c vs.bitmap vs.disk (p ∷ used))
unfolding count count_upto
first_victim c vs p used e =
    let n = c.entries_per_chunk in
    let whole : 0 + n ≡ n = omega arith in
    let v = valid_from (vs.bitmap p.0) p.0 (slice vs.disk (p.0 * n) n) n 0 in
    let len : count_upto (vs.bitmap p.0) 0 + length v ≡ count_upto (vs.bitmap p.0) n =
      length-valid_from (vs.bitmap p.0) p.0 (slice vs.disk (p.0 * n) n) n 0
      ∙ ap (count_upto (vs.bitmap p.0)) whole in
    omega (arith, e, len, length-append {0} v (all_valid c vs.bitmap vs.disk used))

Counted-NoneFull :
    (c : Config) (vs : ValueStorage) (used : List (ℕ × ℕ))
    → Counted c vs used
    → length (all_valid c vs.bitmap vs.disk used) < c.entries_per_chunk
    → NoneFull c used
Counted-NoneFull c vs [] h room = tt
Counted-NoneFull c vs (p ∷ used) h room =
    let first = first_victim c vs p used h.0.0 in
    (
      (λ e. omega (arith, first, room, e)),
      Counted-NoneFull c vs used h.1 (omega (arith, first, room)),
    )

List-cases : (l : List Copied) → (l ≡ []) ⊎ ((x : Copied) × (xs : List Copied) × (l ≡ x ∷ xs))
List-cases [] = inl refl
List-cases (x ∷ xs) = inr (x, xs, refl)

some_valid :
    (c : Config) (vs : ValueStorage) (p : ℕ × ℕ) (used : List (ℕ × ℕ))
    → Counted c vs (p ∷ used)
    → (x : Copied) × (xs : List Copied) × (all_valid c vs.bitmap vs.disk (p ∷ used) ≡ x ∷ xs)
some_valid c vs p used h = elim (List-cases (all_valid c vs.bitmap vs.disk (p ∷ used))) [
  | inl none ↦ absurd (omega (arith, ap length none, first_victim c vs p used h.0.0, h.0.1))
  | inr some ↦ some
]

-- A storage that a collection can empty into one chunk: the collecting buffer is zeroed and has no
-- moves noted, a chunk of the free list is empty, two chunks or more are in use, and all their valid
-- entries together leave room in a chunk, each with a table entry of its own.
pub record Collectable (c : Config) (vs : ValueStorage) : Type 0 where
  pub in_file : All (λ ch. ch < c.chunk_num) vs.free_chunk_list
  pub has_empty : HasEmpty c vs vs.free_chunk_list
  pub zeroed : vs.gc_w_chunk.w_buffer ≡ replicate c.entries_per_chunk blank
  pub none_moved : vs.gc_w_chunk.moved_entry_list ≡ []
  pub two : 2 ≤ length (create_used_chunk_list c vs)
  pub room :
      length (all_valid c vs.bitmap vs.disk (create_used_chunk_list c vs)) < c.entries_per_chunk
  pub in_use :
      All (λ y. y.entry.at_entry ≢ 0) (all_valid c vs.bitmap vs.disk (create_used_chunk_list c vs))
  pub apart : DistinctAts (copies (all_valid c vs.bitmap vs.disk (create_used_chunk_list c vs)))

two_first :
    (l : List (ℕ × ℕ))
    → 2 ≤ length l
    → (p : ℕ × ℕ) × (q : ℕ × ℕ) × (rest : List (ℕ × ℕ)) × (l ≡ p ∷ q ∷ rest)
two_first [] h = absurd (omega arith)
two_first (p ∷ []) h = absurd (omega arith)
two_first (p ∷ q ∷ rest) h = (p, q, rest, refl)

module _ (c : Config) where
  -- The valid values of the storage, as the collection meets them.
  abbrev pub collected_values : ValueStorage → List Copied
  collected_values vs = all_valid c vs.bitmap vs.disk (create_used_chunk_list c vs)

module _ (io : IoUring) (c : Config) where
  collects :
      (vs : ValueStorage) (m : Memory) (p q : ℕ × ℕ) (used : List (ℕ × ℕ))
      → create_used_chunk_list c vs ≡ p ∷ q ∷ used
      → p.1 + q.1 ≤ c.entries_per_chunk
      → garbage_collection io c vs m ≡ gc_begin io c vs m (p ∷ q ∷ used)
  unfolding garbage_collection choose
  collects vs m p q used list le =
      let fits : ltb c.entries_per_chunk (p.1 + q.1) ≡ false = ground arith in rw (list, fits) refl

  -- The same with equal keys too, where the sorts keep the order of those.
  pub garbage_collection-Collected_stable :
      (vs : ValueStorage) (m : Memory)
      → IsFaithful io
      → c.entries_per_chunk ≡ c.gc_qd * (c.entries_per_chunk / c.gc_qd)
      → Collectable c vs
      → (chunk : ℕ) × (vs' : ValueStorage) × (m' : Memory) × (garbage_collection io c vs m
          ≡ ok (vs', m'))
        × (count c vs chunk ≡ 0)
        × (chunk < c.chunk_num)
        × Collected c vs.vs_id chunk vs.disk m
            (all_valid c vs.bitmap vs.disk (create_used_chunk_list c vs))
            vs'
            m'
  garbage_collection-Collected_stable vs m f even h =
      let (p, q, used, list) = two_first (create_used_chunk_list c vs) h.two in
      let counted : Counted c vs (p ∷ q ∷ used) =
        subst (Counted c vs) list (create_used_chunk_list-Counted c vs) in
      let (x, xs, split) = some_valid c vs p (q ∷ used) counted in
      let all = ap (all_valid c vs.bitmap vs.disk) list ∙ split in
      let room =
        subst (λ l. length (all_valid c vs.bitmap vs.disk l) < c.entries_per_chunk) list h.room in
      let first = first_victim c vs p (q ∷ used) counted.0.0 in
      let second = first_victim c vs q used counted.1.0.0 in
      let (chunk, vs', m', run, empty, inside, r) =
        gc_begin-Collected io c vs m (p ∷ q ∷ used) x xs f even h.in_file h.has_empty h.zeroed
          h.none_moved (Counted-NoneFull c vs (p ∷ q ∷ used) counted room)
          (Counted-AllUsed c vs (p ∷ q ∷ used) counted) split
          (subst (λ l. length l < c.entries_per_chunk) all h.room)
          (subst (All (λ y. y.entry.at_entry ≢ 0)) all h.in_use)
          (subst (λ l. DistinctAts (copies l)) all h.apart) in
      (
        chunk,
        vs',
        m',
        collects vs m p q used list (omega (arith, first, second, room)) ∙ run,
        empty,
        inside,
        subst (λ l. Collected c vs.vs_id chunk vs.disk m l vs' m') (sym all) r,
      )

  -- The ring does what is asked of it, and reads and writes divide a chunk evenly. Two chunks or more
  -- of the storage are in use, one has room for all their valid values, which have distinct keys and
  -- table entries of their own, and a chunk of the free list is empty; the collecting buffer is
  -- zeroed with no moves noted. `entries` and `pairs` are what `std::sort` makes of those values and of
  -- the pairs of keys and table entries in their notes. Then garbage_collection returns, and these are
  -- the orders that it takes. The table entry of a valid value that was not updated or moved meanwhile
  -- points at a valid place of a chunk that was empty, and the disk holds the entry there; any other is
  -- left alone. The old places are given up, the file outside that chunk, the other table entries, the
  -- log and the cache do not change, and the buffer is zeroed with no moves noted.
  pub garbage_collection-Collected :
      (vs : ValueStorage) (m : Memory) (entries : List VsEntry) (pairs : List (ℕ × ℕ))
      → IsFaithful io
      → c.entries_per_chunk ≡ c.gc_qd * (c.entries_per_chunk / c.gc_qd)
      → Collectable c vs
      → Distinct (λ e. e.key) (copies (collected_values c vs))
      → SortResult (collected_values c vs) entries pairs
      → (chunk : ℕ) × (vs' : ValueStorage) × (m' : Memory) × (garbage_collection io c vs m
          ≡ ok (vs', m'))
        × (count c vs chunk ≡ 0)
        × (chunk < c.chunk_num)
        × Collected c vs.vs_id chunk vs.disk m (collected_values c vs) vs' m'
        × TakesOrder chunk (collected_values c vs) entries pairs
  garbage_collection-Collected vs m entries pairs f even h distinct sorted =
      let (chunk, vs', m', run, empty, inside, r) =
        garbage_collection-Collected_stable vs m f even h in
      (
        chunk,
        vs',
        m',
        run,
        empty,
        inside,
        r,
        takes_order chunk (collected_values c vs) entries pairs distinct sorted,
      )
