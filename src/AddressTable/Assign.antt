-- ===== src/AddressTable/Assign.antt =====
-- The slots that `AddressTable::assign` hands out and `AddressTable::free` takes back
-- (PRISM/src/AddressTable.cpp).
use hkv.Base.{
  ℕ, ◌+◌, ◌-◌, ◌≤◌, ◌<◌, ◌≡◌, refl, ◌≢◌, ◌⊎◌, inl, inr, true, false, List, [], ◌∷◌, ◌++◌, arith,
  lt→ltb, Bool-cases, ◌==◌, if◌then◌else◌, Run, ok, sym, ap, ◌∙◌, All, All-append, All-mono, subst,
}
use mathlib.Core.Bool.{false≢true}
use hkv.Config.{Config}
use hkv.Memory.{Memory, store_at, load_at, get_untagged_ptr, put_tagged_ptr, clean_entry}
use hkv.Memory.Tags.{IsUserPtr}
use hkv.AddressTable.{AddressTable, slot, unstored, alloc, is_empty, next_empty, assign, free}
use hkv.AddressTable.Slots.{
  Scan, found, exhausted, next_empty-Scan, is_empty-store_alloc, get_at_offset-slot, get_tag-clean,
}

abbrev Distinct : List ℕ → Type 0
Distinct [] = Unit {0}
Distinct (x ∷ xs) = All (λ y. x ≢ y) xs × Distinct xs

-- The slots on the free list are clean, distinct and below the first slot never handed out.
pub record IsValid (c : Config) (t : AddressTable) (m : Memory) : Type 0 where
  pub bounded : t.next_empty_at_offset ≤ c.at_entry_num
  pub whole : t.whole_file_written ≡ true → t.next_empty_at_offset ≡ c.at_entry_num
  pub listed :
      All (λ o. (o < t.next_empty_at_offset) × (is_empty t o m ≡ true)) t.free_at_offset_list
  pub distinct : Distinct t.free_at_offset_list

-- A slot that a later `assign` may hand out.
abbrev pub OnOffer : AddressTable → ℕ → Type 0
OnOffer t o = (t.next_empty_at_offset ≤ o) ⊎ ¬ All (λ x. x ≢ o) t.free_at_offset_list

-- What `assign` promises: the fresh slot, which was on offer and is so no more.
pub record Assigned (c : Config) (t : AddressTable) (m : Memory) (r : ℕ × AddressTable × Memory)
    : Type 0 where
  pub offset : ℕ
  pub address : r.0 ≡ slot t offset
  pub inside : offset < c.at_entry_num
  pub was_empty : is_empty t offset m ≡ true
  pub written : r.2 ≡ store_at (slot t offset) alloc m
  pub valid : IsValid c r.1 r.2
  pub taken : ¬ OnOffer r.1 offset

module _ (c : Config) (t : AddressTable) (m : Memory) (v : IsValid c t m) where
  -- The slots on offer stay clean when one of them is written afresh.
  listed-store :
      (p n : ℕ) (l : List ℕ)
      → t.next_empty_at_offset ≤ n
      → All (λ o. (o < t.next_empty_at_offset) × (is_empty t o m ≡ true)) l
      → All (λ o. (o < n) × (is_empty t o (store_at p alloc m) ≡ true)) l
  listed-store p n l le = All-mono l (λ o h. (omega (arith, h.0), is_empty-store_alloc t p o m h.1))

  -- The slot that the scan found.
  abbrev pub advanced : ℕ → AddressTable
  advanced at = record t {
    next_empty_at_offset = at + 1;
    whole_file_written = if at + 1 == c.at_entry_num then true else t.whole_file_written;
  }

  scanned-Assigned :
      (at : ℕ)
      → t.whole_file_written ≡ false
      → t.next_empty_at_offset ≤ at
      → at < c.at_entry_num
      → is_empty t at m ≡ true
      → Assigned c t m (slot t at, advanced at, store_at (slot t at) alloc m)
  unfolding is_empty
  scanned-Assigned at w ge lt empty = record {
    offset = at;
    address = refl;
    inside = lt;
    was_empty = empty;
    written = refl;
    valid = record {
      bounded = omega arith;
      whole = ground arith;
      listed = listed-store (slot t at) (at + 1) t.free_at_offset_list (omega arith) v.listed;
      distinct = v.distinct;
    };
    taken = gone;
  }
    where
      gone : ¬ OnOffer (advanced at) at
      gone (inl h) = omega arith
      gone (inr h) = h (All-mono t.free_at_offset_list (λ o k. omega (arith, k.0)) v.listed)

  -- The slot at the front of the free list.
  popped-Assigned :
      (o : ℕ) (rest : List ℕ)
      → o ∷ rest ≡ t.free_at_offset_list
      → Assigned c t m
          (slot t o, record t { free_at_offset_list = rest }, store_at (slot t o) alloc m)
  unfolding is_empty
  popped-Assigned o rest e = record {
    offset = o;
    address = refl;
    inside = omega (arith, all.0.0, v.bounded);
    was_empty = all.0.1;
    written = refl;
    valid = record {
      bounded = v.bounded;
      whole = v.whole;
      listed = listed-store (slot t o) t.next_empty_at_offset rest (omega arith) all.1;
      distinct = apart.1;
    };
    taken = gone;
  }
    where
      all : All (λ o. (o < t.next_empty_at_offset) × (is_empty t o m ≡ true)) (o ∷ rest)
      all = subst (All λ o. (o < t.next_empty_at_offset) × (is_empty t o m ≡ true)) (sym e) v.listed

      apart : Distinct (o ∷ rest)
      apart = subst Distinct (sym e) v.distinct

      gone : ¬ OnOffer (record t { free_at_offset_list = rest }) o
      gone (inl h) = omega (arith, all.0.0)
      gone (inr h) = h (All-mono rest (λ x ne. λ q. ne (sym q)) apart.0)

  pub assign-scanned :
      (at : ℕ)
      → t.whole_file_written ≡ false
      → next_empty c (c.at_entry_num - t.next_empty_at_offset + 1) t t.next_empty_at_offset m
        ≡ ok at
      → at < c.at_entry_num
      → assign c t m ≡ ok (slot t at, advanced at, store_at (slot t at) alloc m)
  unfolding assign
  assign-scanned at w e lt = ground (arith, lt→ltb _ _ lt)

  Scan-Assigned :
      (r : Run ℕ) (out : ℕ × AddressTable × Memory)
      → t.whole_file_written ≡ false
      → next_empty c (c.at_entry_num - t.next_empty_at_offset + 1) t t.next_empty_at_offset m ≡ r
      → Scan c t m t.next_empty_at_offset r
      → assign c t m ≡ ok out
      → Assigned c t m out
  unfolding assign
  Scan-Assigned r out w e (found at ge lt empty before) h =
      subst (Assigned c t m) (ground (arith, lt→ltb _ _ lt)) (scanned-Assigned at w ge lt empty)
  Scan-Assigned r out w e (exhausted all) h = ground arith

  list-Assigned :
      (l : List ℕ) (out : ℕ × AddressTable × Memory)
      → t.whole_file_written ≡ true
      → l ≡ t.free_at_offset_list
      → assign c t m ≡ ok out
      → Assigned c t m out
  unfolding assign
  list-Assigned [] out w e h = ground arith
  list-Assigned (o ∷ rest) out w e h =
      subst (Assigned c t m) (ground arith) (popped-Assigned o rest e)

-- In a valid table whatever `assign` returns is a slot inside the table that was empty and on offer;
-- the memory changes at that slot alone, the table stays valid, and the slot is no longer on offer.
pub assign-Assigned :
    (c : Config) (t : AddressTable) (m : Memory) (r : ℕ × AddressTable × Memory)
    → IsValid c t m
    → assign c t m ≡ ok r
    → Assigned c t m r
assign-Assigned c t m r v h = elim (Bool-cases t.whole_file_written) [
  | inl w ↦ list-Assigned c t m v t.free_at_offset_list r w refl h
  | inr w ↦
      Scan-Assigned c t m v _ r w refl
        (next_empty-Scan c (c.at_entry_num - t.next_empty_at_offset + 1) t t.next_empty_at_offset m
          (omega (arith, v.bounded)) v.bounded)
        h
]

-- A valid table that still has an empty slot, not handed out before or on its free list, has one for
-- the next key: `assign` neither stops nor runs out of fuel.
pub assign_total :
    (c : Config) (t : AddressTable) (m : Memory) (o : ℕ)
    → IsValid c t m
    → t.whole_file_written ≡ false
    → t.next_empty_at_offset ≤ o
    → o < c.at_entry_num
    → is_empty t o m ≡ true
    → (r : ℕ × AddressTable × Memory) × (assign c t m ≡ ok r) × Assigned c t m r
assign_total c t m o v w ge lt empty = go _ refl (
    next_empty-Scan c (c.at_entry_num - t.next_empty_at_offset + 1) t t.next_empty_at_offset m
      (omega (arith, v.bounded)) v.bounded)
  where
    returns :
        (at : ℕ)
        → next_empty c (c.at_entry_num - t.next_empty_at_offset + 1) t t.next_empty_at_offset m
          ≡ ok at
        → at < c.at_entry_num
        → assign c t m ≡ ok (slot t at, advanced c t m v at, store_at (slot t at) alloc m)
    returns at e up = assign-scanned c t m v at w e up

    go :
        (r : Run ℕ)
        → next_empty c (c.at_entry_num - t.next_empty_at_offset + 1) t t.next_empty_at_offset m ≡ r
        → Scan c t m t.next_empty_at_offset r
        → (out : ℕ × AddressTable × Memory) × (assign c t m ≡ ok out) × Assigned c t m out
    go r e (found at ge up clean before) = (
      (slot t at, advanced c t m v at, store_at (slot t at) alloc m),
      returns at e up,
      scanned-Assigned c t m v at w ge up clean,
    )
    go r e (exhausted all) = absurd (false≢true (sym (all o ge lt) ∙ empty))

-- Appending an offset that is not on the list.
Distinct-snoc : (l : List ℕ) (o : ℕ) → Distinct l → All (λ x. x ≢ o) l → Distinct (l ++ o ∷ [])
Distinct-snoc [] o d n = (tt, tt)
Distinct-snoc (x ∷ l) o d n =
    (All-append (λ y. x ≢ y) l (o ∷ []) d.0 (n.0, tt), Distinct-snoc l o d.1 n.1)

-- Freeing an entry in use of a slot handed out before puts that slot on the free list, clean, leaves
-- every other entry alone, and keeps the table valid.
pub free-IsValid :
    (c : Config) (t : AddressTable) (m : Memory) (o : ℕ)
    → IsValid c t m
    → 0 < t.at_starting_addr
    → o < t.next_empty_at_offset
    → is_empty t o m ≡ false
    → IsUserPtr (get_untagged_ptr (m.at (slot t o)).val_addr)
    → (t' : AddressTable) × (m' : Memory) × (free t (slot t o) m ≡ ok (t', m'))
      × IsValid c t' m'
      × (t'.free_at_offset_list ≡ t.free_at_offset_list ++ o ∷ [])
      × (is_empty t' o m' ≡ true)
      × ((p : ℕ) → p ≢ slot t o → m'.at p ≡ m.at p)
unfolding free is_empty load_at
free-IsValid c t m o v base lt full user = (
  record t { free_at_offset_list = t.free_at_offset_list ++ o ∷ [] },
  store_at (slot t o) (unstored (put_tagged_ptr (m.at (slot t o)).val_addr clean_entry)) m,
  ground (arith, get_at_offset-slot t o),
  record {
    bounded = v.bounded;
    whole = v.whole;
    listed =
        All-append _ t.free_at_offset_list (o ∷ [])
          (All-mono t.free_at_offset_list (λ x h. (h.0, still x h.1)) v.listed) ((lt, cleaned), tt);
    distinct = Distinct-snoc t.free_at_offset_list o v.distinct (
        All-mono t.free_at_offset_list
          (λ x h e. false≢true (sym full ∙ ap (λ y. is_empty t y m) (sym e) ∙ h.1)) v.listed);
  },
  refl,
  cleaned,
  λ p ne. ground arith,
)
  where
    m' : Memory
    m' = store_at (slot t o) (unstored (put_tagged_ptr (m.at (slot t o)).val_addr clean_entry)) m

    cleaned : is_empty t o m' ≡ true
    cleaned = ground (arith, get_tag-clean (m.at (slot t o)).val_addr user)

    still : (x : ℕ) → is_empty t x m ≡ true → is_empty t x m' ≡ true
    still x h = ground (arith, get_tag-clean (m.at (slot t o)).val_addr user)
