-- ===== src/AddressTable/Slots.antt =====
-- The slots of an address table (PRISM/src/AddressTable.cpp): their addresses, and the scan for an
-- empty one.
use hkv.Base.{
  ℕ, zero, suc, ◌+◌, ◌≤◌, ◌<◌, ◌≡◌, refl, inl, inr, true, false, pos, arith, ltb, ltb→lt,
  ltb-false→le, Bool-cases, ℕ_discrete, subst, Run, ok, stop, out_of_range,
}
use hkv.Config.{Config}
use hkv.Memory.{Memory, store_at, get_tag, get_untagged_ptr, put_tagged_ptr, clean_entry}
use hkv.Memory.Tags.{IsUserPtr, put_tagged_ptr_lem}
use hkv.AddressTable.{AddressTable, slot, alloc, is_empty, next_empty, get_at_offset}

pub get_at_offset-slot : (t : AddressTable) (offset : ℕ) → get_at_offset t (slot t offset) ≡ offset
unfolding get_at_offset
get_at_offset-slot t offset = omega arith

pub slot-injective : (t : AddressTable) (a b : ℕ) → slot t a ≡ slot t b → a ≡ b
slot-injective t a b e = omega arith

-- An entry that `alloc` made is clean.
pub is_empty-store_alloc :
    (t : AddressTable) (p offset : ℕ) (m : Memory)
    → is_empty t offset m ≡ true
    → is_empty t offset (store_at p alloc m) ≡ true
unfolding is_empty get_tag
is_empty-store_alloc t p offset m h = ground arith

pub get_tag-clean :
    (e : ℕ) → IsUserPtr (get_untagged_ptr e) → get_tag (put_tagged_ptr e clean_entry) ≡ pos 0
unfolding get_tag
get_tag-clean e h = rw (put_tagged_ptr_lem e _ 0 refl h (omega arith)) (ground arith)

-- What the scan from `offset` finds: the first empty slot, or none up to the end of the file.
pub data Scan (c : Config) (t : AddressTable) (m : Memory) (offset : ℕ) : Run ℕ → Type 0 where
  found :
      (at : ℕ)
      → offset ≤ at
      → at < c.at_entry_num
      → is_empty t at m ≡ true
      → ((i : ℕ) → offset ≤ i → i < at → is_empty t i m ≡ false)
      → Scan c t m offset (ok at)
  exhausted :
      ((i : ℕ) → offset ≤ i → i < c.at_entry_num → is_empty t i m ≡ false)
      → Scan c t m offset (stop out_of_range)

-- To go on from the slot itself to the slots behind it.
from_next :
    (P : ℕ → Type 0) (offset : ℕ) → P offset → (i : ℕ) → (offset + 1 ≤ i → P i) → offset ≤ i → P i
from_next P offset here i later le = elim (ℕ_discrete offset i) [
  | yes e ↦ subst P e here
  | no ne ↦ later (omega arith)
]

Scan-before :
    (c : Config) (t : AddressTable) (m : Memory) (offset : ℕ) {r : Run ℕ}
    → is_empty t offset m ≡ false
    → Scan c t m (offset + 1) r
    → Scan c t m offset r
Scan-before c t m offset full (found at le lt empty before) =
    found at (omega arith) lt empty
      λ i ge up. from_next (λ i. is_empty t i m ≡ false) offset full i (λ h. before i h up) ge
Scan-before c t m offset full (exhausted all) =
    exhausted λ i ge up. from_next (λ i. is_empty t i m ≡ false) offset full i (λ h. all i h up) ge

-- With more fuel than slots left the scan ends, and is right on both of its ends.
pub next_empty-Scan :
    (c : Config) (f : ℕ) (t : AddressTable) (offset : ℕ) (m : Memory)
    → c.at_entry_num < offset + f
    → offset ≤ c.at_entry_num
    → Scan c t m offset (next_empty c f t offset m)
unfolding next_empty
next_empty-Scan c zero t offset m h le = absurd (omega arith)
next_empty-Scan c (suc f) t offset m h le = elim (Bool-cases (ltb offset c.at_entry_num)) [
  | inr past ↦ rw past (exhausted λ i ge up. absurd (omega (arith, ltb-false→le _ _ past)))
  | inl inside ↦ rw inside (elim (Bool-cases (is_empty t offset m)) [
    | inl empty ↦
        rw empty
          (found offset (omega arith) (ltb→lt _ _ inside) empty (λ i ge up. absurd (omega arith)))
    | inr full ↦ rw full (
        Scan-before c t m offset full
          (next_empty-Scan c f t (offset + 1) m (omega arith) (omega (arith, ltb→lt _ _ inside))))
  ])
]
