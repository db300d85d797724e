-- ===== src/Memory/Tags.antt =====
-- The tagged pointers of PRISM/src/util.cpp: what `get_tag` and `get_untagged_ptr` read back.
use Prim.Native.Nat.{bit_or}
use hkv.Base.{
  ℕ, zero, suc, ◌+◌, ◌-◌, ◌*◌, ◌/◌, ◌%◌, ◌^◌, ◌<◌, ◌≡◌, refl, Bool, true, ◌&&◌, pos, arith, ◌==◌,
  ==_iff,
}
use hkv.Memory.{get_untagged_ptr, clear_bit_48, put_tagged_ptr, get_tag}

-- Pointers of user space have bit 47 clear.
abbrev pub IsUserPtr : ℕ → Type 0
IsUserPtr p = p < 2 ^ 47

-- No digit comes from the left operand 0, for the numbers below `n`.
keeps_digits : ℕ → Bool
keeps_digits zero = true
keeps_digits (suc t) = keeps_digits t && (bit_or 0 t == t)

zero-bit_or_below : (bound t : ℕ) → t < bound → keeps_digits bound ≡ true → bit_or 0 t ≡ t
unfolding keeps_digits
zero-bit_or_below zero t lt checked = absurd (omega arith)
zero-bit_or_below (suc bound) t lt checked =
    ground (arith, zero-bit_or_below bound t, ==_iff (bit_or 0 t) t)

tags_checked : keeps_digits 128 ≡ true
unfolding keeps_digits
tags_checked = refl

zero-bit_or : (t : ℕ) → t < 128 → bit_or 0 t ≡ t
zero-bit_or t small = zero-bit_or_below 128 t small tags_checked

pub get_untagged_ptr_self : (p : ℕ) → IsUserPtr p → get_untagged_ptr p ≡ p
unfolding get_untagged_ptr
get_untagged_ptr_self p h = ground arith

pub get_untagged_ptr_offset : (p t : ℕ) → IsUserPtr p → get_untagged_ptr (p + t * 2 ^ 56) ≡ p
unfolding get_untagged_ptr
get_untagged_ptr_offset p t h = ground arith

-- The untagged pointer and the tag side by side.
pub put_tagged_ptr_lem :
    (e p t : ℕ)
    → get_untagged_ptr e ≡ p
    → IsUserPtr p
    → t < 128
    → put_tagged_ptr e t ≡ p + t * 2 ^ 56
unfolding put_tagged_ptr clear_bit_48
put_tagged_ptr_lem e p t u h k =
    let s : t % 256 ≡ t = omega arith in
    let c : p - p / 2 ^ 48 % 2 * 2 ^ 48 ≡ p = omega arith in
    let f : p / 2 ^ 56 ≡ 0 = omega arith in rw (u, s, c, f, zero-bit_or t k) (omega arith)

-- What `put_tagged_ptr` packs, `get_tag` and `get_untagged_ptr` read back, whatever tag the pointer
-- had before.
pub get_tag-put_tagged_ptr :
    (p old t : ℕ)
    → IsUserPtr p
    → t < 128
    → (get_tag (put_tagged_ptr (p + old * 2 ^ 56) t) ≡ pos t)
      × (get_untagged_ptr (put_tagged_ptr (p + old * 2 ^ 56) t) ≡ p)
unfolding get_tag
get_tag-put_tagged_ptr p old t h k =
    rw (put_tagged_ptr_lem (p + old * 2 ^ 56) p t (get_untagged_ptr_offset p old h) h k)
      (ground arith, get_untagged_ptr_offset p t h)

pub get_tag-put_self : (p t : ℕ) → IsUserPtr p → t < 128 → get_tag (put_tagged_ptr p t) ≡ pos t
unfolding get_tag
get_tag-put_self p t h k =
    rw (put_tagged_ptr_lem p p t (get_untagged_ptr_self p h) h k) (ground arith)

pub get_untagged-put_self :
    (p t : ℕ) → IsUserPtr p → t < 128 → get_untagged_ptr (put_tagged_ptr p t) ≡ p
get_untagged-put_self p t h k =
    rw (put_tagged_ptr_lem p p t (get_untagged_ptr_self p h) h k) (get_untagged_ptr_offset p t h)
