-- ===== src/ValueStorage/Sorted.antt =====
-- A write buffer and its list of moved entries stay in step through the sorts of
-- PRISM/src/ValueStorage.cpp, and what a write puts on the disk.
use hkv.Base.{
  ℕ, zero, suc, ◌+◌, ◌*◌, ◌≤◌, ◌<◌, ◌≡◌, refl, sym, ap, subst, ◌∙◌, ◌≢◌, ◌⊎◌, inl, inr, List, [],
  ◌∷◌, ◌++◌, map, arith, length, length-map, All, take, drop, update,
}
use hkv.Base.Sort.{sort_by, length-sort_by, map-sort_by}
use hkv.ValueStorage.{VsEntry, MovedEntry}
use hkv.ValueStorage.Buffer.{
  WriteRequest, IoUring, filled, prep_write, deal, key_and_at, sort_moved_entry,
}
use hkv.ValueStorage.Linked.{Aligned}

-- A completed write: the entries at the places from `offset` on.
abbrev pub place : ℕ → List VsEntry → (ℕ → VsEntry) → ℕ → VsEntry
place offset [] disk = disk
place offset (e ∷ es) disk = place (offset + 1) es (update disk offset e)

abbrev pub place_all : List WriteRequest → (ℕ → VsEntry) → ℕ → VsEntry
place_all [] disk = disk
place_all (r ∷ rs) disk = place_all rs (place r.offset r.payload disk)

abbrev pub slice : (ℕ → VsEntry) → ℕ → ℕ → List VsEntry
slice disk offset zero = []
slice disk offset (suc n) = disk offset ∷ slice disk (offset + 1) n

-- What the documentation of io_uring and pwrite promises of completed requests.
pub record IsFaithful (io : IoUring) : Type 0 where
  pub submit : (rs : List WriteRequest) (disk : ℕ → VsEntry) → io.submit rs disk ≡ place_all rs disk
  pub read : (disk : ℕ → VsEntry) (offset n : ℕ) → io.read disk offset n ≡ slice disk offset n

place-append :
    (xs ys : List VsEntry) (offset : ℕ) (disk : ℕ → VsEntry)
    → place offset (xs ++ ys) disk ≡ place (offset + length xs) ys (place offset xs disk)
place-append [] ys offset disk = ap (λ o. place o ys disk) (omega arith)
place-append (x ∷ xs) ys offset disk =
    place-append xs ys (offset + 1) (update disk offset x)
    ∙ ap (λ o. place o ys (place (offset + 1) xs (update disk offset x))) (omega arith)

take-drop : (n : ℕ) (xs : List VsEntry) → take n xs ++ drop n xs ≡ xs
take-drop zero xs = refl
take-drop (suc n) [] = refl
take-drop (suc n) (x ∷ xs) = rw (take-drop n xs)

length-take_le : (n : ℕ) (xs : List VsEntry) → n ≤ length xs → length (take n xs) ≡ n
length-take_le zero xs h = refl
length-take_le (suc n) [] h = absurd (omega arith)
length-take_le (suc n) (x ∷ xs) h = ap suc (length-take_le n xs (omega arith))

length-drop_add : (n k : ℕ) (xs : List VsEntry) → length xs ≡ n + k → length (drop n xs) ≡ k
length-drop_add zero k xs h = omega arith
length-drop_add (suc n) k [] h = absurd (omega arith)
length-drop_add (suc n) k (x ∷ xs) h = length-drop_add n k xs (omega arith)

empty_of_length : (xs : List VsEntry) → length xs ≡ 0 → xs ≡ []
empty_of_length [] h = refl
empty_of_length (x ∷ xs) h = absurd (omega arith)

-- The pieces of a buffer that they cut evenly put the whole buffer in its place.
pub place_all-prep_write :
    (q piece offset : ℕ) (buffer : List VsEntry) (disk : ℕ → VsEntry)
    → length buffer ≡ q * piece
    → place_all (prep_write q piece offset buffer) disk ≡ place offset buffer disk
unfolding prep_write
place_all-prep_write zero piece offset buffer disk h =
    rw (empty_of_length buffer (grind arith)) refl
place_all-prep_write (suc q) piece offset buffer disk h =
    let len : length buffer ≡ piece + q * piece = grind arith in
    let front : length (take piece buffer) ≡ piece =
      length-take_le piece buffer (omega (arith, len)) in
    place_all-prep_write q piece (offset + piece) (drop piece buffer)
      (place offset (take piece buffer) disk) (length-drop_add piece (q * piece) buffer len)
    ∙ ap (λ k. place (offset + k) (drop piece buffer) (place offset (take piece buffer) disk))
        (sym front)
    ∙ sym (place-append (take piece buffer) (drop piece buffer) offset disk)
    ∙ ap (λ b. place offset b disk) (take-drop piece buffer)

-- The places from `offset` on hold the entries.
abbrev pub Holds : (ℕ → VsEntry) → ℕ → List VsEntry → Type 0
Holds disk offset [] = Unit {0}
Holds disk offset (e ∷ es) = (disk offset ≡ e) × Holds disk (offset + 1) es

pub place_else :
    (offset x : ℕ) (es : List VsEntry) (disk : ℕ → VsEntry)
    → (x < offset) ⊎ (offset + length es ≤ x)
    → place offset es disk x ≡ disk x
place_else offset x [] disk h = refl
place_else offset x (e ∷ es) disk (inl h) =
    place_else (offset + 1) x es (update disk offset e) (inl (omega arith)) ∙ ground arith
place_else offset x (e ∷ es) disk (inr h) =
    place_else (offset + 1) x es (update disk offset e) (inr (omega arith)) ∙ ground arith

pub Holds-place :
    (offset : ℕ) (es : List VsEntry) (disk : ℕ → VsEntry) → Holds (place offset es disk) offset es
Holds-place offset [] disk = tt
Holds-place offset (e ∷ es) disk = (
  place_else (offset + 1) offset es (update disk offset e) (inl (omega arith)) ∙ ground arith,
  Holds-place (offset + 1) es (update disk offset e),
)

pub Holds-append :
    (disk : ℕ → VsEntry) (offset : ℕ) (xs ys : List VsEntry)
    → Holds disk offset (xs ++ ys)
    → Holds disk offset xs
Holds-append disk offset [] ys h = tt
Holds-append disk offset (x ∷ xs) ys h = (h.0, Holds-append disk (offset + 1) xs ys h.1)

-- Entries in use, then unused ones to the end of the chunk: the filled part is the first.
pub filled-append :
    (n : ℕ) (es tail : List VsEntry)
    → All (λ e. e.at_entry ≢ 0) es
    → All (λ e. e.at_entry ≡ 0) tail
    → length es ≤ n
    → filled n (es ++ tail) ≡ es
unfolding filled
filled-append zero [] tail nn nu le = refl
filled-append zero (e ∷ es) tail nn nu le = absurd (omega arith)
filled-append (suc n) [] [] nn nu le = refl
filled-append (suc n) [] (t ∷ tail) nn nu le = ground arith
filled-append (suc n) (e ∷ es) tail nn nu le =
    let rest = filled-append n es tail nn.1 nu (omega arith) in rw rest (ground (arith, nn.0))

abbrev pub vs_pair : VsEntry → ℕ × ℕ
vs_pair e = (e.key, e.at_entry)

-- The moved entries name the places of `chunk` from `i` on.
abbrev pub Slots : ℕ → ℕ → List MovedEntry → Type 0
Slots chunk i [] = Unit {0}
Slots chunk i (x ∷ moved) =
    (x.chunk_offset ≡ chunk) × (x.entry_offset ≡ i) × Slots chunk (i + 1) moved

deal-Aligned :
    (chunk i : ℕ) (moved : List MovedEntry) (es : List VsEntry)
    → Slots chunk i moved
    → length moved ≡ length es
    → Aligned chunk i (deal moved (map vs_pair es)) es
unfolding deal
deal-Aligned chunk i [] [] s h = tt
deal-Aligned chunk i [] (e ∷ es) s h = absurd (omega arith)
deal-Aligned chunk i (x ∷ moved) [] s h = absurd (omega arith)
deal-Aligned chunk i (x ∷ moved) (e ∷ es) s h =
    (s.0, s.1, refl, deal-Aligned chunk (i + 1) moved es s.2 (omega arith))

-- After both sorts the moved entry of a place carries the address-table entry of the entry there.
pub sort_moved_entry-Aligned :
    (chunk : ℕ) (moved : List MovedEntry) (es : List VsEntry)
    → Slots chunk 0 moved
    → map key_and_at moved ≡ map vs_pair es
    → Aligned chunk 0 (sort_moved_entry moved) (sort_by (λ e. e.key) es)
unfolding sort_moved_entry
sort_moved_entry-Aligned chunk moved es s same =
    let sorted : sort_by (λ p. p.0) (map key_and_at moved) ≡ map vs_pair (sort_by (λ e. e.key) es) =
      ap (sort_by (λ p. p.0)) same ∙ sym (map-sort_by vs_pair (λ p. p.0) es) in
    let len : length moved ≡ length (sort_by (λ e. e.key) es) = omega (
      arith,
      length-map {0, 0} moved key_and_at,
      ap length same,
      length-map {0, 0} es vs_pair,
      length-sort_by {0} (λ (e : VsEntry). e.key) es,
    ) in
    subst (λ l. Aligned chunk 0 (deal moved l) (sort_by (λ e. e.key) es)) (sym sorted)
      (deal-Aligned chunk 0 moved (sort_by (λ e. e.key) es) s len)
