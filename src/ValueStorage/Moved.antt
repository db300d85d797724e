-- ===== src/ValueStorage/Moved.antt =====
-- The moved entries of a garbage collection in PRISM/src/ValueStorage.cpp: each copied entry is noted
-- twice, and the sorts keep the two notes together.
use hkv.Base.{ℕ, ◌+◌, ◌≡◌, refl, sym, ap, ◌∙◌, List, [], ◌∷◌, map, arith, length, length-map}
use hkv.Base.Sort.{insert_by, sort_by, length-sort_by, map-sort_by}
use hkv.ValueStorage.{VsEntry, MovedEntry, Operation}
use hkv.ValueStorage.Buffer.{deal, key_and_at, sort_moved_entry}
use hkv.ValueStorage.Sorted.{vs_pair}

-- An entry that was copied, and the place in a victim that it came from.
pub record Copied : Type 0 where
  pub entry : VsEntry
  pub victim : ℕ
  pub slot : ℕ

abbrev pub copies : List Copied → List VsEntry
copies cs = map (λ x. x.entry) cs

-- The two notes of a copy, before others: to the place `k` of `chunk`, and away from the victim.
abbrev pub noted : ℕ → ℕ → ℕ → Copied → List MovedEntry → List MovedEntry
noted chunk k at_entry x rest =
    record {
      key = x.entry.key;
      at_entry = at_entry;
      chunk_offset = chunk;
      entry_offset = k;
      op_type = Operation.insert;
    }
    ∷ record {
      key = x.entry.key;
      at_entry = at_entry;
      chunk_offset = x.victim;
      entry_offset = x.slot;
      op_type = Operation.remove;
    }
    ∷ rest

-- The notes of the copies in the places of `chunk` from `k` on.
abbrev pub notes : ℕ → ℕ → List Copied → List MovedEntry
notes chunk k [] = []
notes chunk k (x ∷ cs) = noted chunk k x.entry.at_entry x (notes chunk (k + 1) cs)

-- The notes after the sort: the places in their order, with the table entries of `es`.
abbrev pub dealt : ℕ → ℕ → List VsEntry → List Copied → List MovedEntry
dealt chunk k [] cs = notes chunk k cs
dealt chunk k (e ∷ es) [] = []
dealt chunk k (e ∷ es) (x ∷ cs) = noted chunk k e.at_entry x (dealt chunk (k + 1) es cs)

module _ {ℓ} {A : Type ℓ} where
  -- Every element twice.
  abbrev pub doubled : List A → List A
  doubled [] = []
  doubled (x ∷ xs) = x ∷ x ∷ doubled xs

  insert_by-doubled :
      (f : A → ℕ) (a : A) (xs : List A)
      → insert_by f a (insert_by f a (doubled xs)) ≡ doubled (insert_by f a xs)
  unfolding insert_by
  insert_by-doubled f a [] = ground arith
  insert_by-doubled f a (x ∷ xs) = ground (arith, insert_by-doubled f a xs)

  sort_by-doubled : (f : A → ℕ) (xs : List A) → sort_by f (doubled xs) ≡ doubled (sort_by f xs)
  unfolding sort_by
  sort_by-doubled f [] = refl
  sort_by-doubled f (x ∷ xs) =
      ap (λ l. insert_by f x (insert_by f x l)) (sort_by-doubled f xs)
      ∙ insert_by-doubled f x (sort_by f xs)

pub map-notes :
    (chunk k : ℕ) (cs : List Copied)
    → map key_and_at (notes chunk k cs) ≡ doubled (map vs_pair (copies cs))
map-notes chunk k [] = refl
map-notes chunk k (x ∷ cs) =
    ap (λ l. vs_pair x.entry ∷ vs_pair x.entry ∷ l) (map-notes chunk (k + 1) cs)

deal-notes :
    (chunk k : ℕ) (es : List VsEntry) (cs : List Copied)
    → length es ≡ length cs
    → deal (notes chunk k cs) (doubled (map vs_pair es)) ≡ dealt chunk k es cs
unfolding deal
deal-notes chunk k [] [] h = refl
deal-notes chunk k [] (x ∷ cs) h = absurd (omega arith)
deal-notes chunk k (e ∷ es) [] h = absurd (omega arith)
deal-notes chunk k (e ∷ es) (x ∷ cs) h =
    ap (noted chunk k e.at_entry x) (deal-notes chunk (k + 1) es cs (omega arith))

-- After the sorts the note of a place carries the table entry of the entry that is sorted there.
pub sort_moved_entry-notes :
    (chunk : ℕ) (cs : List Copied)
    → sort_moved_entry (notes chunk 0 cs) ≡ dealt chunk 0 (sort_by (λ e. e.key) (copies cs)) cs
unfolding sort_moved_entry
sort_moved_entry-notes chunk cs =
    let es = copies cs in
    let sorted : sort_by (λ (p : ℕ × ℕ). p.0) (map key_and_at (notes chunk 0 cs))
        ≡ doubled (map vs_pair (sort_by (λ e. e.key) es)) =
      ap (sort_by (λ (p : ℕ × ℕ). p.0)) (map-notes chunk 0 cs)
      ∙ sort_by-doubled (λ (p : ℕ × ℕ). p.0) (map vs_pair es)
      ∙ ap doubled (sym (map-sort_by vs_pair (λ p. p.0) es)) in
    ap (deal (notes chunk 0 cs)) sorted
    ∙ deal-notes chunk 0 (sort_by (λ e. e.key) es) cs
        (length-sort_by (λ e. e.key) es ∙ length-map cs (λ x. x.entry))
