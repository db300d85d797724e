-- ===== src/ValueStorage/Chunks.antt =====
-- The chunks of PRISM/src/ValueStorage.cpp: unlink_to_at with clear_vs_bitmap_info, which frees a
-- chunk that loses its last valid entry, and get_free_chunk_offset, which finds an empty one.
use hkv.Base.{
  ℕ, ◌+◌, ◌<◌, ◌≡◌, refl, sym, ap, ◌∙◌, ◌≢◌, ◌⊎◌, inl, inr, Bool, true, false, List, [], ◌∷◌, ◌++◌,
  arith, ltb, lt→ltb, ◌==◌, ==_iff, Bool-cases, ok, All,
}
use mathlib.Core.Bool.{true≢false}
use hkv.Config.{Config}
use hkv.ValueStorage.{
  ValueStorage, count, put_bit, add_free_chunk_list, clear_vs_bitmap_info, is_empty, first_free,
  get_free_chunk_offset,
}
use hkv.ValueStorage.Link.{unlink_to_at}

-- What giving up the place of an entry does: its bit is cleared and no other, and the chunk is put
-- on the free list where that was its last valid entry.
pub record Unlinked (c : Config) (vs : ValueStorage) (chunk entry : ℕ) (vs' : ValueStorage)
    : Type 0 where
  pub cleared : vs'.bitmap chunk entry ≡ false
  pub bits_else : (ch j : ℕ) → (ch ≢ chunk) ⊎ (j ≢ entry) → vs'.bitmap ch j ≡ vs.bitmap ch j
  pub others : vs' ≡ record vs { bitmap = vs'.bitmap; free_chunk_list = vs'.free_chunk_list }
  pub freed :
      ((vs.bitmap chunk entry ≡ true)
        × (count c vs' chunk ≡ 0)
        × (vs'.free_chunk_list ≡ vs.free_chunk_list ++ chunk ∷ []))
      ⊎ (((vs.bitmap chunk entry ≡ false) ⊎ (count c vs' chunk ≢ 0))
          × (vs'.free_chunk_list ≡ vs.free_chunk_list))

put_bit-else :
    (vs : ValueStorage) (chunk entry ch j : ℕ) (b : Bool)
    → (ch ≢ chunk) ⊎ (j ≢ entry)
    → (put_bit vs chunk entry b).bitmap ch j ≡ vs.bitmap ch j
put_bit-else vs chunk entry ch j b (inl h) = ground arith
put_bit-else vs chunk entry ch j b (inr h) = ground arith

put_bit_self :
    (vs : ValueStorage) (chunk entry : ℕ) (b : Bool)
    → (put_bit vs chunk entry b).bitmap chunk entry ≡ b
put_bit_self vs chunk entry b = ground arith

count-add_free :
    (vs : ValueStorage) (chunk ch : ℕ) (c : Config)
    → count c (add_free_chunk_list vs chunk) ch ≡ count c vs ch
unfolding count add_free_chunk_list
count-add_free vs chunk ch c = refl

-- `unlink_to_at` on a place inside the bitmap returns, and gives up that place alone; a place that
-- was given up before changes nothing.
pub unlink_to_at-Unlinked :
    (c : Config) (vs : ValueStorage) (chunk entry : ℕ)
    → chunk < c.chunk_num + c.chunk_num
    → entry < c.entries_per_chunk
    → (vs' : ValueStorage) × (unlink_to_at c vs chunk entry ≡ ok vs')
      × Unlinked c vs chunk entry vs'
unfolding unlink_to_at clear_vs_bitmap_info add_free_chunk_list
unlink_to_at-Unlinked c vs chunk entry hc he =
    let b1 = lt→ltb _ _ hc in
    let b2 = lt→ltb _ _ he in
    let vs' = put_bit vs chunk entry false in
    elim (Bool-cases (vs.bitmap chunk entry)) [
      | inr unset ↦ (
        vs,
        simp (b1, b2, unset),
        record {
          cleared = unset;
          bits_else = λ ch j ne. refl;
          others = refl;
          freed = inr (inl unset, refl);
        },
      )
      | inl set ↦ elim (Bool-cases (count c vs' chunk == 0)) [
        | inl last ↦ (
          add_free_chunk_list vs' chunk,
          simp (b1, b2, set, last),
          record {
            cleared = put_bit_self vs chunk entry false;
            bits_else = λ ch j ne. put_bit-else vs chunk entry ch j false ne;
            others = refl;
            freed = inl (set, count-add_free vs' chunk chunk c ∙ (==_iff _ 0).0 last, refl);
          },
        )
        | inr more ↦ (
          vs',
          simp (b1, b2, set, more),
          record {
            cleared = put_bit_self vs chunk entry false;
            bits_else = λ ch j ne. put_bit-else vs chunk entry ch j false ne;
            others = refl;
            freed = inr (inr (λ z. true≢false (sym ((==_iff _ _).1 z) ∙ more)), refl);
          },
        )
      ]
    ]

-- The chunk that first_free takes: the first empty one of the list.
pub record FirstFree (c : Config) (vs : ValueStorage) (l : List ℕ) (chunk : ℕ) (rest : List ℕ)
    : Type 0 where
  pub skipped : List ℕ
  pub split : l ≡ skipped ++ chunk ∷ rest
  pub in_use : All (λ ch. count c vs ch ≢ 0) skipped
  pub empty : count c vs chunk ≡ 0
  pub inside : chunk < c.chunk_num

abbrev pub HasEmpty : Config → ValueStorage → List ℕ → Type 0
HasEmpty c vs [] = ⊥
HasEmpty c vs (chunk ∷ rest) = (count c vs chunk ≡ 0) ⊎ HasEmpty c vs rest

pub first_free-FirstFree :
    (c : Config) (vs : ValueStorage) (l : List ℕ)
    → All (λ ch. ch < c.chunk_num) l
    → HasEmpty c vs l
    → (chunk : ℕ) × (rest : List ℕ) × (first_free c vs l ≡ ok (chunk, rest))
      × FirstFree c vs l chunk rest
unfolding first_free is_empty
first_free-FirstFree c vs [] b h = absurd h
first_free-FirstFree c vs (chunk ∷ l) b h =
    let b1 : ltb chunk (c.chunk_num + c.chunk_num) ≡ true = lt→ltb _ _ (omega (arith, b.0)) in
    let b2 = lt→ltb _ _ b.0 in
    elim (Bool-cases (count c vs chunk == 0)) [
      | inl e ↦ (
        chunk,
        l,
        simp (b1, b2, e),
        record { skipped = []; split = refl; in_use = tt; empty = (==_iff _ 0).0 e; inside = b.0 },
      )
      | inr e ↦ elim h [
        | inl z ↦ absurd (true≢false (sym ((==_iff _ _).1 z) ∙ e))
        | inr h' ↦
            let (ch, rest, run, f) = first_free-FirstFree c vs l b.1 h' in
            (
              ch,
              rest,
              simp (b1, e, run),
              record {
                skipped = chunk ∷ f.skipped;
                split = ap (λ x. chunk ∷ x) f.split;
                in_use = ((λ z. true≢false (sym ((==_iff _ _).1 z) ∙ e)), f.in_use);
                empty = f.empty;
                inside = f.inside;
              },
            )
      ]
    ]

-- With an empty chunk on the free list `get_free_chunk_offset` returns the first one: it is inside
-- the file and holds no valid entry. The list loses that chunk and those before it, which were in
-- use, and nothing else of the storage changes.
pub get_free_chunk_offset-FirstFree :
    (c : Config) (vs : ValueStorage)
    → All (λ ch. ch < c.chunk_num) vs.free_chunk_list
    → HasEmpty c vs vs.free_chunk_list
    → (chunk : ℕ) × (rest : List ℕ) × (get_free_chunk_offset c vs
        ≡ ok (chunk, record vs { free_chunk_list = rest }))
      × FirstFree c vs vs.free_chunk_list chunk rest
unfolding get_free_chunk_offset
get_free_chunk_offset-FirstFree c vs b h =
    let (chunk, rest, run, f) = first_free-FirstFree c vs vs.free_chunk_list b h in
    (chunk, rest, rw run refl, f)
