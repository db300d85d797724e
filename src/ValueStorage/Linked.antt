-- ===== src/ValueStorage/Linked.antt =====
-- What the loop of `ValueStorage::sync_with_at` (PRISM/src/ValueStorage.cpp) leaves behind.
use hkv.Base.{
  ℕ, zero, suc, ◌+◌, ◌*◌, ◌≤◌, ◌<◌, ◌≡◌, refl, sym, ap, subst, ◌∙◌, ◌≢◌, ◌⊎◌, inl, inr, Bool, true,
  false, List, [], ◌∷◌, pos, eq_ℤ, arith, Bool-cases, ok, length, All,
}
use hkv.Config.{Config}
use hkv.Memory.{AtEntry, Memory, store_at, newly_updated_val}
use hkv.ValueStorage.{VsEntry, MovedEntry, ValueStorage, count, count_upto, put_bit}
use hkv.ValueStorage.Link.{link_to_at, link_all}

pub count_upto-le : (b : ℕ → Bool) (n : ℕ) → count_upto b n ≤ n
unfolding count_upto
count_upto-le b zero = omega arith
count_upto-le b (suc n) = ground (arith, count_upto-le b n)

-- The moved entries name the places of `chunk` from `i` on, one for each entry of the buffer.
abbrev pub Aligned : ℕ → ℕ → List MovedEntry → List VsEntry → Type 0
Aligned chunk i [] [] = Unit {0}
Aligned chunk i (x ∷ moved) [] = ⊥
Aligned chunk i [] (e ∷ es) = ⊥
Aligned chunk i (x ∷ moved) (e ∷ es) =
    (x.chunk_offset ≡ chunk)
    × (x.entry_offset ≡ i)
    × (x.at_entry ≡ e.at_entry)
    × Aligned chunk (i + 1) moved es

-- Each entry has an address-table entry of its own.
abbrev pub DistinctAts : List VsEntry → Type 0
DistinctAts [] = Unit {0}
DistinctAts (e ∷ es) = All (λ x. x.at_entry ≢ e.at_entry) es × DistinctAts es

-- What becomes of the address-table entry of place `i`: one updated in the log is left alone, with the
-- bit of the place, any other is pointed at the place, which is valid then.
abbrev pub Placed :
    Config → ℕ → ℕ → AtEntry → AtEntry → (ℕ → ℕ → Bool) → (ℕ → ℕ → Bool) → ℕ → Type 0
Placed c id chunk old new before bits i =
    (eq_ℤ old.vs_offset newly_updated_val ≡ true → (new ≡ old) × (bits chunk i ≡ before chunk i))
    × (eq_ℤ old.vs_offset newly_updated_val ≡ false
        → (new ≡ record old { vs_id = pos id; vs_offset = pos (chunk * c.entries_per_chunk + i) })
          × (bits chunk i ≡ true))

abbrev pub AllPlaced :
    Config → ℕ → ℕ → Memory → Memory → (ℕ → ℕ → Bool) → (ℕ → ℕ → Bool) → ℕ → List VsEntry → Type 0
AllPlaced c id chunk m m' before bits i [] = Unit {0}
AllPlaced c id chunk m m' before bits i (e ∷ es) =
    Placed c id chunk (m.at e.at_entry) (m'.at e.at_entry) before bits i
    × AllPlaced c id chunk m m' before bits (i + 1) es

pub record Linked (c : Config) (vs : ValueStorage) (m : Memory) (chunk i : ℕ) (es : List VsEntry)
    (vs' : ValueStorage) (m' : Memory) : Type 0 where
  pub places : AllPlaced c vs.vs_id chunk m m' vs.bitmap vs'.bitmap i es
  pub same_vs : vs' ≡ record vs { bitmap = vs'.bitmap }
  pub bits_else :
      (ch j : ℕ) → (ch ≢ chunk) ⊎ (j < i) ⊎ (i + length es ≤ j) → vs'.bitmap ch j ≡ vs.bitmap ch j
  pub ats_else : (p : ℕ) → All (λ e. e.at_entry ≢ p) es → m'.at p ≡ m.at p
  pub same_op : m'.op ≡ m.op
  pub same_dc : m'.dc ≡ m.dc

module _ (c : Config) (chunk : ℕ) (inside : chunk < c.chunk_num) where
  abbrev pointed : ValueStorage → Memory → ℕ → ℕ → ValueStorage × Memory
  pointed vs m i a = (
    put_bit vs chunk i true,
    store_at a
        (record (m.at a) {
          vs_id = pos vs.vs_id;
          vs_offset = pos (chunk * c.entries_per_chunk + i);
        })
        m,
  )

  link_to_at-skip :
      (vs : ValueStorage) (m : Memory) (i a : ℕ)
      → a ≢ 0
      → eq_ℤ (m.at a).vs_offset newly_updated_val ≡ true
      → link_to_at c vs m chunk i a ≡ ok (vs, m)
  unfolding link_to_at
  link_to_at-skip vs m i a ne h = ground arith

  link_to_at-point :
      (vs : ValueStorage) (m : Memory) (i a : ℕ)
      → a ≢ 0
      → i < c.entries_per_chunk
      → eq_ℤ (m.at a).vs_offset newly_updated_val ≡ false
      → link_to_at c vs m chunk i a ≡ ok (pointed vs m i a)
  unfolding link_to_at count
  link_to_at-point vs m i a ne lt h =
      ground (arith, count_upto-le (vs.bitmap chunk) c.entries_per_chunk)

  AllPlaced-before :
      (id a i : ℕ) (m m1 m' : Memory) (before before1 bits : ℕ → ℕ → Bool) (es : List VsEntry)
      → ((p : ℕ) → a ≢ p → m1.at p ≡ m.at p)
      → ((j : ℕ) → i ≤ j → before1 chunk j ≡ before chunk j)
      → All (λ x. x.at_entry ≢ a) es
      → AllPlaced c id chunk m1 m' before1 bits i es
      → AllPlaced c id chunk m m' before bits i es
  AllPlaced-before id a i m m1 m' before before1 bits [] same clear apart h = tt
  AllPlaced-before id a i m m1 m' before before1 bits (x ∷ es) same clear apart h =
      let at_x =
        subst (λ old. Placed c id chunk old (m'.at x.at_entry) before1 bits i)
          (same x.at_entry λ e. apart.0 (sym e)) h.0 in
      (
        ((λ skip. ((at_x.0 skip).0, (at_x.0 skip).1 ∙ clear i (omega arith))), at_x.1),
        AllPlaced-before id a (i + 1) m m1 m' before before1 bits es same
            (λ j le. clear j (omega arith)) apart.1 h.1,
      )

  -- One step of the loop, then the rest.
  after_head :
      (e : VsEntry) (es : List VsEntry) (i : ℕ) (vs vs1 vs' : ValueStorage) (m m1 m' : Memory)
      → All (λ x. x.at_entry ≢ e.at_entry) es
      → Linked c vs m chunk i (e ∷ []) vs1 m1
      → Linked c vs1 m1 chunk (i + 1) es vs' m'
      → Linked c vs m chunk i (e ∷ es) vs' m'
  after_head e es i vs vs1 vs' m m1 m' apart h t = record {
    places = (
      (
        (λ skip. (later ∙ (h.places.0.0 skip).0, bit ∙ (h.places.0.0 skip).1)),
        (λ go. (later ∙ (h.places.0.1 go).0, bit ∙ (h.places.0.1 go).1)),
      ),
      AllPlaced-before vs.vs_id e.at_entry (i + 1) m m1 m' vs.bitmap vs1.bitmap vs'.bitmap es
          (λ p ne. h.ats_else p (ne, tt)) (λ j le. h.bits_else chunk j (inr (inr (omega arith))))
          apart
          (subst (λ id. AllPlaced c id chunk m1 m' vs1.bitmap vs'.bitmap (i + 1) es)
            (ap (λ (v : ValueStorage). v.vs_id) h.same_vs) t.places),
    );
    same_vs = t.same_vs ∙ ap (λ (v : ValueStorage). record v { bitmap = vs'.bitmap }) h.same_vs;
    bits_else = λ ch j out. t.bits_else ch j (wider ch j out) ∙ h.bits_else ch j (one ch j out);
    ats_else = λ p out. t.ats_else p out.1 ∙ h.ats_else p (out.0, tt);
    same_op = t.same_op ∙ h.same_op;
    same_dc = t.same_dc ∙ h.same_dc;
  }
    where
      later : m'.at e.at_entry ≡ m1.at e.at_entry
      later = t.ats_else e.at_entry apart

      bit : vs'.bitmap chunk i ≡ vs1.bitmap chunk i
      bit = t.bits_else chunk i (inr (inl (omega arith)))

      wider :
          (ch j : ℕ)
          → (ch ≢ chunk) ⊎ (j < i) ⊎ (i + length (e ∷ es) ≤ j)
          → (ch ≢ chunk) ⊎ (j < i + 1) ⊎ (i + 1 + length es ≤ j)
      wider ch j (inl o) = inl o
      wider ch j (inr (inl o)) = inr (inl (omega arith))
      wider ch j (inr (inr o)) = inr (inr (omega arith))

      one :
          (ch j : ℕ)
          → (ch ≢ chunk) ⊎ (j < i) ⊎ (i + length (e ∷ es) ≤ j)
          → (ch ≢ chunk) ⊎ (j < i) ⊎ (i + 1 ≤ j)
      one ch j (inl o) = inl o
      one ch j (inr (inl o)) = inr (inl o)
      one ch j (inr (inr o)) = inr (inr (omega arith))

  head-Linked :
      (vs : ValueStorage) (m : Memory) (i : ℕ) (e : VsEntry)
      → e.at_entry ≢ 0
      → i < c.entries_per_chunk
      → (vs' : ValueStorage) × (m' : Memory) × (link_to_at c vs m chunk i e.at_entry ≡ ok (vs', m'))
        × Linked c vs m chunk i (e ∷ []) vs' m'
  head-Linked vs m i e ne lt =
      elim (Bool-cases (eq_ℤ (m.at e.at_entry).vs_offset newly_updated_val)) [
        | inl skip ↦ (
          vs,
          m,
          link_to_at-skip vs m i e.at_entry ne skip,
          record {
            places = (((λ _. (refl, refl)), (λ go. cc)), tt);
            same_vs = refl;
            bits_else = λ ch j out. refl;
            ats_else = λ p out. refl;
            same_op = refl;
            same_dc = refl;
          },
        )
        | inr go ↦ (
          (pointed vs m i e.at_entry).0,
          (pointed vs m i e.at_entry).1,
          link_to_at-point vs m i e.at_entry ne lt go,
          record {
            places = (((λ skip. cc), (λ _. (ground arith, ground arith))), tt);
            same_vs = refl;
            bits_else = λ ch j out. ground arith;
            ats_else = λ p out. ground arith;
            same_op = refl;
            same_dc = refl;
          },
        )
      ]

  -- The loop over aligned entries runs to its end and links each of them.
  pub link_all-Linked :
      (moved : List MovedEntry) (es : List VsEntry) (i : ℕ) (vs : ValueStorage) (m : Memory)
      → Aligned chunk i moved es
      → All (λ e. e.at_entry ≢ 0) es
      → DistinctAts es
      → i + length es ≤ c.entries_per_chunk
      → (vs' : ValueStorage) × (m' : Memory) × (link_all c moved vs m ≡ ok (vs', m'))
        × Linked c vs m chunk i es vs' m'
  unfolding link_all
  link_all-Linked [] [] i vs m al nn di le = (
    vs,
    m,
    refl,
    record {
      places = tt;
      same_vs = refl;
      bits_else = λ ch j out. refl;
      ats_else = λ p out. refl;
      same_op = refl;
      same_dc = refl;
    },
  )
  link_all-Linked [] (e ∷ es) i vs m al nn di le = absurd al
  link_all-Linked (x ∷ moved) [] i vs m al nn di le = absurd al
  link_all-Linked (x ∷ moved) (e ∷ es) i vs m al nn di le =
      let (vs1, m1, run1, h) = head-Linked vs m i e nn.0 (omega arith) in
      let (vs', m', run2, t) =
        link_all-Linked moved es (i + 1) vs1 m1 al.3 nn.1 di.1 (omega arith) in
      (vs', m', rw (al.0, al.1, al.2, run1) run2, after_head e es i vs vs1 vs' m m1 m' di.0 h t)
