-- ===== src/ValueStorage/Relinked.antt =====
-- What the loop of gc_sync_with_at in PRISM/src/ValueStorage.cpp leaves behind.
use hkv.Base.{
  ℕ, ◌+◌, ◌*◌, ◌≤◌, ◌<◌, ◌≡◌, refl, sym, ap, subst, ◌∙◌, ◌≢◌, ◌⊎◌, inl, inr, Bool, true, false, not,
  ◌==◌, ==_iff, ◌||◌, List, [], ◌∷◌, pos, eq_ℤ, arith, Bool-cases, ok, length, All, update_self,
  update_ne,
}
use mathlib.Core.Bool.{true≢false}
use hkv.Config.{Config}
use hkv.Memory.{AtEntry, Memory, store_at, newly_updated_val, pre_valuestorage_val}
use hkv.ValueStorage.{VsEntry, ValueStorage, count, put_bit}
use hkv.ValueStorage.Link.{gc_link_to_at, relink_all}
use hkv.ValueStorage.Linked.{count_upto-le, DistinctAts}
use hkv.ValueStorage.Chunks.{Unlinked, unlink_to_at-Unlinked}
use hkv.ValueStorage.Moved.{Copied, dealt}

-- Collection leaves an entry alone that was updated in the log, is on its way to a disk, or belongs to
-- another storage by now.
abbrev pub stays : ℕ → AtEntry → Bool
stays id e =
    eq_ℤ e.vs_offset newly_updated_val
    || eq_ℤ e.vs_offset pre_valuestorage_val
    || not (eq_ℤ e.vs_id (pos id))

-- What becomes of the table entry of place `i`.
abbrev pub Placed : Config → ℕ → ℕ → AtEntry → AtEntry → (ℕ → ℕ → Bool) → ℕ → Type 0
Placed c id chunk old new bits i =
    (stays id old ≡ true → new ≡ old)
    × (stays id old ≡ false
        → (new ≡ record old { vs_id = pos id; vs_offset = pos (chunk * c.entries_per_chunk + i) })
          × (bits chunk i ≡ true))

abbrev pub AllPlaced : Config → ℕ → ℕ → Memory → Memory → (ℕ → ℕ → Bool) → ℕ → List VsEntry → Type 0
AllPlaced c id chunk m m' bits i [] = Unit {0}
AllPlaced c id chunk m m' bits i (e ∷ es) =
    Placed c id chunk (m.at e.at_entry) (m'.at e.at_entry) bits i
    × AllPlaced c id chunk m m' bits (i + 1) es

-- The places that copies came from: inside the bitmap, and of another chunk than the new one.
abbrev pub IsSource : Config → ℕ → Copied → Type 0
IsSource c chunk x =
    (x.victim ≢ chunk) × (x.victim < c.chunk_num + c.chunk_num) × (x.slot < c.entries_per_chunk)

pub record Relinked (c : Config) (vs : ValueStorage) (m : Memory) (chunk i : ℕ) (es : List VsEntry)
    (cs : List Copied) (vs' : ValueStorage) (m' : Memory) : Type 0 where
  pub places : AllPlaced c vs.vs_id chunk m m' vs'.bitmap i es
  pub given_up : All (λ x. vs'.bitmap x.victim x.slot ≡ false) cs
  pub below : (j : ℕ) → j < i → vs'.bitmap chunk j ≡ vs.bitmap chunk j
  pub stay_clear : (ch j : ℕ) → ch ≢ chunk → vs.bitmap ch j ≡ false → vs'.bitmap ch j ≡ false
  pub same_vs : vs' ≡ record vs { bitmap = vs'.bitmap; free_chunk_list = vs'.free_chunk_list }
  pub ats_else : (p : ℕ) → All (λ e. e.at_entry ≢ p) es → m'.at p ≡ m.at p
  pub same_op : m'.op ≡ m.op
  pub same_dc : m'.dc ≡ m.dc

module _ (c : Config) (chunk : ℕ) (inside : chunk < c.chunk_num) where
  -- The storage and the memory after gc_link_to_at.
  abbrev linked : ValueStorage → Memory → ℕ → ℕ → Bool → ValueStorage × Memory
  linked vs m i a true = (vs, m)
  linked vs m i a false = (
    put_bit vs chunk i true,
    store_at a
        (record (m.at a) {
          vs_id = pos vs.vs_id;
          vs_offset = pos (chunk * c.entries_per_chunk + i);
        })
        m,
  )

  gc_link_runs :
      (vs : ValueStorage) (m : Memory) (i a : ℕ)
      → a ≢ 0
      → i < c.entries_per_chunk
      → gc_link_to_at c vs m chunk i a ≡ ok (linked vs m i a (stays vs.vs_id (m.at a)))
  unfolding gc_link_to_at count
  gc_link_runs vs m i a ne lt = ground (arith, count_upto-le (vs.bitmap chunk) c.entries_per_chunk)

  -- What gc_link_to_at leaves, in either case.
  record Moved (vs : ValueStorage) (m : Memory) (i a : ℕ) (vs1 : ValueStorage) (m1 : Memory)
      : Type 0 where
    placed : Placed c vs.vs_id chunk (m.at a) (m1.at a) vs1.bitmap i
    bits : (ch j : ℕ) → (ch ≢ chunk) ⊎ (j ≢ i) → vs1.bitmap ch j ≡ vs.bitmap ch j
    same : vs1 ≡ record vs { bitmap = vs1.bitmap }
    ats : (p : ℕ) → a ≢ p → m1.at p ≡ m.at p
    ops : m1.op ≡ m.op
    dcs : m1.dc ≡ m.dc

  put_bit-bits :
      (vs : ValueStorage) (i ch j : ℕ)
      → (ch ≢ chunk) ⊎ (j ≢ i)
      → (put_bit vs chunk i true).bitmap ch j ≡ vs.bitmap ch j
  put_bit-bits vs i ch j (inl h) = ground arith
  put_bit-bits vs i ch j (inr h) = ground arith

  linked-Moved :
      (vs : ValueStorage) (m : Memory) (i a : ℕ) (b : Bool)
      → stays vs.vs_id (m.at a) ≡ b
      → Moved vs m i a (linked vs m i a b).0 (linked vs m i a b).1
  linked-Moved vs m i a true h = record {
    placed = ((λ s. refl), (λ s. absurd (true≢false (sym h ∙ s))));
    bits = λ ch j n. refl;
    same = refl;
    ats = λ p n. refl;
    ops = refl;
    dcs = refl;
  }
  linked-Moved vs m i a false h = record {
    placed = ((λ s. absurd (true≢false (sym s ∙ h))), (λ s. (update_self m.at a _, ground arith)));
    bits = λ ch j n. put_bit-bits vs i ch j n;
    same = refl;
    ats = λ p n. update_ne m.at a p _ n;
    ops = refl;
    dcs = refl;
  }

  abbrev put_both : (ℕ → ℕ → Bool) → List ℕ → ValueStorage → ValueStorage
  put_both bits free vs = record vs { bitmap = bits; free_chunk_list = free }

  clear_after :
      (vs vs1 vs2 : ValueStorage) (x : Copied) (i a ch j : ℕ) (m m1 : Memory)
      → Moved vs m i a vs1 m1
      → Unlinked c vs1 x.victim x.slot vs2
      → ch ≢ chunk
      → vs.bitmap ch j ≡ false
      → vs2.bitmap ch j ≡ false
  clear_after vs vs1 vs2 x i a ch j m m1 h u n z = elim (Bool-cases (ch == x.victim)) [
    | inr ne ↦ u.bits_else ch j (inl (apart ne)) ∙ h.bits ch j (inl n) ∙ z
    | inl eq ↦ elim (Bool-cases (j == x.slot)) [
      | inr ne ↦ u.bits_else ch j (inr (apart ne)) ∙ h.bits ch j (inl n) ∙ z
      | inl eq' ↦ rw ((==_iff ch x.victim).0 eq, (==_iff j x.slot).0 eq') u.cleared
    ]
  ]
    where
      apart : {p q : ℕ} → (p == q) ≡ false → p ≢ q
      apart h e = ground arith

  AllPlaced-before :
      (id id2 a i : ℕ) (m m1 m' : Memory) (bits : ℕ → ℕ → Bool) (es : List VsEntry)
      → id2 ≡ id
      → ((p : ℕ) → a ≢ p → m1.at p ≡ m.at p)
      → All (λ x. x.at_entry ≢ a) es
      → AllPlaced c id2 chunk m1 m' bits i es
      → AllPlaced c id chunk m m' bits i es
  AllPlaced-before id id2 a i m m1 m' bits [] e same apart h = tt
  AllPlaced-before id id2 a i m m1 m' bits (x ∷ es) e same apart h = (
    subst (λ k. Placed c k chunk (m.at x.at_entry) (m'.at x.at_entry) bits i) e
        (subst (λ old. Placed c id2 chunk old (m'.at x.at_entry) bits i)
          (same x.at_entry λ q. apart.0 (sym q)) h.0),
    AllPlaced-before id id2 a (i + 1) m m1 m' bits es e same apart.1 h.1,
  )

  -- A copy, then the rest.
  after_copy :
      (e : VsEntry) (es : List VsEntry) (x : Copied) (cs : List Copied) (i : ℕ)
      (vs vs1 vs2 vs' : ValueStorage) (m m1 m' : Memory)
      → IsSource c chunk x
      → All (λ y. y.at_entry ≢ e.at_entry) es
      → Moved vs m i e.at_entry vs1 m1
      → Unlinked c vs1 x.victim x.slot vs2
      → Relinked c vs2 m1 chunk (i + 1) es cs vs' m'
      → Relinked c vs m chunk i (e ∷ es) (x ∷ cs) vs' m'
  after_copy e es x cs i vs vs1 vs2 vs' m m1 m' src apart h u t = record {
    places = (
      ((λ s. later ∙ h.placed.0 s), (λ s. (later ∙ (h.placed.1 s).0, bit ∙ (h.placed.1 s).1))),
      AllPlaced-before vs.vs_id vs2.vs_id e.at_entry (i + 1) m m1 m' vs'.bitmap es id h.ats apart
          t.places,
    );
    given_up = (t.stay_clear x.victim x.slot src.0 u.cleared, t.given_up);
    below = λ j lt.
        t.below j (omega arith)
        ∙ u.bits_else chunk j (inl (λ q. src.0 (sym q)))
        ∙ h.bits chunk j (inr (omega arith));
    stay_clear =
        λ ch j n z. t.stay_clear ch j n (clear_after vs vs1 vs2 x i e.at_entry ch j m m1 h u n z);
    same_vs = t.same_vs ∙ ap (put_both vs'.bitmap vs'.free_chunk_list) same12;
    ats_else = λ p out. t.ats_else p out.1 ∙ h.ats p out.0;
    same_op = t.same_op ∙ h.ops;
    same_dc = t.same_dc ∙ h.dcs;
  }
    where
      later : m'.at e.at_entry ≡ m1.at e.at_entry
      later = t.ats_else e.at_entry apart

      bit : vs'.bitmap chunk i ≡ vs1.bitmap chunk i
      bit = t.below i (omega arith) ∙ u.bits_else chunk i (inl (λ q. src.0 (sym q)))

      same12 : vs2 ≡ put_both vs2.bitmap vs2.free_chunk_list vs
      same12 = u.others ∙ ap (put_both vs2.bitmap vs2.free_chunk_list) h.same

      id : vs2.vs_id ≡ vs.vs_id
      id = ap (λ (v : ValueStorage). v.vs_id) same12

  pub relink_all-Relinked :
      (es : List VsEntry) (cs : List Copied) (i : ℕ) (vs : ValueStorage) (m : Memory)
      → length es ≡ length cs
      → All (λ e. e.at_entry ≢ 0) es
      → DistinctAts es
      → All (IsSource c chunk) cs
      → i + length es ≤ c.entries_per_chunk
      → (vs' : ValueStorage) × (m' : Memory) × (relink_all c (dealt chunk i es cs) vs m
          ≡ ok (vs', m'))
        × Relinked c vs m chunk i es cs vs' m'
  unfolding relink_all
  relink_all-Relinked [] [] i vs m len nn di src le = (
    vs,
    m,
    refl,
    record {
      places = tt;
      given_up = tt;
      below = λ j lt. refl;
      stay_clear = λ ch j n z. z;
      same_vs = refl;
      ats_else = λ p out. refl;
      same_op = refl;
      same_dc = refl;
    },
  )
  relink_all-Relinked [] (x ∷ cs) i vs m len nn di src le = absurd (omega arith)
  relink_all-Relinked (e ∷ es) [] i vs m len nn di src le = absurd (omega arith)
  relink_all-Relinked (e ∷ es) (x ∷ cs) i vs m len nn di src le =
      let b = stays vs.vs_id (m.at e.at_entry) in
      let vs1 = (linked vs m i e.at_entry b).0 in
      let m1 = (linked vs m i e.at_entry b).1 in
      let run1 = gc_link_runs vs m i e.at_entry nn.0 (omega arith) in
      let h = linked-Moved vs m i e.at_entry b refl in
      let (vs2, run2, u) = unlink_to_at-Unlinked c vs1 x.victim x.slot src.0.1 src.0.2 in
      let (vs', m', run3, t) =
        relink_all-Relinked es cs (i + 1) vs2 m1 (omega arith) nn.1 di.1 src.1 (omega arith) in
      (
        vs',
        m',
        rw (run1, run2) run3,
        after_copy e es x cs i vs vs1 vs2 vs' m m1 m' src.0 di.0 h u t,
      )
