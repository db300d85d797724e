-- ===== src/ValueStorage/Everywhere.antt =====
-- Garbage collection in PRISM/src/ValueStorage.cpp: every valid entry of a used chunk is among those copied.
use hkv.Base.{
  ℕ, zero, suc, ◌+◌, ◌*◌, ◌<◌, ◌≡◌, sym, ap, subst, ◌∙◌, Bool, true, inl, inr, List, [], ◌∷◌, ◌++◌,
  arith, All, All-front, All-back, get_or, Bool-cases, ltb,
}
use mathlib.Core.Bool.{true≢false}
use mathlib.Core.List.{map-append}
use hkv.Base.Sort.{All-of_sort_by}
use hkv.Config.{Config}
use hkv.ValueStorage.{VsEntry, blank, ValueStorage, count, count_upto}
use hkv.ValueStorage.Sorted.{slice}
use hkv.ValueStorage.Moved.{copies}
use hkv.ValueStorage.Victims.{valid_from, all_valid}
use hkv.ValueStorage.Collect.{used_from, create_used_chunk_list}

pub get_or-slice :
    (disk : ℕ → VsEntry) (offset n i : ℕ)
    → i < n
    → get_or (slice disk offset n) i blank ≡ disk (offset + i)
get_or-slice disk offset zero i h = absurd (omega arith)
get_or-slice disk offset (suc n) zero h = ap disk (omega arith)
get_or-slice disk offset (suc n) (suc i) h =
    get_or-slice disk (offset + 1) n i (omega arith) ∙ ap disk (omega arith)

-- What holds of all copies of a victim holds of its entry at a valid place.
valid_from-at :
    (P : VsEntry → Type 0) (bits : ℕ → Bool) (victim : ℕ) (r_buffer : List VsEntry) (n i j : ℕ)
    → All P (copies (valid_from bits victim r_buffer n i))
    → bits (i + j) ≡ true
    → j < n
    → P (get_or r_buffer (i + j) blank)
valid_from-at P bits victim r_buffer zero i j h valid lt = absurd (omega arith)
valid_from-at P bits victim r_buffer (suc n) i zero h valid lt =
    let here : i + 0 ≡ i = omega arith in
    let bit : bits i ≡ true = ap bits (sym here) ∙ valid in
    subst (λ k. P (get_or r_buffer k blank)) (sym here) (rw bit at h).0
valid_from-at P bits victim r_buffer (suc n) i (suc j) h valid lt =
    let next : i + 1 + j ≡ i + suc j = omega arith in
    let rest : All P (copies (valid_from bits victim r_buffer n (i + 1))) =
      elim (Bool-cases (bits i)) [ inl bit ↦ (rw bit at h).1 | inr no_bit ↦ rw no_bit at h ] in
    subst (λ k. P (get_or r_buffer k blank)) next
      (valid_from-at P bits victim r_buffer n (i + 1) j rest (ap bits next ∙ valid) (omega arith))

-- `P` of every valid entry of a chunk.
abbrev AllOf : Config → ValueStorage → (VsEntry → Type 0) → ℕ → Type 0
AllOf c vs P chunk =
    (j : ℕ)
    → j < c.entries_per_chunk
    → vs.bitmap chunk j ≡ true
    → P (vs.disk (chunk * c.entries_per_chunk + j))

all_valid-at :
    (P : VsEntry → Type 0) (c : Config) (vs : ValueStorage) (used : List (ℕ × ℕ))
    → All P (copies (all_valid c vs.bitmap vs.disk used))
    → All (λ p. AllOf c vs P p.0) used
all_valid-at P c vs [] h = tt
all_valid-at P c vs ((victim, k) ∷ used) h =
    let n = c.entries_per_chunk in
    let v = valid_from (vs.bitmap victim) victim (slice vs.disk (victim * n) n) n 0 in
    let others = all_valid c vs.bitmap vs.disk used in
    let both : All P (copies v ++ copies others) =
      subst (All P) (map-append (λ x. x.entry) v others) h in
    (
      (λ j lt valid.
          let from : 0 + j ≡ j = omega arith in
          subst P
            (ap (λ i. get_or (slice vs.disk (victim * n) n) i blank) from
              ∙ get_or-slice vs.disk (victim * n) n j lt)
            (valid_from-at P (vs.bitmap victim) victim (slice vs.disk (victim * n) n) n 0 j
              (All-front P (copies v) (copies others) both) (ap (vs.bitmap victim) from ∙ valid)
              lt)),
      all_valid-at P c vs used (All-back P (copies v) (copies others) both),
    )

count_upto-some : (b : ℕ → Bool) (n j : ℕ) → j < n → b j ≡ true → 0 < count_upto b n
unfolding count_upto
count_upto-some b zero j lt h = absurd (omega arith)
count_upto-some b (suc n) j lt h = elim (Bool-cases (b n)) [
  | inl bit ↦ rw bit (omega arith)
  | inr no_bit ↦
      let ne : (j ≡ n) → ⊥ = λ e. true≢false (sym h ∙ ap b e ∙ no_bit) in
      let some = count_upto-some b n j (omega arith) h in rw no_bit (omega arith)
]

used_from-at :
    (P : ℕ × ℕ → Type 0) (c : Config) (vs : ValueStorage) (n chunk j : ℕ)
    → All P (used_from c vs n chunk)
    → 0 < count c vs (chunk + j)
    → j < n
    → P (chunk + j, count c vs (chunk + j))
unfolding used_from
used_from-at P c vs zero chunk j h some lt = absurd (omega arith)
used_from-at P c vs (suc n) chunk zero h some lt =
    let here : chunk + 0 ≡ chunk = omega arith in
    let more : ltb 0 (count c vs chunk) ≡ true =
      subst (λ k. ltb 0 (count c vs k) ≡ true) here (ground arith) in
    subst (λ k. P (k, count c vs k)) (sym here) (rw more at h).0
used_from-at P c vs (suc n) chunk (suc j) h some lt =
    let next : chunk + 1 + j ≡ chunk + suc j = omega arith in
    let rest : All P (used_from c vs n (chunk + 1)) = elim (Bool-cases (ltb 0 (count c vs chunk))) [
      | inl bit ↦ (rw bit at h).1
      | inr no_bit ↦ rw no_bit at h
    ] in
    subst (λ k. P (k, count c vs k)) next
      (used_from-at P c vs n (chunk + 1) j rest (subst (λ k. 0 < count c vs k) (sym next) some)
        (omega arith))

-- What holds of all copies of a collection holds of every valid entry of the storage.
pub all_valid-everywhere :
    (P : VsEntry → Type 0) (c : Config) (vs : ValueStorage)
    → All P (copies (all_valid c vs.bitmap vs.disk (create_used_chunk_list c vs)))
    → (chunk j : ℕ) → chunk < c.chunk_num
    → j < c.entries_per_chunk
    → vs.bitmap chunk j ≡ true
    → P (vs.disk (chunk * c.entries_per_chunk + j))
unfolding create_used_chunk_list count
all_valid-everywhere P c vs h chunk j inside lt valid =
    let from : 0 + chunk ≡ chunk = omega arith in
    let some : 0 < count c vs (0 + chunk) =
      count_upto-some (vs.bitmap (0 + chunk)) c.entries_per_chunk j lt
        (ap (λ k. vs.bitmap k j) from ∙ valid) in
    let all =
      All-of_sort_by _ (λ p. p.1) (used_from c vs c.chunk_num 0)
        (all_valid-at P c vs (create_used_chunk_list c vs) h) in
    subst (AllOf c vs P) from
      (used_from-at (λ p. AllOf c vs P p.0) c vs c.chunk_num 0 chunk all some inside) j lt valid
