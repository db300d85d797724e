-- ===== src/Prototype/Skiplist/Pivot.antt =====
-- lookup of Prototype/src/dramSkiplist.cpp while the list has one level.
use hkv.Base.{
  ℕ, zero, suc, ◌<◌, ◌≤◌, ◌≡◌, refl, ap, ◌∙◌, ◌≢◌, eq_ℤ, true, false, Option, none, some, List, [],
  ◌∷◌, ltb, ltb→lt, ltb-false→le, ◌==◌, ==_iff, not, ◌&&◌, ◌-◌, ◌>>=◌, if◌then◌else◌, Bool-cases,
  inl, inr, arith, ok, length,
}
use hkv.Prototype.Nodes.{Inode}
use hkv.Prototype.Pool.{Pool, at}
use hkv.Prototype.Skiplist.{Skiplist, node, walk, descend, lookup}

-- From node `a` the inodes `is` follow on a level that ends at node `t`.
abbrev pub Row : Pool Inode → ℕ → ℕ → List ℕ → Type 0
Row p t a [] = eq_ℤ (p.nodes a).next (p.nodes t).id ≡ true
Row p t a (i ∷ is) =
    (eq_ℤ (p.nodes a).next (p.nodes t).id ≡ false) × (at (p.nodes a).next p ≡ some i) × Row p t i is

-- Each range begins where the one before it ends, and the ranges rise.
abbrev pub Ranges : Pool Inode → ℕ → List ℕ → Type 0
Ranges p i [] = Unit {0}
Ranges p i (j ∷ js) =
    ((p.nodes i).max_key ≡ (p.nodes j).min_key)
    × ((p.nodes i).min_key < (p.nodes j).min_key)
    × Ranges p j js

abbrev pub Positive : Pool Inode → List ℕ → Type 0
Positive p [] = Unit {0}
Positive p (i ∷ is) = (0 < (p.nodes i).min_key) × Ranges p i is

-- An index of one level, whose inodes are `is`.
pub record IsIndex (s : Skiplist) (is : List ℕ) : Type 0 where
  pub level : s.level ≡ 1
  pub real : s.header 0 ≢ 0
  pub low : (node s (s.header 0)).min_key ≡ 0
  pub high : (node s (s.header 0)).max_key ≡ 0
  pub row : Row s.pool (s.tail 0) (s.header 0) is
  pub ranges : Positive s.pool is

-- The last of `i ∷ is` whose range begins below the key, if not `i` itself.
abbrev pub last_under : ℕ → Pool Inode → ℕ → List ℕ → ℕ
last_under key p i [] = i
last_under key p i (j ∷ js) = if ltb (p.nodes j).min_key key then last_under key p j js else i

-- Where a search begins: nowhere if all ranges are above the key.
abbrev pub pivot : ℕ → Pool Inode → List ℕ → Option ℕ
pivot key p [] = none
pivot key p (i ∷ is) = if ltb key (p.nodes i).min_key then none else some (last_under key p i is)

pub last_under-le :
    (key : ℕ) (p : Pool Inode) (i : ℕ) (is : List ℕ)
    → (p.nodes i).min_key ≤ key
    → (p.nodes (last_under key p i is)).min_key ≤ key
last_under-le key p i [] le = le
last_under-le key p i (j ∷ js) le = elim (Bool-cases (ltb (p.nodes j).min_key key)) [
  | inl e ↦ rw e (last_under-le key p j js (omega (arith, ltb→lt _ _ e)))
  | inr e ↦ rw e le
]

walk-Row :
    (fuel key t prev : ℕ) (p : Pool Inode) (i : ℕ) (is : List ℕ)
    → length is < fuel
    → Row p t i is
    → Ranges p i is
    → (b : ℕ) × (walk fuel key (p.nodes t).id p prev i ≡ ok (b, last_under key p i is))
unfolding walk
walk-Row zero key t prev p i is h row r = absurd (omega arith)
walk-Row (suc fuel) key t prev p i [] h row r = (prev, ground (arith, row))
walk-Row (suc fuel) key t prev p i (j ∷ js) h row r =
    elim (Bool-cases (ltb (p.nodes j).min_key key)) [
      | inl e ↦
          let (b, run) = walk-Row fuel key t i p j js (omega arith) row.2 r.2 in
          (b, ground (arith, row.0, row.1, r.0, e, run))
      | inr e ↦ (prev, ground (arith, row.0, row.1, r.0, e))
    ]

-- Below the first range the walk stops at its inode.
walk_first :
    (fuel key t prev : ℕ) (p : Pool Inode) (i : ℕ) (is : List ℕ)
    → 0 < fuel
    → Row p t i is
    → Ranges p i is
    → key < (p.nodes i).min_key
    → walk fuel key (p.nodes t).id p prev i ≡ ok (prev, i)
unfolding walk
walk_first zero key t prev p i is h row r lt = absurd (omega arith)
walk_first (suc fuel) key t prev p i [] h row r lt = ground (arith, row)
walk_first (suc fuel) key t prev p i (j ∷ js) h row r lt = ground (arith, row.0, row.1, r.0, r.1)

last_under-positive :
    (key : ℕ) (p : Pool Inode) (i : ℕ) (is : List ℕ)
    → 0 < (p.nodes i).min_key
    → Ranges p i is
    → 0 < (p.nodes (last_under key p i is)).min_key
last_under-positive key p i [] h r = h
last_under-positive key p i (j ∷ js) h r = elim (Bool-cases (ltb (p.nodes j).min_key key)) [
  | inl e ↦ rw e (last_under-positive key p j js (omega (arith, r.1)) r.2)
  | inr e ↦ rw e h
]

-- What lookup makes of the one walk along a list of one level.
abbrev kept : ℕ → Skiplist → ℕ → ℕ → ℕ
kept key s prev found = if ltb key (node s found).min_key && not (prev == 0) then prev else found

abbrev result : Skiplist → ℕ → Option ℕ
result s a = if (node s a).min_key == 0 then none else some a

lookup_one :
    (fuel key prev found : ℕ) (s : Skiplist)
    → s.level ≡ 1
    → walk fuel key (node s (s.tail 0)).id s.pool 0 (s.header 0) ≡ ok (prev, found)
    → lookup fuel key s ≡ ok (result s (kept key s prev found))
unfolding lookup
lookup_one fuel key prev found s e run =
    ap (λ (n : ℕ). descend fuel key s n (s.header (n - 1)) >>= λ cur. ok (result s cur)) e
    ∙ rw (run, descend) refl

module _ (key : ℕ) (s : Skiplist) (i : ℕ) (is : List ℕ) (x : IsIndex s (i ∷ is)) where
  first_step :
      (fuel : ℕ)
      → 0 < key
      → walk (suc fuel) key (node s (s.tail 0)).id s.pool 0 (s.header 0)
        ≡ walk fuel key (node s (s.tail 0)).id s.pool (s.header 0) i
  unfolding walk
  first_step fuel h = ground (arith, x.row.0, x.row.1, x.high, h)

  zero_step :
      (fuel : ℕ)
      → key ≡ 0
      → walk (suc fuel) key (node s (s.tail 0)).id s.pool 0 (s.header 0) ≡ ok (0, s.header 0)
  unfolding walk
  zero_step fuel h = ground (arith, x.row.0, x.high, h)

  -- What is kept of the walk in the three cases.
  zero_kept : key ≡ 0 → result s (kept key s 0 (s.header 0)) ≡ pivot key s.pool (i ∷ is)
  zero_kept h = ground (arith, x.low, x.ranges.0)

  first_kept :
      key < (node s i).min_key → result s (kept key s (s.header 0) i) ≡ pivot key s.pool (i ∷ is)
  first_kept h = ground (arith, x.low, x.real)

  row_kept :
      (prev : ℕ)
      → (node s i).min_key ≤ key
      → result s (kept key s prev (last_under key s.pool i is)) ≡ pivot key s.pool (i ∷ is)
  row_kept prev h = ground (
    arith,
    h,
    last_under-le key s.pool i is h,
    last_under-positive key s.pool i is x.ranges.0 x.ranges.1,
  )

  lookup_cases :
      (fuel : ℕ) → suc (length is) < fuel → lookup (suc fuel) key s ≡ ok (pivot key s.pool (i ∷ is))
  lookup_cases fuel h = elim (Bool-cases (key == 0)) [
    | inl e ↦
        let z = (==_iff key 0).0 e in
        lookup_one (suc fuel) key 0 (s.header 0) s x.level (zero_step fuel z) ∙ ap ok (zero_kept z)
    | inr e ↦
        let some_key : 0 < key = ground arith in
        let step = first_step fuel some_key in
        elim (Bool-cases (ltb key (node s i).min_key)) [
          | inl lt ↦
              let below = ltb→lt _ _ lt in
              lookup_one (suc fuel) key (s.header 0) i s x.level (
                step
                ∙ walk_first fuel key (s.tail 0) (s.header 0) s.pool i is (omega arith) x.row.2
                    x.ranges.1 below)
              ∙ ap ok (first_kept below)
          | inr ge ↦
              let (b, run) =
                walk-Row fuel key (s.tail 0) (s.header 0) s.pool i is (omega arith) x.row.2
                  x.ranges.1 in
              lookup_one (suc fuel) key b (last_under key s.pool i is) s x.level (step ∙ run)
              ∙ ap ok (row_kept b (ltb-false→le _ _ ge))
        ]
  ]

-- lookup, with more fuel than there are inodes.
pub lookup-pivot :
    (fuel key : ℕ) (s : Skiplist) (is : List ℕ)
    → IsIndex s is
    → suc (length is) < fuel
    → lookup fuel key s ≡ ok (pivot key s.pool is)
unfolding walk
lookup-pivot zero key s is x h = absurd (omega arith)
lookup-pivot (suc fuel) key s [] x h =
    lookup_one (suc fuel) key 0 (s.header 0) s x.level (stay x.row) ∙ ground (arith, x.low)
  where
    stay :
        eq_ℤ (node s (s.header 0)).next (node s (s.tail 0)).id ≡ true
        → walk (suc fuel) key (node s (s.tail 0)).id s.pool 0 (s.header 0) ≡ ok (0, s.header 0)
    stay e = ground (arith, e)
lookup-pivot (suc fuel) key s (i ∷ is) x h = lookup_cases key s i is x fuel (omega arith)
