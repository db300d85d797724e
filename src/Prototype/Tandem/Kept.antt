-- ===== src/Prototype/Tandem/Kept.antt =====
-- What insert of Prototype/src/tandemIndex.cpp keeps of the index.
use hkv.Base.{
  ℕ, ◌<◌, ◌≡◌, refl, sym, ap, ◌∙◌, ◌≢◌, List, [], ◌∷◌, ◌++◌, arith, All, All-mono, leb, Bool-cases,
  inl, inr, ℤ,
}
use hkv.Base.Sort.{insert_by, All-insert_by}
use hkv.Prototype.Nodes.{Inode}
use hkv.Prototype.Pool.{Pool, at}
use hkv.Prototype.ValueList.Lost.{Rising}
use hkv.Prototype.Skiplist.{Skiplist, increase_covered_nodes}
use hkv.Prototype.Skiplist.Pivot.{IsIndex, Row, Ranges, Positive}

-- Inodes that differ in coveredNodes alone.
pub record SameNodes (p p' : Pool Inode) : Type 0 where
  pub vec : p'.vec ≡ p.vec
  pub next : (a : ℕ) → (p'.nodes a).next ≡ (p.nodes a).next
  pub id : (a : ℕ) → (p'.nodes a).id ≡ (p.nodes a).id
  pub low : (a : ℕ) → (p'.nodes a).min_key ≡ (p.nodes a).min_key
  pub high : (a : ℕ) → (p'.nodes a).max_key ≡ (p.nodes a).max_key
  pub down : (a : ℕ) → (p'.nodes a).down ≡ (p.nodes a).down

pub increased : (i : ℕ) (s : Skiplist) → SameNodes s.pool (increase_covered_nodes i s).1.pool
unfolding increase_covered_nodes
increased i s = record {
  vec = refl;
  next = λ a. ground arith;
  id = λ a. ground arith;
  low = λ a. ground arith;
  high = λ a. ground arith;
  down = λ a. ground arith;
}

same_at : (p p' : Pool Inode) (n : ℤ) → p'.vec ≡ p.vec → at n p' ≡ at n p
unfolding at
same_at p p' n h = rw h refl

same-Row :
    (p p' : Pool Inode) (t a : ℕ) (is : List ℕ) → SameNodes p p' → Row p t a is → Row p' t a is
same-Row p p' t a [] s r = rw (s.next a, s.id t) r
same-Row p p' t a (i ∷ is) s r = (
  rw (s.next a, s.id t) r.0,
  rw (s.next a) (same_at p p' (p.nodes a).next s.vec ∙ r.1),
  same-Row p p' t i is s r.2,
)

same-Ranges :
    (p p' : Pool Inode) (i : ℕ) (is : List ℕ) → SameNodes p p' → Ranges p i is → Ranges p' i is
same-Ranges p p' i [] s r = tt
same-Ranges p p' i (j ∷ js) s r = (
  s.high i ∙ r.0 ∙ sym (s.low j),
  omega (arith, s.low i, s.low j, r.1),
  same-Ranges p p' j js s r.2,
)

same-Positive : (p p' : Pool Inode) (is : List ℕ) → SameNodes p p' → Positive p is → Positive p' is
same-Positive p p' [] s r = tt
same-Positive p p' (i ∷ is) s r = (omega (arith, s.low i, r.0), same-Ranges p p' i is s r.1)

pub increased-IsIndex :
    (i : ℕ) (s : Skiplist) (is : List ℕ) → IsIndex s is → IsIndex (increase_covered_nodes i s).1 is
unfolding increase_covered_nodes
increased-IsIndex i s is x =
    let g = increased i s in
    record {
      level = x.level;
      real = x.real;
      low = g.low (s.header 0) ∙ x.low;
      high = g.high (s.header 0) ∙ x.high;
      row = same-Row s.pool _ (s.tail 0) (s.header 0) is g x.row;
      ranges = same-Positive s.pool _ is g x.ranges;
    }

-- A node of the list stays on it.
pub reposition :
    (a new : ℕ) (before after wb wa : List ℕ)
    → before ++ a ∷ after ≡ wb ++ wa
    → (b : List ℕ) × (c : List ℕ) × (wb ++ new ∷ wa ≡ b ++ a ∷ c)
reposition a new before after [] wa e = (new ∷ before, after, ap (λ l. new ∷ l) (sym e))
reposition a new [] after (w ∷ wb) wa e =
    let same : w ≡ a = cc in ([], wb ++ new ∷ wa, ap (λ x. x ∷ wb ++ new ∷ wa) same)
reposition a new (x ∷ before) after (w ∷ wb) wa e =
    let (b, c, eq) = reposition a new before after wb wa (cc) in
    let same : w ≡ x = cc in (x ∷ b, c, cc)

-- A new key among keys that rise.
pub insert_by-Rising :
    (key value : ℕ) (es : List (ℕ × ℕ))
    → All (λ e. e.0 ≢ key) es
    → Rising es
    → Rising (insert_by (λ e. e.0) (key, value) es)
unfolding insert_by
insert_by-Rising key value [] n r = (tt, tt)
insert_by-Rising key value (e ∷ es) n r = elim (Bool-cases (leb key e.0)) [
  | inl le ↦
      let lt : key < e.0 = ground (arith, n.0) in
      rw le ((lt, All-mono es (λ y h. omega (arith, h, lt)) r.0), r)
  | inr gt ↦
      let lt : e.0 < key = ground (arith, n.0) in
      rw gt
        (All-insert_by _ (λ x. x.0) (key, value) es lt r.0, insert_by-Rising key value es n.1 r.1)
]
