-- ===== src/Prototype/Tandem/Writing.antt =====
-- insert of Prototype/src/tandemIndex.cpp into a range of the index.
use mathlib.Core.List.{append_assoc}
use hkv.Base.{
  ℕ, suc, ◌<◌, ◌≤◌, ◌≡◌, refl, sym, ap, subst, ◌∙◌, ◌≢◌, true, false, none, some, List, [], ◌∷◌,
  ◌++◌, arith, ok, All, All-append, All-mono, length, length-append, get_elem?, last_of, Bool-cases,
  inl, inr, ltb, ltb-false→le,
}
use hkv.Prototype.Nodes.{Vnode}
use hkv.Prototype.Pool.{Pool, at}
use hkv.Prototype.ValueList.{last_below, link_after}
use hkv.Prototype.ValueList.Chain.{
  Chain, Holds, Split, last_below-Split, length-nodes, entry, entries,
}
use hkv.Prototype.ValueList.Lost.{Rising}
use hkv.Prototype.ValueList.Placed.{taken_pool, taken_pool-key, taken-Chain, entries-held}
use hkv.Prototype.Skiplist
use hkv.Prototype.Skiplist.{Skiplist, node, increase_covered_nodes}
use hkv.Prototype.Skiplist.Pivot.{pivot, last_under, last_under-le}
use hkv.Prototype.Tandem.{TandemIndex, insert}
use hkv.Prototype.Tandem.Reading.{Anchor, Chain-after, Rising-low, pivot-Anchor}

last_of-append :
    (h a : ℕ) (before after : List ℕ) → last_of h (before ++ a ∷ after) ≡ last_of a after
last_of-append h a [] after = refl
last_of-append h a (b ∷ before) after = last_of-append b a before after

-- A split of what follows an anchor is a split of the list, where all before is below the key.
abbrev wider :
    (key : ℕ) (p : Pool Vnode) (a : ℕ) (before after qs : List ℕ)
    → qs ≡ before ++ a ∷ after
    → All (λ b. (p.nodes b).key < key) (before ++ a ∷ [])
    → Split key p after
    → Split key p qs
wider key p a before after qs e low s = record {
  before = before ++ a ∷ s.before;
  after = s.after;
  parts = e ∙ ap (λ l. before ++ a ∷ l) s.parts ∙ sym (append_assoc before (a ∷ s.before) s.after);
  low =
      subst (All (λ b. (p.nodes b).key < key)) (append_assoc before (a ∷ []) s.before)
        (All-append _ (before ++ a ∷ []) s.before low s.low);
  high = s.high;
}

pub insert_runs_within :
    (fuel levels : ℕ) (unset : ℕ → ℕ) (key value new cur i start : ℕ) (t : TandemIndex)
    → t.values.pool.current_idx < t.values.pool.num_nodes
    → get_elem? t.values.pool.vec t.values.pool.current_idx ≡ some new
    → Skiplist.lookup fuel key t.index ≡ ok (some i)
    → at (node t.index i).down t.values.pool ≡ some start
    → last_below fuel key (taken_pool new key value t.values.pool) start ≡ ok cur
    → (increase_covered_nodes i t.index).0 ≡ false
    → insert fuel levels unset key value t
      ≡ ok (
        true,
        record {
          index = (increase_covered_nodes i t.index).1;
          values = record t.values {
            pool = link_after cur new (taken_pool new key value t.values.pool);
          };
        },
      )
unfolding insert taken_pool
insert_runs_within fuel levels unset key value new cur i start t lt h look down below small =
    ground (arith, h, look, down, below, small, taken_pool-key new key value t.values.pool)

pub entry-at :
    (p p' : Pool Vnode) (a : ℕ) (before after : List ℕ)
    → entries p' (before ++ a ∷ after) ≡ entries p (before ++ a ∷ after)
    → entry (p'.nodes a) ≡ entry (p.nodes a)
entry-at p p' a [] after h = cc
entry-at p p' a (b ∷ before) after h = entry-at p p' a before after (cc)

absent-at :
    (key : ℕ) (p : Pool Vnode) (a : ℕ) (before after : List ℕ)
    → All (λ e. e.0 ≢ key) (entries p (before ++ a ∷ after))
    → (p.nodes a).key ≢ key
absent-at key p a [] after h = h.0
absent-at key p a (b ∷ before) after h = absent-at key p a before after h.1

pub pivot-some :
    (t : TandemIndex) (qs : List ℕ) (key i : ℕ) (is : List ℕ)
    → All (Anchor t qs) is
    → pivot key t.index.pool is ≡ some i
    → Anchor t qs i × ((node t.index i).min_key ≤ key)
pivot-some t qs key i [] h e = absurd (cc)
pivot-some t qs key i (j ∷ js) h e = elim (Bool-cases (ltb key (node t.index j).min_key)) [
  | inl lt ↦ let f : none ≡ some i = rw lt at e in absurd (cc)
  | inr ge ↦
      let f : some (last_under key t.index.pool j js) ≡ some i = rw ge at e in
      let same : last_under key t.index.pool j js ≡ i = cc in
      rw (← same)
        (pivot-Anchor t qs key j js h, last_under-le key t.index.pool j js (ltb-false→le _ _ ge))
]

-- The place that the walk from an anchor finds, as a split of the whole list.
pub record Place (t : TandemIndex) (key value new i : ℕ) (qs : List ℕ) (fuel : ℕ) : Type 0 where
  pub start : ℕ
  pub down : at (node t.index i).down t.values.pool ≡ some start
  pub split : Split key (taken_pool new key value t.values.pool) qs
  pub run :
      last_below fuel key (taken_pool new key value t.values.pool) start
      ≡ ok (last_of t.values.head split.before)

pub place :
    (fuel key value new i : ℕ) (t : TandemIndex) (es : List (ℕ × ℕ)) (h : Holds t.values es)
    → Rising es
    → All (λ e. e.0 ≢ key) es
    → suc (length es) < fuel
    → get_elem? t.values.pool.vec t.values.pool.current_idx ≡ some new
    → Anchor t h.nodes i
    → (node t.index i).min_key ≤ key
    → Place t key value new i h.nodes fuel
place fuel key value new i t es h r absent enough got x le =
    let p = t.values.pool in
    let p1 = taken_pool new key value p in
    let whole = x.before ++ x.start ∷ x.after in
    let held : entries p1 whole ≡ es =
      ap (entries p1) (sym x.parts) ∙ entries-held key value new t.values es h got in
    let was : entries p whole ≡ es = ap (entries p) (sym x.parts) ∙ h.held in
    let same = entry-at p p1 x.start x.before x.after (held ∙ sym was) in
    let ne =
      absent-at key p x.start x.before x.after (subst (All (λ e. e.0 ≢ key)) (sym was) absent) in
    let lt : (p1.nodes x.start).key < key =
      let keys : (p1.nodes x.start).key ≡ (p.nodes x.start).key = ap (λ (e : ℕ × ℕ). e.0) same in
      ground (arith, keys, ne, x.key, le) in
    let low = Rising-low p1 x.start x.before x.after (subst Rising (sym held) r) in
    let c =
      Chain-after p t.values.head x.start x.before x.after
        (subst (Chain p t.values.head) x.parts h.chain.chain) in
    let short : length x.after < fuel = omega (
      arith,
      length-nodes t.values es h,
      ap length x.parts,
      length-append x.before (x.start ∷ x.after),
    ) in
    let (s, run) =
      last_below-Split fuel key p1 x.start x.after short
        (taken-Chain key value new p x.start x.after c) in
    record {
      start = x.start;
      down = x.down;
      split =
          wider key p1 x.start x.before x.after h.nodes x.parts
            (All-append _ x.before (x.start ∷ []) (All-mono x.before (λ b k. omega (arith, k)) low)
              (lt, tt))
            s;
      run = run ∙ ap ok (sym (last_of-append t.values.head x.start x.before s.before));
    }
