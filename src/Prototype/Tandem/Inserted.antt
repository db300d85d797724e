-- ===== src/Prototype/Tandem/Inserted.antt =====
-- insert, then lookup of Prototype/src/tandemIndex.cpp.
use hkv.Base.{
  ℕ, suc, ◌<◌, ◌≡◌, sym, ap, subst, ◌∙◌, ◌≢◌, true, false, none, some, List, [], ◌∷◌, ◌++◌, arith,
  ok, All, All-mono, length, get_elem?, last_of, ltb, leb, Bool-cases, inl, inr, ltb-false→le,
  leb→le,
}
use hkv.Base.Sort.{insert_by, length-insert_by}
use hkv.Prototype.Nodes.{Vnode}
use hkv.Prototype.Pool.{Pool, at}
use hkv.Prototype.ValueList.{link_after}
use hkv.Prototype.ValueList.Chain.{Holds, Split, link_after-same, entries}
use hkv.Prototype.ValueList.Placed.{taken_pool, get_elem?-some, place-Holds, entries-held}
use hkv.Prototype.Skiplist.{node, increase_covered_nodes}
use hkv.Prototype.Skiplist.Pivot.{pivot, lookup-pivot}
use hkv.Prototype.Tandem.{TandemIndex, insert, lookup}
use hkv.Prototype.Tandem.Reading.{
  Anchor, FirstAt, IsTandem, reading, scan_entries, lookup-eq-reading,
}
use hkv.Prototype.Tandem.Writing.{entry-at, pivot-some, place, insert_runs_within}
use hkv.Prototype.Tandem.Kept.{increased, increased-IsIndex, reposition, insert_by-Rising}

scan_entries-inserted :
    (key value : ℕ) (es : List (ℕ × ℕ))
    → All (λ e. e.0 ≢ key) es
    → scan_entries key (insert_by (λ e. e.0) (key, value) es) ≡ ok value
unfolding insert_by
scan_entries-inserted key value [] n = ground arith
scan_entries-inserted key value (e ∷ es) n =
    ground (arith, n.0, scan_entries-inserted key value es n.1)

reading-inserted :
    (key value : ℕ) (es : List (ℕ × ℕ))
    → All (λ e. e.0 ≢ key) es
    → reading key (insert_by (λ e. e.0) (key, value) es) ≡ ok value
unfolding insert_by
reading-inserted key value [] n = ground arith
reading-inserted key value (e ∷ es) n = ground (arith, n.0, scan_entries-inserted key value es n.1)

first-inserted :
    (t t' : TandemIndex) (key value i : ℕ) (is : List ℕ) (es : List (ℕ × ℕ))
    → ((a : ℕ) → (node t'.index a).min_key ≡ (node t.index a).min_key)
    → FirstAt t is es
    → pivot key t.index.pool is ≡ some i
    → FirstAt t' is (insert_by (λ e. e.0) (key, value) es)
unfolding insert_by
first-inserted t t' key value i [] es same f e = absurd (cc)
first-inserted t t' key value i (j ∷ is) [] same f e = absurd f
first-inserted t t' key value i (j ∷ is) (x ∷ es) same f e =
    elim (Bool-cases (ltb key (node t.index j).min_key)) [
      | inl lt ↦ let none_here : none ≡ some i = rw lt at e in absurd (cc)
      | inr ge ↦ elim (Bool-cases (leb key x.0)) [
        | inl le ↦ rw le (omega (arith, same j, f, leb→le _ _ le, ltb-false→le _ _ ge))
        | inr gt ↦ rw gt (same j ∙ f)
      ]
    ]

module _ (key value new i : ℕ) (t : TandemIndex) (es : List (ℕ × ℕ)) (h : Holds t.values es)
    (got : get_elem? t.values.pool.vec t.values.pool.current_idx ≡ some new)
    (s : Split key (taken_pool new key value t.values.pool) h.nodes) where
  linked : Pool Vnode
  linked = link_after (last_of t.values.head s.before) new (taken_pool new key value t.values.pool)

  after_insert : TandemIndex
  unfolding linked
  after_insert = record {
    index = (increase_covered_nodes i t.index).1;
    values = record t.values { pool = linked };
  }

  after-Holds :
      (h' : Holds after_insert.values (insert_by (λ e. e.0) (key, value) es)) × (h'.nodes
        ≡ s.before ++ new ∷ s.after)
  unfolding after_insert linked
  after-Holds = place-Holds key value new t.values es h got s

  -- The anchors are where they were.
  after-Anchor : (j : ℕ) → Anchor t h.nodes j → Anchor after_insert (s.before ++ new ∷ s.after) j
  unfolding after_insert linked taken_pool at link_after increase_covered_nodes
  after-Anchor j x =
      let p1 = taken_pool new key value t.values.pool in
      let whole = x.before ++ x.start ∷ x.after in
      let (b, c, parts) =
        reposition x.start new x.before x.after s.before s.after (sym x.parts ∙ s.parts) in
      let g = increased i t.index in
      let held : entries p1 whole ≡ es =
        ap (entries p1) (sym x.parts) ∙ entries-held key value new t.values es h got in
      let was : entries t.values.pool whole ≡ es =
        ap (entries t.values.pool) (sym x.parts) ∙ h.held in
      let same =
        (link_after-same p1 (last_of t.values.head s.before) new x.start).1
        ∙ entry-at t.values.pool p1 x.start x.before x.after (held ∙ sym was) in
      record {
        start = x.start;
        before = b;
        after = c;
        down = ap (λ n. at n t.values.pool) (g.down j) ∙ x.down;
        parts = parts;
        key = ap (λ (e : ℕ × ℕ). e.0) same ∙ x.key ∙ sym (g.low j);
      }

-- On an index of one level over a list of rising keys, with a node left in the pool of the list and
-- fuel for more than the inodes and the nodes: inserting a key that is not there into a range that is
-- not full returns true. The list then holds the entry in its place, index and list belong together as
-- before, and lookup returns the value.
pub insert-within :
    (fuel levels key value i : ℕ) (unset : ℕ → ℕ) (t : TandemIndex) (is : List ℕ)
    (es : List (ℕ × ℕ))
    → IsTandem t is es
    → All (λ e. e.0 ≢ key) es
    → pivot key t.index.pool is ≡ some i
    → (increase_covered_nodes i t.index).0 ≡ false
    → t.values.pool.current_idx < t.values.pool.num_nodes
    → suc (length is) < fuel
    → suc (suc (length es)) < fuel
    → (t' : TandemIndex) × (insert fuel levels unset key value t ≡ ok (true, t'))
      × IsTandem t' is (insert_by (λ e. e.0) (key, value) es)
      × (lookup fuel key t' ≡ ok value)
unfolding after_insert linked
insert-within fuel levels key value i unset t is es x absent here small room enough_is enough =
    let h = x.held in
    let (new, got) =
      get_elem?-some t.values.pool.vec t.values.pool.current_idx (omega (arith, h.pool.filled)) in
    let (anchor, le) = pivot-some t h.nodes key i is x.anchors here in
    let pl = place fuel key value new i t es h x.rising absent (omega arith) got anchor le in
    let t' = after_insert key value new i t es h got pl.split in
    let es' = insert_by (λ (e : ℕ × ℕ). e.0) (key, value) es in
    let same = λ (a : ℕ). (increased i t.index).low a in
    let after = after-Holds key value new i t es h got pl.split in
    let x' : IsTandem t' is es' = record {
      held = after.0;
      rising = insert_by-Rising key value es absent x.rising;
      index = increased-IsIndex i t.index is x.index;
      anchors =
          subst (λ qs. All (Anchor t' qs) is) (sym after.1)
            (All-mono is (after-Anchor key value new i t es h got pl.split) x.anchors);
      first = first-inserted t t' key value i is es same x.first here;
    } in
    (
      t',
      insert_runs_within fuel levels unset key value new (last_of t.values.head pl.split.before) i
          pl.start t room got (lookup-pivot fuel key t.index is x.index enough_is ∙ ap ok here)
          pl.down pl.run small,
      x',
      lookup-eq-reading fuel key t' is es' x' enough_is
            (omega (arith, length-insert_by (λ (e : ℕ × ℕ). e.0) (key, value) es))
          ∙ reading-inserted key value es absent,
    )
