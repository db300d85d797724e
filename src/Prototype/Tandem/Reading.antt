-- ===== src/Prototype/Tandem/Reading.antt =====
-- lookup of Prototype/src/tandemIndex.cpp.
use hkv.Base.{
  ℕ, zero, suc, ◌<◌, ◌≤◌, ◌≡◌, refl, sym, ap, subst, ◌∙◌, some, List, [], ◌∷◌, ◌++◌, ltb,
  ltb-false→le, ◌==◌, if◌then◌else◌, is_nil, Bool-cases, inl, inr, arith, Run, ok, stop, undefined,
  All, length, length-append,
}
use hkv.Prototype.Nodes.{Vnode, max_key}
use hkv.Prototype.Pool.{Pool, at}
use hkv.Prototype.ValueList.Chain.{Chain, Holds, length-nodes, entries}
use hkv.Prototype.ValueList.Lost.{Rising}
use hkv.Prototype.Skiplist.{node}
use hkv.Prototype.Skiplist.Pivot.{IsIndex, last_under, last_under-le, lookup-pivot}
use hkv.Prototype.Tandem.{TandemIndex, scan, lookup}

-- An inode stands for a node of the value list, whose key is where its range begins.
pub record Anchor (t : TandemIndex) (qs : List ℕ) (i : ℕ) : Type 0 where
  pub start : ℕ
  pub before : List ℕ
  pub after : List ℕ
  pub down : at (node t.index i).down t.values.pool ≡ some start
  pub parts : qs ≡ before ++ start ∷ after
  pub key : (t.values.pool.nodes start).key ≡ (node t.index i).min_key

-- The first range begins at the first entry.
abbrev pub FirstAt : TandemIndex → List ℕ → List (ℕ × ℕ) → Type 0
FirstAt t [] [] = Unit {0}
FirstAt t [] (e ∷ es) = ⊥
FirstAt t (i ∷ is) [] = ⊥
FirstAt t (i ∷ is) (e ∷ es) = (node t.index i).min_key ≡ e.0

-- The index of one level with the inodes `is`, over a list that holds `es`.
pub record IsTandem (t : TandemIndex) (is : List ℕ) (es : List (ℕ × ℕ)) : Type 0 where
  pub held : Holds t.values es
  pub rising : Rising es
  pub index : IsIndex t.index is
  pub anchors : All (Anchor t held.nodes) is
  pub first : FirstAt t is es

-- The loop of lookup over entries.
abbrev pub scan_entries : ℕ → List (ℕ × ℕ) → Run ℕ
scan_entries key [] = stop undefined
scan_entries key (e ∷ es) =
    if e.0 == key then ok e.1 else if ltb key e.0 then ok max_key else scan_entries key es

-- What lookup gives: -1 on an empty list, and otherwise what the loop finds from the first entry on.
abbrev pub reading : ℕ → List (ℕ × ℕ) → Run ℕ
reading key es = if is_nil es then ok max_key else scan_entries key es

scan-entries :
    (fuel key : ℕ) (p : Pool Vnode) (a : ℕ) (qs : List ℕ)
    → suc (length qs) < fuel
    → Chain p a qs
    → scan fuel key p (some a) ≡ scan_entries key (entries p (a ∷ qs))
unfolding scan
scan-entries zero key p a qs h c = absurd (omega arith)
scan-entries (suc zero) key p a qs h c = absurd (omega arith)
scan-entries (suc (suc fuel)) key p a [] h c = ground (arith, c)
scan-entries (suc (suc fuel)) key p a (q ∷ qs) h c =
    ground (arith, c.0, scan-entries (suc fuel) key p q qs (omega arith) c.1)

pub Chain-after :
    (p : Pool Vnode) (h a : ℕ) (before after : List ℕ)
    → Chain p h (before ++ a ∷ after)
    → Chain p a after
Chain-after p h a [] after c = c.1
Chain-after p h a (b ∷ before) after c = Chain-after p b a before after c.1

-- The keys before an anchor are below its key.
pub Rising-low :
    (p : Pool Vnode) (a : ℕ) (before after : List ℕ)
    → Rising (entries p (before ++ a ∷ after))
    → All (λ b. (p.nodes b).key < (p.nodes a).key) before
Rising-low p a [] after r = tt
Rising-low p a (b ∷ before) after r = (from before r.0, Rising-low p a before after r.1)
  where
    from :
        (bs : List ℕ)
        → All (λ y. (p.nodes b).key < y.0) (entries p (bs ++ a ∷ after))
        → (p.nodes b).key < (p.nodes a).key
    from [] h = h.0
    from (c ∷ bs) h = from bs h.1

scan_entries-skip :
    (key : ℕ) (p : Pool Vnode) (a : ℕ) (before after : List ℕ)
    → All (λ b. (p.nodes b).key < (p.nodes a).key) before
    → (p.nodes a).key ≤ key
    → scan_entries key (entries p (before ++ a ∷ after)) ≡ scan_entries key (entries p (a ∷ after))
scan_entries-skip key p a [] after low le = refl
scan_entries-skip key p a (b ∷ before) after low le =
    ground (arith, low.0, scan_entries-skip key p a before after low.1 le)

-- The anchor where the search begins is one of the index.
pub pivot-Anchor :
    (t : TandemIndex) (qs : List ℕ) (key i : ℕ) (is : List ℕ)
    → All (Anchor t qs) (i ∷ is)
    → Anchor t qs (last_under key t.index.pool i is)
pivot-Anchor t qs key i [] h = h.0
pivot-Anchor t qs key i (j ∷ js) h = elim (Bool-cases (ltb (node t.index j).min_key key)) [
  | inl e ↦ rw e (pivot-Anchor t qs key j js h.1)
  | inr e ↦ rw e h.0
]

-- The walk from an anchor reads what a walk of the whole list would.
scan-Anchor :
    (fuel key : ℕ) (t : TandemIndex) (es : List (ℕ × ℕ)) (i : ℕ) (h : Holds t.values es)
    → Rising es
    → suc (length es) < fuel
    → Anchor t h.nodes i
    → (node t.index i).min_key ≤ key
    → scan fuel key t.values.pool (at (node t.index i).down t.values.pool) ≡ scan_entries key es
scan-Anchor fuel key t es i h r enough x le =
    let p = t.values.pool in
    let split : es ≡ entries p (x.before ++ x.start ∷ x.after) =
      sym h.held ∙ ap (entries p) x.parts in
    let c =
      Chain-after p t.values.head x.start x.before x.after
        (subst (Chain p t.values.head) x.parts h.chain.chain) in
    let short : suc (length x.after) < fuel = omega (
      arith,
      length-nodes t.values es h,
      ap length x.parts,
      length-append x.before (x.start ∷ x.after),
    ) in
    ap (scan fuel key p) x.down
    ∙ scan-entries fuel key p x.start x.after short c
    ∙ sym (
        scan_entries-skip key p x.start x.before x.after
          (Rising-low p x.start x.before x.after (subst Rising split r)) (omega (arith, x.key)))
    ∙ ap (scan_entries key) (sym split)

-- lookup is the reading of the entries, with more fuel than inodes and entries.
pub lookup-eq-reading :
    (fuel key : ℕ) (t : TandemIndex) (is : List ℕ) (es : List (ℕ × ℕ))
    → IsTandem t is es
    → suc (length is) < fuel
    → suc (length es) < fuel
    → lookup fuel key t ≡ reading key es
unfolding lookup
lookup-eq-reading fuel key t [] [] x h k = rw (lookup-pivot fuel key t.index [] x.index h)
lookup-eq-reading fuel key t [] (e ∷ es) x h k = absurd (x.first)
lookup-eq-reading fuel key t (i ∷ is) [] x h k = absurd (x.first)
lookup-eq-reading fuel key t (i ∷ is) (e ∷ es) x h k =
    rw (lookup-pivot fuel key t.index (i ∷ is) x.index h)
      (elim (Bool-cases (ltb key (node t.index i).min_key)) [
        | inl lt ↦ rw lt (ground (arith, lt, x.first))
        | inr ge ↦
            let le = ltb-false→le _ _ ge in
            rw ge (
              scan-Anchor fuel key t (e ∷ es) (last_under key t.index.pool i is) x.held x.rising k
                (pivot-Anchor t x.held.nodes key i is x.anchors)
                (last_under-le key t.index.pool i is le))
      ])
