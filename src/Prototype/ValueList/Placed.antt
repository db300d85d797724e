-- ===== src/Prototype/ValueList/Placed.antt =====
-- A new node of the value list of Prototype/src/valuelist.cpp, taken from the pool and linked.
use hkv.Base.{
  ℕ, zero, suc, ◌+◌, ◌<◌, ◌≡◌, refl, sym, ap, subst, ◌∙◌, ◌≢◌, some, List, [], ◌∷◌, ◌++◌, pos,
  arith, All, All-mono, length, get_elem?, last_of, Apart,
}
use hkv.Base.Sort.{insert_by}
use hkv.Prototype.Nodes.{Vnode}
use hkv.Prototype.Pool.{Pool, at}
use hkv.Prototype.ValueList.{ValueList, get_next, link_after, write_node, set_entry}
use hkv.Prototype.ValueList.Chain.{
  Chain, Holds, Taken, IsChain, IsPool, entry, entries, Starts, Split, Chain-frame, link_after-same,
  link_after-Chain,
}

All-insert {κ} :
    (P : ℕ → Type κ) (n : ℕ) (before after : List ℕ)
    → P n
    → All P (before ++ after)
    → All P (before ++ n ∷ after)
All-insert P n [] after h k = (h, k)
All-insert P n (b ∷ before) after h k = (k.0, All-insert P n before after h k.1)

Apart-insert :
    (n : ℕ) (before after : List ℕ)
    → All (λ q. q ≢ n) (before ++ after)
    → Apart (before ++ after)
    → Apart (before ++ n ∷ after)
Apart-insert n [] after h d = (h, d)
Apart-insert n (b ∷ before) after h d =
    (All-insert _ n before after (λ e. h.0 (sym e)) d.0, Apart-insert n before after h.1 d.1)

entries-same :
    (p p' : Pool Vnode) (qs : List ℕ)
    → All (λ a. entry (p'.nodes a) ≡ entry (p.nodes a)) qs
    → entries p' qs ≡ entries p qs
entries-same p p' [] h = refl
entries-same p p' (q ∷ qs) h = cc (h.0, entries-same p p' qs h.1)

all_same :
    (p p' : Pool Vnode) (qs : List ℕ)
    → ((a : ℕ) → entry (p'.nodes a) ≡ entry (p.nodes a))
    → entries p' qs ≡ entries p qs
all_same p p' [] h = refl
all_same p p' (q ∷ qs) h = cc (h q, all_same p p' qs h)

-- A new node between the low and the high keys is what insert_by makes of the entries.
entries-inserted :
    (p p' : Pool Vnode) (n key value : ℕ) (before after : List ℕ)
    → ((a : ℕ) → entry (p'.nodes a) ≡ entry (p.nodes a))
    → entry (p.nodes n) ≡ (key, value)
    → All (λ a. (p.nodes a).key < key) before
    → Starts key p after
    → entries p' (before ++ n ∷ after)
      ≡ insert_by (λ e. e.0) (key, value) (entries p (before ++ after))
unfolding insert_by
entries-inserted p p' n key value [] [] same new low high = ap (λ e. e ∷ []) (same n ∙ new)
entries-inserted p p' n key value [] (b ∷ after) same new low high =
    ground (arith, same n, same b, all_same p p' after same)
entries-inserted p p' n key value (b ∷ before) after same new low high =
    ground
      (arith, same b, low.0, entries-inserted p p' n key value before after same new low.1 high)

-- What an insert leaves of a pool: its vector and the numbers of its nodes.
record IsGrown (p p' : Pool Vnode) : Type 0 where
  vec : p'.vec ≡ p.vec
  limit : p'.num_nodes ≡ p.num_nodes
  index : p'.current_idx ≡ p.current_idx + 1
  ids : (a : ℕ) → (p'.nodes a).id ≡ (p.nodes a).id

grown-IsPool : (p p' : Pool Vnode) → IsGrown p p' → IsPool p → IsPool p'
grown-IsPool p p' g v = record {
  numbered = λ i a h. g.ids a ∙ v.numbered i a (rw (sym g.vec) h);
  filled = omega (arith, ap length g.vec, g.limit);
}

grown-Taken : (p p' : Pool Vnode) (a : ℕ) → IsGrown p p' → Taken p a → Taken p' a
grown-Taken p p' a g (i, lt, e, h) = (i, omega (arith, g.index), g.ids a ∙ e, rw g.vec h)

-- The node handed out next is none of those in use.
next-new :
    (p : Pool Vnode) (n : ℕ) (qs : List ℕ)
    → (p.nodes n).id ≡ pos p.current_idx
    → All (Taken p) qs
    → All (λ q. q ≢ n) qs
next-new p n [] e t = tt
next-new p n (q ∷ qs) e t = (
  λ s.
      let (i, lt, ei, h) = t.0 in
      let same : pos i ≡ pos p.current_idx = sym ei ∙ ap (λ a. (p.nodes a).id) s ∙ e in
      ground (arith, lt, same),
  next-new p n qs e t.1,
)

pub get_elem?-some :
    {A : Type 0} (l : List A) (i : ℕ) → i < length l → (a : A) × (get_elem? l i ≡ some a)
get_elem?-some [] i h = absurd (omega arith)
get_elem?-some (x ∷ l) zero h = (x, refl)
get_elem?-some (x ∷ l) (suc i) h = get_elem?-some l i (omega arith)

-- The pool with the next node taken and its entry written.
unfoldable pub taken_pool : ℕ → ℕ → ℕ → Pool Vnode → Pool Vnode
unfolding write_node
taken_pool new key value p =
    write_node new (set_entry key value) (record p { current_idx = p.current_idx + 1 })

taken_pool-IsGrown : (new key value : ℕ) (p : Pool Vnode) → IsGrown p (taken_pool new key value p)
unfolding taken_pool
taken_pool-IsGrown new key value p = record {
  vec = refl;
  limit = refl;
  index = refl;
  ids = λ a. ground arith;
}

taken_pool-next :
    (new key value : ℕ) (p : Pool Vnode) (a : ℕ)
    → get_next (taken_pool new key value p) a ≡ get_next p a
unfolding taken_pool get_next at
taken_pool-next new key value p a =
    let e : ((taken_pool new key value p).nodes a).next ≡ (p.nodes a).next = ground arith in
    ap (λ n. at n p) e

pub taken_pool-entry :
    (new key value : ℕ) (p : Pool Vnode) (a : ℕ)
    → a ≢ new
    → entry ((taken_pool new key value p).nodes a) ≡ entry (p.nodes a)
unfolding taken_pool
taken_pool-entry new key value p a n = ground arith

pub taken_pool-key :
    (new key value : ℕ) (p : Pool Vnode)
    → entry ((taken_pool new key value p).nodes new) ≡ (key, value)
unfolding taken_pool
taken_pool-key new key value p = ground arith

taken_pool-nexts :
    (new key value : ℕ) (p : Pool Vnode) (qs : List ℕ)
    → All (λ q. get_next (taken_pool new key value p) q ≡ get_next p q) qs
taken_pool-nexts new key value p [] = tt
taken_pool-nexts new key value p (q ∷ qs) =
    (taken_pool-next new key value p q, taken_pool-nexts new key value p qs)

IsGrown-link_after :
    (p p' : Pool Vnode) (cur new : ℕ) → IsGrown p p' → IsGrown p (link_after cur new p')
unfolding link_after
IsGrown-link_after p p' cur new g = record {
  vec = g.vec;
  limit = g.limit;
  index = g.index;
  ids = λ a. (link_after-same p' cur new a).0 ∙ g.ids a;
}

-- The new node taken, its place found and the link made.
linked_IsChain :
    (key value new : ℕ) (l : ValueList) (before after : List ℕ)
    → IsPool l.pool
    → get_elem? l.pool.vec l.pool.current_idx ≡ some new
    → IsChain l (before ++ after)
    → IsChain
        (record l {
          pool = link_after (last_of l.head before) new (taken_pool new key value l.pool);
        })
        (before ++ new ∷ after)
unfolding taken_pool
linked_IsChain key value new l before after v h c =
    let p1 = taken_pool new key value l.pool in
    let g = taken_pool-IsGrown new key value l.pool in
    let e = v.numbered _ new h in
    let fresh = next-new l.pool new (l.head ∷ before ++ after) e c.taken in
    let g' = IsGrown-link_after l.pool p1 (last_of l.head before) new g in
    record {
      chain =
          link_after-Chain p1 l.head new l.pool.current_idx before after (g.ids new ∙ e) h c.apart
            fresh
            (Chain-frame l.pool p1 l.head (before ++ after)
              (taken_pool-nexts new key value l.pool (l.head ∷ before ++ after)) c.chain);
      apart = Apart-insert new (l.head ∷ before) after fresh c.apart;
      taken =
          All-insert _ new (l.head ∷ before) after
            (l.pool.current_idx, omega (arith, g'.index), g'.ids new ∙ e, rw g'.vec h)
            (All-mono (l.head ∷ before ++ after) (λ a. grown-Taken l.pool _ a g') c.taken);
    }

entries-taken :
    (new key value : ℕ) (p : Pool Vnode) (qs : List ℕ)
    → All (λ q. q ≢ new) qs
    → entries (taken_pool new key value p) qs ≡ entries p qs
entries-taken new key value p [] h = refl
entries-taken new key value p (q ∷ qs) h =
    cc (taken_pool-entry new key value p q h.0, entries-taken new key value p qs h.1)

-- The entry of a new node stands where the split of the list is.
pub place-Holds :
    (key value new : ℕ) (l : ValueList) (es : List (ℕ × ℕ)) (hs : Holds l es)
    → get_elem? l.pool.vec l.pool.current_idx ≡ some new
    → (s : Split key (taken_pool new key value l.pool) hs.nodes)
    → (h' : Holds
        (record l {
          pool = link_after (last_of l.head s.before) new (taken_pool new key value l.pool);
        })
        (insert_by (λ e. e.0) (key, value) es))
      × (h'.nodes ≡ s.before ++ new ∷ s.after)
place-Holds key value new l es hs h s =
    let p1 = taken_pool new key value l.pool in
    let e = hs.pool.numbered _ new h in
    let fresh = next-new l.pool new (l.head ∷ hs.nodes) e hs.chain.taken in
    let cur = last_of l.head s.before in
    let g = IsGrown-link_after l.pool p1 cur new (taken_pool-IsGrown new key value l.pool) in
    let p2 = link_after cur new p1 in
    let same = λ (a : ℕ). (link_after-same p1 cur new a).1 in
    (
      record {
        nodes = s.before ++ new ∷ s.after;
        pool = grown-IsPool l.pool p2 g hs.pool;
        chain =
            linked_IsChain key value new l s.before s.after hs.pool h
              (subst (IsChain l) s.parts hs.chain);
        held =
            entries-inserted p1 p2 new key value s.before s.after same
              (taken_pool-key new key value l.pool) s.low s.high
            ∙ ap (λ qs. insert_by (λ (e : ℕ × ℕ). e.0) (key, value) (entries p1 qs)) (sym s.parts)
            ∙ ap (insert_by (λ e. e.0) (key, value))
                (entries-taken new key value l.pool hs.nodes fresh.1 ∙ hs.held);
        head = same l.head ∙ taken_pool-entry new key value l.pool l.head fresh.0 ∙ hs.head;
      },
      refl,
    )

-- The chain is there before the link, too.
pub taken-Chain :
    (key value new : ℕ) (p : Pool Vnode) (a : ℕ) (qs : List ℕ)
    → Chain p a qs
    → Chain (taken_pool new key value p) a qs
taken-Chain key value new p a qs c =
    Chain-frame p _ a qs (taken_pool-nexts new key value p (a ∷ qs)) c

pub linked-counts :
    (key value new cur : ℕ) (p : Pool Vnode)
    → ((link_after cur new (taken_pool new key value p)).current_idx ≡ p.current_idx + 1)
      × ((link_after cur new (taken_pool new key value p)).num_nodes ≡ p.num_nodes)
linked-counts key value new cur p =
    let g = IsGrown-link_after p _ cur new (taken_pool-IsGrown new key value p) in
    (g.index, g.limit)

-- The list's entries before the link.
pub entries-held :
    (key value new : ℕ) (l : ValueList) (es : List (ℕ × ℕ)) (hs : Holds l es)
    → get_elem? l.pool.vec l.pool.current_idx ≡ some new
    → entries (taken_pool new key value l.pool) hs.nodes ≡ es
entries-held key value new l es hs h =
    let fresh = next-new l.pool new (l.head ∷ hs.nodes) (hs.pool.numbered _ new h) hs.chain.taken in
    entries-taken new key value l.pool hs.nodes fresh.1 ∙ hs.held
