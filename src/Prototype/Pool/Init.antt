-- ===== src/Prototype/Pool/Init.antt =====
-- What init of the node pools builds (Prototype/src/pmemVnodePool.cpp and dramInodePool.cpp).
use hkv.Base.{
  ℕ, zero, suc, ◌+◌, ◌*◌, ◌<◌, ◌≤◌, ◌≡◌, refl, sym, subst, ◌∙◌, ◌≢◌, ◌⊎◌, inl, inr, true, Option,
  some, List, [], ◌∷◌, ◌++◌, Bool-cases, ltb, ltb→lt, ltb-false→le, arith, length, length-append,
  get_elem?, update_self, update_ne,
}
use hkv.Prototype.Nodes.{Vnode, fresh_vnode}
use hkv.Prototype.Pool.{Pool, max_nodes, place, place_from, unbuilt, init_vnodes, vnode_pool}

get_elem?-push :
    (l : List ℕ) (x j a : ℕ)
    → get_elem? (l ++ x ∷ []) j ≡ some a
    → (get_elem? l j ≡ some a) ⊎ ((j ≡ length l) × (a ≡ x))
get_elem?-push [] x zero a h = inr (omega arith, ground arith)
get_elem?-push [] x (suc j) a h = cc
get_elem?-push (y ∷ l) x zero a h = inl h
get_elem?-push (y ∷ l) x (suc j) a h = elim (get_elem?-push l x j a h) [
  | inl e ↦ inl e
  | inr e ↦ inr (omega (arith, e.0), e.1)
]

get_elem?-below : (l : List ℕ) (x j : ℕ) → j < length l → get_elem? (l ++ x ∷ []) j ≡ get_elem? l j
get_elem?-below [] x j h = absurd (omega arith)
get_elem?-below (y ∷ l) x zero h = refl
get_elem?-below (y ∷ l) x (suc j) h = get_elem?-below l x j (omega arith)

get_elem?-at_end : (l : List ℕ) (x : ℕ) → get_elem? (l ++ x ∷ []) (length l) ≡ some x
get_elem?-at_end [] x = refl
get_elem?-at_end (y ∷ l) x = get_elem?-at_end l x

lt_or_last : (j i : ℕ) → j < i + 1 → (j < i) ⊎ (j ≡ i)
lt_or_last j i h = elim (Bool-cases (ltb j i)) [
  | inl e ↦ inl (ltb→lt _ _ e)
  | inr e ↦ inr (omega (arith, ltb-false→le _ _ e))
]

spots_ne : (block size j i : ℕ) → 0 < size → j < i → block + i * size ≢ block + j * size
spots_ne block size j i pos lt e = grind arith

module _ {A : Type 0} (make : ℕ → A) (block : ℕ) where
  -- The first `i` nodes stand one behind another from `block` on.
  pub record Placed (i : ℕ) (p : Pool A) : Type 0 where
    pub count : length p.vec ≡ i
    pub spot : (j : ℕ) → j < i → get_elem? p.vec j ≡ some (block + j * p.node_size)
    pub built : (j : ℕ) → j < i → p.nodes (block + j * p.node_size) ≡ make j

  place-Placed :
      (i : ℕ) (p : Pool A)
      → 0 < p.node_size
      → Placed i p
      → Placed (i + 1) (place make i (block + i * p.node_size) p)
  unfolding place
  place-Placed i p size v =
      let apart = λ (j : ℕ) (lt : j < i). spots_ne block p.node_size j i size lt in
      record {
        count = omega (arith, length-append {0} p.vec ((block + i * p.node_size) ∷ []), v.count);
        spot = λ j h. elim (lt_or_last j i h) [
          | inl lt ↦ get_elem?-below p.vec _ j (omega (arith, v.count)) ∙ v.spot j lt
          | inr e ↦
              rw (e, sym v.count) (get_elem?-at_end p.vec (block + length p.vec * p.node_size))
        ];
        built = λ j h. elim (lt_or_last j i h) [
          | inl lt ↦ update_ne p.nodes _ _ _ (apart j lt) ∙ v.built j lt
          | inr e ↦ rw e (update_self p.nodes _ _)
        ];
      }

  place_from-Placed :
      (rounds i : ℕ) (addr : ℕ) (p : Pool A)
      → 0 < p.node_size
      → addr ≡ block + i * p.node_size
      → Placed i p
      → Placed (i + rounds) (place_from make rounds i addr p)
  unfolding place_from
  place_from-Placed zero i addr p size e v = subst (λ n. Placed n p) (omega arith) v
  place_from-Placed (suc rounds) i addr p size e v =
      let step = place-Placed i p size v in
      subst
        (λ n. Placed n (place_from make rounds (i + 1) (addr + p.node_size) (place make i addr p)))
        (omega arith)
        (place_from-Placed rounds (i + 1) (addr + p.node_size) (place make i addr p) size
          (grind arith) (rw e step))

  -- The counters are left alone.
  pub record Counted (p p' : Pool A) : Type 0 where
    pub size : p'.node_size ≡ p.node_size
    pub limit : p'.num_nodes ≡ p.num_nodes
    pub index : p'.current_idx ≡ p.current_idx

  place_from-Counted :
      (rounds i addr : ℕ) (p : Pool A) → Counted p (place_from make rounds i addr p)
  unfolding place_from
  place_from-Counted zero i addr p = record { size = refl; limit = refl; index = refl }
  place_from-Counted (suc rounds) i addr p =
      let c = place_from-Counted rounds (i + 1) (addr + p.node_size) (place make i addr p) in
      record { size = c.size; limit = c.limit; index = c.index }

  -- A pool that was built in a block that the allocation gave.
  module _ (alloc : ℕ → Option ℕ) (before : ℕ → A) (node_size num_nodes : ℕ) (size : 0 < node_size)
      (given : alloc (node_size * max_nodes) ≡ some block) where
    pub init_vnodes-runs :
        init_vnodes true alloc make (unbuilt before node_size num_nodes)
        ≡ (true, place_from make num_nodes 0 block (unbuilt before node_size num_nodes))
    unfolding init_vnodes
    init_vnodes-runs = rw given refl

    pub vnode_pool-Placed : Placed num_nodes (vnode_pool true alloc make before node_size num_nodes)
    unfolding vnode_pool
    vnode_pool-Placed =
        let p : Pool A = unbuilt before node_size num_nodes in
        let start : Placed 0 p = record {
          count = refl;
          spot = λ j h. absurd (omega arith);
          built = λ j h. absurd (omega arith);
        } in
        rw (init_vnodes-runs, vnode_pool)
          (subst (λ n. Placed n (place_from make num_nodes 0 block p)) (omega arith)
            (place_from-Placed num_nodes 0 block p size (omega arith) start))

    pub vnode_pool-Counted :
        Counted
          (unbuilt before node_size num_nodes)
          (vnode_pool true alloc make before node_size num_nodes)
    unfolding vnode_pool
    vnode_pool-Counted =
        rw (init_vnodes-runs, vnode_pool)
          (place_from-Counted num_nodes 0 block (unbuilt before node_size num_nodes))

-- Where createPool succeeds and pmemobj_alloc gives the block of MAX_NODES nodes that it is asked for,
-- init of a pool of more than MAX_NODES nodes returns true, and every number from MAX_NODES on stands
-- for a node that init has built behind that block.
pub init_vnodes-overrun :
    (alloc : ℕ → Option ℕ) (before : ℕ → Vnode) (block node_size num_nodes j : ℕ)
    → alloc (node_size * max_nodes) ≡ some block
    → 0 < node_size
    → max_nodes ≤ j
    → j < num_nodes
    → (p : Pool Vnode) × (a : ℕ) × (init_vnodes true alloc fresh_vnode
          (unbuilt before node_size num_nodes)
        ≡ (true, p))
      × (get_elem? p.vec j ≡ some a)
      × (p.nodes a ≡ fresh_vnode j)
      × (block + node_size * max_nodes ≤ a)
init_vnodes-overrun alloc before block node_size num_nodes j given size over h =
    let p : Pool Vnode = unbuilt before node_size num_nodes in
    let start : Placed fresh_vnode block 0 p = record {
      count = refl;
      spot = λ j h. absurd (omega arith);
      built = λ j h. absurd (omega arith);
    } in
    let v = place_from-Placed fresh_vnode block num_nodes 0 block p size (omega arith) start in
    let c = place_from-Counted fresh_vnode block num_nodes 0 block p in
    (
      place_from fresh_vnode num_nodes 0 block p,
      block + j * node_size,
      init_vnodes-runs fresh_vnode block alloc before node_size num_nodes size given,
      rw c.size at (v.spot j (omega arith)),
      rw c.size at (v.built j (omega arith)),
      grind arith,
    )
