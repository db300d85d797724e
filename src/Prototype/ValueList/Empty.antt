-- ===== src/Prototype/ValueList/Empty.antt =====
-- The list that the constructor of Prototype/src/valuelist.cpp builds.
use hkv.Base.{
  true, Option, some, ℕ, ◌+◌, ◌*◌, ◌^◌, ◌<◌, ◌≡◌, refl, ap, ◌∙◌, none, some, List, [], zero, suc,
  ◌-◌, ◌∷◌, pos, negsuc, arith, ok, length, get_elem?,
}
use hkv.Prototype.Nodes.{Vnode, fresh_vnode, int_of_bits}
use hkv.Prototype.Pool.{Pool, vnode_pool, max_nodes, at}
use hkv.Prototype.Pool.Init.{Placed, vnode_pool-Placed, vnode_pool-Counted}
use hkv.Prototype.ValueList.{
  ValueList, new_list, open_list, get_next, write_node, set_next, set_entry,
}
use hkv.Prototype.ValueList.Chain.{IsChain, IsPool, Holds, entry}

get_elem?-bound : (l : List ℕ) (i a : ℕ) → get_elem? l i ≡ some a → i < length l
get_elem?-bound [] i a h = absurd (cc)
get_elem?-bound (x ∷ l) zero a h = omega arith
get_elem?-bound (x ∷ l) (suc i) a h = omega (arith, get_elem?-bound l i a h)

Placed-id :
    {block num_nodes : ℕ} (p : Pool Vnode) (i a : ℕ)
    → Placed fresh_vnode block num_nodes p
    → get_elem? p.vec i ≡ some a
    → (p.nodes a).id ≡ pos i
Placed-id {block} p i a v h =
    let lt = get_elem?-bound p.vec i a h in
    let here : get_elem? p.vec i ≡ some (block + i * p.node_size) =
      v.spot i (omega (arith, v.count)) in
    let same : a ≡ block + i * p.node_size = cc in
    rw same (ap (λ (n : Vnode). n.id) (v.built i (omega (arith, v.count))))

module _ (p : Pool Vnode) (head : ℕ) (numbered : IsPool p) (fresh : p.current_idx ≡ 0)
    (some_node : 0 < p.num_nodes) (few : length p.vec < 2 ^ 31)
    (first : get_elem? p.vec 0 ≡ some head) where
  opened : Pool Vnode
  unfolding write_node int_of_bits
  opened =
      write_node head (λ v. set_next (int_of_bits (2 ^ 32 - 1)) (set_entry 0 0 v))
        (record p { current_idx = p.current_idx + 1 })

  opened-id : (a : ℕ) → (opened.nodes a).id ≡ (p.nodes a).id
  unfolding opened
  opened-id a = ground arith

  opened-IsPool : IsPool opened
  unfolding opened
  opened-IsPool = record {
    numbered = λ i a h. opened-id a ∙ numbered.numbered i a h;
    filled = numbered.filled;
  }

  opened-node : (opened.nodes head).next ≡ negsuc 0
  unfolding opened
  opened-node = ground arith

  opened-entry : entry (opened.nodes head) ≡ (0, 0)
  unfolding opened
  opened-entry = ground arith

  opened-end : get_next opened head ≡ none
  unfolding get_next at opened
  opened-end = ap (λ n. at n p) opened-node ∙ ground (arith, few)

  opened-IsChain : IsChain (record { pool = opened; head = head }) []
  unfolding opened
  opened-IsChain = record {
    chain = opened-end;
    apart = (tt, tt);
    taken = ((0, omega (arith, fresh), opened-id head ∙ numbered.numbered 0 head first, first), tt);
  }

  open_list_runs : open_list p ≡ ok (record { pool = opened; head = head })
  unfolding open_list opened
  open_list_runs = ground (arith, fresh, some_node, first)

  open_list-Holds :
      (l : ValueList) × (open_list p ≡ ok l)
      × Holds l []
      × (l.pool.current_idx ≡ 1)
      × (l.pool.num_nodes ≡ p.num_nodes)
  unfolding opened
  open_list-Holds = (
    record { pool = opened; head = head },
    open_list_runs,
    record {
      nodes = [];
      pool = opened-IsPool;
      chain = opened-IsChain;
      held = refl;
      head = opened-entry;
    },
    omega (arith, fresh),
    refl,
  )

-- Where the pool was created and the allocation gave its block, the constructor gives a list with no
-- entries.
pub new_list-Holds :
    (alloc : ℕ → Option ℕ) (before : ℕ → Vnode) (block node_size num_nodes : ℕ)
    → alloc (node_size * max_nodes) ≡ some block
    → 0 < node_size
    → 0 < num_nodes
    → num_nodes < 2 ^ 31
    → (l : ValueList) × (new_list true alloc before node_size num_nodes ≡ ok l)
      × Holds l []
      × (l.pool.current_idx ≡ 1)
      × (l.pool.num_nodes ≡ num_nodes)
unfolding new_list
new_list-Holds alloc before block node_size num_nodes given size some_node few =
    let v = vnode_pool-Placed fresh_vnode block alloc before node_size num_nodes size given in
    let c = vnode_pool-Counted fresh_vnode block alloc before node_size num_nodes size given in
    let p : Pool Vnode = vnode_pool true alloc fresh_vnode before node_size num_nodes in
    let ids : IsPool p = record {
      numbered = λ i a h. Placed-id p i a v h;
      filled = omega (arith, v.count, c.limit);
    } in
    let (l, run, held, index, limit) =
      open_list-Holds p _ ids c.index (omega (arith, c.limit)) (omega (arith, v.count))
        (v.spot 0 some_node) in
    (l, run, held, index, limit ∙ c.limit)
