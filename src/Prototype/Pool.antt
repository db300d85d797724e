-- ===== src/Prototype/Pool.antt =====
-- The node pools of Prototype: PmemVnodePool (include/pmemVnodePool.h, src/pmemVnodePool.cpp) and
-- DramInodePool (include/dramInodePool.h, src/dramInodePool.cpp), which share their text.
pub mod Init
use hkv.Base.{
  ℕ, zero, suc, ◌+◌, ◌*◌, ◌-◌, ◌^◌, ℤ, Bool, true, false, Option, none, some, List, [], ◌∷◌, ◌++◌,
  leb, ltb, if◌then◌else◌, Run, ok, stop, undefined, exit_failure, ◌>>=◌, length, get_elem?, take,
  is_nil, update,
}
use hkv.Prototype.Nodes.{to_size}

-- MAX_NODES, and the two NODE_POOL_SIZE.
abbrev pub max_nodes : ℕ
max_nodes = 5000

abbrev pub node_pool_size : ℕ
node_pool_size = 30 * 2 ^ 30

-- The vector of addresses, and the nodes that stand at addresses.
pub record Pool (A : Type 0) : Type 0 where
  pub vec : List ℕ
  pub node_size : ℕ
  pub num_nodes : ℕ
  pub current_idx : ℕ
  pub nodes : ℕ → A

-- An element of a vector by `[]`, which does not check.
unfoldable pub element : List ℕ → ℕ → Run ℕ
element l i = elim (get_elem? l i) [ none ↦ stop undefined | some a ↦ ok a ]

module _ {A : Type 0} where
  unfoldable pub get_current_node : Pool A → Run ℕ
  unfolding element
  get_current_node p = element p.vec p.current_idx

  unfoldable pub get_next_node : Pool A → Run (Option ℕ × Pool A)
  unfolding element
  get_next_node p = if leb p.num_nodes p.current_idx then ok (none, p) else (do
    a ← element p.vec p.current_idx
    ok (some a, record p { current_idx = p.current_idx + 1 }))

  -- The function has no return.
  unfoldable pub reset_current_idx : ℕ → Pool A → Run (Pool A)
  reset_current_idx i p = stop undefined

  unfoldable pub pop_node : Pool A → Option ℕ × Pool A
  pop_node p =
      let last = length p.vec - 1 in
      if is_nil p.vec then (none, p) else (get_elem? p.vec last, record p { vec = take last p.vec })

  unfoldable pub push : ℕ → Pool A → Pool A
  push a p = record p { vec = p.vec ++ a ∷ [] }

  unfoldable pub at : ℤ → Pool A → Option ℕ
  unfolding to_size
  at index p = if leb (length p.vec) (to_size index) then none else get_elem? p.vec (to_size index)

  -- One round of init and of extend: node `i` is built at `addr`.
  unfoldable pub place : (ℕ → A) → ℕ → ℕ → Pool A → Pool A
  unfolding push
  place make i addr p = push addr (record p { nodes = update p.nodes addr (make i) })

  unfoldable pub place_from : (ℕ → A) → ℕ → ℕ → ℕ → Pool A → Pool A
  unfolding place
  place_from make zero i addr p = p
  place_from make (suc rounds) i addr p =
      place_from make rounds (i + 1) (addr + p.node_size) (place make i addr p)

  -- The constructor before init.
  abbrev pub unbuilt : (ℕ → A) → ℕ → ℕ → Pool A
  unbuilt before node_size num_nodes = record {
    vec = [];
    node_size = node_size;
    num_nodes = num_nodes;
    current_idx = 0;
    nodes = before;
  }

  -- init of PmemVnodePool. `created` is what createPool returned, and `alloc` gives the block that
  -- pmemobj_alloc finds for a size, if it finds one.
  unfoldable pub init_vnodes : Bool → (ℕ → Option ℕ) → (ℕ → A) → Pool A → Bool × Pool A
  unfolding place_from
  init_vnodes created alloc make p =
      if created
      then elim (alloc (p.node_size * max_nodes)) [
        | none ↦ (false, p)
        | some block ↦ (true, place_from make p.num_nodes 0 block p)
      ]
      else (false, p)

  -- init of DramInodePool. `create_pool` gives the memory that createPool finds for a size, if it
  -- finds one.
  unfoldable init_inodes : (ℕ → Option ℕ) → (ℕ → A) → Pool A → Bool × Pool A
  unfolding place_from
  init_inodes create_pool make p = elim (create_pool node_pool_size) [
    | none ↦ (false, p)
    | some block ↦ (true, place_from make p.num_nodes 0 block p)
  ]

  -- The two constructors, which do not look at what init returns.
  unfoldable pub vnode_pool : Bool → (ℕ → Option ℕ) → (ℕ → A) → (ℕ → A) → ℕ → ℕ → Pool A
  unfolding init_vnodes
  vnode_pool created alloc make before node_size num_nodes =
      (init_vnodes created alloc make (unbuilt before node_size num_nodes)).1

  unfoldable inode_pool : (ℕ → Option ℕ) → (ℕ → A) → (ℕ → A) → ℕ → ℕ → Pool A
  unfolding init_inodes
  inode_pool create_pool make before node_size num_nodes =
      (init_inodes create_pool make (unbuilt before node_size num_nodes)).1

  -- extend after its guard: the loop counts from num_nodes up to `extra`, and num_nodes stays.
  unfoldable pub extend_loop : (ℕ → A) → ℕ → ℕ → Pool A → Pool A
  unfolding place_from
  extend_loop make block extra p =
      place_from make (extra - p.num_nodes) p.num_nodes (block + p.num_nodes * p.node_size) p

  unfoldable pub extend_vnodes : (ℕ → A) → ℕ → ℕ → Pool A → Run (Pool A)
  unfolding extend_loop
  extend_vnodes make block extra p =
      if ltb max_nodes (p.num_nodes + extra)
      then stop exit_failure
      else ok (extend_loop make block extra p)

  unfoldable pub extend_inodes : (ℕ → A) → ℕ → ℕ → Pool A → Run (Pool A)
  unfolding extend_loop
  extend_inodes make block extra p =
      if ltb node_pool_size ((p.num_nodes + extra) * p.node_size)
      then stop exit_failure
      else ok (extend_loop make block extra p)
