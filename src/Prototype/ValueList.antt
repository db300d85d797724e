-- ===== src/Prototype/ValueList.antt =====
-- Prototype/src/valuelist.cpp: the values in a list that is sorted by key, linked by the numbers of
-- its nodes.
pub mod Chain
pub mod Placed
pub mod Inserted
pub mod Found
pub mod Changed
pub mod Lost
pub mod Empty
use hkv.Base.{
  ℕ, zero, suc, ◌^◌, ◌-◌, ℤ, Bool, true, false, Option, none, some, ltb, leb, Run, ok, stop,
  null_pointer, out_of_fuel, ◌>>=◌, update,
}
use hkv.Prototype.Nodes.{
  Vnode, fresh_vnode, int_of_bits, update_vnode, remove_vnode, lookup_vnode, get_key_pos_vnode,
}
use hkv.Prototype.Pool.{Pool, vnode_pool, get_next_node, at}

pub record ValueList : Type 0 where
  pub pool : Pool Vnode
  pub head : ℕ

-- An access through a pointer.
unfoldable pub deref : Option ℕ → Run ℕ
deref none = stop null_pointer
deref (some a) = ok a

-- An assignment to fields of a node.
unfoldable pub write_node : ℕ → (Vnode → Vnode) → Pool Vnode → Pool Vnode
write_node a f p = record p { nodes = update p.nodes a (f (p.nodes a)) }

abbrev pub set_next : ℤ → Vnode → Vnode
set_next n v = record v { next = n }

abbrev pub set_entry : ℕ → ℕ → Vnode → Vnode
set_entry key value v = record v { key = key; value = value }

-- getNext
unfoldable pub get_next : Pool Vnode → ℕ → Option ℕ
unfolding at
get_next p a = at (p.nodes a).next p

-- The constructor after the pool is built.
unfoldable pub open_list : Pool Vnode → Run ValueList
unfolding get_next_node deref write_node int_of_bits
open_list p = do
  (first, p1) ← get_next_node p
  head ← deref first
  ok (record {
    pool = write_node head (λ v. set_next (int_of_bits (2 ^ 32 - 1)) (set_entry 0 0 v)) p1;
    head = head;
  })

-- The constructor, for a pool of `num_nodes` nodes, which is 10,000,000.
unfoldable pub new_list : Bool → (ℕ → Option ℕ) → (ℕ → Vnode) → ℕ → ℕ → Run ValueList
unfolding vnode_pool open_list
new_list created alloc before node_size num_nodes =
    open_list (vnode_pool created alloc fresh_vnode before node_size num_nodes)

-- The loop of the two inserts: the last node before one whose key is not below `key`.
unfoldable pub last_below : ℕ → ℕ → Pool Vnode → ℕ → Run ℕ
last_below zero key p cur = stop out_of_fuel
last_below (suc fuel) key p cur = elim (get_next p cur) [
  | none ↦ ok cur
  | some next ↦ elim (ltb (p.nodes next).key key) [
    | true ↦ last_below fuel key p next
    | false ↦ ok cur
  ]
]

-- The node `new` goes behind `cur`.
unfoldable pub link_after : ℕ → ℕ → Pool Vnode → Pool Vnode
unfolding write_node
link_after cur new p =
    let p1 = write_node new (set_next (p.nodes cur).next) p in
    write_node cur (set_next (p1.nodes new).id) p1

-- insert(startNode, newNode)
unfoldable pub insert_node : ℕ → ℕ → ℕ → Pool Vnode → Run (Bool × Pool Vnode)
unfolding last_below link_after
insert_node fuel start new p = do
  cur ← last_below fuel (p.nodes new).key p start
  ok (true, link_after cur new p)

-- insert(key, value)
unfoldable pub insert : ℕ → ℕ → ℕ → ValueList → Run (Bool × ValueList)
unfolding get_next_node last_below link_after write_node
insert fuel key value l = do
  (got, p) ← get_next_node l.pool
  elim got [
    | none ↦ ok (false, record l { pool = p })
    | some new ↦ do
      let p1 = write_node new (set_entry key value) p
      cur ← last_below fuel key p1 l.head
      ok (true, record l { pool = link_after cur new p1 })
  ]

-- The loop of update, remove and getKeyPos, which does not test for the end of the list.
unfoldable pub seek : ℕ → ℕ → Pool Vnode → Option ℕ → Run ℕ
unfolding deref
seek zero key p at_node = stop out_of_fuel
seek (suc fuel) key p at_node = do
  cur ← deref at_node
  elim (ltb (p.nodes cur).key key) [ true ↦ seek fuel key p (get_next p cur) | false ↦ ok cur ]

-- A method of a node that may change it.
unfoldable pub call_node : (Vnode → Bool × Vnode) → ℕ → ValueList → Bool × ValueList
unfolding write_node
call_node method a l =
    let (done, v) = method (l.pool.nodes a) in
    (done, record l { pool = write_node a (λ _. v) l.pool })

-- update, which shares its text with remove but for the method.
unfoldable pub change : ℕ → ℕ → (Vnode → Bool × Vnode) → ValueList → Run (Bool × ValueList)
unfolding seek call_node
change fuel key method l = do cur ← seek fuel key l.pool (some l.head); ok (call_node method cur l)

unfoldable pub update_value : ℕ → ℕ → ℕ → ValueList → Run (Bool × ValueList)
unfolding change update_vnode
update_value fuel key value l = change fuel key (update_vnode key value) l

unfoldable pub remove : ℕ → ℕ → ValueList → Run (Bool × ValueList)
unfolding change remove_vnode
remove fuel key l = change fuel key (remove_vnode key) l

-- The loop of lookup: the last node before one whose key is above `key`.
unfoldable pub last_upto : ℕ → ℕ → Pool Vnode → ℕ → Run ℕ
last_upto zero key p cur = stop out_of_fuel
last_upto (suc fuel) key p cur = elim (get_next p cur) [
  | none ↦ ok cur
  | some next ↦ elim (leb (p.nodes next).key key) [
    | true ↦ last_upto fuel key p next
    | false ↦ ok cur
  ]
]

unfoldable pub lookup : ℕ → ℕ → ValueList → Run ℤ
unfolding last_upto lookup_vnode
lookup fuel key l = do
  cur ← last_upto fuel key l.pool l.head
  ok (lookup_vnode key (l.pool.nodes cur))

unfoldable pub get_key_pos : ℕ → ℕ → ValueList → Run ℤ
unfolding seek get_key_pos_vnode
get_key_pos fuel key l = do
  cur ← seek fuel key l.pool (some l.head)
  ok (get_key_pos_vnode key (l.pool.nodes cur))

unfoldable pub recovery : ValueList → Bool
recovery l = true
