-- ===== src/Prototype/Tandem.antt =====
-- Prototype/src/tandemIndex.cpp: the skip list finds where a walk of the value list begins.
pub mod Reading
pub mod Writing
pub mod Kept
pub mod Inserted
use hkv.Base.{
  ℕ, zero, suc, ◌+◌, ◌/◌, ℤ, magnitude, Bool, true, false, Option, none, some, ltb, ◌==◌,
  if◌then◌else◌, Run, ok, stop, undefined, out_of_fuel, ◌>>=◌,
}
use hkv.Prototype.Nodes.{Vnode, max_key}
use hkv.Prototype.Pool.{Pool, get_next_node, at}
use hkv.Prototype.ValueList
use hkv.Prototype.ValueList.{ValueList, deref, get_next, write_node, set_entry, insert_node}
use hkv.Prototype.Skiplist
use hkv.Prototype.Skiplist.{
  Skiplist, node, link_vnode, increase_covered_nodes, insert_when_rebalance,
}

pub record TandemIndex : Type 0 where
  pub index : Skiplist
  pub values : ValueList

-- The constructor, after those of the two lists.
unfoldable pub new_tandem : Skiplist → ValueList → TandemIndex
unfolding link_vnode
new_tandem index values =
    let (_, p) = link_vnode (index.header 0) (values.pool.nodes values.head).id index.pool in
    record { index = record index { pool = p }; values = values }

-- The node where insert begins its walk.
unfoldable pub start_node : Option ℕ → TandemIndex → Run ℕ
unfolding deref at
start_node none t = ok t.values.head
start_node (some inode) t = deref (at (node t.index inode).down t.values.pool)

-- The loop that looks for the middle of a range, for the rounds left.
unfoldable pub advance : ℕ → Pool Vnode → Option ℕ → Run (Option ℕ)
unfolding deref get_next
advance zero p cur = ok cur
advance (suc rounds) p cur = do a ← deref cur; advance rounds p (get_next p a)

-- The range of an inode is split in two: count - 1 is half of its coveredNodes.
unfoldable pub rebalance : ℕ → ℕ → (ℕ → ℕ) → ℕ → TandemIndex → Run (Bool × TandemIndex)
unfolding advance insert_when_rebalance
rebalance fuel levels unset inode t = do
  let half = magnitude (node t.index inode).covered_nodes / 2
  middle ← advance half t.values.pool (at (node t.index inode).down t.values.pool)
  m ← deref middle
  let v = t.values.pool.nodes m
  (done, index) ← insert_when_rebalance fuel levels v.key v.id unset (half + 1) t.index
  ok (done, record t { index = index })

-- insert, with the level that generateRandomLevel gives if it is called.
unfoldable pub insert : ℕ → ℕ → (ℕ → ℕ) → ℕ → ℕ → TandemIndex → Run (Bool × TandemIndex)
unfolding get_next_node write_node Skiplist.lookup start_node insert_node Skiplist.insert
    increase_covered_nodes rebalance
insert fuel levels unset key value t = do
  (got, p) ← get_next_node t.values.pool
  elim got [
    | none ↦ ok (false, record t { values = record t.values { pool = p } })
    | some vnode ↦ do
      let p1 = write_node vnode (set_entry key value) p
      let t1 = record t { values = record t.values { pool = p1 } }
      inode ← Skiplist.lookup fuel key t1.index
      start ← start_node inode t1
      (_, p2) ← insert_node fuel start vnode p1
      let t2 = record t1 { values = record t1.values { pool = p2 } }
      elim inode [
        | none ↦ do
          (done, index) ← Skiplist.insert levels key (p2.nodes vnode).id t2.index
          ok (done, record t2 { index = index })
        | some i ↦
            let (full, index) = increase_covered_nodes i t2.index in
            let t3 = record t2 { index = index } in
            if full then rebalance fuel levels unset i t3 else ok (true, t3)
      ]
  ]

-- The loop of lookup, which has no return where the list ends.
unfoldable pub scan : ℕ → ℕ → Pool Vnode → Option ℕ → Run ℕ
scan zero key p cur = stop out_of_fuel
scan (suc fuel) key p none = stop undefined
scan (suc fuel) key p (some a) = elim ((p.nodes a).key == key) [
  | true ↦ ok (p.nodes a).value
  | false ↦ elim (ltb key (p.nodes a).key) [
    | true ↦ ok max_key
    | false ↦ scan fuel key p (get_next p a)
  ]
]

unfoldable pub lookup : ℕ → ℕ → TandemIndex → Run ℕ
unfolding Skiplist.lookup scan
lookup fuel key t = do
  inode ← Skiplist.lookup fuel key t.index
  elim inode [
    | none ↦ ok max_key
    | some i ↦ scan fuel key t.values.pool (at (node t.index i).down t.values.pool)
  ]
