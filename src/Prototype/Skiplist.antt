-- ===== src/Prototype/Skiplist.antt =====
-- Prototype/src/dramSkiplist.cpp: an index over the value list, whose nodes stand for ranges of keys.
pub mod Pivot
pub mod Levels
use hkv.Base.{
  ℕ, zero, suc, ◌+◌, ◌-◌, ◌/◌, ℤ, pos, negsuc, eq_ℤ, inc, exceeds, Bool, true, false, not, ◌&&◌,
  Option, none, some, ltb, leb, ◌==◌, if◌then◌else◌, Run, ok, stop, out_of_fuel, ◌>>=◌, update,
}
use hkv.Prototype.Nodes.{Inode, max_key, fresh_inode}
use hkv.Prototype.Pool.{Pool, get_next_node, at}
use hkv.Prototype.ValueList.{deref}

-- MAX_LEVEL and SEARCH_STABLITY_COEFFICIENT
abbrev pub max_level : ℕ
max_level = 16

abbrev pub stability : ℕ
stability = 10

-- The arrays header and tail hold an address for each level below MAX_LEVEL.
pub record Skiplist : Type 0 where
  pub pool : Pool Inode
  pub header : ℕ → ℕ
  pub tail : ℕ → ℕ
  pub level : ℕ

abbrev pub node : Skiplist → ℕ → Inode
node s a = s.pool.nodes a

-- An assignment to fields of a node.
unfoldable pub write_inode : ℕ → (Inode → Inode) → Pool Inode → Pool Inode
write_inode a f p = record p { nodes = update p.nodes a (f (p.nodes a)) }

abbrev pub set_range : ℕ → ℕ → Inode → Inode
set_range low high n = record n { min_key = low; max_key = high }

abbrev pub set_next : ℤ → Inode → Inode
set_next i n = record n { next = i }

abbrev pub set_down : ℤ → Inode → Inode
set_down i n = record n { down = i }

-- getNextNode and the first access to the node.
unfoldable pub new_inode : Pool Inode → Run (ℕ × Pool Inode)
unfolding get_next_node deref
new_inode p = do (got, p1) ← get_next_node p; a ← deref got; ok (a, p1)

-- A column of nodes, from the level `i` - 1 down to 0, each below the one before: `above` is the
-- node of level `i`, and `prepare` sets the fields of each.
unfoldable pub column : (Inode → Inode) → ℕ → ℕ → (ℕ → ℕ) → Pool Inode → Run ((ℕ → ℕ) × Pool Inode)
unfolding new_inode write_inode
column prepare zero above nodes p = ok (nodes, p)
column prepare (suc i) above nodes p = do
  (a, p1) ← new_inode p
  let p2 = write_inode above (set_down (p1.nodes a).id) p1
  column prepare i a (update nodes i a) (write_inode a prepare p2)

-- The columns of the constructor; its tail's top keeps what the pool wrote.
unfoldable pub new_column :
    (Inode → Inode) → (Inode → Inode) → Pool Inode → Run ((ℕ → ℕ) × Pool Inode)
unfolding column
new_column top prepare p = do
  (a, p1) ← new_inode p
  column prepare (max_level - 1) a (update (λ _. 0) (max_level - 1) a) (write_inode a top p1)

-- The last loop of the constructor, for the levels from `i` on.
unfoldable pub join_columns : ℕ → ℕ → (ℕ → ℕ) → (ℕ → ℕ) → Pool Inode → Pool Inode
unfolding write_inode
join_columns zero i header tail p = p
join_columns (suc rounds) i header tail p =
    join_columns rounds (i + 1) header tail
      (write_inode (header i) (set_next (p.nodes (tail i)).id) p)

-- The constructor, for a pool of `num_nodes` nodes, which is 10,000.
unfoldable pub new_skiplist : Pool Inode → Run Skiplist
unfolding new_column join_columns
new_skiplist p = do
  (header, p1) ← new_column (set_range 0 0) (λ n. set_next (negsuc 0) (set_range 0 0 n)) p
  (tail, p2) ← new_column (λ n. n) (λ n. set_next (negsuc 0) (set_range max_key max_key n)) p1
  ok (record {
    pool = join_columns max_level 0 header tail p2;
    header = header;
    tail = tail;
    level = 1;
  })

-- generateRandomLevel: `draw` is what the calls of rand return, and the loop ends at MAX_LEVEL.
unfoldable pub climb : (ℕ → ℕ) → ℕ → ℕ → ℕ → ℕ → ℕ
climb draw rand_max zero k level = level
climb draw rand_max (suc rounds) k level =
    if ltb (draw k) (rand_max / 2) && ltb level max_level
    then climb draw rand_max rounds (k + 1) (level + 1)
    else level

unfoldable pub generate_random_level : (ℕ → ℕ) → ℕ → ℕ
unfolding climb
generate_random_level draw rand_max = climb draw rand_max max_level 0 1

-- The nodes of a new key, for the levels below `levels`, not linked yet.
unfoldable pub tower : ℕ → ℕ → Pool Inode → Run ((ℕ → ℕ) × Pool Inode)
unfolding column
tower key levels p = do
  (a, p1) ← new_inode p
  let prepare = λ (n : Inode). set_next (negsuc 0) (set_range key key n)
  column prepare (levels - 1) a (update (λ _. 0) (levels - 1) a) (write_inode a prepare p1)

-- linkVnodeToInode, for a value node with this number.
unfoldable pub link_vnode : ℕ → ℤ → Pool Inode → Bool × Pool Inode
unfolding write_inode
link_vnode a vnode p =
    let n = p.nodes a in
    if eq_ℤ n.down (negsuc 0)
    then (
      true,
      write_inode a (λ n'. record n' { down = vnode; covered_nodes = inc n.covered_nodes }) p,
    )
    else (false, p)

-- The loop of insert, for the levels below `levels`: each node goes behind the header.
unfoldable pub link_front : ℕ → (ℕ → ℕ) → ℕ → (ℕ → ℕ) → Pool Inode → Run (Pool Inode)
unfolding write_inode deref at
link_front key header zero inodes p = ok p
link_front key header (suc i) inodes p = do
  let next = (p.nodes (header i)).next
  let p1 = write_inode (inodes i) (set_next next) p
  let p2 = write_inode (header i) (set_next (p1.nodes (inodes i)).id) p1
  n ← deref (at next p)
  link_front key header i inodes (write_inode (inodes i) (set_range key (p2.nodes n).min_key) p2)

-- insert, with the level that was drawn.
unfoldable pub insert : ℕ → ℕ → ℤ → Skiplist → Run (Bool × Skiplist)
unfolding tower link_vnode link_front
insert levels key vnode s = do
  (inodes, p) ← tower key levels s.pool
  let (linked, p1) = link_vnode (inodes 0) vnode p
  if linked
      then (do p2 ← link_front key s.header levels inodes p1; ok (true, record s { pool = p2 }))
      else ok (false, record s { pool = p1 })

-- The inner loop of lookup, with the node before (0 for nullptr).
unfoldable pub walk : ℕ → ℕ → ℤ → Pool Inode → ℕ → ℕ → Run (ℕ × ℕ)
unfolding deref
walk zero key last p prev cur = stop out_of_fuel
walk (suc fuel) key last p prev cur =
    elim (not (eq_ℤ (p.nodes cur).next last) && ltb (p.nodes cur).max_key key) [
      | true ↦ do next ← deref (at (p.nodes cur).next p); walk fuel key last p cur next
      | false ↦ ok (prev, cur)
    ]

-- The loop of lookup over the levels from `i` down.
unfoldable pub descend : ℕ → ℕ → Skiplist → ℕ → ℕ → Run ℕ
unfolding walk
descend fuel key s zero cur = ok cur
descend fuel key s (suc i) cur = do
  (prev, found) ← walk fuel key (node s (s.tail i)).id s.pool 0 cur
  let kept = if ltb key (node s found).min_key && not (prev == 0) then prev else found
  next ← if i == 0 then ok kept else deref (at (node s kept).down s.pool)
  descend fuel key s i next

unfoldable pub lookup : ℕ → ℕ → Skiplist → Run (Option ℕ)
unfolding descend
lookup fuel key s = do
  cur ← descend fuel key s s.level (s.header (s.level - 1))
  ok (if (node s cur).min_key == 0 then none else some cur)

-- getPivotNodesForInsert. The last step down is not looked at.
unfoldable pub pivots : ℕ → ℕ → Skiplist → ℕ → Option ℕ → (ℕ → ℕ) → Run (ℕ → ℕ)
unfolding walk deref
pivots fuel key s zero cur updates = ok updates
pivots fuel key s (suc i) cur updates = do
  c ← deref cur
  (_, found) ← walk fuel key (node s (s.tail i)).id s.pool 0 c
  pivots fuel key s i (at (node s found).down s.pool) (update updates i found)

unfoldable pub get_pivot_nodes : ℕ → ℕ → Skiplist → (ℕ → ℕ) → Run (ℕ → ℕ)
unfolding pivots
get_pivot_nodes fuel key s updates =
    pivots fuel key s s.level (some (s.header (s.level - 1))) updates

-- One round of the loop of insertWhenRebalance.
unfoldable pub link_round : ℕ → ℕ → ℕ → Pool Inode → Run (Pool Inode)
unfolding write_inode deref at
link_round key new old p = do
  p1 ←
      if (p.nodes old).max_key == 0
      then (do
        n ← deref (at (p.nodes old).next p)
        ok (write_inode new (set_range key (p.nodes n).min_key) p))
      else (let p' = write_inode new (λ n. record n { max_key = (p.nodes old).max_key }) p in
          let p'' = write_inode old (λ n. record n { max_key = key }) p' in
          ok (write_inode new (λ n. record n { min_key = key }) p''))
  let p2 = write_inode new (set_next (p1.nodes old).next) p1
  ok (write_inode old (set_next (p2.nodes new).id) p2)

unfoldable pub link_levels : ℕ → ℕ → (ℕ → ℕ) → (ℕ → ℕ) → Pool Inode → Run (Pool Inode)
unfolding link_round
link_levels key zero inodes updates p = ok p
link_levels key (suc i) inodes updates p = do
  p1 ← link_round key (inodes i) (updates i) p
  link_levels key i inodes updates p1

-- coveredNodes - count
unfoldable pub minus : ℤ → ℕ → ℤ
minus (pos a) n = if leb n a then pos (a - n) else negsuc (n - a - 1)
minus (negsuc a) n = negsuc (a + n)

-- The levels above the list's own begin at the headers.
abbrev pub raised : ℕ → Skiplist → (ℕ → ℕ) → ℕ → ℕ
raised levels s updates i = if leb s.level i && ltb i levels then s.header i else updates i

-- insertWhenRebalance, which ignores whether the value node could be linked; `unset` is what the
-- array of the caller holds before.
unfoldable pub insert_when_rebalance :
    ℕ → ℕ → ℕ → ℤ → (ℕ → ℕ) → ℕ → Skiplist → Run (Bool × Skiplist)
unfolding tower link_vnode get_pivot_nodes link_levels write_inode minus
insert_when_rebalance fuel levels key vnode unset count s = do
  (inodes, p) ← tower key levels s.pool
  let (_, p1) = link_vnode (inodes 0) vnode p
  let s1 = record s { pool = p1 }
  found ← get_pivot_nodes fuel key s1 unset
  let updates = raised levels s1 found
  p2 ← link_levels key levels inodes updates p1
  let first = updates 0
  let rest = minus (p2.nodes first).covered_nodes count
  let p3 = write_inode (inodes 0) (λ n. record n { covered_nodes = rest }) p2
  let p4 = write_inode first (λ n. record n { covered_nodes = pos count }) p3
  ok (true, record s { pool = p4; level = if ltb s.level levels then levels else s.level })

-- increaseCoveredNodesAndVerifyRebalance
unfoldable pub increase_covered_nodes : ℕ → Skiplist → Bool × Skiplist
unfolding write_inode
increase_covered_nodes a s =
    let p = write_inode a (λ n. record n { covered_nodes = inc n.covered_nodes }) s.pool in
    (exceeds (p.nodes a).covered_nodes stability, record s { pool = p })
