-- ===== src/Prototype/ValueList/Inserted.antt =====
-- insert of Prototype/src/valuelist.cpp.
use hkv.Base.{ℕ, ◌+◌, ◌<◌, ◌≤◌, ◌≡◌, true, false, some, List, arith, ok, length, get_elem?, last_of}
use hkv.Base.Sort.{insert_by}
use hkv.Prototype.ValueList.{ValueList, last_below, link_after, insert}
use hkv.Prototype.ValueList.Chain.{Holds, length-nodes, last_below-Split}
use hkv.Prototype.ValueList.Placed.{
  taken_pool, get_elem?-some, place-Holds, taken-Chain, linked-counts,
}

insert_runs :
    (fuel key value new cur : ℕ) (l : ValueList)
    → l.pool.current_idx < l.pool.num_nodes
    → get_elem? l.pool.vec l.pool.current_idx ≡ some new
    → last_below fuel key (taken_pool new key value l.pool) l.head ≡ ok cur
    → insert fuel key value l
      ≡ ok (true, record l { pool = link_after cur new (taken_pool new key value l.pool) })
unfolding insert taken_pool
insert_runs fuel key value new cur l lt h r = ground (arith, h, r)

pub insert-full :
    (fuel key value : ℕ) (l : ValueList)
    → l.pool.num_nodes ≤ l.pool.current_idx
    → insert fuel key value l ≡ ok (false, l)
unfolding insert
insert-full fuel key value l h = ground arith

-- With room in the pool insert puts the entry before the first key that is not below it, and the
-- list holds these entries; the pool has one node less to give.
pub insert-Holds :
    (fuel key value : ℕ) (l : ValueList) (es : List (ℕ × ℕ))
    → Holds l es
    → length es < fuel
    → l.pool.current_idx < l.pool.num_nodes
    → (l' : ValueList) × (insert fuel key value l ≡ ok (true, l'))
      × Holds l' (insert_by (λ e. e.0) (key, value) es)
      × (l'.pool.current_idx ≡ l.pool.current_idx + 1)
      × (l'.pool.num_nodes ≡ l.pool.num_nodes)
insert-Holds fuel key value l es hs enough room =
    let (new, h) = get_elem?-some l.pool.vec l.pool.current_idx (omega (arith, hs.pool.filled)) in
    let p1 = taken_pool new key value l.pool in
    let (s, run) =
      last_below-Split fuel key p1 l.head hs.nodes (omega (arith, length-nodes l es hs))
        (taken-Chain key value new l.pool l.head hs.nodes hs.chain.chain) in
    let cur = last_of l.head s.before in
    let c = linked-counts key value new cur l.pool in
    (
      record l { pool = link_after cur new p1 },
      insert_runs fuel key value new cur l room h run,
      (place-Holds key value new l es hs h s).0,
      c.0,
      c.1,
    )
