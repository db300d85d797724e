-- ===== src/LruList.antt =====
-- PRISM/src/LRUList.cpp: a doubly linked list of cached values through the shared memory, most
-- recently used first, with the chain of the values of one scan (s_prev, s_next) beside it.
pub mod Ends
pub mod Tail
pub mod Sequences
pub mod Unlinked
pub mod Moved
pub mod TakenOut
pub mod Removed
use hkv.Base.{
  ℕ, none, ℤ, pos, eq_ℤ, inc, dec, ◌==◌, if◌then◌else◌, Run, ok, stop, exit_failure, ◌>>=◌, update,
}
use hkv.Memory.{
  DcEntry, Memory, load_at, store_at, load_dc, store_dc, get_tag, put_tagged_ptr, dcache_val,
  valuestorage_val,
}

-- ACTIVE_LIST and INACTIVE_LIST; 0 is NONE.
abbrev pub active_list : ℕ
active_list = 1

abbrev pub inactive_list : ℕ
inactive_list = 2

-- cache_t
pub record LruList : Type 0 where
  pub head : ℕ
  pub tail : ℕ
  pub max_size : ℕ
  pub cur_size : ℤ
  pub list_type : ℕ

unfoldable pub init : ℕ → ℕ → LruList
init max_size list_type = record {
  head = 0;
  tail = 0;
  max_size = max_size;
  cur_size = pos 0;
  list_type = list_type;
}

-- An assignment to fields of an entry.
unfoldable pub write_dc : ℕ → (DcEntry → DcEntry) → Memory → Run Memory
unfolding load_dc
write_dc p f m = do e ← load_dc p m; ok (store_dc p (f e) m)

abbrev pub set_prev : ℕ → DcEntry → DcEntry
set_prev q e = record e { prev = q }

abbrev pub set_next : ℕ → DcEntry → DcEntry
set_next q e = record e { next = q }

-- `fresh` is what `malloc` returned.
unfoldable pub alloc_entry : ℕ → ℕ → ℕ → ℕ → LruList → Memory → Run Memory
alloc_entry fresh at_entry key val l m =
    if fresh == 0
    then stop exit_failure
    else ok (
        store_dc fresh
          (record {
            at_entry = at_entry;
            prev = 0;
            next = 0;
            s_prev = 0;
            s_next = 0;
            list_type = l.list_type;
            key = key;
            val = val;
          })
          m)

-- The entry leaves its chain and is freed.
unfoldable pub free_entry : ℕ → Memory → Run Memory
unfolding load_dc write_dc
free_entry p m = do
  e ← load_dc p m
  m1 ← if e.s_prev == 0 then ok m else write_dc e.s_prev (λ d. record d { s_next = e.s_next }) m
  e1 ← load_dc p m1
  m2 ←
      if e1.s_next == 0 then ok m1 else write_dc e1.s_next (λ d. record d { s_prev = e1.s_prev }) m1
  ok (record m2 { dc = update m2.dc p none })

unfoldable pub insert_head : ℕ → LruList → Memory → Run (LruList × Memory)
unfolding write_dc
insert_head p l m = do
  m1 ← if l.head == 0 then write_dc p (λ d. record d { prev = 0; next = 0 }) m else (do
    m' ← write_dc l.head (set_prev p) m
    write_dc p (λ d. record d { prev = 0; next = l.head }) m')
  m2 ← write_dc p (λ d. record d { list_type = l.list_type }) m1
  ok (
    record l { head = p; tail = if l.head == 0 then p else l.tail; cur_size = inc l.cur_size },
    m2,
  )

-- The neighbours of an entry that is neither head nor tail are joined.
unfoldable pub bridge : ℕ → Memory → Run Memory
unfolding load_dc write_dc
bridge p m = do
  e ← load_dc p m
  m1 ← write_dc e.prev (set_next e.next) m
  e1 ← load_dc p m1
  write_dc e1.next (set_prev e1.prev) m1

-- The tail is dropped: its predecessor is the tail.
unfoldable pub drop_tail : ℕ → LruList → Memory → Run (LruList × Memory)
unfolding load_dc write_dc
drop_tail p l m = do
  e ← load_dc p m
  m1 ← write_dc e.prev (set_next 0) m
  ok (record l { tail = e.prev }, m1)

unfoldable pub drop_head : ℕ → LruList → Memory → Run (LruList × Memory)
unfolding load_dc write_dc
drop_head p l m = do
  e ← load_dc p m
  m1 ← write_dc e.next (set_prev 0) m
  ok (record l { head = e.next }, m1)

unfoldable pub move_to_head : ℕ → LruList → Memory → Run (LruList × Memory)
unfolding drop_tail bridge write_dc
move_to_head p l m = if p == l.head then ok (l, m) else (do
  (l1, m1) ← if p == l.tail then drop_tail p l m else (do m' ← bridge p m; ok (l, m'))
  m2 ← write_dc p (set_next l1.head) m1
  m3 ← write_dc l1.head (set_prev p) m2
  m4 ← write_dc p (set_prev 0) m3
  ok (record l1 { head = p }, m4))

unfoldable pub move_to_tail : ℕ → LruList → Memory → Run (LruList × Memory)
unfolding drop_head bridge write_dc
move_to_tail p l m = if l.tail == p then ok (l, m) else (do
  (l1, m1) ← if p == l.head then drop_head p l m else (do m' ← bridge p m; ok (l, m'))
  m2 ← write_dc p (set_prev l1.tail) m1
  m3 ← write_dc l1.tail (set_next p) m2
  m4 ← write_dc p (set_next 0) m3
  ok (record l1 { tail = p }, m4))

-- The tail is taken off, with no test whether it is also the head.
unfoldable pub remove_tail : LruList → Memory → Run (ℕ × LruList × Memory)
unfolding drop_tail
remove_tail l m = do
  (l1, m1) ← drop_tail l.tail l m
  ok (l.tail, record l1 { cur_size = dec l1.cur_size }, m1)

-- The value is in value storage again, if the entry was cached.
unfoldable pub uncache : ℕ → Memory → Run Memory
unfolding load_at get_tag put_tagged_ptr
uncache at_entry m = do
  a ← load_at at_entry m
  ok (
      if eq_ℤ (get_tag a.val_addr) (pos dcache_val)
      then store_at at_entry (record a { val_addr = put_tagged_ptr a.val_addr valuestorage_val }) m
      else m)

unfoldable pub remove_entry : ℕ → LruList → Memory → Run (LruList × Memory)
unfolding drop_head drop_tail bridge uncache load_dc
remove_entry p l m = do
  (l1, m1) ←
      if l.head == l.tail
      then ok (record l { head = 0; tail = 0 }, m)
      else if l.head == p
      then drop_head p l m
      else if l.tail == p
      then drop_tail p l m
      else (do m' ← bridge p m; ok (l, m'))
  e ← load_dc p m1
  m2 ← uncache e.at_entry m1
  ok (record l1 { cur_size = dec l1.cur_size }, m2)
