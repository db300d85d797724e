-- ===== src/Tests/Cache.antt =====
-- The cache at small inputs.
use hkv.Base.{ℕ, ◌*◌, ◌^◌, ◌≡◌, refl, some, [], ◌∷◌, ◌++◌, pos, arith, ok, update}
use hkv.Config.{tiny}
use hkv.Memory.{Memory, DcEntry, get_tag}
use hkv.Mts.{CqEntry, ct_lookup, dcache, get_val_pos}
use hkv.Mts.Reads.{read_dcache}
use hkv.LruList.{LruList, remove_tail, inactive_list, active_list}
use hkv.LruList.Ends.{IsList}
use hkv.LruList.Tail.{remove_tail-IsList}
use hkv.LruList.{move_to_head, remove_entry}
use hkv.LruList.Removed.{Removed, remove_entry-Removed}
use hkv.LruList.Moved.{move_to_head-IsList}
use hkv.CacheThread.{CacheThread}
use hkv.CacheThread.Promoted.{Promotable, cache_operation-Promoted}
use hkv.Memory.{put_tagged_ptr, dcache_val}
use hkv.CacheThread.Evict.{cache_operation}
use hkv.CacheThread.Cached.{Fetched, cache_operation-Fetched}
use hkv.Tests.{ring, zeroes, storage}

abbrev entry : ℕ → ℕ → ℕ → DcEntry
entry prev next key = record {
  at_entry = 4096;
  prev = prev;
  next = next;
  s_prev = 0;
  s_next = 0;
  list_type = 2;
  key = key;
  val = 70;
}

abbrev lru : ℕ → ℕ → ℕ → LruList
lru head tail n = record {
  head = head;
  tail = tail;
  max_size = 4;
  cur_size = pos n;
  list_type = inactive_list;
}

-- The entries 64 and 128 on a list, and 192 on none.
abbrev two_cached : Memory
two_cached = record zeroes {
  dc =
      update (update (update zeroes.dc 64 (some (entry 0 128 7))) 128 (some (entry 64 0 8))) 192
        (some (entry 0 0 9));
}

two_cached-IsList : IsList (lru 64 128 2) (64 ∷ 128 ∷ []) two_cached
two_cached-IsList = record {
  head = refl;
  tail = refl;
  size = refl;
  real = ((λ e. omega (arith, e)), ((λ e. omega (arith, e)), tt));
  apart = (((λ e. omega (arith, e)), tt), (tt, tt));
  chain = ((_, refl, refl, refl), ((_, refl, refl, refl), tt));
}

remove_tail-IsList_example :
    (l' : LruList) × (m' : Memory) × (remove_tail (lru 64 128 2) two_cached ≡ ok (128, l', m'))
    × IsList l' ([] ++ 64 ∷ []) m'
    × (m'.at ≡ two_cached.at)
remove_tail-IsList_example =
    remove_tail-IsList 64 128 [] (lru 64 128 2) two_cached two_cached-IsList

-- The entry 64 between two others.
abbrev three_cached : Memory
three_cached = record zeroes {
  dc =
      update (update (update zeroes.dc 192 (some (entry 0 64 9))) 64 (some (entry 192 128 7))) 128
        (some (entry 64 0 8));
}

three_cached-IsList : IsList (lru 192 128 3) ((192 ∷ []) ++ 64 ∷ 128 ∷ []) three_cached
three_cached-IsList = record {
  head = refl;
  tail = refl;
  size = refl;
  real = ((λ e. omega (arith, e)), ((λ e. omega (arith, e)), ((λ e. omega (arith, e)), tt)));
  apart = (
    ((λ e. omega (arith, e)), ((λ e. omega (arith, e)), tt)),
    (((λ e. omega (arith, e)), tt), (tt, tt)),
  );
  chain = ((_, refl, refl, refl), ((_, refl, refl, refl), ((_, refl, refl, refl), tt)));
}

move_to_head-IsList_example :
    (l' : LruList) × (m' : Memory) × (move_to_head 64 (lru 192 128 3) three_cached ≡ ok (l', m'))
    × IsList l' (64 ∷ (192 ∷ []) ++ 128 ∷ []) m'
    × (m'.at ≡ three_cached.at)
move_to_head-IsList_example =
    move_to_head-IsList 64 (192 ∷ []) (128 ∷ []) (lru 192 128 3) three_cached three_cached-IsList

remove_entry-Removed_example :
    (l' : LruList) × (m' : Memory) × (remove_entry 64 (lru 192 128 3) three_cached ≡ ok (l', m'))
    × Removed 64 ((192 ∷ []) ++ 128 ∷ []) (lru 192 128 3) l' three_cached m'
remove_entry-Removed_example =
    remove_entry-Removed 64 (192 ∷ []) (128 ∷ []) (lru 192 128 3) three_cached (entry 192 128 7)
      three_cached-IsList refl (λ e. omega (arith, e))

-- A cache with nothing in it, and the key 7 in storage.
abbrev pub empty_cache : CacheThread
empty_cache = record {
  active = record (lru 0 0 0) { list_type = active_list };
  inactive = lru 0 0 0;
  storages = λ _. storage;
  memory = record zeroes {
    at = update zeroes.at 4096 (record { vs_id = pos 0; vs_offset = pos 0; val_addr = 3 * 2 ^ 56 });
  };
  mallocs = 64 ∷ [];
  draws = [];
}

abbrev fetched : CqEntry
fetched = record { at_entry = 4096; key = 7; val = 70; ops = ct_lookup }

empty_cache-Fetched : Fetched ring tiny empty_cache fetched 64 [] []
unfolding get_tag
empty_cache-Fetched = record {
  allocated = refl;
  place = λ e. omega (arith, e);
  user = omega arith;
  list = record { head = refl; tail = refl; size = refl; real = tt; apart = tt; chain = tt };
  new = tt;
  room = omega arith;
  entry = λ e. omega (arith, e);
  stored = (0, 0, refl, refl);
  uncached = refl;
}

cache_operation-Fetched_example :
    (t' : CacheThread) × (cache_operation ring tiny 8 (fetched ∷ []) empty_cache ≡ ok t')
    × IsList t'.inactive (64 ∷ []) t'.memory
    × (get_val_pos 4096 t'.memory ≡ ok dcache)
    × (read_dcache 4096 t'.memory ≡ ok 70)
cache_operation-Fetched_example =
    cache_operation-Fetched ring tiny 8 fetched empty_cache 64 [] [] empty_cache-Fetched

-- The same list as the inactive one, with the value of the entry 64 cached, and 256 on the active one.
abbrev cached_memory : Memory
cached_memory = record three_cached {
  dc = update three_cached.dc 256 (some (record (entry 0 0 5) { list_type = active_list }));
  at =
      update zeroes.at 4096
        (record { vs_id = pos 0; vs_offset = pos 0; val_addr = put_tagged_ptr 64 dcache_val });
}

abbrev two_lists : CacheThread
two_lists = record empty_cache {
  active = record (lru 256 256 1) { list_type = active_list };
  inactive = lru 192 128 3;
  memory = cached_memory;
}

two_lists-Promotable :
    Promotable two_lists fetched 64 (entry 192 128 7) (192 ∷ []) (128 ∷ []) (256 ∷ [])
two_lists-Promotable = record {
  place = λ e. omega (arith, e);
  user = omega arith;
  inactive = record {
    head = refl;
    tail = refl;
    size = refl;
    real = three_cached-IsList.real;
    apart = three_cached-IsList.apart;
    chain = ((_, refl, refl, refl), ((_, refl, refl, refl), ((_, refl, refl, refl), tt)));
  };
  active = record {
    head = refl;
    tail = refl;
    size = refl;
    real = ((λ e. omega (arith, e)), tt);
    apart = (tt, tt);
    chain = ((_, refl, refl, refl), tt);
  };
  disjoint =
      (((λ e. omega (arith, e)), ((λ e. omega (arith, e)), ((λ e. omega (arith, e)), tt))), tt);
  room = omega arith;
  held = refl;
  owner = refl;
  on_list = refl;
  entry = λ e. omega (arith, e);
  stored = (0, 0, refl, refl);
  cached = refl;
}

cache_operation-Promoted_example :
    (t' : CacheThread) × (cache_operation ring tiny 8 (fetched ∷ []) two_lists ≡ ok t')
    × IsList t'.inactive ((192 ∷ []) ++ 128 ∷ []) t'.memory
    × IsList t'.active (64 ∷ 256 ∷ []) t'.memory
    × (get_val_pos 4096 t'.memory ≡ ok dcache)
    × (read_dcache 4096 t'.memory ≡ ok 70)
cache_operation-Promoted_example =
    cache_operation-Promoted ring tiny 8 fetched two_lists 64 (entry 192 128 7) (192 ∷ [])
      (128 ∷ []) (256 ∷ []) two_lists-Promotable
