-- ===== src/Background/Served.antt =====
-- A value in storage from one `lookup` of PRISM/src/MTS.cpp to the next: its read is completed by
-- IOCompleterThreadExec, and DramCacheThreadExec caches it.
use hkv.Base.{
  ℕ, zero, suc, ◌+◌, ◌*◌, ◌<◌, ◌≤◌, ◌≡◌, refl, ap, subst, ◌∙◌, ◌≢◌, false, List, [], ◌∷◌, ◌++◌,
  arith, Run, ok, ◌>>=◌, ◌==◌, if◌then◌else◌, update, update_ne,
}
use hkv.Config.{Config}
use hkv.ValueStorage.{VsEntry}
use hkv.ValueStorage.Buffer.{IoUring}
use hkv.ValueStorage.Sorted.{IsFaithful}
use hkv.Mts.{
  KeyIndex, World, CqEntry, ct_lookup, ValPos, dcache, oplog, valuestorage, get_val_pos,
  cache_kv_items,
}
use hkv.Mts.Reads.{lookup, read_dcache, read_oplog, apply_ops}
use hkv.Mts.Combined.{submitted, handed, pending-submitted}
use hkv.Mts.Fetched.{Stored, lookup-submitted}
use hkv.CacheThread.{CacheThread}
use hkv.CacheThread.Evict.{cache_operation}
use hkv.CacheThread.Cached.{Fetched, cache_operation-Fetched}
use hkv.Background.{
  Store, view, put_back, free_all, cache_all, next_queue, drain_free_queue, drain_cache_queue,
  cache_round, complete_lookups, completer_round,
}
use hkv.Background.Completed.{complete_lookups-handed}

times-le : (i n : ℕ) → 0 < n → i ≤ i * n
times-le zero n h = omega arith
times-le (suc i) n h = let rest = times-le i n h in grind arith

module _ (io : IoUring) (c : Config) {k : KeyIndex} where
  abbrev freed : ℕ → Store k → Store k
  freed i s =
      let s' = put_back s (view s) in
      record s' { world = record (s'.world) { free_queue = update s'.world.free_queue i [] } }

  drain_free_queue-nil :
      (i : ℕ) (s : Store k) → s.world.free_queue i ≡ [] → drain_free_queue io c i s ≡ ok (freed i s)
  unfolding drain_free_queue free_all
  drain_free_queue-nil i s h = rw h refl

  abbrev cached : ℕ → CacheThread → Store k → Store k
  cached j t s =
      let s' = put_back s t in
      record s' { world = record (s'.world) { cache_queue = update s'.world.cache_queue j [] } }

  drain_cache_queue-one :
      (fuel j : ℕ) (vec : List CqEntry) (t : CacheThread) (s : Store k)
      → s.world.cache_queue j ≡ vec ∷ []
      → cache_operation io c fuel vec (view s) ≡ ok t
      → drain_cache_queue io c fuel j s ≡ ok (cached j t s)
  unfolding drain_cache_queue cache_all
  drain_cache_queue-one fuel j vec t s h run = rw (h, run) refl

  cache_round-one :
      (fuel i j : ℕ) (vec : List CqEntry) (t : CacheThread) (s : Store k)
      → s.world.free_queue i ≡ []
      → s.world.cache_queue j ≡ vec ∷ []
      → cache_operation io c fuel vec (view s) ≡ ok t
      → cache_round io c fuel i j s ≡ ok (next_queue c i, next_queue c j, cached j t (freed i s))
  unfolding cache_round
  cache_round-one fuel i j vec t s free one run =
      rw (drain_free_queue-nil i s free, drain_cache_queue-one fuel j vec t (freed i s) one run)
        refl

  -- lookup, by the place of the value and what the cache holds of it.
  abbrev by_place : World k → ℕ → Run ValPos → Run ℕ → Run (ℕ × World k)
  by_place w a place read = do
    where_it_is ← place
    elim where_it_is [
      | dcache ↦ do v ← read; ok (v, w)
      | oplog ↦ do v ← read_oplog a w.memory; ok (v, w)
      | valuestorage vs_id ↦ do w' ← apply_ops io c a vs_id 0 w; ok (0, w')
    ]

  lookup-by_place :
      (w : World k) (key : ℕ)
      → lookup io c key w ≡ (
          if k.lookup key w.index == 0
          then ok (0, w)
          else by_place w
              (k.lookup key w.index)
              (get_val_pos (k.lookup key w.index) w.memory)
              (read_dcache (k.lookup key w.index) w.memory))
  unfolding lookup get_val_pos read_dcache read_oplog apply_ops
  lookup-by_place w key = refl

  lookup-dcache :
      (w : World k) (key a val : ℕ)
      → a ≢ 0
      → k.lookup key w.index ≡ a
      → get_val_pos a w.memory ≡ ok dcache
      → read_dcache a w.memory ≡ ok val
      → lookup io c key w ≡ ok (val, w)
  lookup-dcache w key a val ne found place read =
      let real : (a == 0) ≡ false = ground (arith, ne) in
      lookup-by_place w key
      ∙ ap
          (λ x.
            if x == 0
            then ok (0, w)
            else by_place w x (get_val_pos x w.memory) (read_dcache x w.memory))
          found
      ∙ rw (real, place, read) refl

  completer_round-lookups :
      (init_id : ℕ) (w : World k)
      → completer_round io c false init_id w ≡ complete_lookups io c c.vs_num init_id w
  unfolding completer_round
  completer_round-lookups init_id w = refl

  -- A value is at its place in storage and not cached. The ring is faithful, and the batch of reads, a
  -- read and the number of completers are not 0. No scan has set ioc_scan, no read of a lookup is
  -- pending, and none waits at the storage. The cache thread looks at queue 0 of the values to cache
  -- next, which is empty, as is the queue of values to free that it looks at next; the cache has room
  -- for the value on its inactive list, and the allocations are given. Then looking up the key returns
  -- 0, the next round of the completer in charge of the storage and that round of the cache thread
  -- return, and looking up the key after them returns the value.
  pub lookup-served :
      (s : Store k) (key a id place i init_id q fuel p : ℕ) (e : VsEntry) (mallocs ps : List ℕ)
      → IsFaithful io
      → 0 < c.r_qd
      → 0 < c.read_io_entries
      → 0 < c.io_completer_num
      → k.lookup key s.world.index ≡ a
      → Stored s.world a id place e
      → e.at_entry ≡ a
      → ((v : ℕ) → s.world.pending v 0 ≡ [])
      → s.world.waiting id 0 ≡ []
      → s.world.free_queue q ≡ []
      → s.world.cache_queue 0 ≡ []
      → id ≡ init_id + i * c.io_completer_num
      → id < c.vs_num
      → Fetched io c
          (view s)
          (record { at_entry = e.at_entry; key = e.key; val = e.val; ops = ct_lookup })
          p
          mallocs
          ps
      → (w1 : World k) × (q' : ℕ) × (j' : ℕ) × (s' : Store k) × (lookup io c key s.world
          ≡ ok (0, w1))
        × (cache_round io c fuel q 0 (record s { world = completer_round io c false init_id w1 })
            ≡ ok (q', j', s'))
        × (lookup io c key s'.world ≡ ok (e.val, s'.world))
  unfolding cache_kv_items
  lookup-served s key a id place i init_id q fuel p e mallocs ps f h1 h2 h3 found stored owner idle
        none_waiting none_free none_cached mine inside fetched =
      let w = s.world in
      let w1 = submitted io c w id 0 e [] in
      let w2 = handed io c w1 id 0 e [] in
      let cq : CqEntry = record {
        at_entry = e.at_entry;
        key = e.key;
        val = e.val;
        ops = ct_lookup;
      } in
      let s2 : Store k = record s { world = w2 } in
      let (t, run, list, there, value) =
        cache_operation-Fetched io c fuel cq (view s) p mallocs ps fetched in
      let s3 = cached 0 t (freed q s2) in
      let done : completer_round io c false init_id w1 ≡ w2 =
        completer_round-lookups init_id w1
        ∙ complete_lookups-handed io c c.vs_num i init_id id w1 e [] h3 mine inside
            (omega (arith, times-le i c.io_completer_num h3, mine, inside))
            (pending-submitted io c w id 0 e [])
            (λ u ne. ap (λ (g : ℕ → List VsEntry). g 0) (update_ne w.pending id u _ ne) ∙ idle u) in
      (
        w1,
        next_queue c q,
        next_queue c 0,
        s3,
        lookup-submitted io c w key a id place e f h1 h2 found stored (idle id) none_waiting,
        ap (λ x. cache_round io c fuel q 0 (record s { world = x })) done
            ∙ cache_round-one fuel q 0 (cq ∷ []) t s2 none_free
                (ap (λ l. l ++ (cq ∷ []) ∷ []) none_cached) run,
        lookup-dcache s3.world key a e.val stored.entry found
            (subst (λ x. get_val_pos x t.memory ≡ ok dcache) owner there)
            (subst (λ x. read_dcache x t.memory ≡ ok e.val) owner value),
      )
