-- ===== src/CacheThread/Cached.antt =====
-- A value that a read brought in, through cacheOperation of PRISM/src/CacheThread.cpp to the next
-- `lookup` of PRISM/src/MTS.cpp.
use hkv.Base.{
  ℕ, ◌≤◌, ◌<◌, ◌≡◌, refl, ap, ◌∙◌, ◌≢◌, Bool, false, some, List, [], ◌∷◌, pos, is_neg, eq_ℤ, ltb,
  if◌then◌else◌, arith, ok, All, length, update_self,
}
use hkv.Config.{Config}
use hkv.Memory.{AtEntry, DcEntry, Memory, load_at, store_at, store_dc, get_tag, dcache_val}
use hkv.Memory.Tags.{IsUserPtr}
use hkv.ValueStorage.Buffer.{IoUring}
use hkv.Mts.{CqEntry, dcache, get_val_pos}
use hkv.Mts.Reads.{read_dcache}
use hkv.LruList.{LruList, alloc_entry, insert_head}
use hkv.LruList.Ends.{IsList, insert_head-IsList}
use hkv.CacheThread.{CacheThread}
use hkv.CacheThread.Places.{
  tagged, chain_and_link-ok, store_dc-IsList, store_at-IsList, cached_pos, cached_val,
  cache_entries-one, cache_operation-one,
}
use hkv.CacheThread.Evict.{
  chain_and_link, evict_if_full, first_access, cache_entry, cache_operation,
}

-- What `alloc_entry` fills in.
abbrev pub new_entry : CqEntry → LruList → DcEntry
new_entry cq l = record {
  at_entry = cq.at_entry;
  prev = 0;
  next = 0;
  s_prev = 0;
  s_next = 0;
  list_type = l.list_type;
  key = cq.key;
  val = cq.val;
}

alloc_entry-ok :
    (p : ℕ) (cq : CqEntry) (l : LruList) (m : Memory)
    → p ≢ 0
    → alloc_entry p cq.at_entry cq.key cq.val l m ≡ ok (store_dc p (new_entry cq l) m)
unfolding alloc_entry
alloc_entry-ok p cq l m h = ground (arith, h)

module _ (io : IoUring) (c : Config) where
  evict_if_full-ok :
      (fuel n : ℕ) (t : CacheThread)
      → t.inactive.cur_size ≡ pos n
      → n ≤ t.inactive.max_size
      → evict_if_full io c fuel t ≡ ok t
  unfolding evict_if_full
  evict_if_full-ok fuel n t e le =
      let b : ltb t.inactive.max_size n ≡ false = ground arith in simp (e, b)

  first_access-run :
      (fuel : ℕ) (scan_ops : Bool) (cq : CqEntry) (t t2 : CacheThread) (p : ℕ) (mallocs : List ℕ)
      (m1 m2 : Memory) (l : LruList)
      → alloc_entry p cq.at_entry cq.key cq.val t.inactive t.memory ≡ ok m1
      → insert_head p t.inactive m1 ≡ ok (l, m2)
      → chain_and_link io c scan_ops 0 p (record t { inactive = l; memory = m2; mallocs = mallocs })
        ≡ ok t2
      → evict_if_full io c fuel t2 ≡ ok t2
      → first_access io c fuel scan_ops 0 cq (record t { mallocs = p ∷ mallocs }) ≡ ok (p, t2)
  unfolding first_access
  first_access-run fuel scan_ops cq t t2 p mallocs m1 m2 l e1 e2 e3 e4 = rw (e1, e2, e3, e4) refl

  -- A value that is stored and not cached, read in by the queue entry `cq`, becomes the head of the
  -- inactive list in the entry `p` that malloc returns.
  first_access-Cached :
      (fuel : ℕ) (scan_ops : Bool) (cq : CqEntry) (t : CacheThread) (p : ℕ) (mallocs ps : List ℕ)
      → t.mallocs ≡ p ∷ mallocs
      → p ≢ 0
      → IsList t.inactive ps t.memory
      → All (λ q. q ≢ p) ps
      → length ps < t.inactive.max_size
      → cq.at_entry ≢ 0
      → is_neg (t.memory.at cq.at_entry).vs_id ≡ false
      → (t' : CacheThread) × (first_access io c fuel scan_ops 0 cq t ≡ ok (p, t'))
        × IsList t'.inactive (p ∷ ps) t'.memory
        × ((d : DcEntry) × (t'.memory.dc p ≡ some d)
            × (d.at_entry ≡ cq.at_entry)
            × (d.val ≡ cq.val))
        × (t'.memory.at cq.at_entry ≡ tagged (t.memory.at cq.at_entry) p)
  first_access-Cached fuel scan_ops cq t p mallocs ps em pne il out room ane stored =
      let a = cq.at_entry in
      let d = new_entry cq t.inactive in
      let m1 = store_dc p d t.memory in
      let (l, m2, run, il2, self, ats, max) =
        insert_head-IsList p ps t.inactive m1 d (store_dc-IsList t.memory p d t.inactive ps out il)
          pne out (update_self t.memory.dc p (some d)) in
      let t1 : CacheThread = record t { inactive = l; memory = m2; mallocs = mallocs } in
      let m3 = store_at a (tagged (m2.at a) p) m2 in
      let at_a : m2.at a ≡ t.memory.at a = ap (λ (f : ℕ → AtEntry). f a) ats in
      let link : chain_and_link io c scan_ops 0 p t1 ≡ ok (record t1 { memory = m3 }) =
        chain_and_link-ok io c scan_ops p a t1 _ self refl ane
          (ap (λ (e : AtEntry). is_neg e.vs_id) at_a ∙ stored) in
      let keep : evict_if_full io c fuel (record t1 { memory = m3 })
          ≡ ok (record t1 { memory = m3 }) =
        evict_if_full-ok fuel (length (p ∷ ps)) (record t1 { memory = m3 }) il2.size
          (omega (arith, max)) in
      (
        record t1 { memory = m3 },
        ap (λ q. first_access io c fuel scan_ops 0 cq (record t { mallocs = q })) em
            ∙ first_access-run fuel scan_ops cq t (record t1 { memory = m3 }) p mallocs m1 m2 l
                (alloc_entry-ok p cq t.inactive t.memory pne) run link keep,
        store_at-IsList m2 a (tagged (m2.at a) p) l (p ∷ ps) il2,
        (_, self, refl, refl),
        update_self m2.at a _ ∙ ap (λ e. tagged e p) at_a,
      )

  -- Where the value of the queue entry `cq` is in storage and not cached, and malloc returns `p`.
  pub record Fetched (t : CacheThread) (cq : CqEntry) (p : ℕ) (mallocs ps : List ℕ) : Type 0 where
    pub allocated : t.mallocs ≡ p ∷ mallocs
    pub place : p ≢ 0
    pub user : IsUserPtr p
    pub list : IsList t.inactive ps t.memory
    pub new : All (λ q. q ≢ p) ps
    pub room : length ps < t.inactive.max_size
    pub entry : cq.at_entry ≢ 0
    pub stored :
        (id : ℕ) × (off : ℕ) × ((t.memory.at cq.at_entry).vs_id ≡ pos id)
        × ((t.memory.at cq.at_entry).vs_offset ≡ pos off)
    pub uncached : eq_ℤ (get_tag (t.memory.at cq.at_entry).val_addr) (pos dcache_val) ≡ false

  cache_entry-one :
      (fuel : ℕ) (scan_ops : Bool) (cq : CqEntry) (t t' : CacheThread) (p : ℕ)
      → cq.at_entry ≢ 0
      → is_neg (t.memory.at cq.at_entry).vs_id ≡ false
      → eq_ℤ (get_tag (t.memory.at cq.at_entry).val_addr) (pos dcache_val) ≡ false
      → first_access io c fuel scan_ops 0 cq t ≡ ok (p, t')
      → cache_entry io c fuel scan_ops cq 0 t ≡ ok (if scan_ops then p else 0, t')
  unfolding cache_entry load_at
  cache_entry-one fuel scan_ops cq t t' p ne stored out run = ground (arith, ne, stored, out, run)

  -- With room on the inactive list cacheOperation of one entry, whose value is in storage and not
  -- cached, returns. The value is the most recently used one of the list then, the place of the value
  -- is the cache, and a read of the cache returns it.
  pub cache_operation-Fetched :
      (fuel : ℕ) (cq : CqEntry) (t : CacheThread) (p : ℕ) (mallocs ps : List ℕ)
      → Fetched t cq p mallocs ps
      → (t' : CacheThread) × (cache_operation io c fuel (cq ∷ []) t ≡ ok t')
        × IsList t'.inactive (p ∷ ps) t'.memory
        × (get_val_pos cq.at_entry t'.memory ≡ ok dcache)
        × (read_dcache cq.at_entry t'.memory ≡ ok cq.val)
  cache_operation-Fetched fuel cq t p mallocs ps f =
      let (id, off, e1, e2) = f.stored in
      let neg : is_neg (t.memory.at cq.at_entry).vs_id ≡ false = ap is_neg e1 in
      let (scan_ops, one) = cache_operation-one io c fuel cq t in
      let (t', run, il, (d, hd, back, val), tag) =
        first_access-Cached fuel scan_ops cq t p mallocs ps f.allocated f.place f.list f.new f.room
          f.entry neg in
      (
        t',
        one
            ∙ cache_entries-one io c fuel scan_ops cq t t' _
                (cache_entry-one fuel scan_ops cq t t' p f.entry neg f.uncached run),
        il,
        cached_pos t'.memory cq.at_entry p id off (t.memory.at cq.at_entry) f.entry f.user e1 e2
            tag,
        cached_val t'.memory cq.at_entry p (t.memory.at cq.at_entry) d f.entry f.place f.user tag hd
              back
            ∙ ap ok val,
      )
