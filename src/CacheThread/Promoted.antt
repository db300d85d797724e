-- ===== src/CacheThread/Promoted.antt =====
-- A second read of a value that is cached already, through cacheOperation of
-- PRISM/src/CacheThread.cpp: from the inactive list to the active one.
use hkv.Base.{
  ℕ, ◌≤◌, ◌<◌, ◌≡◌, refl, sym, ap, ◌∙◌, ◌≢◌, Bool, inl, inr, false, Option, none, some, subst, List,
  [], ◌∷◌, ◌++◌, pos, is_neg, eq_ℤ, ltb, if◌then◌else◌, arith, ok, All, All-mono, length,
  update_self, Bool-cases,
}
use hkv.Config.{Config}
use hkv.Memory.{
  AtEntry, DcEntry, Memory, load_at, load_dc, store_at, get_tag, put_tagged_ptr, dcache_val,
}
use hkv.Memory.Tags.{IsUserPtr, get_tag-put_self, get_untagged-put_self}
use hkv.ValueStorage.Buffer.{IoUring}
use hkv.Mts.{CqEntry, dcache, get_val_pos}
use hkv.Mts.Reads.{read_dcache}
use hkv.LruList.{LruList, insert_head, remove_entry, inactive_list}
use hkv.LruList.Ends.{Chain-frame, IsList, insert_head-Framed}
use hkv.LruList.Sequences.{All-out, All-at, Apart-out}
use hkv.LruList.Removed.{uncached, remove_entry-Removed}
use hkv.CacheThread.{CacheThread, which_list}
use hkv.CacheThread.Places.{
  tagged, chain_and_link-ok, store_at-IsList, cached_pos, cached_val, cache_entries-one,
  cache_operation-one,
}
use hkv.CacheThread.Evict.{chain_and_link, hit_inactive, cache_entry, cache_operation}

-- The value of the queue entry `cq` is cached in `p`, on the inactive list, and the active one has room.
pub record Promotable (t : CacheThread) (cq : CqEntry) (p : ℕ) (d : DcEntry) (xs ws ps : List ℕ)
    : Type 0 where
  pub place : p ≢ 0
  pub user : IsUserPtr p
  pub inactive : IsList t.inactive (xs ++ p ∷ ws) t.memory
  pub active : IsList t.active ps t.memory
  pub disjoint : All (λ q. All (λ x. x ≢ q) (xs ++ p ∷ ws)) ps
  pub room : length ps < t.active.max_size
  pub held : t.memory.dc p ≡ some d
  pub owner : d.at_entry ≡ cq.at_entry
  pub on_list : d.list_type ≡ inactive_list
  pub entry : cq.at_entry ≢ 0
  pub stored :
      (id : ℕ) × (off : ℕ) × ((t.memory.at cq.at_entry).vs_id ≡ pos id)
      × ((t.memory.at cq.at_entry).vs_offset ≡ pos off)
  pub cached : (t.memory.at cq.at_entry).val_addr ≡ put_tagged_ptr p dcache_val

IsList-frame :
    (l : LruList) (ps : List ℕ) (m m' : Memory)
    → All (λ q. m'.dc q ≡ m.dc q) ps
    → IsList l ps m
    → IsList l ps m'
IsList-frame l ps m m' same il = record {
  head = il.head;
  tail = il.tail;
  size = il.size;
  real = il.real;
  apart = il.apart;
  chain = Chain-frame m m' 0 ps same il.chain;
}

-- The entries of two lists that have none in common.
All-swap : (qs ps : List ℕ) → All (λ q. All (λ x. x ≢ q) ps) qs → All (λ x. All (λ q. q ≢ x) qs) ps
All-swap qs [] h = tt
All-swap qs (x ∷ ps) h = (
  All-mono qs (λ q (g : All (λ y. y ≢ q) (x ∷ ps)). λ e. g.0 (sym e)) h,
  All-swap qs ps (All-mono qs (λ q (g : All (λ y. y ≢ q) (x ∷ ps)). g.1) h),
)

All-and {κ} : (P Q : ℕ → Type κ) (xs : List ℕ) → All P xs → All Q xs → All (λ x. P x × Q x) xs
All-and P Q [] h1 h2 = tt
All-and P Q (x ∷ xs) h1 h2 = ((h1.0, h2.0), All-and P Q xs h1.1 h2.1)

uncached-places :
    (a : AtEntry) → ((uncached a).vs_id ≡ a.vs_id) × ((uncached a).vs_offset ≡ a.vs_offset)
uncached-places a = elim (Bool-cases (eq_ℤ (get_tag a.val_addr) (pos dcache_val))) [
  | inl e ↦ rw e (refl, refl)
  | inr e ↦ rw e (refl, refl)
]

at_entry_same :
    (m : Memory) (p : ℕ) (d d' : DcEntry)
    → m.dc p ≡ some d
    → m.dc p ≡ some d'
    → d'.at_entry ≡ d.at_entry
at_entry_same m p d d' h h' =
    ap (λ (o : Option DcEntry). elim o [ none ↦ 0 | some x ↦ x.at_entry ]) (sym h' ∙ h)

module _ (io : IoUring) (c : Config) where
  hit_inactive-run :
      (fuel : ℕ) (scan_ops : Bool) (p n : ℕ) (t t' : CacheThread) (l1 l2 : LruList) (m1 m2 : Memory)
      → remove_entry p t.inactive t.memory ≡ ok (l1, m1)
      → insert_head p t.active m1 ≡ ok (l2, m2)
      → chain_and_link io c scan_ops 0 p (record t { inactive = l1; active = l2; memory = m2 })
        ≡ ok t'
      → t'.active.cur_size ≡ pos n
      → n ≤ t'.active.max_size
      → hit_inactive io c fuel scan_ops 0 p t ≡ ok t'
  unfolding hit_inactive
  hit_inactive-run fuel scan_ops p n t t' l1 l2 m1 m2 e1 e2 e3 size le =
      let b : ltb t'.active.max_size n ≡ false = ground arith in simp (e1, e2, e3, size, b)

  -- The entry goes from the inactive list to the front of the active one.
  hit_inactive-Promoted :
      (fuel : ℕ) (scan_ops : Bool) (cq : CqEntry) (t : CacheThread) (p : ℕ) (d : DcEntry)
      (xs ws ps : List ℕ)
      → Promotable t cq p d xs ws ps
      → (t' : CacheThread) × (hit_inactive io c fuel scan_ops 0 p t ≡ ok t')
        × IsList t'.inactive (xs ++ ws) t'.memory
        × IsList t'.active (p ∷ ps) t'.memory
        × ((d' : DcEntry) × (t'.memory.dc p ≡ some d')
            × (d'.at_entry ≡ cq.at_entry)
            × (d'.val ≡ d.val))
        × (t'.memory.at cq.at_entry ≡ tagged (uncached (t.memory.at cq.at_entry)) p)
  hit_inactive-Promoted fuel scan_ops cq t p d xs ws ps h =
      let a = cq.at_entry in
      let (id, off, in_storage, at_place) = h.stored in
      let (l1, m1, run1, r) =
        remove_entry-Removed p xs ws t.inactive t.memory d h.inactive h.held
          (λ e. h.entry (sym h.owner ∙ e)) in
      let out = (Apart-out xs ws p h.inactive.apart).0 in
      let others : All (λ q. All (λ x. x ≢ q) (xs ++ ws)) ps =
        All-mono ps (λ q (g : All (λ x. x ≢ q) (xs ++ p ∷ ws)). All-out (λ x. x ≢ q) xs ws p g)
          h.disjoint in
      let new : All (λ q. q ≢ p) ps =
        All-mono ps
          (λ q (g : All (λ x. x ≢ q) (xs ++ p ∷ ws)). λ e. All-at (λ x. x ≢ q) xs ws p g (sym e))
          h.disjoint in
      let held1 = r.frame p out ∙ h.held in
      let active1 =
        IsList-frame t.active ps t.memory m1 (All-mono ps (λ q g. r.frame q g) others) h.active in
      let (l2, m2, run2, il2, self, ats, max, frame) =
        insert_head-Framed p ps t.active m1 d active1 h.place new held1 in
      let left : All (λ q. m2.dc q ≡ m1.dc q) (xs ++ ws) =
        All-mono (xs ++ ws) (λ q g. frame q g.0 g.1)
          (All-and (λ q. q ≢ p) (λ q. All (λ x. x ≢ q) ps) (xs ++ ws) out
            (All-swap ps (xs ++ ws) others)) in
      let (d2, held2, here, _) = r.table in
      let same = at_entry_same t.memory p d d2 h.held held2 ∙ h.owner in
      let at_a : m2.at a ≡ uncached (t.memory.at a) =
        ap (λ (f : ℕ → AtEntry). f a) ats
        ∙ subst (λ x. m1.at x ≡ uncached (t.memory.at x)) same here in
      let t1 : CacheThread = record t { inactive = l1; active = l2; memory = m2 } in
      let m3 = store_at a (tagged (m2.at a) p) m2 in
      let link = chain_and_link-ok io c scan_ops p a t1 _ self h.owner h.entry (
        ap (λ (e : AtEntry). is_neg e.vs_id) at_a
        ∙ ap is_neg ((uncached-places (t.memory.at a)).0 ∙ in_storage)) in
      (
        record t1 { memory = m3 },
        hit_inactive-run fuel scan_ops p (length (p ∷ ps)) t (record t1 { memory = m3 }) l1 l2 m1 m2
            run1 run2 link il2.size (omega (arith, max, h.room)),
        store_at-IsList m2 a (tagged (m2.at a) p) l1 (xs ++ ws)
            (IsList-frame l1 (xs ++ ws) m1 m2 left r.list),
        store_at-IsList m2 a (tagged (m2.at a) p) l2 (p ∷ ps) il2,
        (_, self, h.owner, refl),
        update_self m2.at a _ ∙ ap (λ e. tagged e p) at_a,
      )

  cache_entry-hit :
      (fuel : ℕ) (scan_ops : Bool) (cq : CqEntry) (t t' : CacheThread) (p : ℕ) (d : DcEntry)
      (xs ws ps : List ℕ)
      → Promotable t cq p d xs ws ps
      → hit_inactive io c fuel scan_ops 0 p t ≡ ok t'
      → cache_entry io c fuel scan_ops cq 0 t ≡ ok (if scan_ops then p else 0, t')
  unfolding cache_entry load_at which_list load_dc
  cache_entry-hit fuel scan_ops cq t t' p d xs ws ps h run =
      let (id, off, in_storage, at_place) = h.stored in
      let tag = get_tag-put_self p dcache_val h.user (omega arith) in
      let ptr = get_untagged-put_self p dcache_val h.user (omega arith) in
      ground (arith, h.entry, h.place, in_storage, h.cached, tag, ptr, h.held, h.on_list, run)

  -- A value that is in storage and cached on the inactive list is read once more, with room on the
  -- active list, where no entry is on both: cacheOperation of it returns. The value is then the most
  -- recently used one of the active list, the inactive list holds the others in their order, the place
  -- of the value is the cache as before, and a read of the cache returns the same value.
  pub cache_operation-Promoted :
      (fuel : ℕ) (cq : CqEntry) (t : CacheThread) (p : ℕ) (d : DcEntry) (xs ws ps : List ℕ)
      → Promotable t cq p d xs ws ps
      → (t' : CacheThread) × (cache_operation io c fuel (cq ∷ []) t ≡ ok t')
        × IsList t'.inactive (xs ++ ws) t'.memory
        × IsList t'.active (p ∷ ps) t'.memory
        × (get_val_pos cq.at_entry t'.memory ≡ ok dcache)
        × (read_dcache cq.at_entry t'.memory ≡ ok d.val)
  cache_operation-Promoted fuel cq t p d xs ws ps h =
      let (id, off, in_storage, at_place) = h.stored in
      let (scan_ops, one) = cache_operation-one io c fuel cq t in
      let (t', run, inactive, active, (d', held, back, val), tag) =
        hit_inactive-Promoted fuel scan_ops cq t p d xs ws ps h in
      let e = uncached (t.memory.at cq.at_entry) in
      let places = uncached-places (t.memory.at cq.at_entry) in
      (
        t',
        one
            ∙ cache_entries-one io c fuel scan_ops cq t t' _
                (cache_entry-hit fuel scan_ops cq t t' p d xs ws ps h run),
        inactive,
        active,
        cached_pos t'.memory cq.at_entry p id off e h.entry h.user (places.0 ∙ in_storage)
            (places.1 ∙ at_place) tag,
        cached_val t'.memory cq.at_entry p e d' h.entry h.place h.user tag held back ∙ ap ok val,
      )
