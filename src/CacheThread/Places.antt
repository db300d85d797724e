-- ===== src/CacheThread/Places.antt =====
-- A cached value in PRISM/src/CacheThread.cpp: the table entry that points at it, and what `lookup` of
-- PRISM/src/MTS.cpp makes of that.
use hkv.Base.{
  ℕ, ◌≡◌, refl, sym, ap, ◌≢◌, Bool, true, false, Option, some, List, [], ◌∷◌, pos, is_neg, arith,
  ok, All, update_ne,
}
use hkv.Config.{Config}
use hkv.Memory.{
  AtEntry, DcEntry, Memory, load_at, load_dc, store_at, store_dc, put_tagged_ptr, dcache_val,
}
use hkv.Memory.Tags.{IsUserPtr, get_tag-put_self, get_untagged-put_self}
use hkv.ValueStorage.Buffer.{IoUring}
use hkv.Mts.{CqEntry, ct_lookup, ct_scan, dcache, get_val_pos}
use hkv.Mts.Reads.{read_dcache}
use hkv.LruList.{LruList}
use hkv.LruList.Ends.{Chain-frame, IsList}
use hkv.CacheThread.{CacheThread, link_to_at, chain}
use hkv.CacheThread.Evict.{chain_and_link, cache_entry, cache_entries, cache_operation}

-- The table entry of a value that is cached in `p`.
abbrev pub tagged : AtEntry → ℕ → AtEntry
tagged e p = record e { val_addr = put_tagged_ptr p dcache_val }

pub chain_and_link-ok :
    (io : IoUring) (c : Config) (scan_ops : Bool) (p a : ℕ) (t : CacheThread) (d : DcEntry)
    → t.memory.dc p ≡ some d
    → d.at_entry ≡ a
    → a ≢ 0
    → is_neg (t.memory.at a).vs_id ≡ false
    → chain_and_link io c scan_ops 0 p t
      ≡ ok (record t { memory = store_at a (tagged (t.memory.at a) p) t.memory })
unfolding chain_and_link chain link_to_at load_dc load_at
chain_and_link-ok io c true p a t d h e ne stored = ground (arith, h, e, ne, stored)
chain_and_link-ok io c false p a t d h e ne stored = ground (arith, h, e, ne, stored)

fresh-frame :
    (m : Memory) (p : ℕ) (d : DcEntry) (ps : List ℕ)
    → All (λ q. q ≢ p) ps
    → All (λ q. (store_dc p d m).dc q ≡ m.dc q) ps
fresh-frame m p d [] h = tt
fresh-frame m p d (q ∷ ps) h =
    (update_ne m.dc p q (some d) (λ e. h.0 (sym e)), fresh-frame m p d ps h.1)

pub store_dc-IsList :
    (m : Memory) (p : ℕ) (d : DcEntry) (l : LruList) (ps : List ℕ)
    → All (λ q. q ≢ p) ps
    → IsList l ps m
    → IsList l ps (store_dc p d m)
store_dc-IsList m p d l ps out il = record {
  head = il.head;
  tail = il.tail;
  size = il.size;
  real = il.real;
  apart = il.apart;
  chain = Chain-frame m (store_dc p d m) 0 ps (fresh-frame m p d ps out) il.chain;
}

same-frame : (m m' : Memory) (ps : List ℕ) → m'.dc ≡ m.dc → All (λ q. m'.dc q ≡ m.dc q) ps
same-frame m m' [] e = tt
same-frame m m' (q ∷ ps) e = (ap (λ (f : ℕ → Option DcEntry). f q) e, same-frame m m' ps e)

pub store_at-IsList :
    (m : Memory) (a : ℕ) (e : AtEntry) (l : LruList) (ps : List ℕ)
    → IsList l ps m
    → IsList l ps (store_at a e m)
store_at-IsList m a e l ps il = record {
  head = il.head;
  tail = il.tail;
  size = il.size;
  real = il.real;
  apart = il.apart;
  chain = Chain-frame m (store_at a e m) 0 ps (same-frame m (store_at a e m) ps refl) il.chain;
}

pub cached_pos :
    (m : Memory) (a p id off : ℕ) (e : AtEntry)
    → a ≢ 0
    → IsUserPtr p
    → e.vs_id ≡ pos id
    → e.vs_offset ≡ pos off
    → m.at a ≡ tagged e p
    → get_val_pos a m ≡ ok dcache
unfolding get_val_pos load_at
cached_pos m a p id off e ne user e1 e2 h =
    ground (arith, ne, h, e1, e2, get_tag-put_self p dcache_val user (omega arith))

pub cached_val :
    (m : Memory) (a p : ℕ) (e : AtEntry) (d : DcEntry)
    → a ≢ 0
    → p ≢ 0
    → IsUserPtr p
    → m.at a ≡ tagged e p
    → m.dc p ≡ some d
    → d.at_entry ≡ a
    → read_dcache a m ≡ ok d.val
unfolding read_dcache load_at load_dc
cached_val m a p e d ane pne user h hd back =
    ground (arith, ane, pne, h, hd, back, get_untagged-put_self p dcache_val user (omega arith))

module _ (io : IoUring) (c : Config) where
  pub cache_entries-one :
      (fuel : ℕ) (scan_ops : Bool) (cq : CqEntry) (t t' : CacheThread) (s_dc : ℕ)
      → cache_entry io c fuel scan_ops cq 0 t ≡ ok (s_dc, t')
      → cache_entries io c fuel scan_ops (cq ∷ []) 0 t ≡ ok t'
  unfolding cache_entries
  cache_entries-one fuel scan_ops cq t t' s_dc run = rw run refl

  pub cache_operation-one :
      (fuel : ℕ) (cq : CqEntry) (t : CacheThread)
      → (scan_ops : Bool) × (cache_operation io c fuel (cq ∷ []) t
          ≡ cache_entries io c fuel scan_ops (cq ∷ []) 0 t)
  unfolding cache_operation
  cache_operation-one fuel cq t =
      let scan_ops : Bool = elim cq.ops [ ct_lookup ↦ false | ct_scan ↦ true ] in (scan_ops, refl)
