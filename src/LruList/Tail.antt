-- ===== src/LruList/Tail.antt =====
-- remove_tail of PRISM/src/LRUList.cpp on the list as the sequence of its entries.
use hkv.Base.{
  ℕ, suc, ◌≡◌, refl, sym, ap, ◌∙◌, ◌≢◌, none, some, List, [], ◌∷◌, ◌++◌, pos, dec, arith, ok, stop,
  undefined, All, length, length-append, update_self, update_ne, head_of, last_of, Apart,
}
use hkv.Memory.{DcEntry, Memory, load_dc, store_dc}
use hkv.LruList.{LruList, write_dc, drop_tail, remove_tail}
use hkv.LruList.Ends.{Chain, IsList}

module _ (y t : ℕ) where
  -- The list with its last two entries, and without the last.
  abbrev full : List ℕ → List ℕ
  full qs = qs ++ y ∷ t ∷ []

  abbrev shorter : List ℕ → List ℕ
  shorter qs = qs ++ y ∷ []

  pub head_of-shorter : (qs : List ℕ) → head_of (full qs) ≡ head_of (shorter qs)
  head_of-shorter [] = refl
  head_of-shorter (x ∷ qs) = refl

  last_of-full : (q : ℕ) (qs : List ℕ) → last_of q (full qs) ≡ t
  last_of-full q [] = refl
  last_of-full q (x ∷ qs) = last_of-full x qs

  pub last_of-shorter : (q : ℕ) (qs : List ℕ) → last_of q (shorter qs) ≡ y
  last_of-shorter q [] = refl
  last_of-shorter q (x ∷ qs) = last_of-shorter x qs

  All-shorter {κ} : (P : ℕ → Type κ) (qs : List ℕ) → All P (full qs) → All P (shorter qs)
  All-shorter P [] h = (h.0, tt)
  All-shorter P (x ∷ qs) h = (h.0, All-shorter P qs h.1)

  All-last {κ} : (P : ℕ → Type κ) (qs : List ℕ) → All P (full qs) → P y
  All-last P [] h = h.0
  All-last P (x ∷ qs) h = All-last P qs h.1

  Apart-shorter : (qs : List ℕ) → Apart (full qs) → Apart (shorter qs) × All (λ x. y ≢ x) qs
  Apart-shorter [] a = ((tt, tt), tt)
  Apart-shorter (x ∷ qs) a =
      let r = Apart-shorter qs a.1 in
      ((All-shorter (λ q. q ≢ x) qs a.0, r.0), (All-last (λ q. q ≢ x) qs a.0, r.1))

  pub Chain-shorter :
      (m : Memory) (q : ℕ) (qs : List ℕ)
      → Chain m q (full qs)
      → All (λ x. y ≢ x) qs
      → (dy : DcEntry) × (dt : DcEntry) × (m.dc y ≡ some dy)
        × (m.dc t ≡ some dt)
        × (dt.prev ≡ y)
        × Chain (store_dc y (record dy { next = 0 }) m) q (shorter qs)
  Chain-shorter m q [] c n = (
    c.0.0,
    c.1.0.0,
    c.0.1,
    c.1.0.1,
    c.1.0.2,
    ((record (c.0.0) { next = 0 }, update_self m.dc y _, c.0.2, refl), tt),
  )
  Chain-shorter m q (x ∷ qs) c n =
      let (dy, dt, hy, ht, prev, rest) = Chain-shorter m x qs c.1 n.1 in
      (
        dy,
        dt,
        hy,
        ht,
        prev,
        ((c.0.0, update_ne m.dc y x _ n.0 ∙ c.0.1, c.0.2, c.0.3 ∙ head_of-shorter qs), rest),
      )

  drop_tail-ok :
      (l : LruList) (m : Memory) (dy dt : DcEntry)
      → l.tail ≡ t
      → m.dc y ≡ some dy
      → m.dc t ≡ some dt
      → dt.prev ≡ y
      → remove_tail l m
        ≡ ok (
          t,
          record l { tail = y; cur_size = dec l.cur_size },
          store_dc y (record dy { next = 0 }) m,
        )
  unfolding remove_tail drop_tail write_dc load_dc
  drop_tail-ok l m dy dt e hy ht prev = ground (arith, e, hy, ht, prev)

  -- Of a list of two entries or more remove_tail takes the last, the least recently used, and leaves
  -- the list of the others.
  pub remove_tail-IsList :
      (qs : List ℕ) (l : LruList) (m : Memory)
      → IsList l (qs ++ y ∷ t ∷ []) m
      → (l' : LruList) × (m' : Memory) × (remove_tail l m ≡ ok (t, l', m'))
        × IsList l' (qs ++ y ∷ []) m'
        × (m'.at ≡ m.at)
  remove_tail-IsList qs l m il =
      let (apart, ne) = Apart-shorter qs il.apart in
      let (dy, dt, hy, ht, prev, chain) = Chain-shorter m 0 qs il.chain ne in
      let len : length (full qs) ≡ suc (length (shorter qs)) =
        omega (arith, length-append {0} qs (y ∷ t ∷ []), length-append {0} qs (y ∷ [])) in
      (
        record l { tail = y; cur_size = dec l.cur_size },
        store_dc y (record dy { next = 0 }) m,
        drop_tail-ok l m dy dt (il.tail ∙ last_of-full 0 qs) hy ht prev,
        record {
          head = il.head ∙ head_of-shorter qs;
          tail = sym (last_of-shorter 0 qs);
          size = ap dec (il.size ∙ ap pos len);
          real = All-shorter (λ p. p ≢ 0) qs il.real;
          apart = apart;
          chain = chain;
        },
        refl,
      )

-- A list of a single entry has no predecessor to cut at: remove_tail stops.
pub remove_tail-single :
    (t : ℕ) (l : LruList) (m : Memory)
    → IsList l (t ∷ []) m
    → m.dc 0 ≡ none
    → remove_tail l m ≡ stop undefined
unfolding remove_tail drop_tail write_dc load_dc
remove_tail-single t l m il null =
    let (d, h, prev, next) = il.chain.0 in ground (arith, il.tail, h, prev, null)
