-- ===== src/LruList/Removed.antt =====
-- remove_entry of PRISM/src/LRUList.cpp on the list as the sequence of its entries.
use hkv.Base.{
  ℕ, suc, ◌≡◌, refl, sym, ap, ◌∙◌, ◌≢◌, Option, inl, inr, some, List, ◌∷◌, ◌++◌, pos, dec, eq_ℤ,
  Bool-cases, arith, ok, if◌then◌else◌, All, length, length-append, update_self, update_ne,
}
use hkv.Memory.{
  AtEntry, DcEntry, Memory, load_at, store_at, load_dc, get_tag, put_tagged_ptr, dcache_val,
  valuestorage_val,
}
use hkv.LruList.{LruList, uncache, remove_entry}
use hkv.LruList.Ends.{Chain-frame, IsList}
use hkv.LruList.Sequences.{All-every, All-out, Apart-out}
use hkv.LruList.TakenOut.{take_out, take_out-TakenOut}

-- The table entry of a value that is cached no more.
abbrev pub uncached : AtEntry → AtEntry
uncached a =
    if eq_ℤ (get_tag a.val_addr) (pos dcache_val)
    then record a { val_addr = put_tagged_ptr a.val_addr valuestorage_val }
    else a

-- What remove_entry leaves of the list with `p` in it.
pub record Removed (p : ℕ) (rest : List ℕ) (l l' : LruList) (m m' : Memory) : Type 0 where
  pub list : IsList l' rest m'
  pub same_max : l'.max_size ≡ l.max_size
  pub frame : (q : ℕ) → All (λ x. x ≢ q) rest → m'.dc q ≡ m.dc q
  pub table :
      (d : DcEntry) × (m.dc p ≡ some d)
      × (m'.at d.at_entry ≡ uncached (m.at d.at_entry))
      × ((a : ℕ) → a ≢ d.at_entry → m'.at a ≡ m.at a)

uncache-ok :
    (a : ℕ) (m : Memory)
    → a ≢ 0
    → (m' : Memory) × (uncache a m ≡ ok m')
      × (m'.dc ≡ m.dc)
      × (m'.at a ≡ uncached (m.at a))
      × ((b : ℕ) → b ≢ a → m'.at b ≡ m.at b)
unfolding uncache load_at
uncache-ok a m ne = elim (Bool-cases (eq_ℤ (get_tag (m.at a).val_addr) (pos dcache_val))) [
  | inl e ↦ (
    store_at a (uncached (m.at a)) m,
    ground (arith, ne, e),
    refl,
    update_self m.at a _,
    λ b other. update_ne m.at a b _ (λ q. other (sym q)),
  )
  | inr e ↦ (m, ground (arith, ne, e), refl, rw e refl, λ b other. refl)
]

load_dc-ok : (p : ℕ) (m : Memory) (d : DcEntry) → m.dc p ≡ some d → load_dc p m ≡ ok d
unfolding load_dc
load_dc-ok p m d h = ground (arith, h)

remove_entry-run :
    (p : ℕ) (l l1 : LruList) (m m1 m2 : Memory) (d : DcEntry)
    → take_out p l m ≡ ok (l1, m1)
    → m1.dc p ≡ some d
    → uncache d.at_entry m1 ≡ ok m2
    → remove_entry p l m ≡ ok (record l1 { cur_size = dec l1.cur_size }, m2)
unfolding remove_entry
remove_entry-run p l l1 m m1 m2 d e1 e2 e3 = rw (e1, load_dc-ok p m1 d e2, e3) refl

-- An entry anywhere on the list whose table entry is real is taken off: the call returns, the others
-- keep their order with the links in both directions right, the size shrinks by one, the entries that
-- are not left on the list stay as they were, and the value counts as cached no more.
pub remove_entry-Removed :
    (p : ℕ) (xs ws : List ℕ) (l : LruList) (m : Memory) (d : DcEntry)
    → IsList l (xs ++ p ∷ ws) m
    → m.dc p ≡ some d
    → d.at_entry ≢ 0
    → (l' : LruList) × (m' : Memory) × (remove_entry p l m ≡ ok (l', m'))
      × Removed p (xs ++ ws) l l' m m'
remove_entry-Removed p xs ws l m d il hp ne =
    let (out, apart) = Apart-out xs ws p il.apart in
    let (l1, m1, run, cc) = take_out-TakenOut p xs ws l m il in
    let (m2, u, dcs, here, others) = uncache-ok d.at_entry m1 ne in
    let at_same = λ (a : ℕ). ap (λ (f : ℕ → AtEntry). f a) cc.same_at in
    let dc_same = λ (q : ℕ). ap (λ (f : ℕ → Option DcEntry). f q) dcs in
    let len : length (xs ++ p ∷ ws) ≡ suc (length (xs ++ ws)) =
      omega (arith, length-append xs (p ∷ ws), length-append xs ws) in
    (
      record l1 { cur_size = dec l1.cur_size },
      m2,
      remove_entry-run p l l1 m m1 m2 d run (cc.frame p out ∙ hp) u,
      record {
        list = record {
          head = cc.head;
          tail = cc.tail;
          size = ap dec (cc.size ∙ il.size ∙ ap pos len);
          real = All-out (λ q. q ≢ 0) xs ws p il.real;
          apart = apart;
          chain = Chain-frame m1 m2 0 (xs ++ ws) (All-every _ (xs ++ ws) dc_same) cc.chain;
        };
        same_max = cc.same_max;
        frame = λ q n. dc_same q ∙ cc.frame q n;
        table = (d, hp, here ∙ ap uncached (at_same d.at_entry), λ a n. others a n ∙ at_same a);
      },
    )
