-- ===== src/LruList/TakenOut.antt =====
-- An entry of the list in PRISM/src/LRUList.cpp taken out of it, as remove_entry does.
use hkv.Base.{
  ℕ, ◌≡◌, refl, sym, ap, subst, ◌∙◌, ◌≢◌, inl, inr, some, List, [], ◌∷◌, ◌++◌, arith, ok, Run,
  ◌>>=◌, ◌==◌, if◌then◌else◌, All, update_self, update_ne, head_of, last_of,
}
use mathlib.Core.List.{append_assoc}
use hkv.Memory.{DcEntry, Memory, load_dc, store_dc}
use hkv.LruList.{LruList, write_dc, drop_head, drop_tail, bridge}
use hkv.LruList.Ends.{Chain, Chain-frame, IsList, outside-frame}
use hkv.LruList.Sequences.{
  Apart-behind, ends_differ, head_of-All, front-cases, head_of-append, last_of-append, last_of-All,
}
use hkv.LruList.Unlinked.{join_out, join_out-Unlinked}

-- The list after the links are changed, before the size is.
pub record TakenOut (p : ℕ) (rest : List ℕ) (l l1 : LruList) (m m1 : Memory) : Type 0 where
  pub head : l1.head ≡ head_of rest
  pub tail : l1.tail ≡ last_of 0 rest
  pub chain : Chain m1 0 rest
  pub frame : (q : ℕ) → All (λ x. x ≢ q) rest → m1.dc q ≡ m.dc q
  pub size : l1.cur_size ≡ l.cur_size
  pub same_max : l1.max_size ≡ l.max_size
  pub same_at : m1.at ≡ m.at

abbrev pub take_out : ℕ → LruList → Memory → Run (LruList × Memory)
take_out p l m =
    if l.head == l.tail
    then ok (record l { head = 0; tail = 0 }, m)
    else if l.head == p
    then drop_head p l m
    else if l.tail == p
    then drop_tail p l m
    else (do m' ← bridge p m; ok (l, m'))

take_out-single :
    (p : ℕ) (l : LruList) (m : Memory)
    → IsList l (p ∷ []) m
    → take_out p l m ≡ ok (record l { head = 0; tail = 0 }, m)
take_out-single p l m il = ground (arith, il.head, il.tail)

take_out-head :
    (p z : ℕ) (l : LruList) (m : Memory) (dp dz : DcEntry)
    → l.head ≡ p
    → l.tail ≢ p
    → m.dc p ≡ some dp
    → dp.next ≡ z
    → m.dc z ≡ some dz
    → take_out p l m ≡ ok (record l { head = z }, store_dc z (record dz { prev = 0 }) m)
unfolding drop_head write_dc load_dc
take_out-head p z l m dp dz e ne hp next hz = ground (arith, e, ne, hp, next, hz)

take_out-behind :
    (p : ℕ) (l : LruList) (m : Memory)
    → l.head ≢ l.tail
    → l.head ≢ p
    → take_out p l m ≡ join_out p l m
take_out-behind p l m n1 n2 = ground (arith, n1, n2)

take_out-TakenOut_single :
    (p : ℕ) (l : LruList) (m : Memory)
    → IsList l (p ∷ []) m
    → (l1 : LruList) × (m1 : Memory) × (take_out p l m ≡ ok (l1, m1)) × TakenOut p [] l l1 m m1
take_out-TakenOut_single p l m il = (
  record l { head = 0; tail = 0 },
  m,
  take_out-single p l m il,
  record {
    head = refl;
    tail = refl;
    chain = tt;
    frame = λ q out. refl;
    size = refl;
    same_max = refl;
    same_at = refl;
  },
)

take_out-TakenOut_head :
    (p z : ℕ) (zs : List ℕ) (l : LruList) (m : Memory)
    → IsList l (p ∷ z ∷ zs) m
    → (l1 : LruList) × (m1 : Memory) × (take_out p l m ≡ ok (l1, m1))
      × TakenOut p (z ∷ zs) l l1 m m1
take_out-TakenOut_head p z zs l m il =
    let (dp, hp, ep, np) = il.chain.0 in
    let (dz, hz, ez, nz) = il.chain.1.0 in
    let m1 = store_dc z (record dz { prev = 0 }) m in
    let last = last_of-All (λ q. q ≢ p) z zs il.apart.0.0 il.apart.0.1 in
    let keep =
      outside-frame m m1 z z zs (λ q n1 n2. update_ne m.dc z q _ (λ e. n1 (sym e))) il.apart.1.0
        il.apart.1.0 in
    (
      record l { head = z },
      m1,
      take_out-head p z l m dp dz il.head (λ e. last (sym il.tail ∙ e)) hp np hz,
      record {
        head = refl;
        tail = il.tail;
        chain = (
          (record dz { prev = 0 }, update_self m.dc z _, refl, nz),
          Chain-frame m m1 z zs keep il.chain.1.1,
        );
        frame = λ q out. update_ne m.dc z q _ out.0;
        size = refl;
        same_max = refl;
        same_at = refl;
      },
    )

take_out-TakenOut_behind :
    (p y : ℕ) (qs ws : List ℕ) (l : LruList) (m : Memory)
    → IsList l (qs ++ y ∷ p ∷ ws) m
    → (l1 : LruList) × (m1 : Memory) × (take_out p l m ≡ ok (l1, m1))
      × TakenOut p (qs ++ y ∷ ws) l l1 m m1
take_out-TakenOut_behind p y qs ws l m il =
    let (out, apart) = Apart-behind y p ws qs il.apart in
    let (l1, m1, u) = join_out-Unlinked p y qs ws l m il out apart in
    let last = il.tail ∙ last_of-append 0 qs y (p ∷ ws) in
    let n1 : l.head ≢ l.tail = λ e. ends_differ y p ws qs il.apart (sym il.head ∙ e ∙ last) in
    let n2 : l.head ≢ p = λ e.
      head_of-All (λ q. q ≢ p) qs y ws out
        (sym (head_of-append qs y (p ∷ ws) ws) ∙ sym il.head ∙ e) in
    (
      l1,
      m1,
      take_out-behind p l m n1 n2 ∙ u.run,
      record {
        head = u.head;
        tail = u.tail;
        chain = u.chain;
        frame = u.frame;
        size = u.size;
        same_max = u.same_max;
        same_at = u.same_at;
      },
    )

pub take_out-TakenOut :
    (p : ℕ) (xs ws : List ℕ) (l : LruList) (m : Memory)
    → IsList l (xs ++ p ∷ ws) m
    → (l1 : LruList) × (m1 : Memory) × (take_out p l m ≡ ok (l1, m1))
      × TakenOut p (xs ++ ws) l l1 m m1
take_out-TakenOut p xs ws l m il = elim (front-cases xs) [
  | inl none ↦
      subst
        (λ r.
          (l1 : LruList) × (m1 : Memory) × (take_out p l m ≡ ok (l1, m1))
          × TakenOut p (r ++ ws) l l1 m m1)
        (sym none) (at_head ws (subst (λ r. IsList l (r ++ p ∷ ws) m) none il))
  | inr (qs, y, e) ↦
      let il' =
        subst (λ r. IsList l r m) (append_assoc qs (y ∷ []) (p ∷ ws))
          (subst (λ r. IsList l (r ++ p ∷ ws) m) e il) in
      subst
        (λ r.
          (l1 : LruList) × (m1 : Memory) × (take_out p l m ≡ ok (l1, m1)) × TakenOut p r l l1 m m1)
        (sym (append_assoc qs (y ∷ []) ws) ∙ ap (λ r. r ++ ws) (sym e))
        (take_out-TakenOut_behind p y qs ws l m il')
]
  where
    at_head :
        (ws : List ℕ)
        → IsList l (p ∷ ws) m
        → (l1 : LruList) × (m1 : Memory) × (take_out p l m ≡ ok (l1, m1)) × TakenOut p ws l l1 m m1
    at_head [] h = take_out-TakenOut_single p l m h
    at_head (z ∷ zs) h = take_out-TakenOut_head p z zs l m h
