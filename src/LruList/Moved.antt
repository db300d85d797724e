-- ===== src/LruList/Moved.antt =====
-- move_to_head of PRISM/src/LRUList.cpp on the list as the sequence of its entries.
use hkv.Base.{
  ℕ, suc, ◌≡◌, refl, sym, ap, subst, ◌∙◌, ◌≢◌, inl, inr, some, List, [], ◌∷◌, ◌++◌, pos, arith, ok,
  All, length, update_self, update_ne, head_of, Apart,
}
use mathlib.Core.List.{append_assoc}
use hkv.Memory.{DcEntry, Memory, load_dc, store_dc}
use hkv.LruList.{LruList, write_dc, move_to_head}
use hkv.LruList.Ends.{Chain-frame, IsList, outside-frame}
use hkv.LruList.Sequences.{
  Apart-behind, All-behind, front-cases, uncons, head_of-append, length-out,
}
use hkv.LruList.Unlinked.{join_out, Unlinked, join_out-Unlinked}

-- The second half: `p` goes before the head `h` of what is left.
move_to_head-run :
    (p h : ℕ) (l l1 : LruList) (m m1 : Memory) (d dh : DcEntry)
    → p ≢ l.head
    → p ≢ h
    → join_out p l m ≡ ok (l1, m1)
    → l1.head ≡ h
    → m1.dc p ≡ some d
    → m1.dc h ≡ some dh
    → (m' : Memory) × (move_to_head p l m ≡ ok (record l1 { head = p }, m'))
      × (m'.dc p ≡ some (record d { prev = 0; next = h }))
      × (m'.dc h ≡ some (record dh { prev = p }))
      × ((q : ℕ) → q ≢ p → q ≢ h → m'.dc q ≡ m1.dc q)
      × (m'.at ≡ m1.at)
unfolding move_to_head write_dc load_dc
move_to_head-run p h l l1 m m1 d dh n1 n2 run e hp hh =
    let m2 = store_dc p (record d { next = h }) m1 in
    let m3 = store_dc h (record dh { prev = p }) m2 in
    let h2 : m2.dc h ≡ some dh = update_ne m1.dc p h _ n2 ∙ hh in
    let p3 : m3.dc p ≡ some (record d { next = h }) =
      update_ne m2.dc h p _ (λ x. n2 (sym x)) ∙ update_self m1.dc p _ in
    (
      store_dc p (record d { prev = 0; next = h }) m3,
      ground (arith, n1, run, e, hp, h2, p3),
      ground arith,
      ground arith,
      λ q o1 o2. ground arith,
      refl,
    )

to_front :
    (p h : ℕ) (rest : List ℕ) (l l1 : LruList) (m m1 : Memory)
    → Unlinked p (h ∷ rest) l l1 m m1
    → p ≢ l.head
    → p ≢ 0
    → All (λ q. q ≢ 0) (h ∷ rest)
    → All (λ q. q ≢ p) (h ∷ rest)
    → Apart (h ∷ rest)
    → l.cur_size ≡ pos (length (p ∷ h ∷ rest))
    → (l' : LruList) × (m' : Memory) × (move_to_head p l m ≡ ok (l', m'))
      × IsList l' (p ∷ h ∷ rest) m'
      × (m'.at ≡ m.at)
to_front p h rest l l1 m m1 u n0 real reals out a size =
    let (d, hd) = u.self in
    let (c, chain) = u.chain in
    let (m', run, self, other, else_same, ats) =
      move_to_head-run p h l l1 m m1 d c.0 n0 (λ e. out.0 (sym e)) u.run u.head hd c.1 in
    (
      record l1 { head = p },
      m',
      run,
      record {
        head = refl;
        tail = u.tail;
        size = u.size ∙ size;
        real = (real, reals);
        apart = (out, a);
        chain = (
          (_, self, refl, refl),
          (
            (_, other, refl, c.3),
            Chain-frame m1 m' h rest (outside-frame m1 m' p h rest else_same out.1 a.0) chain,
          ),
        );
      },
      ats ∙ u.same_at,
    )

move_to_head-at : (p : ℕ) (l : LruList) (m : Memory) → l.head ≡ p → move_to_head p l m ≡ ok (l, m)
unfolding move_to_head
move_to_head-at p l m e = ground (arith, e)

move_to_head-behind :
    (p y : ℕ) (qs ws : List ℕ) (l : LruList) (m : Memory)
    → IsList l (qs ++ y ∷ p ∷ ws) m
    → (l' : LruList) × (m' : Memory) × (move_to_head p l m ≡ ok (l', m'))
      × IsList l' (p ∷ qs ++ y ∷ ws) m'
      × (m'.at ≡ m.at)
move_to_head-behind p y qs ws l m il =
    let (out, apart) = Apart-behind y p ws qs il.apart in
    let reals = All-behind y p ws (λ q. q ≢ 0) qs il.real in
    let (l1, m1, u) = join_out-Unlinked p y qs ws l m il out apart in
    let (h, rest, e) = uncons qs y ws in
    let at_head : l.head ≡ h = il.head ∙ head_of-append qs y (p ∷ ws) ws ∙ ap head_of e in
    let out2 = subst (All (λ q. q ≢ p)) e out in
    subst
      (λ r.
        (l' : LruList) × (m' : Memory) × (move_to_head p l m ≡ ok (l', m'))
        × IsList l' (p ∷ r) m'
        × (m'.at ≡ m.at))
      (sym e)
      (to_front p h rest l l1 m m1 (subst (λ r. Unlinked p r l l1 m m1) e u)
        (λ x. out2.0 (sym (x ∙ at_head))) reals.1 (subst (All (λ q. q ≢ 0)) e reals.0) out2
        (subst Apart e apart)
        (il.size ∙ ap pos (length-out qs y p ws ∙ ap (λ r. suc (length r)) e)))

-- An entry of the list, at its head, at its tail or between others, goes to the front: the call
-- returns, the others keep their order, the links in both directions stay right, and the address
-- table stays.
pub move_to_head-IsList :
    (p : ℕ) (xs ws : List ℕ) (l : LruList) (m : Memory)
    → IsList l (xs ++ p ∷ ws) m
    → (l' : LruList) × (m' : Memory) × (move_to_head p l m ≡ ok (l', m'))
      × IsList l' (p ∷ xs ++ ws) m'
      × (m'.at ≡ m.at)
move_to_head-IsList p xs ws l m il = elim (front-cases xs) [
  | inl none ↦
      let il' = subst (λ r. IsList l (r ++ p ∷ ws) m) none il in
      (
        l,
        m,
        move_to_head-at p l m il'.head,
        subst (λ r. IsList l (p ∷ r ++ ws) m) (sym none) il',
        refl,
      )
  | inr (qs, y, e) ↦
      let here = append_assoc qs (y ∷ []) ws in
      let whole = append_assoc qs (y ∷ []) (p ∷ ws) in
      let il' = subst (λ r. IsList l r m) whole (subst (λ r. IsList l (r ++ p ∷ ws) m) e il) in
      subst
        (λ r.
          (l' : LruList) × (m' : Memory) × (move_to_head p l m ≡ ok (l', m'))
          × IsList l' (p ∷ r) m'
          × (m'.at ≡ m.at))
        (sym here ∙ ap (λ r. r ++ ws) (sym e)) (move_to_head-behind p y qs ws l m il')
]
