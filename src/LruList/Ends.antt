-- ===== src/LruList/Ends.antt =====
-- The list of PRISM/src/LRUList.cpp as the sequence of its entries, and
-- insert_head.
use hkv.Base.{
  ℕ, ◌≡◌, refl, sym, ap, ◌∙◌, ◌≢◌, some, List, [], ◌∷◌, pos, inc, arith, ok, All, length,
  update_self, head_of, last_of, Apart,
}
use hkv.Memory.{DcEntry, Memory, load_dc, store_dc}
use hkv.LruList.{LruList, write_dc, insert_head}

-- The entries are linked in both directions, behind `q`.
abbrev pub Chain : Memory → ℕ → List ℕ → Type 0
Chain m q [] = Unit {0}
Chain m q (p ∷ ps) =
    ((d : DcEntry) × (m.dc p ≡ some d) × (d.prev ≡ q) × (d.next ≡ head_of ps)) × Chain m p ps

-- The list holds the entries `ps`, the most recently used first.
pub record IsList (l : LruList) (ps : List ℕ) (m : Memory) : Type 0 where
  pub head : l.head ≡ head_of ps
  pub tail : l.tail ≡ last_of 0 ps
  pub size : l.cur_size ≡ pos (length ps)
  pub real : All (λ p. p ≢ 0) ps
  pub apart : Apart ps
  pub chain : Chain m 0 ps

pub Chain-frame :
    (m m' : Memory) (q : ℕ) (ps : List ℕ)
    → All (λ p. m'.dc p ≡ m.dc p) ps
    → Chain m q ps
    → Chain m' q ps
Chain-frame m m' q [] h c = tt
Chain-frame m m' q (p ∷ ps) h c =
    ((c.0.0, h.0 ∙ c.0.1, c.0.2, c.0.3), Chain-frame m m' p ps h.1 c.1)

write_dc-ok :
    (p : ℕ) (f : DcEntry → DcEntry) (m : Memory) (d : DcEntry)
    → m.dc p ≡ some d
    → write_dc p f m ≡ ok (store_dc p (f d) m)
unfolding write_dc load_dc
write_dc-ok p f m d h = ground (arith, h)

-- What insert_head makes of a list with nothing in it.
insert_head-empty :
    (p : ℕ) (l : LruList) (m : Memory) (d : DcEntry)
    → l.head ≡ 0
    → m.dc p ≡ some d
    → (m' : Memory) × (insert_head p l m
        ≡ ok (record l { head = p; tail = p; cur_size = inc l.cur_size }, m'))
      × (m'.dc p ≡ some (record d { prev = 0; next = 0; list_type = l.list_type }))
      × ((q : ℕ) → q ≢ p → m'.dc q ≡ m.dc q)
      × (m'.at ≡ m.at)
unfolding insert_head write_dc load_dc
insert_head-empty p l m d e h = (
  store_dc p (record d { prev = 0; next = 0; list_type = l.list_type })
      (store_dc p (record d { prev = 0; next = 0 }) m),
  ground (arith, e, h, update_self m.dc p (some (record d { prev = 0; next = 0 }))),
  ground arith,
  λ q ne. ground arith,
  refl,
)

-- What it makes of a list with `x` at its head.
insert_head-before :
    (p x : ℕ) (l : LruList) (m : Memory) (d h : DcEntry)
    → l.head ≡ x
    → x ≢ 0
    → p ≢ x
    → m.dc p ≡ some d
    → m.dc x ≡ some h
    → (m' : Memory) × (insert_head p l m
        ≡ ok (record l { head = p; cur_size = inc l.cur_size }, m'))
      × (m'.dc p ≡ some (record d { prev = 0; next = x; list_type = l.list_type }))
      × (m'.dc x ≡ some (record h { prev = p }))
      × ((q : ℕ) → q ≢ p → q ≢ x → m'.dc q ≡ m.dc q)
      × (m'.at ≡ m.at)
unfolding insert_head write_dc load_dc
insert_head-before p x l m d h e xne ne hp hx =
    let m1 = store_dc x (record h { prev = p }) m in
    let d1 : m1.dc p ≡ some d = ground (arith, hp) in
    (
      store_dc p (record d { prev = 0; next = x; list_type = l.list_type })
          (store_dc p (record d { prev = 0; next = x }) m1),
      ground
          (arith, e, xne, hp, hx, d1, update_self m1.dc p (some (record d { prev = 0; next = x }))),
      ground arith,
      ground arith,
      λ q n1 n2. ground arith,
      refl,
    )

pub outside-frame :
    (m m' : Memory) (p x : ℕ) (ps : List ℕ)
    → ((q : ℕ) → q ≢ p → q ≢ x → m'.dc q ≡ m.dc q)
    → All (λ q. q ≢ p) ps
    → All (λ q. q ≢ x) ps
    → All (λ q. m'.dc q ≡ m.dc q) ps
outside-frame m m' p x [] f n1 n2 = tt
outside-frame m m' p x (q ∷ ps) f n1 n2 = (f q n1.0 n2.0, outside-frame m m' p x ps f n1.1 n2.1)

-- The theorem below, with the entries that are neither `p` nor on the list.
pub insert_head-Framed :
    (p : ℕ) (ps : List ℕ) (l : LruList) (m : Memory) (d : DcEntry)
    → IsList l ps m
    → p ≢ 0
    → All (λ q. q ≢ p) ps
    → m.dc p ≡ some d
    → (l' : LruList) × (m' : Memory) × (insert_head p l m ≡ ok (l', m'))
      × IsList l' (p ∷ ps) m'
      × (m'.dc p ≡ some (record d { prev = 0; next = head_of ps; list_type = l.list_type }))
      × (m'.at ≡ m.at)
      × (l'.max_size ≡ l.max_size)
      × ((q : ℕ) → q ≢ p → All (λ x. x ≢ q) ps → m'.dc q ≡ m.dc q)
insert_head-Framed p [] l m d il ne out hp =
    let (m', run, self, else_same, ats) = insert_head-empty p l m d il.head hp in
    (
      record l { head = p; tail = p; cur_size = inc l.cur_size },
      m',
      run,
      record {
        head = refl;
        tail = refl;
        size = ap inc il.size;
        real = (ne, tt);
        apart = (tt, tt);
        chain = ((_, self, refl, refl), tt);
      },
      self,
      ats,
      refl,
      λ q n _. else_same q n,
    )
insert_head-Framed p (x ∷ ps) l m d il ne out hp =
    let (c, rest) = il.chain in
    let (m', run, self, other, else_same, ats) =
      insert_head-before p x l m d c.0 il.head il.real.0 (λ e. out.0 (sym e)) hp c.1 in
    (
      record l { head = p; cur_size = inc l.cur_size },
      m',
      run,
      record {
        head = refl;
        tail = il.tail;
        size = ap inc il.size ∙ ap pos (omega arith);
        real = (ne, il.real);
        apart = (out, il.apart);
        chain = (
          (_, self, refl, refl),
          (
            (_, other, refl, c.3),
            Chain-frame m m' x ps (outside-frame m m' p x ps else_same out.1 il.apart.0) rest,
          ),
        );
      },
      self,
      ats,
      refl,
      λ q n h. else_same q n (λ e. h.0 (sym e)),
    )

-- An allocated entry that is not on the list goes to its front: the two-way links stay right, the
-- size grows by one, its maximum and the address table stay.
pub insert_head-IsList :
    (p : ℕ) (ps : List ℕ) (l : LruList) (m : Memory) (d : DcEntry)
    → IsList l ps m
    → p ≢ 0
    → All (λ q. q ≢ p) ps
    → m.dc p ≡ some d
    → (l' : LruList) × (m' : Memory) × (insert_head p l m ≡ ok (l', m'))
      × IsList l' (p ∷ ps) m'
      × (m'.dc p ≡ some (record d { prev = 0; next = head_of ps; list_type = l.list_type }))
      × (m'.at ≡ m.at)
      × (l'.max_size ≡ l.max_size)
insert_head-IsList p ps l m d il ne out hp =
    let (l', m', run, list, self, ats, max, _) = insert_head-Framed p ps l m d il ne out hp in
    (l', m', run, list, self, ats, max)
