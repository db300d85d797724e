-- ===== src/LruList/Unlinked.antt =====
-- An entry of the list in PRISM/src/LRUList.cpp joined out of it: its neighbours, or its predecessor
-- alone where it is the tail, as move_to_head leaves them.
use hkv.Base.{
  ℕ, ◌≡◌, refl, sym, ◌∙◌, ◌≢◌, some, List, [], ◌∷◌, ◌++◌, arith, ok, Run, ◌>>=◌, ◌==◌,
  if◌then◌else◌, All-back, All, All-mono, update_self, update_ne, head_of, last_of, Apart,
}
use hkv.Memory.{DcEntry, Memory, load_dc, store_dc}
use hkv.LruList.{LruList, write_dc, drop_tail, bridge}
use hkv.LruList.Sequences.{All-at, Apart-parts, last_of-append, last_of-All}
use hkv.LruList.Tail.{head_of-shorter, last_of-shorter, Chain-shorter}
use hkv.LruList.Ends.{Chain, Chain-frame, IsList}

frame_two :
    (m : Memory) (y z : ℕ) (dy dz : DcEntry) (zs : List ℕ)
    → All (λ w. w ≢ y) zs
    → All (λ w. w ≢ z) zs
    → All (λ w. (store_dc z dz (store_dc y dy m)).dc w ≡ m.dc w) zs
frame_two m y z dy dz [] h1 h2 = tt
frame_two m y z dy dz (w ∷ zs) h1 h2 = (
  update_ne (store_dc y dy m).dc z w _ (λ e. h2.0 (sym e))
      ∙ update_ne m.dc y w _ (λ e. h1.0 (sym e)),
  frame_two m y z dy dz zs h1.1 h2.1,
)

-- Where `p` is between `y` and `z`.
module _ (y p z : ℕ) (zs : List ℕ) where
  pub head_of-between : (qs : List ℕ) → head_of (qs ++ y ∷ p ∷ z ∷ zs) ≡ head_of (qs ++ y ∷ z ∷ zs)
  head_of-between [] = refl
  head_of-between (x ∷ qs) = refl

  pub Chain-between :
      (m : Memory) (q : ℕ) (qs : List ℕ)
      → Chain m q (qs ++ y ∷ p ∷ z ∷ zs)
      → All (λ x. All (λ w. w ≢ x) (y ∷ z ∷ zs)) qs
      → Apart (y ∷ z ∷ zs)
      → (dy : DcEntry) × (dp : DcEntry) × (dz : DcEntry) × (m.dc y ≡ some dy)
        × (m.dc p ≡ some dp)
        × (m.dc z ≡ some dz)
        × (dp.prev ≡ y)
        × (dp.next ≡ z)
        × Chain
            (store_dc z (record dz { prev = y }) (store_dc y (record dy { next = z }) m))
            q
            (qs ++ y ∷ z ∷ zs)
  Chain-between m q [] c n a =
      let (dy, hy, ey, _) = c.0 in
      let (dp, hp, ep, np) = c.1.0 in
      let (dz, hz, ez, nz) = c.1.1.0 in
      let m1 = store_dc y (record dy { next = z }) m in
      let m2 = store_dc z (record dz { prev = y }) m1 in
      (
        dy,
        dp,
        dz,
        hy,
        hp,
        hz,
        ep,
        np,
        (
          (record dy { next = z }, update_ne m1.dc z y _ a.0.0 ∙ update_self m.dc y _, ey, refl),
          (
            (record dz { prev = y }, update_self m1.dc z _, refl, nz),
            Chain-frame m m2 z zs (frame_two m y z _ _ zs a.0.1 a.1.0) c.1.1.1,
          ),
        ),
      )
  Chain-between m q (x ∷ qs) c n a =
      let (dy, dp, dz, hy, hp, hz, ep, np, rest) = Chain-between m x qs c.1 n.1 a in
      let (d, h, e, nx) = c.0 in
      let m1 = store_dc y (record dy { next = z }) m in
      (
        dy,
        dp,
        dz,
        hy,
        hp,
        hz,
        ep,
        np,
        (
          (
            d,
            update_ne m1.dc z x _ n.0.1.0 ∙ update_ne m.dc y x _ n.0.0 ∙ h,
            e,
            nx ∙ head_of-between qs,
          ),
          rest,
        ),
      )

-- The first half of move_to_head.
abbrev pub join_out : ℕ → LruList → Memory → Run (LruList × Memory)
join_out p l m = if p == l.tail then drop_tail p l m else (do m' ← bridge p m; ok (l, m'))

-- What it leaves: the list without `p`, whose entry is still allocated.
pub record Unlinked (p : ℕ) (rest : List ℕ) (l l1 : LruList) (m m1 : Memory) : Type 0 where
  pub run : join_out p l m ≡ ok (l1, m1)
  pub head : l1.head ≡ head_of rest
  pub tail : l1.tail ≡ last_of 0 rest
  pub chain : Chain m1 0 rest
  pub self : (d : DcEntry) × (m1.dc p ≡ some d)
  pub frame : (q : ℕ) → All (λ x. x ≢ q) rest → m1.dc q ≡ m.dc q
  pub size : l1.cur_size ≡ l.cur_size
  pub same_max : l1.max_size ≡ l.max_size
  pub same_at : m1.at ≡ m.at

join_out-tail :
    (p y : ℕ) (l : LruList) (m : Memory) (dy dp : DcEntry)
    → l.tail ≡ p
    → m.dc y ≡ some dy
    → m.dc p ≡ some dp
    → dp.prev ≡ y
    → join_out p l m ≡ ok (record l { tail = y }, store_dc y (record dy { next = 0 }) m)
unfolding drop_tail write_dc load_dc
join_out-tail p y l m dy dp e hy hp prev = ground (arith, e, hy, hp, prev)

bridge-ok :
    (p y z : ℕ) (m : Memory) (dy dp dz : DcEntry)
    → p ≢ y
    → z ≢ y
    → m.dc y ≡ some dy
    → m.dc p ≡ some dp
    → m.dc z ≡ some dz
    → dp.prev ≡ y
    → dp.next ≡ z
    → bridge p m ≡ ok (store_dc z (record dz { prev = y }) (store_dc y (record dy { next = z }) m))
unfolding bridge write_dc load_dc
bridge-ok p y z m dy dp dz n1 n2 hy hp hz prev next =
    let m1 = store_dc y (record dy { next = z }) m in
    let p1 : m1.dc p ≡ some dp = update_ne m.dc y p _ (λ e. n1 (sym e)) ∙ hp in
    let z1 : m1.dc z ≡ some dz = update_ne m.dc y z _ (λ e. n2 (sym e)) ∙ hz in
    ground (arith, hp, prev, hy, next, p1, z1)

join_out-between :
    (p : ℕ) (l : LruList) (m m' : Memory)
    → p ≢ l.tail
    → bridge p m ≡ ok m'
    → join_out p l m ≡ ok (l, m')
join_out-between p l m m' ne run = ground (arith, ne, run)

-- An entry with another before it is joined out.
pub join_out-Unlinked :
    (p y : ℕ) (qs ws : List ℕ) (l : LruList) (m : Memory)
    → IsList l (qs ++ y ∷ p ∷ ws) m
    → All (λ q. q ≢ p) (qs ++ y ∷ ws)
    → Apart (qs ++ y ∷ ws)
    → (l1 : LruList) × (m1 : Memory) × Unlinked p (qs ++ y ∷ ws) l l1 m m1
join_out-Unlinked p y qs [] l m il out a =
    let n = All-mono qs (λ x (h : All (λ w. w ≢ x) (y ∷ [])). h.0) (Apart-parts qs (y ∷ []) a).0 in
    let (dy, dp, hy, hp, prev, chain) = Chain-shorter y p m 0 qs il.chain n in
    let ne : y ≢ p = All-at (λ q. q ≢ p) qs [] y out in
    (
      record l { tail = y },
      store_dc y (record dy { next = 0 }) m,
      record {
        run = join_out-tail p y l m dy dp (il.tail ∙ last_of-append 0 qs y (p ∷ [])) hy hp prev;
        head = il.head ∙ head_of-shorter y p qs;
        tail = sym (last_of-shorter y p 0 qs);
        chain = chain;
        self = (dp, update_ne m.dc y p _ ne ∙ hp);
        frame = λ q out. update_ne m.dc y q _ (All-at (λ x. x ≢ q) qs [] y out);
        same_max = refl;
        size = refl;
        same_at = refl;
      },
    )
join_out-Unlinked p y qs (z ∷ zs) l m il out a =
    let parts = Apart-parts qs (y ∷ z ∷ zs) a in
    let (dy, dp, dz, hy, hp, hz, prev, next, chain) =
      Chain-between y p z zs m 0 qs il.chain parts.0 parts.1 in
    let here = All-back (λ q. q ≢ p) qs (y ∷ z ∷ zs) out in
    let m1 = store_dc y (record dy { next = z }) m in
    let last : l.tail ≡ last_of z zs = il.tail ∙ last_of-append 0 qs y (p ∷ z ∷ zs) in
    let ne : last_of z zs ≢ p = last_of-All (λ q. q ≢ p) z zs here.1.0 here.1.1 in
    (
      l,
      store_dc z (record dz { prev = y }) m1,
      record {
        run =
            join_out-between p l m _ (λ e. ne (sym last ∙ sym e))
              (bridge-ok p y z m dy dp dz (λ e. here.0 (sym e)) parts.1.0.0 hy hp hz prev next);
        head = il.head ∙ head_of-between y p z zs qs;
        tail = last ∙ sym (last_of-append 0 qs y (z ∷ zs));
        chain = chain;
        self = (dp, update_ne m1.dc z p _ here.1.0 ∙ update_ne m.dc y p _ here.0 ∙ hp);
        frame = λ q out.
            let at = All-back (λ x. x ≢ q) qs (y ∷ z ∷ zs) out in
            update_ne m1.dc z q _ at.1.0 ∙ update_ne m.dc y q _ at.0;
        same_max = refl;
        size = refl;
        same_at = refl;
      },
    )
