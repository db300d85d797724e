-- ===== src/Prototype/ValueList/Changed.antt =====
-- update and remove of Prototype/src/valuelist.cpp.
use mathlib.Core.List.{append-nil}
use hkv.Base.{
  ℕ, zero, suc, ◌<◌, ◌≤◌, ◌≡◌, refl, sym, ap, subst, ◌∙◌, ◌≢◌, Bool, Option, none, some, List, [],
  ◌∷◌, ◌++◌, ltb, ltb→lt, lt→ltb, ltb-false→le, ◌==◌, if◌then◌else◌, Bool-cases, inl, inr, arith,
  Run, ok, stop, null_pointer, All, All-mono, All-back, length, Apart, update_self, update_ne,
}
use hkv.Prototype.Nodes.{Vnode, max_key, update_vnode, remove_vnode}
use hkv.Prototype.Pool.{Pool, at}
use hkv.Prototype.ValueList.{
  ValueList, get_next, write_node, seek, change, call_node, update_value, remove,
}
use hkv.Prototype.ValueList.Chain.{
  Chain, Chain-frame, IsChain, IsPool, Holds, length-nodes, entry, entries, Starts, Split,
}

-- Where the loop of update and remove ends.
abbrev found : List ℕ → Run ℕ
found [] = stop null_pointer
found (a ∷ as') = ok a

seek_step :
    (fuel key : ℕ) (p : Pool Vnode) (a : ℕ)
    → (p.nodes a).key < key
    → seek (suc fuel) key p (some a) ≡ seek fuel key p (get_next p a)
unfolding seek
seek_step fuel key p a lt = ground (arith, lt)

seek-Split :
    (fuel key : ℕ) (p : Pool Vnode) (a : ℕ) (qs : List ℕ)
    → suc (length qs) < fuel
    → (p.nodes a).key < key
    → Chain p a qs
    → (s : Split key p qs) × (seek fuel key p (some a) ≡ found s.after)
unfolding seek
seek-Split zero key p a qs h lt c = absurd (omega arith)
seek-Split (suc zero) key p a qs h lt c = absurd (omega arith)
seek-Split (suc (suc f)) key p a [] h lt c =
    (record { before = []; after = []; parts = refl; low = tt; high = tt }, ground (arith, lt, c))
seek-Split (suc (suc f)) key p a (q ∷ qs) h lt c = elim (Bool-cases (ltb (p.nodes q).key key)) [
  | inl e ↦
      let (s, run) = seek-Split (suc f) key p q qs (omega arith) (ltb→lt _ _ e) c.1 in
      (
        record {
          before = q ∷ s.before;
          after = s.after;
          parts = ap (λ l. q ∷ l) s.parts;
          low = (ltb→lt _ _ e, s.low);
          high = s.high;
        },
        seek_step (suc f) key p a lt ∙ ap (seek (suc f) key p) c.0 ∙ run,
      )
  | inr e ↦ (
    record { before = []; after = q ∷ qs; parts = refl; low = tt; high = ltb-false→le _ _ e },
    ground (arith, lt, c.0, e),
  )
]

-- What update and remove make of the entries: they look at the first whose key is not below `key`,
-- and there is none where all are below.
abbrev pub behind : ℕ × ℕ → Option (Bool × List (ℕ × ℕ)) → Option (Bool × List (ℕ × ℕ))
behind e none = none
behind e (some (b, es)) = some (b, e ∷ es)

abbrev pub touched : (ℕ × ℕ → ℕ × ℕ) → ℕ → List (ℕ × ℕ) → Option (Bool × List (ℕ × ℕ))
touched f key [] = none
touched f key (e ∷ es) =
    let rest = behind e (touched f key es) in
    if ltb e.0 key then rest else some (e.0 == key, (if e.0 == key then f e else e) ∷ es)

-- A run that gives back a list with these entries, or goes through a null pointer for want of any.
abbrev pub Gives : Option (Bool × List (ℕ × ℕ)) → Run (Bool × ValueList) → Type 0
Gives none r = r ≡ stop null_pointer
Gives (some (b, es)) r = (l' : ValueList) × (r ≡ ok (b, l')) × Holds l' es

-- A method that changes the entry of a node with the key alone, by `f`.
record IsMethod (f : ℕ × ℕ → ℕ × ℕ) (key : ℕ) (method : Vnode → Bool × Vnode) : Type 0 where
  hit : (v : Vnode) → (method v).0 ≡ (v.key == key)
  made : (v : Vnode) → entry (method v).1 ≡ (if v.key == key then f (entry v) else entry v)
  id : (v : Vnode) → (method v).1.id ≡ v.id
  next : (v : Vnode) → (method v).1.next ≡ v.next

update_vnode-IsMethod : (key value : ℕ) → IsMethod (λ e. (e.0, value)) key (update_vnode key value)
unfolding update_vnode
update_vnode-IsMethod key value = record {
  hit = λ v. ground arith;
  made = λ v. ground arith;
  id = λ v. ground arith;
  next = λ v. ground arith;
}

remove_vnode-IsMethod : (key : ℕ) → IsMethod (λ e. (max_key, max_key)) key (remove_vnode key)
unfolding remove_vnode
remove_vnode-IsMethod key = record {
  hit = λ v. ground arith;
  made = λ v. ground arith;
  id = λ v. ground arith;
  next = λ v. ground arith;
}

touched-split :
    (f : ℕ × ℕ → ℕ × ℕ) (key b : ℕ) (p : Pool Vnode) (before after : List ℕ)
    → All (λ a. (p.nodes a).key < key) before
    → key ≤ (p.nodes b).key
    → touched f key (entries p (before ++ b ∷ after))
      ≡ some (
        (p.nodes b).key == key,
        entries p before
            ++ (if (p.nodes b).key == key then f (entry (p.nodes b)) else entry (p.nodes b))
              ∷ entries p after,
      )
touched-split f key b p [] after low high = ground arith
touched-split f key b p (a ∷ before) after low high =
    rw (lt→ltb _ _ low.0, touched-split f key b p before after low.1 high)

touched-none :
    (f : ℕ × ℕ → ℕ × ℕ) (key : ℕ) (p : Pool Vnode) (qs : List ℕ)
    → All (λ a. (p.nodes a).key < key) qs
    → touched f key (entries p qs) ≡ none
touched-none f key p [] low = refl
touched-none f key p (a ∷ qs) low = rw (lt→ltb _ _ low.0, touched-none f key p qs low.1)

entries-else :
    (p p' : Pool Vnode) (b : ℕ) (qs : List ℕ)
    → ((a : ℕ) → a ≢ b → p'.nodes a ≡ p.nodes a)
    → All (λ q. q ≢ b) qs
    → entries p' qs ≡ entries p qs
entries-else p p' b [] same n = refl
entries-else p p' b (q ∷ qs) same n = cc (ap entry (same q n.0), entries-else p p' b qs same n.1)

-- A node written over in place: only the entry of `b` is another.
entries-written :
    (p p' : Pool Vnode) (b : ℕ) (before after : List ℕ)
    → ((a : ℕ) → a ≢ b → p'.nodes a ≡ p.nodes a)
    → Apart (before ++ b ∷ after)
    → entries p' (before ++ b ∷ after) ≡ entries p before ++ entry (p'.nodes b) ∷ entries p after
entries-written p p' b [] after same d =
    ap (λ es. entry (p'.nodes b) ∷ es) (entries-else p p' b after same d.0)
entries-written p p' b (a ∷ before) after same d =
    let ne : a ≢ b = λ e. (All-back _ before (b ∷ after) d.0).0 (sym e) in
    cc (ap entry (same a ne), entries-written p p' b before after same d.1)

module _ (f : ℕ × ℕ → ℕ × ℕ) (key : ℕ) (method : Vnode → Bool × Vnode)
    (m : IsMethod f key method) where
  written : ℕ → Pool Vnode → Pool Vnode
  unfolding write_node
  written b p = write_node b (λ _. (method (p.nodes b)).1) p

  written_self : (b : ℕ) (p : Pool Vnode) → (written b p).nodes b ≡ (method (p.nodes b)).1
  unfolding written
  written_self b p = update_self p.nodes b _

  written-else : (b : ℕ) (p : Pool Vnode) (a : ℕ) → a ≢ b → (written b p).nodes a ≡ p.nodes a
  unfolding written
  written-else b p a n = update_ne p.nodes b a _ (λ e. n (sym e))

  written-id : (b : ℕ) (p : Pool Vnode) (a : ℕ) → ((written b p).nodes a).id ≡ (p.nodes a).id
  unfolding written
  written-id b p a = ground (arith, m.id (p.nodes b))

  written-next : (b : ℕ) (p : Pool Vnode) (a : ℕ) → ((written b p).nodes a).next ≡ (p.nodes a).next
  unfolding written
  written-next b p a = ground (arith, m.next (p.nodes b))

  written-nexts :
      (b : ℕ) (p : Pool Vnode) (qs : List ℕ) → All (λ q. get_next (written b p) q ≡ get_next p q) qs
  unfolding written get_next at
  written-nexts b p [] = tt
  written-nexts b p (q ∷ qs) = (ap (λ n. at n p) (written-next b p q), written-nexts b p qs)

  written-IsChain :
      (b : ℕ) (l : ValueList) (qs : List ℕ)
      → IsChain l qs
      → IsChain (record l { pool = written b l.pool }) qs
  unfolding written
  written-IsChain b l qs c = record {
    chain = Chain-frame l.pool _ l.head qs (written-nexts b l.pool (l.head ∷ qs)) c.chain;
    apart = c.apart;
    taken =
        All-mono (l.head ∷ qs)
          (λ a t. let (i, lt, e, h) = t in (i, lt, written-id b l.pool a ∙ e, h)) c.taken;
  }

  written-IsPool : (b : ℕ) (p : Pool Vnode) → IsPool p → IsPool (written b p)
  unfolding written
  written-IsPool b p v = record {
    numbered = λ i a h. written-id b p a ∙ v.numbered i a h;
    filled = v.filled;
  }

  written-entries :
      (b : ℕ) (p : Pool Vnode) (before after : List ℕ)
      → Apart (before ++ b ∷ after)
      → All (λ a. (p.nodes a).key < key) before
      → key ≤ (p.nodes b).key
      → touched f key (entries p (before ++ b ∷ after))
        ≡ some ((method (p.nodes b)).0, entries (written b p) (before ++ b ∷ after))
  written-entries b p before after d low high = cc (
    touched-split f key b p before after low high,
    entries-written p (written b p) b before after (written-else b p) d,
    ap entry (written_self b p),
    m.hit (p.nodes b),
    m.made (p.nodes b),
  )

  change-found :
      (fuel : ℕ) (l : ValueList) (es : List (ℕ × ℕ)) (before after : List ℕ) (h : Holds l es)
      → h.nodes ≡ before ++ after
      → All (λ a. (l.pool.nodes a).key < key) before
      → Starts key l.pool after
      → seek fuel key l.pool (some l.head) ≡ found after
      → 0 < key
      → Gives (touched f key es) (change fuel key method l)
  unfolding change call_node written
  change-found fuel l es before [] h e low high run pos =
      let none_left =
        ap (touched f key) (sym h.held ∙ ap (entries l.pool) (e ∙ append-nil before))
        ∙ touched-none f key l.pool before low in
      rw none_left (rw run refl)
  change-found fuel l es before (b ∷ after) h e low high run pos =
      let c = subst (IsChain l) e h.chain in
      let made =
        ap (touched f key) (sym h.held ∙ ap (entries l.pool) e)
        ∙ written-entries b l.pool before after c.apart.1 low high in
      let ne : l.head ≢ b = λ s. ground (arith, h.head, ap (λ a. (l.pool.nodes a).key) s) in
      rw made (
        record l { pool = written b l.pool },
        rw run refl,
        record {
          nodes = before ++ b ∷ after;
          pool = written-IsPool b l.pool h.pool;
          chain = written-IsChain b l (before ++ b ∷ after) c;
          held = refl;
          head = ap entry (written-else b l.pool l.head ne) ∙ h.head;
        },
      )

  -- update and remove, for the method of either.
  change-Gives :
      (fuel : ℕ) (l : ValueList) (es : List (ℕ × ℕ))
      → Holds l es
      → suc (length es) < fuel
      → 0 < key
      → Gives (touched f key es) (change fuel key method l)
  change-Gives fuel l es h enough pos =
      let low : (l.pool.nodes l.head).key < key = ground (arith, h.head) in
      let (s, run) =
        seek-Split fuel key l.pool l.head h.nodes (omega (arith, length-nodes l es h)) low
          h.chain.chain in
      change-found fuel l es s.before s.after h s.parts s.low s.high run pos

-- update on a list that holds `es`, on every branch.
pub update_value-Gives :
    (fuel key value : ℕ) (l : ValueList) (es : List (ℕ × ℕ))
    → Holds l es
    → suc (length es) < fuel
    → 0 < key
    → Gives (touched (λ e. (e.0, value)) key es) (update_value fuel key value l)
unfolding update_value
update_value-Gives fuel key value =
    change-Gives (λ e. (e.0, value)) key (update_vnode key value) (update_vnode-IsMethod key value)
      fuel

pub remove-Gives :
    (fuel key : ℕ) (l : ValueList) (es : List (ℕ × ℕ))
    → Holds l es
    → suc (length es) < fuel
    → 0 < key
    → Gives (touched (λ e. (max_key, max_key)) key es) (remove fuel key l)
unfolding remove
remove-Gives fuel key =
    change-Gives (λ e. (max_key, max_key)) key (remove_vnode key) (remove_vnode-IsMethod key) fuel
