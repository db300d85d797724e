-- ===== src/Prototype/ValueList/Found.antt =====
-- lookup of Prototype/src/valuelist.cpp.
use hkv.Base.{
  ℕ, zero, suc, ◌<◌, ◌≤◌, ◌≡◌, refl, sym, ap, ◌∙◌, ◌≢◌, ℤ, negsuc, true, List, [], ◌∷◌, leb, ◌==◌,
  if◌then◌else◌, Bool-cases, inl, inr, arith, ok, All, length,
}
use hkv.Base.Sort.{insert_by, length-insert_by}
use hkv.Prototype.Nodes.{Vnode, to_int}
use hkv.Prototype.Pool.{Pool}
use hkv.Prototype.ValueList.{ValueList, last_upto, insert, lookup}
use hkv.Prototype.ValueList.Chain.{Chain, Holds, length-nodes, entry, entries}
use hkv.Prototype.ValueList.Inserted.{insert-Holds}

-- The last entry of `e ∷ es` before one with a key above `key`.
abbrev pub entry_upto : ℕ → ℕ × ℕ → List (ℕ × ℕ) → ℕ × ℕ
entry_upto key e [] = e
entry_upto key e (x ∷ xs) = if leb x.0 key then entry_upto key x xs else e

-- What lookup reads in that entry.
abbrev pub value_of : ℕ → ℕ × ℕ → ℤ
value_of key e = if e.0 == key then to_int e.1 else negsuc 0

-- The value of a key in a list of entries behind the head (0, 0).
abbrev pub value_in : ℕ → List (ℕ × ℕ) → ℤ
value_in key es = value_of key (entry_upto key (0, 0) es)

last_upto-entry :
    (fuel key : ℕ) (p : Pool Vnode) (a : ℕ) (qs : List ℕ)
    → length qs < fuel
    → Chain p a qs
    → (b : ℕ) × (last_upto fuel key p a ≡ ok b)
      × (entry (p.nodes b) ≡ entry_upto key (entry (p.nodes a)) (entries p qs))
unfolding last_upto
last_upto-entry zero key p a qs h c = absurd (omega arith)
last_upto-entry (suc fuel) key p a [] h c = (a, rw (c, last_upto), refl)
last_upto-entry (suc fuel) key p a (q ∷ qs) h c = elim (Bool-cases (leb (p.nodes q).key key)) [
  | inl e ↦
      let (b, run, is) = last_upto-entry fuel key p q qs (omega arith) c.1 in
      (b, rw (c.0, last_upto) (rw e run), rw e is)
  | inr e ↦ (a, rw (c.0, last_upto) (rw e), rw e)
]

-- lookup is value_in of the entries that the list holds.
pub lookup-eq-value_in :
    (fuel key : ℕ) (l : ValueList) (es : List (ℕ × ℕ))
    → Holds l es
    → length es < fuel
    → lookup fuel key l ≡ ok (value_in key es)
unfolding lookup
lookup-eq-value_in fuel key l es h enough =
    let (b, run, is) =
      last_upto-entry fuel key l.pool l.head h.nodes (omega (arith, length-nodes l es h))
        h.chain.chain in
    ground (arith, run, is, h.head, h.held)

entry_upto-inserted :
    (key value : ℕ) (e : ℕ × ℕ) (es : List (ℕ × ℕ))
    → All (λ x. x.0 ≢ key) es
    → entry_upto key e (insert_by (λ x. x.0) (key, value) es) ≡ (key, value)
unfolding insert_by
entry_upto-inserted key value e [] h = ground arith
entry_upto-inserted key value e (x ∷ es) h =
    ground (arith, h.0, entry_upto-inserted key value x es h.1)

value_of-inserted :
    (key value j : ℕ) (e : ℕ × ℕ) (es : List (ℕ × ℕ))
    → e.0 ≤ key
    → j ≢ key
    → value_of j (entry_upto j e (insert_by (λ x. x.0) (key, value) es))
      ≡ value_of j (entry_upto j e es)
unfolding insert_by
value_of-inserted key value j e [] le n = ground arith
value_of-inserted key value j e (x ∷ es) le n = ground (arith, value_of-inserted key value j x es)

-- insert, then lookup.
pub insert-lookup_value :
    (fuel key value j : ℕ) (l : ValueList) (es : List (ℕ × ℕ))
    → Holds l es
    → suc (length es) < fuel
    → l.pool.current_idx < l.pool.num_nodes
    → All (λ x. x.0 ≢ key) es
    → j ≢ key
    → (l' : ValueList) × (insert fuel key value l ≡ ok (true, l'))
      × (lookup fuel key l' ≡ ok (to_int value))
      × (lookup fuel j l' ≡ lookup fuel j l)
insert-lookup_value fuel key value j l es h enough room absent ne =
    let (l', run, h', _, _) = insert-Holds fuel key value l es h (omega arith) room in
    let es' = insert_by (λ (x : ℕ × ℕ). x.0) (key, value) es in
    let len : length es' < fuel =
      omega (arith, length-insert_by (λ (x : ℕ × ℕ). x.0) (key, value) es) in
    (
      l',
      run,
      lookup-eq-value_in fuel key l' es' h' len
          ∙ ap ok
              (ap (value_of key) (entry_upto-inserted key value (0, 0) es absent) ∙ ground arith),
      lookup-eq-value_in fuel j l' es' h' len
          ∙ ap ok (value_of-inserted key value j (0, 0) es (omega arith) ne)
          ∙ sym (lookup-eq-value_in fuel j l es h (omega arith)),
    )
