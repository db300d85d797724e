-- ===== src/Prototype/ValueList/Chain.antt =====
-- The value list of Prototype/src/valuelist.cpp as the sequence of its nodes.
use hkv.Base.{
  ℕ, zero, suc, ◌<◌, ◌≤◌, ◌≡◌, refl, sym, ap, ◌∙◌, ◌≢◌, none, some, List, [], ◌∷◌, ◌++◌, map, pos,
  ltb, ltb→lt, ltb-false→le, Bool-cases, inl, inr, arith, ok, All, length, length-map, get_elem?,
  last_of, Apart, All-front,
}
use hkv.Prototype.Nodes.{Vnode}
use hkv.Prototype.Pool.{Pool, at}
use hkv.Prototype.ValueList.{ValueList, get_next, last_below, link_after, set_next}

-- From node `a` the nodes `qs` follow, and then nothing.
abbrev pub Chain : Pool Vnode → ℕ → List ℕ → Type 0
Chain p a [] = get_next p a ≡ none
Chain p a (q ∷ qs) = (get_next p a ≡ some q) × Chain p q qs

-- A node that the pool has handed out: it stands in the vector at its number.
abbrev pub Taken : Pool Vnode → ℕ → Type 0
Taken p a = (i : ℕ) × (i < p.current_idx) × ((p.nodes a).id ≡ pos i) × (get_elem? p.vec i ≡ some a)

-- The list consists of the nodes `head ∷ qs`, all handed out and none twice.
pub record IsChain (l : ValueList) (qs : List ℕ) : Type 0 where
  pub chain : Chain l.pool l.head qs
  pub apart : Apart (l.head ∷ qs)
  pub taken : All (Taken l.pool) (l.head ∷ qs)

-- Every node of the vector knows its number, and there are as many as num_nodes says.
pub record IsPool (p : Pool Vnode) : Type 0 where
  pub numbered : (i a : ℕ) → get_elem? p.vec i ≡ some a → (p.nodes a).id ≡ pos i
  pub filled : p.num_nodes ≤ length p.vec

-- The keys with their values, in the order of the list.
abbrev pub entry : Vnode → ℕ × ℕ
entry v = (v.key, v.value)

abbrev pub entries : Pool Vnode → List ℕ → List (ℕ × ℕ)
entries p qs = map (λ a. entry (p.nodes a)) qs

-- The list holds the entries `es`, behind a head with the entry (0, 0).
pub record Holds (l : ValueList) (es : List (ℕ × ℕ)) : Type 0 where
  pub nodes : List ℕ
  pub pool : IsPool l.pool
  pub chain : IsChain l nodes
  pub held : entries l.pool nodes ≡ es
  pub head : entry (l.pool.nodes l.head) ≡ (0, 0)

pub length-nodes : (l : ValueList) (es : List (ℕ × ℕ)) (h : Holds l es) → length h.nodes ≡ length es
length-nodes l es h = sym (length-map h.nodes _) ∙ ap length h.held

-- The first of these nodes, if there is one, has a key of at least `key`.
abbrev pub Starts : ℕ → Pool Vnode → List ℕ → Type 0
Starts key p [] = Unit {0}
Starts key p (a ∷ as') = key ≤ (p.nodes a).key

-- The loop of insert stops between the keys below `key` and the first that is not below it.
pub record Split (key : ℕ) (p : Pool Vnode) (qs : List ℕ) : Type 0 where
  pub before : List ℕ
  pub after : List ℕ
  pub parts : qs ≡ before ++ after
  pub low : All (λ a. (p.nodes a).key < key) before
  pub high : Starts key p after

pub last_below-Split :
    (fuel key : ℕ) (p : Pool Vnode) (a : ℕ) (qs : List ℕ)
    → length qs < fuel
    → Chain p a qs
    → (s : Split key p qs) × (last_below fuel key p a ≡ ok (last_of a s.before))
unfolding last_below
last_below-Split zero key p a qs h c = absurd (omega arith)
last_below-Split (suc fuel) key p a [] h c =
    (record { before = []; after = []; parts = refl; low = tt; high = tt }, rw (c, last_below))
last_below-Split (suc fuel) key p a (q ∷ qs) h c = elim (Bool-cases (ltb (p.nodes q).key key)) [
  | inl e ↦
      let (s, run) = last_below-Split fuel key p q qs (omega arith) c.1 in
      (
        record {
          before = q ∷ s.before;
          after = s.after;
          parts = ap (λ l. q ∷ l) s.parts;
          low = (ltb→lt _ _ e, s.low);
          high = s.high;
        },
        rw (c.0, last_below) (rw e run),
      )
  | inr e ↦ (
    record { before = []; after = q ∷ qs; parts = refl; low = tt; high = ltb-false→le _ _ e },
    rw (c.0, last_below) (rw e),
  )
]

-- The same nodes follow `a` where all of them have the successors that they had.
pub Chain-frame :
    (p p' : Pool Vnode) (a : ℕ) (qs : List ℕ)
    → All (λ q. get_next p' q ≡ get_next p q) (a ∷ qs)
    → Chain p a qs
    → Chain p' a qs
Chain-frame p p' a [] h c = h.0 ∙ c
Chain-frame p p' a (q ∷ qs) h c = (h.0 ∙ c.0, Chain-frame p p' q qs h.1 c.1)

-- What a link of `new` behind `cur` does to the successors.
record Linked (p p' : Pool Vnode) (cur new : ℕ) : Type 0 where
  at_cur : get_next p' cur ≡ some new
  at_new : get_next p' new ≡ get_next p cur
  others : (a : ℕ) → a ≢ cur → a ≢ new → get_next p' a ≡ get_next p a

last_of-ne : (a b : ℕ) (qs : List ℕ) → b ≢ a → All (λ q. q ≢ a) qs → last_of b qs ≢ a
last_of-ne a b [] n h = n
last_of-ne a b (q ∷ qs) n h = last_of-ne a q qs h.0 h.1

both_ne :
    (p p' : Pool Vnode) (cur new : ℕ) (qs : List ℕ)
    → Linked p p' cur new
    → All (λ q. q ≢ cur) qs
    → All (λ q. q ≢ new) qs
    → All (λ q. get_next p' q ≡ get_next p q) qs
both_ne p p' cur new [] l h k = tt
both_ne p p' cur new (q ∷ qs) l h k = (l.others q h.0 k.0, both_ne p p' cur new qs l h.1 k.1)

moved-Chain :
    (p p' : Pool Vnode) (cur new : ℕ) (qs : List ℕ)
    → Linked p p' cur new
    → All (λ q. q ≢ cur) qs
    → All (λ q. q ≢ new) qs
    → Chain p cur qs
    → Chain p' new qs
moved-Chain p p' cur new [] l h k c = l.at_new ∙ c
moved-Chain p p' cur new (q ∷ qs) l h k c =
    (l.at_new ∙ c.0, Chain-frame p p' q qs (both_ne p p' cur new (q ∷ qs) l h k) c.1)

linked-Chain :
    (p p' : Pool Vnode) (a new : ℕ) (before after : List ℕ)
    → Linked p p' (last_of a before) new
    → Apart (a ∷ before ++ after)
    → All (λ q. q ≢ new) (a ∷ before ++ after)
    → Chain p a (before ++ after)
    → Chain p' a (before ++ new ∷ after)
linked-Chain p p' a new [] after l h k c = (l.at_cur, moved-Chain p p' a new after l h.0 k.1 c)
linked-Chain p p' a new (b ∷ before) after l h k c = (
  l.others a (λ e. last_of-ne a b before h.0.0 (All-front _ before after h.0.1) (sym e)) k.0 ∙ c.0,
  linked-Chain p p' b new before after l h.1 k.1 c.1,
)

get_elem?-lt : (l : List ℕ) (i a : ℕ) → get_elem? l i ≡ some a → i < length l
get_elem?-lt [] i a h = cc
get_elem?-lt (x ∷ l) zero a h = omega arith
get_elem?-lt (x ∷ l) (suc i) a h = omega (arith, get_elem?-lt l i a h)

pub at-number : (p : Pool Vnode) (i a : ℕ) → get_elem? p.vec i ≡ some a → at (pos i) p ≡ some a
unfolding at
at-number p i a h = ground (arith, h, get_elem?-lt p.vec i a h)

-- The nodes after link_after.
link_after-cur :
    (p : Pool Vnode) (cur new : ℕ)
    → cur ≢ new
    → (link_after cur new p).nodes cur ≡ set_next (p.nodes new).id (p.nodes cur)
unfolding link_after
link_after-cur p cur new ne = ground arith

link_after-new :
    (p : Pool Vnode) (cur new : ℕ)
    → cur ≢ new
    → (link_after cur new p).nodes new ≡ set_next (p.nodes cur).next (p.nodes new)
unfolding link_after
link_after-new p cur new ne = ground arith

link_after-others :
    (p : Pool Vnode) (cur new a : ℕ)
    → a ≢ cur
    → a ≢ new
    → (link_after cur new p).nodes a ≡ p.nodes a
unfolding link_after
link_after-others p cur new a n1 n2 = ground arith

-- A successor is found through the node's number alone.
next-at :
    (p : Pool Vnode) (cur new a : ℕ)
    → get_next (link_after cur new p) a ≡ at ((link_after cur new p).nodes a).next p
unfolding link_after get_next at
next-at p cur new a = refl

link_after-Linked :
    (p : Pool Vnode) (cur new i : ℕ)
    → cur ≢ new
    → (p.nodes new).id ≡ pos i
    → get_elem? p.vec i ≡ some new
    → Linked p (link_after cur new p) cur new
unfolding get_next
link_after-Linked p cur new i ne e h =
    let see = λ (v : Vnode). at v.next p in
    record {
      at_cur =
          next-at p cur new cur
          ∙ ap see (link_after-cur p cur new ne)
          ∙ ap (λ n. at n p) e
          ∙ at-number p i new h;
      at_new = next-at p cur new new ∙ ap see (link_after-new p cur new ne);
      others = λ a n1 n2. next-at p cur new a ∙ ap see (link_after-others p cur new a n1 n2);
    }

-- A link changes no number and no entry.
pub link_after-same :
    (p : Pool Vnode) (cur new a : ℕ)
    → (((link_after cur new p).nodes a).id ≡ (p.nodes a).id)
      × (entry ((link_after cur new p).nodes a) ≡ entry (p.nodes a))
unfolding link_after
link_after-same p cur new a = ground arith

-- What last_below found and link_after linked is a chain again.
pub link_after-Chain :
    (p : Pool Vnode) (a new i : ℕ) (before after : List ℕ)
    → (p.nodes new).id ≡ pos i
    → get_elem? p.vec i ≡ some new
    → Apart (a ∷ before ++ after)
    → All (λ q. q ≢ new) (a ∷ before ++ after)
    → Chain p a (before ++ after)
    → Chain (link_after (last_of a before) new p) a (before ++ new ∷ after)
link_after-Chain p a new i before after e h d n c =
    linked-Chain p _ a new before after
      (link_after-Linked p _ new i (last_of-ne new a before n.0 (All-front _ before after n.1)) e h)
      d n c
