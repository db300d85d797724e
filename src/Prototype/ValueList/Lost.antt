-- ===== src/Prototype/ValueList/Lost.antt =====
-- lookup after update and after remove of Prototype/src/valuelist.cpp.
use hkv.Base.{
  ℕ, suc, ◌<◌, ◌≡◌, refl, sym, ap, subst, ◌∙◌, ◌≢◌, negsuc, Bool, true, Option, none, some, List,
  [], ◌∷◌, ◌++◌, ltb, ltb→lt, ◌==◌, if◌then◌else◌, Bool-cases, inl, inr, arith, Run, ok, All,
  length, length-append,
}
use hkv.Prototype.Nodes.{max_key, to_int}
use hkv.Prototype.ValueList.{ValueList, update_value, remove, lookup}
use hkv.Prototype.ValueList.Chain.{Holds}
use hkv.Prototype.ValueList.Found.{entry_upto, value_of, value_in, lookup-eq-value_in}
use hkv.Prototype.ValueList.Changed.{behind, touched, Gives, update_value-Gives, remove-Gives}

-- The entry with the key, and what comes before and after it.
record Hit (f : ℕ × ℕ → ℕ × ℕ) (key : ℕ) (es es' : List (ℕ × ℕ)) : Type 0 where
  before : List (ℕ × ℕ)
  entry_at : ℕ × ℕ
  after : List (ℕ × ℕ)
  was : es ≡ before ++ entry_at ∷ after
  is : es' ≡ before ++ f entry_at ∷ after
  low : All (λ e. e.0 < key) before
  key_at : entry_at.0 ≡ key

behind-some :
    (e : ℕ × ℕ) (o : Option (Bool × List (ℕ × ℕ))) (b : Bool) (es : List (ℕ × ℕ))
    → behind e o ≡ some (b, es)
    → (es' : List (ℕ × ℕ)) × (o ≡ some (b, es')) × (es ≡ e ∷ es')
behind-some e none b es h = cc
behind-some e (some (b', es')) b es h = (es', ground arith, ground arith)

touched-Hit :
    (f : ℕ × ℕ → ℕ × ℕ) (key : ℕ) (es es' : List (ℕ × ℕ))
    → touched f key es ≡ some (true, es')
    → Hit f key es es'
touched-Hit f key [] es' h = absurd (cc)
touched-Hit f key (x ∷ es) es' h = elim (Bool-cases (ltb x.0 key)) [
  | inl e ↦
      let (r, t, s) = behind-some x (touched f key es) true es' (rw e at h) in
      let hit = touched-Hit f key es r t in
      record {
        before = x ∷ hit.before;
        entry_at = hit.entry_at;
        after = hit.after;
        was = ap (λ l. x ∷ l) hit.was;
        is = s ∙ ap (λ l. x ∷ l) hit.is;
        low = (ltb→lt _ _ e, hit.low);
        key_at = hit.key_at;
      }
  | inr e ↦
      let k : some (x.0 == key, (if x.0 == key then f x else x) ∷ es) ≡ some (true, es') =
        rw e at h in
      let same : x.0 ≡ key = ground arith in
      record {
        before = [];
        entry_at = x;
        after = es;
        was = refl;
        is = ground arith;
        low = tt;
        key_at = same;
      }
]

length-Hit :
    (f : ℕ × ℕ → ℕ × ℕ) (key : ℕ) (es es' : List (ℕ × ℕ))
    → Hit f key es es'
    → length es' ≡ length es
length-Hit f key es es' h = omega (
  arith,
  ap length h.was,
  ap length h.is,
  length-append h.before (h.entry_at ∷ h.after),
  length-append h.before (f h.entry_at ∷ h.after),
)

-- What Gives says of a run that returned.
returned :
    (o : Option (Bool × List (ℕ × ℕ))) (r : Run (Bool × ValueList)) (b : Bool) (l' : ValueList)
    → Gives o r
    → r ≡ ok (b, l')
    → (es : List (ℕ × ℕ)) × (o ≡ some (b, es)) × Holds l' es
returned none r b l' g h = absurd (cc)
returned (some (b', es)) r b l' g h =
    let (l1, run, held) = g in
    let same : l1 ≡ l' = cc in
    let flag : b' ≡ b = cc in (es, ap (λ c. some (c, es)) flag, subst (λ m. Holds m es) same held)

removed-value :
    (key j : ℕ) (e : ℕ × ℕ) (before after : List (ℕ × ℕ))
    → e.0 < key
    → key < j
    → j < max_key
    → All (λ x. x.0 < key) before
    → value_of j (entry_upto j e (before ++ (max_key, max_key) ∷ after)) ≡ negsuc 0
removed-value key j e [] after h lt below low = ground arith
removed-value key j e (x ∷ before) after h lt below low =
    ground (arith, removed-value key j x before after low.0 lt below low.1)

-- Keys that rise strictly along the list.
abbrev pub Rising : List (ℕ × ℕ) → Type 0
Rising [] = Unit {0}
Rising (x ∷ xs) = All (λ y. x.0 < y.0) xs × Rising xs

updated_self :
    (key value : ℕ) (e : ℕ × ℕ) (before after : List (ℕ × ℕ))
    → All (λ x. x.0 < key) before
    → All (λ x. key < x.0) after
    → value_of key (entry_upto key e (before ++ (key, value) ∷ after)) ≡ to_int value
updated_self key value e [] [] low high = ground arith
updated_self key value e [] (y ∷ after) low high = ground (arith, high.0)
updated_self key value e (x ∷ before) after low high =
    ground (arith, low.0, updated_self key value x before after low.1 high)

updated-else :
    (key value old j : ℕ) (e : ℕ × ℕ) (before after : List (ℕ × ℕ))
    → j ≢ key
    → value_of j (entry_upto j e (before ++ (key, value) ∷ after))
      ≡ value_of j (entry_upto j e (before ++ (key, old) ∷ after))
updated-else key value old j e [] [] n = ground arith
updated-else key value old j e [] (y ∷ after) n = ground arith
updated-else key value old j e (x ∷ before) after n =
    ground (arith, updated-else key value old j x before after n)

Rising-after :
    (before : List (ℕ × ℕ)) (x : ℕ × ℕ) (after : List (ℕ × ℕ))
    → Rising (before ++ x ∷ after)
    → All (λ y. x.0 < y.0) after
Rising-after [] x after r = r.0
Rising-after (y ∷ before) x after r = Rising-after before x after r.1

-- On a list of rising keys, with fuel for more than its nodes: after an update of a positive key that
-- returned true, lookup of that key returns the new value as an int, and of any other key what it
-- returned before.
pub update-lookup_value :
    (fuel key value j : ℕ) (l l' : ValueList) (es : List (ℕ × ℕ))
    → Holds l es
    → Rising es
    → suc (length es) < fuel
    → 0 < key
    → j ≢ key
    → update_value fuel key value l ≡ ok (true, l')
    → (lookup fuel key l' ≡ ok (to_int value)) × (lookup fuel j l' ≡ lookup fuel j l)
update-lookup_value fuel key value j l l' es h r enough pos ne run =
    let f : ℕ × ℕ → ℕ × ℕ = λ e. (e.0, value) in
    let (es', t, h') =
      returned (touched f key es) (update_value fuel key value l) true l'
        (update_value-Gives fuel key value l es h enough pos) run in
    let hit = touched-Hit f key es es' t in
    let len : length es' < fuel = omega (arith, length-Hit f key es es' hit) in
    let high = Rising-after hit.before hit.entry_at hit.after (subst Rising hit.was r) in
    let is = hit.is ∙ ap (λ (k : ℕ). hit.before ++ (k, value) ∷ hit.after) hit.key_at in
    let was = hit.was ∙ ap (λ (k : ℕ). hit.before ++ (k, hit.entry_at.1) ∷ hit.after) hit.key_at in
    (
      lookup-eq-value_in fuel key l' es' h' len
          ∙ ap ok (
              ap (value_in key) is
              ∙ updated_self key value (0, 0) hit.before hit.after hit.low
                  (subst (λ (k : ℕ). All (λ (y : ℕ × ℕ). k < y.0) hit.after) hit.key_at high)),
      lookup-eq-value_in fuel j l' es' h' len
          ∙ ap ok (
              ap (value_in j) is
              ∙ updated-else key value hit.entry_at.1 j (0, 0) hit.before hit.after ne
              ∙ ap (value_in j) (sym was))
          ∙ sym (lookup-eq-value_in fuel j l es h (omega arith)),
    )

-- With fuel for more than the list's nodes: after a remove of a positive key that returned true, lookup
-- of a key above it and below the greatest key there is finds nothing.
pub remove-lookup_larger :
    (fuel key j : ℕ) (l l' : ValueList) (es : List (ℕ × ℕ))
    → Holds l es
    → suc (length es) < fuel
    → 0 < key
    → key < j
    → j < max_key
    → remove fuel key l ≡ ok (true, l')
    → lookup fuel j l' ≡ ok (negsuc 0)
remove-lookup_larger fuel key j l l' es h enough pos lt below run =
    let f : ℕ × ℕ → ℕ × ℕ = λ e. (max_key, max_key) in
    let (es', t, h') =
      returned (touched f key es) (remove fuel key l) true l'
        (remove-Gives fuel key l es h enough pos) run in
    let hit = touched-Hit f key es es' t in
    let len : length es' < fuel = omega (arith, length-Hit f key es es' hit) in
    lookup-eq-value_in fuel j l' es' h' len
    ∙ ap ok (
        ap (value_in j) hit.is
        ∙ removed-value key j (0, 0) hit.before hit.after pos lt below hit.low)
