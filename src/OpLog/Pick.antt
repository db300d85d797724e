-- ===== src/OpLog/Pick.antt =====
-- The choice of a storage by OpLog::pick_valuestorage of PRISM/src/OpLog.cpp.
use hkv.Base.{
  ℕ, ◌≤◌, ◌≡◌, refl, ap, ◌∙◌, ◌⊎◌, inl, inr, true, false, ◌&&◌, List, [], ◌∷◌, ◌++◌, All, arith,
  ltb, ltb→lt, ltb-false→le, if◌then◌else◌, Bool-cases, ok,
}
use hkv.Config.{Config}
use hkv.ValueStorage.{ValueStorage, need_gc, get_used_chunk_num}
use hkv.OpLog.Reclaim.{wait_idle, pick_valuestorage}

-- The first storage of a list of draws that is not being written.
pub record FirstIdle (storages : ℕ → ValueStorage) (l : List ℕ) (v : ℕ) : Type 0 where
  pub skipped : List ℕ
  pub rest : List ℕ
  pub split : l ≡ skipped ++ v ∷ rest
  pub writing : All (λ i. (storages i).is_writing ≡ true) skipped
  pub idle : (storages v).is_writing ≡ false

abbrev pub HasIdle : (ℕ → ValueStorage) → List ℕ → Type 0
HasIdle storages [] = ⊥
HasIdle storages (i ∷ l) = ((storages i).is_writing ≡ false) ⊎ HasIdle storages l

wait_idle-now :
    (storages : ℕ → ValueStorage) (i : ℕ) (l : List ℕ)
    → (storages i).is_writing ≡ false
    → (v : ℕ) × (wait_idle storages i l ≡ ok v) × FirstIdle storages (i ∷ l) v
unfolding wait_idle
wait_idle-now storages i [] idle =
    (i, simp idle, record { skipped = []; rest = []; split = refl; writing = tt; idle = idle })
wait_idle-now storages i (j ∷ l) idle =
    (i, simp idle, record { skipped = []; rest = j ∷ l; split = refl; writing = tt; idle = idle })

wait_idle-FirstIdle :
    (storages : ℕ → ValueStorage) (i : ℕ) (l : List ℕ)
    → HasIdle storages (i ∷ l)
    → (v : ℕ) × (wait_idle storages i l ≡ ok v) × FirstIdle storages (i ∷ l) v
unfolding wait_idle
wait_idle-FirstIdle storages i l (inl idle) = wait_idle-now storages i l idle
wait_idle-FirstIdle storages i [] (inr later) = absurd later
wait_idle-FirstIdle storages i (j ∷ l) (inr later) = elim (Bool-cases (storages i).is_writing) [
  | inr idle ↦ wait_idle-now storages i (j ∷ l) idle
  | inl busy ↦
      let (v, run, f) = wait_idle-FirstIdle storages j l later in
      (
        v,
        simp (busy, run),
        record {
          skipped = i ∷ f.skipped;
          rest = f.rest;
          split = ap (λ x. i ∷ x) f.split;
          writing = (busy, f.writing);
          idle = f.idle;
        },
      )
]

pub record Picked (c : Config) (storages : ℕ → ValueStorage) (id1 id2 : ℕ) (draws : List ℕ) (v : ℕ)
    : Type 0 where
  pub chosen : ℕ
  pub one_of : (chosen ≡ id1) ⊎ (chosen ≡ id2)
  pub fewer :
      (need_gc (storages id1) && need_gc (storages id2)) ≡ false
      → (get_used_chunk_num c (storages chosen) ≤ get_used_chunk_num c (storages id1))
        × (get_used_chunk_num c (storages chosen) ≤ get_used_chunk_num c (storages id2))
  pub first_idle : FirstIdle storages (chosen ∷ draws) v

-- The storage that is preferred, before it is known whether it is being written.
preferred : Config → (ℕ → ValueStorage) → ℕ → ℕ → ℕ
preferred c storages id1 id2 =
    let vs1 = storages id1 in
    let vs2 = storages id2 in
    if need_gc vs1 && need_gc vs2
    then (if ltb id1 id2 then id1 else id2)
    else if ltb (get_used_chunk_num c vs1) (get_used_chunk_num c vs2)
    then id1
    else id2

preferred-one_of :
    (c : Config) (storages : ℕ → ValueStorage) (id1 id2 : ℕ)
    → (preferred c storages id1 id2 ≡ id1) ⊎ (preferred c storages id1 id2 ≡ id2)
unfolding preferred
preferred-one_of c storages id1 id2 =
    elim (Bool-cases (need_gc (storages id1) && need_gc (storages id2))) [
      | inl gc ↦ elim (Bool-cases (ltb id1 id2)) [
        | inl lt ↦ simp (gc, lt) (inl refl)
        | inr ge ↦ simp (gc, ge) (inr refl)
      ]
      | inr no_gc ↦
          elim (Bool-cases
            (ltb (get_used_chunk_num c (storages id1)) (get_used_chunk_num c (storages id2)))) [
              | inl lt ↦ simp (no_gc, lt) (inl refl)
              | inr ge ↦ simp (no_gc, ge) (inr refl)
            ]
    ]

preferred-fewer :
    (c : Config) (storages : ℕ → ValueStorage) (id1 id2 : ℕ)
    → (need_gc (storages id1) && need_gc (storages id2)) ≡ false
    → (get_used_chunk_num c (storages (preferred c storages id1 id2))
        ≤ get_used_chunk_num c (storages id1))
      × (get_used_chunk_num c (storages (preferred c storages id1 id2))
          ≤ get_used_chunk_num c (storages id2))
unfolding preferred
preferred-fewer c storages id1 id2 no_gc =
    elim (Bool-cases
      (ltb (get_used_chunk_num c (storages id1)) (get_used_chunk_num c (storages id2)))) [
        | inl lt ↦ simp (no_gc, lt) (omega arith, omega (arith, ltb→lt _ _ lt))
        | inr ge ↦ simp (no_gc, ge) (omega (arith, ltb-false→le _ _ ge), omega arith)
      ]

preferred-HasIdle :
    (c : Config) (storages : ℕ → ValueStorage) (id1 id2 : ℕ) (draws : List ℕ)
    → (((storages id1).is_writing ≡ false) × ((storages id2).is_writing ≡ false))
      ⊎ HasIdle storages draws
    → HasIdle storages (preferred c storages id1 id2 ∷ draws)
preferred-HasIdle c storages id1 id2 draws (inr later) = inr later
preferred-HasIdle c storages id1 id2 draws (inl both) =
    inl (elim (preferred-one_of c storages id1 id2) [
      | inl e ↦ ap (λ i. (storages i).is_writing) e ∙ both.0
      | inr e ↦ ap (λ i. (storages i).is_writing) e ∙ both.1
    ])

-- Where neither of the two storages that are drawn is being written, or one of the later draws is
-- not, `pick_valuestorage` returns: the first storage not being written among one of the two and the
-- later draws. That one of the two has no more used chunks than the other, unless both are being
-- collected.
pub pick_valuestorage-Picked :
    (c : Config) (storages : ℕ → ValueStorage) (first id1 id2 : ℕ) (draws : List ℕ)
    → (((storages id1).is_writing ≡ false) × ((storages id2).is_writing ≡ false))
      ⊎ HasIdle storages draws
    → (v : ℕ) × (pick_valuestorage c storages (first ∷ id1 ∷ id2 ∷ draws) ≡ ok v)
      × Picked c storages id1 id2 draws v
unfolding pick_valuestorage preferred
pick_valuestorage-Picked c storages first id1 id2 draws h =
    let (v, run, f) =
      wait_idle-FirstIdle storages (preferred c storages id1 id2) draws
        (preferred-HasIdle c storages id1 id2 draws h) in
    (
      v,
      run,
      record {
        chosen = preferred c storages id1 id2;
        one_of = preferred-one_of c storages id1 id2;
        fewer = preferred-fewer c storages id1 id2;
        first_idle = f;
      },
    )
