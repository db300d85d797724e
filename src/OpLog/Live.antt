-- ===== src/OpLog/Live.antt =====
-- The entries of a log that reclaiming moves in PRISM/src/OpLog.cpp: those that the address table still
-- points at.
use hkv.Base.{
  ℕ, zero, suc, ◌+◌, ◌≤◌, ◌<◌, ◌≡◌, refl, ap, ◌∙◌, ◌≢◌, inl, inr, Bool, List, [], ◌∷◌, ◌++◌, arith,
  All, All-mono, Bool-cases, ◌==◌, ==_iff, if◌then◌else◌, update_self, update_ne,
}
use hkv.Memory.{Memory, get_untagged_ptr, pre_valuestorage_val}
use hkv.ValueStorage.{VsEntry}
use hkv.ValueStorage.Linked.{DistinctAts}
use hkv.ValueStorage.Started.{mark}

-- The entry that the table entry `a` points at in a log.
abbrev pub pointer : Memory → ℕ → ℕ
pointer m a = get_untagged_ptr (m.at a).val_addr

abbrev pub is_current : Memory → ℕ → Bool
is_current m p = p == pointer m (m.op p).opa

abbrev pub moved : Memory → ℕ → List VsEntry
moved m p =
    if is_current m p
    then record { at_entry = (m.op p).opa; key = (m.op p).key; val = (m.op p).val } ∷ []
    else []

-- Those of `n` entries of `size` bytes from the counter `cnt` on, in a log in `buffer`.
abbrev pub live : ℕ → ℕ → Memory → ℕ → ℕ → List VsEntry
live size buffer m zero cnt = []
live size buffer m (suc n) cnt = moved m (buffer + cnt) ++ live size buffer m n (cnt + size)

abbrev pub mark_all : List VsEntry → Memory → Memory
mark_all [] m = m
mark_all (e ∷ es) m = mark_all es (mark e.at_entry m)

val_addr-mark : (a b : ℕ) (m : Memory) → ((mark a m).at b).val_addr ≡ (m.at b).val_addr
val_addr-mark a b m = ground arith

moved-mark : (a p : ℕ) (m : Memory) → moved (mark a m) p ≡ moved m p
moved-mark a p m =
    ap
      (λ v.
        if p == get_untagged_ptr v
        then record { at_entry = (m.op p).opa; key = (m.op p).key; val = (m.op p).val } ∷ []
        else [])
      (val_addr-mark a (m.op p).opa m)

live-mark :
    (size buffer a : ℕ) (m : Memory) (n cnt : ℕ)
    → live size buffer (mark a m) n cnt ≡ live size buffer m n cnt
live-mark size buffer a m zero cnt = refl
live-mark size buffer a m (suc n) cnt =
    ap (λ l. l ++ live size buffer (mark a m) n (cnt + size)) (moved-mark a (buffer + cnt) m)
    ∙ ap (λ l. moved m (buffer + cnt) ++ l) (live-mark size buffer a m n (cnt + size))

pub live-mark_all :
    (size buffer : ℕ) (es : List VsEntry) (m : Memory) (n cnt : ℕ)
    → live size buffer (mark_all es m) n cnt ≡ live size buffer m n cnt
live-mark_all size buffer [] m n cnt = refl
live-mark_all size buffer (e ∷ es) m n cnt =
    live-mark_all size buffer es (mark e.at_entry m) n cnt
    ∙ live-mark size buffer e.at_entry m n cnt

pub mark_all-append :
    (xs ys : List VsEntry) (m : Memory) → mark_all (xs ++ ys) m ≡ mark_all ys (mark_all xs m)
mark_all-append [] ys m = refl
mark_all-append (x ∷ xs) ys m = mark_all-append xs ys (mark x.at_entry m)

pub op-mark_all : (es : List VsEntry) (m : Memory) → (mark_all es m).op ≡ m.op
op-mark_all [] m = refl
op-mark_all (e ∷ es) m = op-mark_all es (mark e.at_entry m)

pub dc-mark_all : (es : List VsEntry) (m : Memory) → (mark_all es m).dc ≡ m.dc
dc-mark_all [] m = refl
dc-mark_all (e ∷ es) m = dc-mark_all es (mark e.at_entry m)

pub mark_all-else :
    (es : List VsEntry) (m : Memory) (a : ℕ)
    → All (λ e. e.at_entry ≢ a) es
    → (mark_all es m).at a ≡ m.at a
mark_all-else [] m a out = refl
mark_all-else (e ∷ es) m a out =
    mark_all-else es (mark e.at_entry m) a out.1 ∙ update_ne m.at e.at_entry a _ out.0

-- Every marked table entry keeps its pointer.
abbrev pub IsMarked : Memory → Memory → VsEntry → Type 0
IsMarked m m' e = m'.at e.at_entry ≡ record (m.at e.at_entry) { vs_offset = pre_valuestorage_val }

marked_twice :
    (a b : ℕ) (m : Memory)
    → record ((mark a m).at b) { vs_offset = pre_valuestorage_val }
      ≡ record (m.at b) { vs_offset = pre_valuestorage_val }
marked_twice a b m = ground arith

pub mark_all-IsMarked :
    (es : List VsEntry) (m : Memory) → DistinctAts es → All (IsMarked m (mark_all es m)) es
mark_all-IsMarked [] m d = tt
mark_all-IsMarked (e ∷ es) m d =
    let m1 = mark e.at_entry m in
    let first : IsMarked m (mark_all es m1) e =
      mark_all-else es m1 e.at_entry d.0 ∙ update_self m.at e.at_entry _ in
    let rest = mark_all-IsMarked es m1 d.1 in
    (
      first,
      All-mono {P = IsMarked m1 (mark_all es m1)} {Q = IsMarked m (mark_all es m1)} es
          (λ x h. h ∙ marked_twice e.at_entry x.at_entry m) rest,
    )

-- The address table points behind `cnt` for all that is live from there on.
live-behind :
    (size buffer : ℕ) (m : Memory) (n cnt : ℕ)
    → All (λ e. buffer + cnt ≤ pointer m e.at_entry) (live size buffer m n cnt)
live-behind size buffer m zero cnt = tt
live-behind size buffer m (suc n) cnt =
    let rest : All (λ e. buffer + cnt ≤ pointer m e.at_entry) (live size buffer m n (cnt + size)) =
      All-mono {P = λ e. buffer + (cnt + size) ≤ pointer m e.at_entry}
        (live size buffer m n (cnt + size)) (λ e h. omega arith)
        (live-behind size buffer m n (cnt + size)) in
    let here = (==_iff (buffer + cnt) (pointer m (m.op (buffer + cnt)).opa)).0 in
    elim (Bool-cases (is_current m (buffer + cnt))) [
      | inr stale ↦ rw stale rest
      | inl now ↦ rw now (omega (arith, here now), rest)
    ]

-- Entries that are live at the same time have table entries of their own.
pub live-DistinctAts :
    (size buffer : ℕ) (m : Memory) (n cnt : ℕ) → 0 < size → DistinctAts (live size buffer m n cnt)
live-DistinctAts size buffer m zero cnt pos = tt
live-DistinctAts size buffer m (suc n) cnt pos =
    let rest = live-DistinctAts size buffer m n (cnt + size) pos in
    let a = (m.op (buffer + cnt)).opa in
    elim (Bool-cases (is_current m (buffer + cnt))) [
      | inr stale ↦ rw stale rest
      | inl now ↦
          let here = (==_iff (buffer + cnt) (pointer m a)).0 now in
          let apart =
            All-mono {P = λ e. buffer + (cnt + size) ≤ pointer m e.at_entry}
              {Q = λ e. e.at_entry ≢ a} (live size buffer m n (cnt + size))
              (λ e h same. omega (arith, ap (pointer m) same, here))
              (live-behind size buffer m n (cnt + size)) in
          rw now (apart, rest)
    ]
