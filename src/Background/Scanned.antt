-- ===== src/Background/Scanned.antt =====
-- The reads of scans in PRISM/src/MTS.cpp: what complete_pending_ios and its loops in
-- IOCompleterThreadExec hand to the cache thread for one ring.
use hkv.Base.{
  ℕ, zero, suc, ◌+◌, ◌≤◌, ◌<◌, ◌≡◌, refl, sym, ap, subst, ◌∙◌, ◌≢◌, ◌⊎◌, inl, inr, List, [], ◌∷◌,
  ◌++◌, arith, update, update_self, update_ne, ℕ_discrete, length, is_nil, if◌then◌else◌,
}
use mathlib.Core.List.{append_assoc, append-nil}
use hkv.Config.{Config}
use hkv.ValueStorage.{VsEntry}
use hkv.ValueStorage.Buffer.{IoUring}
use hkv.Mts.{KeyIndex, World, CqEntry, ct_scan, cache_kv_items}
use hkv.Background.{complete_scan_ios, scan_storages_ios, complete_ring}

-- What `n` storages from `v` on have brought in, in the order of the storages.
abbrev pub gathered : (ℕ → ℕ → List VsEntry) → ℕ → ℕ → ℕ → List CqEntry
gathered pending ring zero v = []
gathered pending ring (suc n) v =
    cache_kv_items ct_scan (pending v ring) ++ gathered pending ring n (v + 1)

abbrev clear : (ℕ → ℕ → List VsEntry) → ℕ → ℕ → ℕ → ℕ → List VsEntry
clear pending v ring = update pending v (update (pending v) ring [])

abbrev cleared : (ℕ → ℕ → List VsEntry) → ℕ → ℕ → ℕ → ℕ → ℕ → List VsEntry
cleared pending ring zero v = pending
cleared pending ring (suc n) v = cleared (clear pending v ring) ring n (v + 1)

clear_else :
    (pending : ℕ → ℕ → List VsEntry) (v ring u r : ℕ)
    → (v ≢ u) ⊎ (ring ≢ r)
    → clear pending v ring u r ≡ pending u r
clear_else pending v ring u r (inl h) =
    ap (λ (g : ℕ → List VsEntry). g r) (update_ne pending v u _ h)
clear_else pending v ring u r (inr h) = elim (ℕ_discrete v u) [
  | no other ↦ ap (λ (g : ℕ → List VsEntry). g r) (update_ne pending v u _ other)
  | yes same ↦ ground (arith, same, h)
]

gathered-clear :
    (pending : ℕ → ℕ → List VsEntry) (ring v n u : ℕ)
    → v < u
    → gathered (clear pending v ring) ring n u ≡ gathered pending ring n u
gathered-clear pending ring v zero u lt = refl
gathered-clear pending ring v (suc n) u lt =
    ap (λ l. cache_kv_items ct_scan l ++ gathered (clear pending v ring) ring n (u + 1))
      (clear_else pending v ring u ring (inl (omega arith)))
    ∙ ap (λ l. cache_kv_items ct_scan (pending u ring) ++ l)
        (gathered-clear pending ring v n (u + 1) (omega arith))

cleared_else :
    (pending : ℕ → ℕ → List VsEntry) (ring n v u r : ℕ)
    → (ring ≢ r) ⊎ (u < v) ⊎ (v + n ≤ u)
    → cleared pending ring n v u r ≡ pending u r
cleared_else pending ring zero v u r h = refl
cleared_else pending ring (suc n) v u r (inl h) =
    cleared_else (clear pending v ring) ring n (v + 1) u r (inl h)
    ∙ clear_else pending v ring u r (inr h)
cleared_else pending ring (suc n) v u r (inr (inl h)) =
    cleared_else (clear pending v ring) ring n (v + 1) u r (inr (inl (omega arith)))
    ∙ clear_else pending v ring u r (inl (omega arith))
cleared_else pending ring (suc n) v u r (inr (inr h)) =
    cleared_else (clear pending v ring) ring n (v + 1) u r (inr (inr (omega arith)))
    ∙ clear_else pending v ring u r (inl (omega arith))

cleared-in :
    (pending : ℕ → ℕ → List VsEntry) (ring n v i : ℕ)
    → i < n
    → cleared pending ring n v (v + i) ring ≡ []
cleared-in pending ring zero v i h = absurd (omega arith)
cleared-in pending ring (suc n) v zero h =
    let here : v + 0 ≡ v = omega arith in
    ap (λ u. cleared (clear pending v ring) ring n (v + 1) u ring) here
    ∙ cleared_else (clear pending v ring) ring n (v + 1) v ring (inr (inl (omega arith)))
    ∙ ap (λ (g : ℕ → List VsEntry). g ring) (update_self pending v (update (pending v) ring []))
    ∙ update_self (pending v) ring []
cleared-in pending ring (suc n) v (suc i) h =
    let next : v + suc i ≡ v + 1 + i = omega arith in
    ap (λ u. cleared (clear pending v ring) ring n (v + 1) u ring) next
    ∙ cleared-in (clear pending v ring) ring n (v + 1) i (omega arith)

module _ (io : IoUring) (c : Config) {k : KeyIndex} where
  scan_storages_ios-gathered :
      (n v ring : ℕ) (vec : List CqEntry) (w : World k)
      → scan_storages_ios io c n v ring vec w
        ≡ (vec ++ gathered w.pending ring n v, record w { pending = cleared w.pending ring n v })
  unfolding scan_storages_ios complete_scan_ios
  scan_storages_ios-gathered zero v ring vec w = ap (λ l. (l, w)) (sym (append-nil vec))
  scan_storages_ios-gathered (suc n) v ring vec w =
      let items = cache_kv_items ct_scan (w.pending v ring) in
      let w1 : World k = record w { pending = clear w.pending v ring } in
      scan_storages_ios-gathered n (v + 1) ring (vec ++ items) w1
      ∙ ap (λ l. (l, record w { pending = cleared w.pending ring (suc n) v }))
          (append_assoc vec items (gathered w1.pending ring n (v + 1))
            ∙ ap (λ l. vec ++ (items ++ l))
                (gathered-clear w.pending ring v n (v + 1) (omega arith)))

  -- What completing a ring leaves of the world.
  pub record RingCompleted (ring : ℕ) (w w' : World k) : Type 0 where
    pub emptied : (v : ℕ) → v < c.vs_num → w'.pending v ring ≡ []
    pub others : (v r : ℕ) → (ring ≢ r) ⊎ (c.vs_num ≤ v) → w'.pending v r ≡ w.pending v r
    pub nothing : gathered w.pending ring c.vs_num 0 ≡ [] → w'.cache_queue ≡ w.cache_queue
    pub queued :
        gathered w.pending ring c.vs_num 0 ≢ []
        → w'.cache_queue ring ≡ w.cache_queue ring ++ gathered w.pending ring c.vs_num 0 ∷ []
    pub queues_else : (r : ℕ) → ring ≢ r → w'.cache_queue r ≡ w.cache_queue r
    pub same_memory : w'.memory ≡ w.memory
    pub same_storages : w'.storages ≡ w.storages

  unfoldable pushed : ℕ → List CqEntry → World k → World k
  pushed ring vec w =
      if is_nil vec
      then w
      else record w { cache_queue = update w.cache_queue ring (w.cache_queue ring ++ vec ∷ []) }

  complete_ring-pushed :
      (ring : ℕ) (w : World k)
      → complete_ring io c ring w
        ≡ pushed ring
            (gathered w.pending ring c.vs_num 0)
            (record w { pending = cleared w.pending ring c.vs_num 0 })
  unfolding complete_ring pushed
  complete_ring-pushed ring w =
      ap (λ (r : List CqEntry × World k). pushed ring r.0 r.1)
        (scan_storages_ios-gathered c.vs_num 0 ring [] w)

  pushed-RingCompleted :
      (ring : ℕ) (w : World k) (vec : List CqEntry)
      → vec ≡ gathered w.pending ring c.vs_num 0
      → RingCompleted ring w
          (pushed ring vec (record w { pending = cleared w.pending ring c.vs_num 0 }))
  unfolding pushed
  pushed-RingCompleted ring w [] e = record {
    emptied = λ v lt.
        ap (λ u. cleared w.pending ring c.vs_num 0 u ring) (omega arith)
        ∙ cleared-in w.pending ring c.vs_num 0 v lt;
    others = λ v r h.
        cleared_else w.pending ring c.vs_num 0 v r
          (elim h [ inl ne ↦ inl ne | inr le ↦ inr (inr (omega arith)) ]);
    nothing = λ _. refl;
    queued = λ some. absurd (some (sym e));
    queues_else = λ r ne. refl;
    same_memory = refl;
    same_storages = refl;
  }
  pushed-RingCompleted ring w (x ∷ vec) e = record {
    emptied = λ v lt.
        ap (λ u. cleared w.pending ring c.vs_num 0 u ring) (omega arith)
        ∙ cleared-in w.pending ring c.vs_num 0 v lt;
    others = λ v r h.
        cleared_else w.pending ring c.vs_num 0 v r
          (elim h [ inl ne ↦ inl ne | inr le ↦ inr (inr (omega arith)) ]);
    nothing = λ none. absurd (omega (arith, ap length (e ∙ none)));
    queued = λ some. update_self w.cache_queue ring _ ∙ ap (λ l. w.cache_queue ring ++ l ∷ []) e;
    queues_else = λ r ne. update_ne w.cache_queue ring r _ ne;
    same_memory = refl;
    same_storages = refl;
  }

  -- A completer hands all that the reads of one ring have brought in, from every storage and in the
  -- order of the storages, to the cache thread as one vector, unless there is nothing; no read of the
  -- ring is pending then, and neither other rings and their queues nor memory and storages change.
  pub complete_ring-RingCompleted :
      (ring : ℕ) (w : World k) → RingCompleted ring w (complete_ring io c ring w)
  complete_ring-RingCompleted ring w =
      subst (RingCompleted ring w) (sym (complete_ring-pushed ring w))
        (pushed-RingCompleted ring w (gathered w.pending ring c.vs_num 0) refl)
