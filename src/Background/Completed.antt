-- ===== src/Background/Completed.antt =====
-- Rounds of IOCompleterThreadExec in PRISM/src/MTS.cpp.
use hkv.Base.{
  ℕ, zero, suc, ◌+◌, ◌*◌, ◌<◌, ◌≡◌, refl, sym, ap, subst, ◌∙◌, ◌≢◌, inl, inr, true, List, [], ◌∷◌,
  arith, ltb, lt→ltb, Bool-cases, update, update_self, update_ne, ℕ_discrete,
}
use hkv.Config.{Config}
use hkv.ValueStorage.{VsEntry}
use hkv.ValueStorage.Buffer.{IoUring}
use hkv.Mts.{KeyIndex, World, complete_pending_ios}
use hkv.Mts.Combined.{handed, complete_pending_ios-handed}
use hkv.Background.{complete_lookups}

module _ (io : IoUring) (c : Config) {k : KeyIndex} where
  complete_pending_ios-idle :
      (w : World k) (v : ℕ) → w.pending v 0 ≡ [] → complete_pending_ios v 0 w ≡ w
  unfolding complete_pending_ios
  complete_pending_ios-idle w v h = rw (complete_pending_ios, h) refl

  complete_lookups-idle :
      (n v : ℕ) (w : World k) → ((u : ℕ) → w.pending u 0 ≡ []) → complete_lookups io c n v w ≡ w
  unfolding complete_lookups
  complete_lookups-idle zero v w idle = refl
  complete_lookups-idle (suc n) v w idle =
      let here = complete_pending_ios-idle w v (idle v) in
      let rest = complete_lookups-idle n (v + c.io_completer_num) w idle in
      elim (Bool-cases (ltb v c.vs_num)) [
        | inl e ↦ rw e (ap (complete_lookups io c n (v + c.io_completer_num)) here ∙ rest)
        | inr e ↦ rw e refl
      ]

  handed-idle :
      (w : World k) (id : ℕ) (e : VsEntry) (es : List VsEntry)
      → ((u : ℕ) → id ≢ u → w.pending u 0 ≡ [])
      → (u : ℕ) → (handed io c w id 0 e es).pending u 0 ≡ []
  handed-idle w id e es idle u = elim (ℕ_discrete id u) [
    | yes same ↦
        subst (λ x. (handed io c w id 0 e es).pending x 0 ≡ []) same
          (ap (λ (g : ℕ → List VsEntry). g 0)
              (update_self w.pending id (update (w.pending id) 0 []))
            ∙ update_self (w.pending id) 0 [])
    | no other ↦
        ap (λ (g : ℕ → List VsEntry). g 0)
          (update_ne w.pending id u (update (w.pending id) 0 []) other)
        ∙ idle u other
  ]

  -- Where the reads of one storage are pending, the completer in charge of it hands them over.
  pub complete_lookups-handed :
      (n i v id : ℕ) (w : World k) (e : VsEntry) (es : List VsEntry)
      → 0 < c.io_completer_num
      → id ≡ v + i * c.io_completer_num
      → id < c.vs_num
      → i < n
      → w.pending id 0 ≡ e ∷ es
      → ((u : ℕ) → id ≢ u → w.pending u 0 ≡ [])
      → complete_lookups io c n v w ≡ handed io c w id 0 e es
  unfolding complete_lookups
  complete_lookups-handed zero i v id w e es some h inside lt there idle = absurd (omega arith)
  complete_lookups-handed (suc n) zero v id w e es some h inside lt there idle =
      let same : id ≡ v = omega (arith, h) in
      let at_v : w.pending v 0 ≡ e ∷ es = subst (λ x. w.pending x 0 ≡ e ∷ es) same there in
      let in_v : ltb v c.vs_num ≡ true = lt→ltb _ _ (omega (arith, same)) in
      let w1 = handed io c w id 0 e es in
      let now : complete_pending_ios v 0 w ≡ w1 =
        complete_pending_ios-handed io c w v 0 e es at_v
        ∙ ap (λ x. handed io c w x 0 e es) (sym same) in
      rw in_v (
        ap (complete_lookups io c n (v + c.io_completer_num)) now
        ∙ complete_lookups-idle n (v + c.io_completer_num) w1 (handed-idle w id e es idle))
  complete_lookups-handed (suc n) (suc i) v id w e es some h inside lt there idle =
      let step : id ≡ v + c.io_completer_num + i * c.io_completer_num = grind (arith, h) in
      let ne : id ≢ v = λ q. omega (arith, step, q, some) in
      let in_v : ltb v c.vs_num ≡ true = lt→ltb _ _ (omega (arith, step)) in
      rw in_v (
        ap (complete_lookups io c n (v + c.io_completer_num))
          (complete_pending_ios-idle w v (idle v ne))
        ∙ complete_lookups-handed n i (v + c.io_completer_num) id w e es some step inside
            (omega arith) there idle)
