-- ===== src/Mts/Leaders.antt =====
-- apply_ops of PRISM/src/AIO.cpp where more threads read than one batch has room for: each leader
-- submits a batch, whose reads are completed before the next one submits its own.
use hkv.Base.{ℕ, zero, suc, ◌≤◌, ◌≡◌, ◌≢◌, List, [], ◌∷◌, ◌++◌, map, ok, Run, ◌>>=◌, length, All}
use hkv.Config.{Config}
use hkv.ValueStorage.{VsEntry}
use hkv.ValueStorage.Buffer.{IoUring}
use hkv.Mts.{KeyIndex, World, ct_lookup, cache_kv_items, complete_pending_ios}
use hkv.Mts.Reads.{lead}
use hkv.Mts.Combined.{Request, brought, submitted, handed}

module _ {ℓ} {A : Type ℓ} where
  abbrev pub flat : List (List A) → List A
  flat [] = []
  flat (b ∷ bs) = b ++ flat bs

module _ (io : IoUring) (c : Config) {k : KeyIndex} where
  -- Up to `n` leaders of the queue, each one with its reads completed.
  abbrev pub lead_all : ℕ → ℕ → ℕ → List ℕ → World k → Run (World k)
  lead_all zero id ring queue w = ok w
  lead_all (suc n) id ring [] w = ok w
  lead_all (suc n) id ring (a ∷ queue) w = do
    (rest, w') ← lead io c id ring (a ∷ queue) w
    lead_all n id ring rest (complete_pending_ios id ring w')

  -- What the leaders leave of the requests `rs`, and of the world around them.
  pub record Batched (id ring : ℕ) (rs : List Request) (w w' : World k) : Type 0 where
    pub batches : List (List VsEntry)
    pub fit : All (λ b. (b ≢ []) × (length b ≤ c.r_qd)) batches
    pub all : flat batches ≡ brought rs
    pub queued : w'.cache_queue ring ≡ w.cache_queue ring ++ map (cache_kv_items ct_lookup) batches
    pub none_pending : w'.pending id ring ≡ []
    pub none_waiting : w'.waiting id ring ≡ []
    pub same_memory : w'.memory ≡ w.memory
    pub same_storages : w'.storages ≡ w.storages

  -- The world when the first leader's reads are completed.
  abbrev after : World k → ℕ → ℕ → Request → List Request → World k
  after w id ring r front =
      handed io c (submitted io c w id ring r.found (brought front)) id ring r.found (brought front)
