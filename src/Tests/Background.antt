-- ===== src/Tests/Background.antt =====
-- Rounds of the background threads at a small input.
use hkv.Base.{ℕ, ◌≡◌, refl, false, [], ◌∷◌, arith, ok, update}
use hkv.Config.{tiny}
use hkv.Memory.{get_tag}
use hkv.ValueStorage.{VsEntry}
use hkv.Mts.{World, ct_lookup}
use hkv.Mts.Reads.{lookup}
use hkv.CacheThread.Cached.{Fetched}
use hkv.Background.{Store, view, cache_round, complete_ring, completer_round}
use hkv.Background.Scanned.{RingCompleted, complete_ring-RingCompleted}
use hkv.Background.Served.{lookup-served}
use hkv.Tests.{plain, ring, ring-IsFaithful}
use hkv.Tests.Store.{fetched_store, fetched_store-Stored}
use hkv.Tests.Cache.{empty_cache}

abbrev value : VsEntry
value = record { at_entry = 4096; key = 7; val = 70 }

abbrev store : Store plain
store = record { world = fetched_store; cache = empty_cache }

store-Fetched :
    Fetched ring tiny
      (view store)
      (record { at_entry = 4096; key = 7; val = 70; ops = ct_lookup })
      64
      []
      []
unfolding get_tag
store-Fetched = record {
  allocated = refl;
  place = λ e. omega (arith, e);
  user = omega arith;
  list = record { head = refl; tail = refl; size = refl; real = tt; apart = tt; chain = tt };
  new = tt;
  room = omega arith;
  entry = λ e. omega (arith, e);
  stored = (0, 0, refl, refl);
  uncached = refl;
}

lookup-served_example :
    (w1 : World plain) × (q' : ℕ) × (j' : ℕ) × (s' : Store plain) × (lookup ring tiny 7
        fetched_store
      ≡ ok (0, w1))
    × (cache_round ring tiny 8 1 0 (record store { world = completer_round ring tiny false 0 w1 })
        ≡ ok (q', j', s'))
    × (lookup ring tiny 7 s'.world ≡ ok (70, s'.world))
lookup-served_example =
    lookup-served ring tiny store 7 4096 0 0 0 0 1 8 64 value [] [] ring-IsFaithful (omega arith)
      (omega arith) (omega arith) refl fetched_store-Stored refl (λ v. refl) refl refl refl refl
      (omega arith) store-Fetched

-- A scan has brought the value in through the ring 1.
abbrev scanned_store : World plain
scanned_store = record fetched_store {
  pending = update fetched_store.pending 0 (update (λ _. []) 1 (value ∷ []));
}

complete_ring-RingCompleted_example :
    RingCompleted ring tiny 1 scanned_store (complete_ring ring tiny 1 scanned_store)
complete_ring-RingCompleted_example = complete_ring-RingCompleted ring tiny 1 scanned_store
