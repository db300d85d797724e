-- ===== src/Tests/Store.antt =====
-- Calls of the store at small inputs.
use hkv.Base.{ℕ, ◌≡◌, refl, ◌≢◌, pos, update, ◌*◌, ◌^◌, true, [], arith, ok}
use hkv.Config.{tiny}
use hkv.Memory.{get_tag, store_at}
use hkv.AddressTable
use hkv.AddressTable.{unstored}
use hkv.Mts.{World}
use hkv.Mts.Reads.{lookup}
use hkv.Mts.Calls.{update_key}
use hkv.Mts.Updated.{Old, stored, update-lookup}
use hkv.ValueStorage.{put_bit}
use hkv.Mts.InLog.{InLog, HasRoom, log_for, new_place}
use hkv.Base.{stop, null_pointer, ◌∷◌, ◌++◌}
use hkv.Mts.Calls.{remove}
use hkv.OpLog.Reclaim.{move_entry}
use hkv.Mts.{site_of, ct_lookup, complete_pending_ios}
use hkv.Mts.Removed.{remove-move_entry}
use hkv.Mts.Combined.{Request}
use hkv.Base.{List, ◌+◌}
use hkv.Mts.Fetched.{Stored, lookup-Stored}
use hkv.Tests.{
  ring-IsFaithful, plain-Removes, logged_store, logged_store-InLog, ring, plain, zeroes,
  empty_store, storage,
}

empty_store-HasRoom : HasRoom tiny (log_for empty_store 0)
unfolding hkv.OpLog.init hkv.OpLog.align_uint_to_cacheline
empty_store-HasRoom = record {
  valid = record {
    sized = refl;
    ordered = omega arith;
    bounded = omega arith;
    based = omega arith;
    low = omega arith;
  };
  kv_pos = omega arith;
  kv_small = omega arith;
  front = refl;
  room = omega arith;
}

-- The key 7 with its value at the first place of storage 0.
abbrev stored_store : World plain
stored_store = record empty_store {
  index = update empty_store.index 7 4096;
  memory =
      store_at 4096 (record { vs_id = pos 0; vs_offset = pos 0; val_addr = 3 * 2 ^ 56 }) zeroes;
  storages = λ _. put_bit storage 0 0 true;
}

first_place-Old : Old tiny (pos 0) (pos 0)
first_place-Old = stored 0 0 (omega arith) (omega arith)

stored_store-HasRoom : HasRoom tiny (log_for stored_store 0)
stored_store-HasRoom = empty_store-HasRoom

update-lookup_example :
    (w' : World plain) × (update_key ring tiny 0 [] 7 71 stored_store ≡ ok (true, w'))
    × (lookup ring tiny 7 w' ≡ ok (71, w'))
    × ((other b p v : ℕ)
        → stored_store.index other ≡ b
        → b ≢ 4096
        → p ≢ new_place stored_store 0
        → InLog stored_store.memory b p other v
        → lookup ring tiny other w' ≡ ok (v, w'))
update-lookup_example =
    update-lookup ring tiny stored_store 0 [] 7 71 4096 refl (λ e. omega (arith, e))
      stored_store-HasRoom first_place-Old

remove-move_entry_example :
    (w' : World plain) × (remove ring tiny 0 7 logged_store ≡ ok (true, w'))
    × (lookup ring tiny 7 w' ≡ ok (0, w'))
    × (move_entry ring tiny 0 8192 (site_of w' 0) ≡ stop null_pointer)
remove-move_entry_example =
    remove-move_entry ring tiny logged_store 0 0 7 4096 8192 71 plain-Removes refl
      logged_store-InLog

-- The key 7 with its value on the disk of storage 0.
abbrev pub fetched_store : World plain
fetched_store = record stored_store {
  storages = λ _. record storage { disk = λ _. record { at_entry = 4096; key = 7; val = 70 } };
}

pub fetched_store-Stored :
    Stored fetched_store 4096 0 0 (record { at_entry = 4096; key = 7; val = 70 })
unfolding get_tag
fetched_store-Stored = record {
  entry = λ e. omega (arith, e);
  in_storage = refl;
  at_place = refl;
  uncached = refl;
  on_disk = refl;
}

lookup-Stored_example :
    (w' : World plain) × (lookup ring tiny 7 fetched_store ≡ ok (0, w'))
    × ((complete_pending_ios 0 0 w').cache_queue 0
        ≡ [] ++ (record { at_entry = 4096; key = 7; val = 70; ops = ct_lookup } ∷ []) ∷ [])
    × ((complete_pending_ios 0 0 w').pending 0 0 ≡ [])
lookup-Stored_example =
    lookup-Stored ring tiny fetched_store 7 4096 0 0 (record { at_entry = 4096; key = 7; val = 70 })
      ring-IsFaithful (omega arith) (omega arith) refl fetched_store-Stored refl refl

-- Two values in storage.
abbrev two_stored : World plain
two_stored = record fetched_store {
  memory =
      store_at 4112 (record { vs_id = pos 0; vs_offset = pos 1; val_addr = 3 * 2 ^ 56 })
        fetched_store.memory;
  storages = λ _. record storage {
    disk = λ place. record { at_entry = 4096 + place * 16; key = 7 + place; val = 70 + place };
  };
}

abbrev first_request : Request
first_request = record {
  at_entry = 4096;
  place = 0;
  found = record { at_entry = 4096; key = 7; val = 70 };
}

abbrev second_request : Request
second_request = record {
  at_entry = 4112;
  place = 1;
  found = record { at_entry = 4112; key = 8; val = 71 };
}

-- Three threads read two values, and a batch has room for two of their requests.
abbrev three_requests : List Request
three_requests = first_request ∷ second_request ∷ first_request ∷ []
