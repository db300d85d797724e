-- ===== src/Tests/Reclaim.antt =====
-- Reclaiming at a small input.
use hkv.Base.{ℕ, ◌+◌, ◌≡◌, ◌<◌, ◌≤◌, refl, inl, true, some, [], ◌∷◌, ◌++◌, arith, ok, length}
use hkv.Config.{tiny}
use hkv.Memory.{get_untagged_ptr, put_tagged_ptr}
use hkv.ValueStorage
use hkv.ValueStorage.{
  VsEntry, blank, ValueStorage, count, count_upto, not_enough_free_chunk, get_used_chunk_num,
}
use hkv.ValueStorage.Started.{Fresh, Begun, SameFile, mark, put_vs_entry-Begun}
use hkv.ValueStorage.Put.{put_vs_entry}
use hkv.OpLog
use hkv.OpLog.{NvLog, OpLog, align_uint_to_cacheline, get_another_oplog, running, log_of}
use hkv.OpLog.Drained.{Draining, current}
use hkv.OpLog.Joined.{enq-Joined}
use hkv.OpLog.Queue.{IsValid, entry_size}
use hkv.OpLog.Reclaim.{Site, reclaim_rest, enq}
use hkv.OpLog.Reclaimed.{Reclaimed, reclaim_rest-Reclaimed}
use hkv.OpLog.Swap.{Swapped}
use hkv.Mts.{World, ct_lookup, complete_pending_ios, site_of, with_site}
use hkv.Mts.Reads.{lookup}
use hkv.Mts.Reclaiming.{reclaim-lookup}
use hkv.Tests.{plain, logged_store, logged_store-InLog, ring, ring-IsFaithful, zeroes, storage, log}

-- Log 0 holds the entry of `logged_store` and is being reclaimed; log 1 is full.
abbrev busy : OpLog
busy = record log {
  oplog1 = record (log.oplog1) { tail_cnt = 64; stored_tail = 64 };
  oplog2 = record (log.oplog2) { tail_cnt = 256 };
  working_oplog = 1;
  reclaim_lock = true;
  reclaim_thread = some (running 0 0 0);
}

abbrev busy_store : World plain
busy_store = record logged_store { logs = λ _. busy }

abbrev site : Site
site = site_of busy_store 0

storage-Fresh : Fresh tiny storage 0 (blank ∷ blank ∷ [])
unfolding ValueStorage.init count count_upto not_enough_free_chunk get_used_chunk_num
storage-Fresh = record {
  begins = refl;
  contents = refl;
  none_moved = refl;
  whole = refl;
  enough = refl;
  in_file = omega arith;
  has_empty = inl refl;
}

put_vs_entry-Begun_example :
    (vs' : ValueStorage) × (put_vs_entry ring tiny 0 7 71 4096 storage zeroes
      ≡ ok (vs', mark 4096 zeroes))
    × Begun tiny vs' 0 (record { at_entry = 4096; key = 7; val = 71 } ∷ []) (blank ∷ [])
    × SameFile storage vs'
put_vs_entry-Begun_example =
    put_vs_entry-Begun ring tiny 0 7 71 4096 storage zeroes [] (blank ∷ []) blank
      (λ e. omega (arith, e)) (inl (refl, storage-Fresh))

site-Draining : Draining ring tiny 0 0 site ((7, 71) ∷ []) [] (blank ∷ blank ∷ [])
unfolding OpLog.init align_uint_to_cacheline
site-Draining = record {
  queued = record {
    valid = record {
      sized = refl;
      ordered = omega arith;
      bounded = omega arith;
      based = omega arith;
      low = omega arith;
    };
    entries = (refl, refl, refl, refl);
  };
  owned = ((λ e. omega (arith, e)), tt);
  ready = inl (refl, storage-Fresh);
  unused = (refl, (refl, tt));
}

one_current : length (current ring tiny 0 0 site ((7, 71) ∷ [])) ≡ 1
unfolding OpLog.init get_untagged_ptr put_tagged_ptr
one_current = refl

reclaim_rest-Reclaimed_example :
    (s' : Site) × (reclaim_rest ring tiny 0 0 0 site ≡ ok s')
    × Reclaimed tiny 0 0 site (current ring tiny 0 0 site ((7, 71) ∷ [])) s'
reclaim_rest-Reclaimed_example =
    reclaim_rest-Reclaimed ring tiny 0 0 0 site (7, 71) [] (blank ∷ blank ∷ []) ring-IsFaithful refl
      (omega arith) (omega arith) site-Draining (omega (arith, one_current))
      (omega (arith, one_current)) (omega arith)

full_log-IsValid : IsValid tiny (log_of busy 1)
unfolding OpLog.init
full_log-IsValid = record {
  sized = refl;
  ordered = omega arith;
  bounded = omega arith;
  based = omega arith;
  low = omega arith;
}

full_log : (log_of busy 1).head_cnt ≡ 0
unfolding OpLog.init
full_log = refl

entry_fits : (entry_size tiny ≤ 256) × (256 < 256 + entry_size tiny)
unfolding align_uint_to_cacheline
entry_fits = (omega arith, omega arith)

enq-Joined_example :
    (p : ℕ) × (s1 : Site) × (s' : Site) × (enq ring tiny [] 8 80 site ≡ ok (some p, s'))
    × Reclaimed tiny 0 0 site (current ring tiny 0 0 site ((7, 71) ∷ [])) s1
    × Swapped tiny 8 80 s1 s'
    × (s1.oplog.working_oplog ≡ 1)
    × (log_of s1.oplog 1 ≡ log_of busy 1)
unfolding get_another_oplog
enq-Joined_example =
    enq-Joined ring tiny [] 8 80 0 0 site (7, 71) [] (blank ∷ blank ∷ []) ring-IsFaithful refl
      (omega arith) (omega arith) entry_fits.0 full_log-IsValid full_log entry_fits.1 refl refl
      site-Draining (omega (arith, one_current)) (omega (arith, one_current)) (omega arith)

reclaim-lookup_example :
    (s' : Site) × (w' : World plain) × (reclaim_rest ring tiny 0 0 0 site ≡ ok s')
    × (lookup ring tiny 7 (with_site busy_store 0 s') ≡ ok (0, w'))
    × ((complete_pending_ios 0 0 w').cache_queue 0
        ≡ busy_store.cache_queue 0
          ++ (record { at_entry = 4096; key = 7; val = 71; ops = ct_lookup } ∷ []) ∷ [])
unfolding OpLog.init ValueStorage.init align_uint_to_cacheline
reclaim-lookup_example =
    reclaim-lookup ring tiny busy_store 0 0 0 0 7 4096 71 0 (7, 71) [] (blank ∷ blank ∷ [])
      ring-IsFaithful refl (omega arith) (omega arith) (omega arith) (omega arith) site-Draining
      (omega (arith, one_current)) (omega arith) refl (omega arith) refl logged_store-InLog refl
      refl
