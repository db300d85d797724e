-- ===== src/Tests/Slots.antt =====
-- Tagged pointers, address tables and logs at small inputs.
use hkv.Base.{
  ℕ, ◌+◌, ◌*◌, ◌^◌, ◌≤◌, ◌<◌, ◌≡◌, refl, ◌≢◌, true, false, some, [], ◌∷◌, ◌++◌, pos, arith, ok,
  update,
}
use hkv.Config.{tiny}
use hkv.Memory.{Memory, get_tag, get_untagged_ptr, put_tagged_ptr, store_at}
use hkv.Memory.Tags.{get_tag-put_tagged_ptr}
use hkv.AddressTable
use hkv.AddressTable.{AddressTable, slot, alloc, unstored, is_empty, next_empty, assign, free}
use hkv.AddressTable.Assign.{IsValid, Assigned, assign-Assigned, assign_total, free-IsValid}
use hkv.OpLog
use hkv.Base.{List}
use hkv.OpLog.{log_of}
use hkv.OpLog.{NvLog, put_ol_entry, oplog_deq, oplog_used, oplog_peek_head, new_log}
use hkv.OpLog.Queue.{IsQueue, Put, put_ol_entry-Put}
use hkv.Base.{none, inl}
use hkv.ValueStorage
use hkv.OpLog.{get_another_oplog}
use hkv.OpLog.Reclaim.{Site, enq, pick_valuestorage}
use hkv.OpLog.Swap.{Swapped, enq-Swapped}
use hkv.OpLog.Pick.{Picked, pick_valuestorage-Picked}
use hkv.Tests.{ring, storage, table, zeroes}

get_tag-put_tagged_ptr_example :
    (get_tag (put_tagged_ptr (4096 + 2 * 2 ^ 56) 1) ≡ pos 1)
    × (get_untagged_ptr (put_tagged_ptr (4096 + 2 * 2 ^ 56) 1) ≡ 4096)
get_tag-put_tagged_ptr_example = get_tag-put_tagged_ptr 4096 2 1 (omega arith) (omega arith)

table-IsValid : IsValid tiny table zeroes
unfolding AddressTable.init
table-IsValid = record {
  bounded = omega arith;
  whole = λ h. ground arith;
  listed = tt;
  distinct = tt;
}

abbrev after_assign : ℕ × AddressTable × Memory
after_assign = (
  4096,
  record {
    at_starting_addr = 4096;
    at_id = 0;
    next_empty_at_offset = 1;
    whole_file_written = false;
    free_at_offset_list = [];
  },
  store_at 4096 alloc zeroes,
)

assign-table : assign tiny table zeroes ≡ ok after_assign
unfolding AddressTable.init assign is_empty get_tag
assign-table = refl

assign-Assigned_example : Assigned tiny table zeroes after_assign
assign-Assigned_example = assign-Assigned tiny table zeroes after_assign table-IsValid assign-table

table-unfinished : table.whole_file_written ≡ false
unfolding AddressTable.init
table-unfinished = refl

table-start : table.next_empty_at_offset ≤ 0
unfolding AddressTable.init
table-start = omega arith

table-empty : is_empty table 0 zeroes ≡ true
unfolding AddressTable.init is_empty get_tag
table-empty = refl

assign_total_example :
    (r : ℕ × AddressTable × Memory) × (assign tiny table zeroes ≡ ok r)
    × Assigned tiny table zeroes r
assign_total_example =
    assign_total tiny table zeroes 0 table-IsValid table-unfinished table-start (omega arith)
      table-empty

-- A table whose first slot is in use.
abbrev begun : AddressTable
begun = after_assign.1

abbrev in_use : Memory
in_use = store_at 4096 (unstored (8192 + 2 * 2 ^ 56)) zeroes

begun-IsValid : IsValid tiny begun in_use
begun-IsValid = record {
  bounded = omega arith;
  whole = λ h. ground arith;
  listed = tt;
  distinct = tt;
}

begun-full : is_empty begun 0 in_use ≡ false
unfolding is_empty get_tag
begun-full = refl

begun-user : get_untagged_ptr (8192 + 2 * 2 ^ 56) < 2 ^ 47
unfolding get_untagged_ptr
begun-user = omega arith

free-IsValid_example :
    (t' : AddressTable) × (m' : Memory) × (free begun 4096 in_use ≡ ok (t', m'))
    × IsValid tiny t' m'
    × (t'.free_at_offset_list ≡ [] ++ 0 ∷ [])
    × (is_empty t' 0 m' ≡ true)
    × ((p : ℕ) → p ≢ 4096 → m'.at p ≡ in_use.at p)
free-IsValid_example =
    free-IsValid tiny begun in_use 0 begun-IsValid (omega arith) (omega arith) begun-full begun-user

-- A log with one entry of 64 bytes.
abbrev one_entry : NvLog
one_entry = record (new_log 0 8192 256 true) { tail_cnt = 64; stored_tail = 64 }

abbrev entry_in_log : Memory
entry_in_log = record zeroes {
  op = update zeroes.op 8192 (record { val = 70; opa = 4096; key = 7; size = 64 });
}

one_entry-IsQueue : IsQueue tiny one_entry entry_in_log ((7, 70) ∷ [])
unfolding OpLog.align_uint_to_cacheline
one_entry-IsQueue = record {
  valid = record {
    sized = refl;
    ordered = omega arith;
    bounded = omega arith;
    based = omega arith;
    low = omega arith;
  };
  entries = (refl, refl, refl, refl);
}

put_ol_entry-Put_example :
    Put tiny one_entry entry_in_log 8 80
      ((7, 70) ∷ [])
      (put_ol_entry tiny one_entry 8 80 entry_in_log)
put_ol_entry-Put_example =
    put_ol_entry-Put tiny one_entry 8 80 entry_in_log ((7, 70) ∷ []) (omega arith) (omega arith)
      one_entry-IsQueue refl

-- Words of memory that are all the head of an empty entry of 64 bytes.
abbrev full_memory : Memory
full_memory = record zeroes { op = λ _. record { val = 0; opa = 0; key = 0; size = 64 } }

abbrev four_entries : List (ℕ × ℕ)
four_entries = (0, 0) ∷ (0, 0) ∷ (0, 0) ∷ (0, 0) ∷ []

-- The first log is full, the second one empty.
abbrev full_site : Site
full_site = record {
  oplog = record {
    g_oplog_id = 0;
    oplog1 = record (new_log 0 8192 256 true) { tail_cnt = 256; stored_tail = 256 };
    oplog2 = new_log 1 16384 256 false;
    working_oplog = 0;
    reclaimed_oplog = 0;
    reclaim_lock = false;
    reclaim_thread = none;
  };
  storages = λ _. storage;
  memory = full_memory;
}

full_log-IsQueue : IsQueue tiny (full_site.oplog.oplog1) full_memory four_entries
unfolding OpLog.align_uint_to_cacheline
full_log-IsQueue = record {
  valid = record {
    sized = refl;
    ordered = omega arith;
    bounded = omega arith;
    based = omega arith;
    low = omega arith;
  };
  entries = (refl, refl, refl, (refl, refl, refl, (refl, refl, refl, (refl, refl, refl, refl))));
}

empty_log-IsQueue : IsQueue tiny (full_site.oplog.oplog2) full_memory []
empty_log-IsQueue = record {
  valid = record {
    sized = refl;
    ordered = omega arith;
    bounded = omega arith;
    based = omega arith;
    low = omega arith;
  };
  entries = refl;
}

enq-Swapped_example :
    (p : ℕ) × (s' : Site) × (enq ring tiny [] 7 70 full_site ≡ ok (some p, s'))
    × Swapped tiny 7 70 full_site s'
    × IsQueue tiny (log_of s'.oplog 0) s'.memory four_entries
unfolding get_another_oplog OpLog.align_uint_to_cacheline
enq-Swapped_example =
    enq-Swapped ring tiny [] 7 70 full_site four_entries (omega arith) (omega arith) (omega arith)
      full_log-IsQueue refl (omega arith) empty_log-IsQueue refl (inl (omega arith)) refl

pick_valuestorage-Picked_example :
    (v : ℕ) × (pick_valuestorage tiny (λ _. storage) (2 ∷ 0 ∷ 1 ∷ []) ≡ ok v)
    × Picked tiny (λ _. storage) 0 1 [] v
unfolding ValueStorage.init
pick_valuestorage-Picked_example =
    pick_valuestorage-Picked tiny (λ _. storage) 2 0 1 [] (inl (refl, refl))
