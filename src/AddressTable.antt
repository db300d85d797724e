-- ===== src/AddressTable.antt =====
-- PRISM/src/AddressTable.cpp: the table of the heterogeneous storage index (HSIT). Its entries lie in
-- the shared memory from `at_starting_addr` on, 16 bytes each, and pointers to them are what the
-- rest of the program holds.
pub mod Slots
pub mod Assign
use hkv.Base.{
  ℕ, zero, suc, ◌+◌, ◌-◌, ◌*◌, ◌/◌, ◌<◌, Bool, true, false, not, ◌&&◌, List, [], ◌∷◌, ◌++◌, ℤ, pos,
  negsuc, eq_ℤ, ltb, leb, ◌==◌, if◌then◌else◌, Run, ok, stop, Stop, out_of_range, assertion,
  exit_failure, out_of_fuel, null_pointer, ◌>>=◌, ◌>>◌, require, length, update,
}
use hkv.Config.{Config}
use hkv.Memory.{
  AtEntry, OpEntry, Memory, store_at, load_at, get_untagged_ptr, put_tagged_ptr, get_tag,
  clean_entry, oplog_val,
}

-- sizeof(at_entry_t)
abbrev pub at_entry_size : ℕ
at_entry_size = 16

pub record AddressTable : Type 0 where
  pub at_starting_addr : ℕ
  pub at_id : ℕ
  pub next_empty_at_offset : ℕ
  pub whole_file_written : Bool
  pub free_at_offset_list : List ℕ

-- The constructor, once the file is mapped at `addr`.
unfoldable pub init : ℕ → ℕ → AddressTable
init addr id = record {
  at_starting_addr = addr;
  at_id = id;
  next_empty_at_offset = 0;
  whole_file_written = false;
  free_at_offset_list = [];
}

-- &at_starting_addr[offset]
abbrev pub slot : AddressTable → ℕ → ℕ
slot t offset = t.at_starting_addr + at_entry_size * offset

-- An entry whose value is in no value storage.
abbrev pub unstored : ℕ → AtEntry
unstored val_addr = record { vs_id = negsuc 0; vs_offset = negsuc 0; val_addr = val_addr }

-- The fresh entry that `alloc` builds.
abbrev pub alloc : AtEntry
alloc = unstored 0

unfoldable pub is_empty : AddressTable → ℕ → Memory → Bool
is_empty t offset m = eq_ℤ (get_tag (m.at (slot t offset)).val_addr) (pos clean_entry)

-- `while (is_empty(at_offset) == false) at_offset = next_empty_at_offset++`, from `at_offset`: the
-- offset that it stops at. Beyond the mapped file the read is out of range.
unfoldable pub next_empty : Config → ℕ → AddressTable → ℕ → Memory → Run ℕ
next_empty c zero t offset m = stop out_of_fuel
next_empty c (suc f) t offset m =
    let rest = next_empty c f t (offset + 1) m in
    if ltb offset c.at_entry_num
    then (if is_empty t offset m then ok offset else rest)
    else stop out_of_range

unfoldable pub pop_free : AddressTable → List ℕ → Run (ℕ × AddressTable)
pop_free t [] = stop assertion
pop_free t (offset ∷ rest) = ok (offset, record t { free_at_offset_list = rest })

unfoldable pub get_empty_at_offset : Config → AddressTable → Memory → Run (ℕ × AddressTable)
unfolding next_empty pop_free
get_empty_at_offset c t m =
    if not t.whole_file_written
    then (do
      offset ← next_empty c (c.at_entry_num - t.next_empty_at_offset + 1) t t.next_empty_at_offset m
      let next = offset + 1
      ok (
        offset,
        record t {
          next_empty_at_offset = next;
          whole_file_written = if next == c.at_entry_num then true else t.whole_file_written;
        },
      ))
    else pop_free t t.free_at_offset_list

-- The slot that the new key gets.
unfoldable pub assign : Config → AddressTable → Memory → Run (ℕ × AddressTable × Memory)
unfolding get_empty_at_offset
assign c t m = do
  (offset, t') ← get_empty_at_offset c t m
  require (ltb offset c.at_entry_num) exit_failure
  ok (slot t offset, t', store_at (slot t offset) alloc m)

unfoldable pub get_at_offset : AddressTable → ℕ → ℕ
get_at_offset t at_entry = (at_entry - t.at_starting_addr) / at_entry_size

-- The last comparison is `<=` in the source, so the address one past the table counts as inside.
unfoldable pub get_at_id : Config → AddressTable → ℕ → ℤ
get_at_id c t at_entry =
    if leb (slot t 0) at_entry && leb at_entry (slot t c.at_entry_num)
    then pos t.at_id
    else negsuc 0

unfoldable pub free : AddressTable → ℕ → Memory → Run (AddressTable × Memory)
unfolding get_at_offset
free t at_entry m = do
  e ← load_at at_entry m
  ok (
    record t { free_at_offset_list = t.free_at_offset_list ++ get_at_offset t at_entry ∷ [] },
    store_at at_entry (unstored (put_tagged_ptr e.val_addr clean_entry)) m,
  )

-- link_to_ol for a new key: only the pointer is written.
unfoldable pub link_to_ol : ℕ → ℕ → Memory → Run Memory
link_to_ol at_entry op_entry m = do
  e ← load_at at_entry m
  ok (store_at at_entry (record e { val_addr = put_tagged_ptr op_entry oplog_val }) m)

-- link_to_ol for an update: the entry is rewritten, and the place that it had is returned.
unfoldable pub relink_to_ol : ℕ → ℕ → Memory → Run (ℤ × ℤ × Memory)
relink_to_ol at_entry op_entry m = do
  e ← load_at at_entry m
  ok (e.vs_id, e.vs_offset, store_at at_entry (unstored (put_tagged_ptr op_entry oplog_val)) m)
