-- ===== src/Memory.antt =====
-- The memory that the components of PRISM share: the entries of the address tables (at_entry_t of
-- PRISM/src/AddressTable.h), of the write logs (op_entry_t of PRISM/src/OpLog.h) and of the DRAM
-- cache (dc_entry_t of PRISM/src/LRUList.h), each kind in a memory of its own, and the tagged
-- pointers of PRISM/src/util.cpp. A pointer is a 64-bit word, and 0 is `NULL`.
pub mod Tags
use Prim.Native.Nat.{bit_or}
use hkv.Base.{
  ℕ, ◌+◌, ◌-◌, ◌*◌, ◌/◌, ◌%◌, ◌^◌, Option, none, some, ℤ, pos, negsuc, ltb, ◌==◌, if◌then◌else◌,
  Run, ok, stop, null_pointer, undefined, update,
}

-- Where a value is, as a tag of `val_addr`.
abbrev pub clean_entry : ℕ
clean_entry = 0

abbrev pub dcache_val : ℕ
dcache_val = 1

abbrev pub oplog_val : ℕ
oplog_val = 2

abbrev pub valuestorage_val : ℕ
valuestorage_val = 3

-- What `vs_offset` holds while a value is in the log, and while it waits in a write buffer.
abbrev pub newly_updated_val : ℤ
newly_updated_val = negsuc 0

abbrev pub pre_valuestorage_val : ℤ
pre_valuestorage_val = negsuc 1

pub record AtEntry : Type 0 where
  pub vs_id : ℤ
  pub vs_offset : ℤ
  pub val_addr : ℕ

pub record OpEntry : Type 0 where
  pub val : ℕ
  pub opa : ℕ
  pub key : ℕ
  pub size : ℕ

pub record DcEntry : Type 0 where
  pub at_entry : ℕ
  pub prev : ℕ
  pub next : ℕ
  pub s_prev : ℕ
  pub s_next : ℕ
  pub list_type : ℕ
  pub key : ℕ
  pub val : ℕ

-- `dc` is what `malloc` has handed out and `free` has not taken back.
pub record Memory : Type 0 where
  pub at : ℕ → AtEntry
  pub op : ℕ → OpEntry
  pub dc : ℕ → Option DcEntry

abbrev pub store_at : ℕ → AtEntry → Memory → Memory
store_at p e m = record m { at = update m.at p e }

abbrev pub store_op : ℕ → OpEntry → Memory → Memory
store_op p e m = record m { op = update m.op p e }

-- An access through a pointer into a table or a log.
unfoldable pub load_at : ℕ → Memory → Run AtEntry
load_at p m = if p == 0 then stop null_pointer else ok (m.at p)

unfoldable pub load_op : ℕ → Memory → Run OpEntry
load_op p m = if p == 0 then stop null_pointer else ok (m.op p)

-- What `malloc` gave and `free` has not taken back; anything else is undefined.
unfoldable pub load_dc : ℕ → Memory → Run DcEntry
load_dc p m = elim (m.dc p) [ none ↦ stop undefined | some e ↦ ok e ]

abbrev pub store_dc : ℕ → DcEntry → Memory → Memory
store_dc p e m = record m { dc = update m.dc p (some e) }

-- `(entry << 16) >> 16` on a signed 64-bit word: the low 48 bits, with bit 47 copied upwards.
unfoldable pub get_untagged_ptr : ℕ → ℕ
get_untagged_ptr entry =
    let low = entry % 2 ^ 48 in if ltb low (2 ^ 47) then low else low + (2 ^ 64 - 2 ^ 48)

-- `p & ~(1 << 48)`
clear_bit_48 : ℕ → ℕ
clear_bit_48 p = p - p / 2 ^ 48 % 2 * 2 ^ 48

-- `p | (tag << 56)`: the low 56 bits of `p`, under the top byte joined with the tag.
unfoldable pub put_tagged_ptr : ℕ → ℕ → ℕ
unfolding clear_bit_48
put_tagged_ptr entry tag =
    let p = clear_bit_48 (get_untagged_ptr entry) in
    p % 2 ^ 56 + bit_or (p / 2 ^ 56) (tag % 256) * 2 ^ 56

-- `entry >> 56` on a signed 64-bit word.
unfoldable pub get_tag : ℕ → ℤ
get_tag entry =
    let top = entry / 2 ^ 56 in if ltb entry (2 ^ 63) then pos top else negsuc (255 - top)
