-- ===== src/ValueStorage/Link.antt =====
-- The links between value storage and address table in PRISM/src/ValueStorage.cpp: link_to_at,
-- gc_link_to_at, unlink_to_at, add_moved_entry_list, sync_with_at and gc_sync_with_at.
use hkv.Base.{
  ℕ, ◌+◌, ◌*◌, List, [], ◌∷◌, ◌++◌, pos, eq_ℤ, ltb, not, if◌then◌else◌, Run, ok, assertion, ◌>>=◌,
  ◌>>◌, require,
}
use hkv.Config.{Config}
use hkv.Memory.{AtEntry, Memory, load_at, store_at, newly_updated_val, pre_valuestorage_val}
use hkv.ValueStorage.{
  VsEntry, MovedEntry, Operation, WChunk, ValueStorage, check_place, set_vs_bitmap_info,
  clear_vs_bitmap_info,
}
use hkv.ValueStorage.Buffer.{sort_moved_entry}

-- The address-table entry is pointed at the place, and the place becomes valid.
unfoldable pub point_to :
    Config → ValueStorage → Memory → ℕ → ℕ → ℕ → AtEntry → Run (ValueStorage × Memory)
unfolding set_vs_bitmap_info
point_to c vs m chunk entry at_entry e = do
  require (ltb chunk c.chunk_num) assertion
  require (ltb entry c.entries_per_chunk) assertion
  vs' ← set_vs_bitmap_info c vs chunk entry
  ok (
    vs',
    store_at at_entry
        (record e { vs_id = pos vs.vs_id; vs_offset = pos (chunk * c.entries_per_chunk + entry) })
        m,
  )

-- The compare-and-swap of the source is on a local copy, so it is a test for NEWLY_UPDATED_VAL: the
-- value was updated in the log meanwhile.
unfoldable pub link_to_at : Config → ValueStorage → Memory → ℕ → ℕ → ℕ → Run (ValueStorage × Memory)
unfolding point_to load_at
link_to_at c vs m chunk entry at_entry = do
  e ← load_at at_entry m
  if eq_ℤ e.vs_offset newly_updated_val then ok (vs, m) else point_to c vs m chunk entry at_entry e

unfoldable pub gc_link_to_at :
    Config → ValueStorage → Memory → ℕ → ℕ → ℕ → Run (ValueStorage × Memory)
unfolding point_to load_at
gc_link_to_at c vs m chunk entry at_entry = do
  e ← load_at at_entry m
  if eq_ℤ e.vs_offset newly_updated_val
      then ok (vs, m)
      else if eq_ℤ e.vs_offset pre_valuestorage_val
      then ok (vs, m)
      else if not (eq_ℤ e.vs_id (pos vs.vs_id))
      then ok (vs, m)
      else point_to c vs m chunk entry at_entry e

unfoldable pub unlink_to_at : Config → ValueStorage → ℕ → ℕ → Run ValueStorage
unfolding clear_vs_bitmap_info
unlink_to_at c vs chunk entry = do
  check_place c chunk entry
  if not (vs.bitmap chunk entry) then ok vs else clear_vs_bitmap_info c vs chunk entry

abbrev pub add_moved_entry_list : List MovedEntry → ℕ → ℕ → VsEntry → Operation → List MovedEntry
add_moved_entry_list moved chunk entry vs_entry op =
    moved
    ++ record {
      key = vs_entry.key;
      at_entry = vs_entry.at_entry;
      chunk_offset = chunk;
      entry_offset = entry;
      op_type = op;
    }
      ∷ []

-- The loop of sync_with_at over the sorted list.
unfoldable pub link_all :
    Config → List MovedEntry → ValueStorage → Memory → Run (ValueStorage × Memory)
unfolding link_to_at
link_all c [] vs m = ok (vs, m)
link_all c (e ∷ rest) vs m = do
  (vs', m') ← link_to_at c vs m e.chunk_offset e.entry_offset e.at_entry
  link_all c rest vs' m'

unfoldable pub sync_with_at :
    Config → ValueStorage → Memory → WChunk → Run (ValueStorage × Memory × WChunk)
unfolding link_all sort_moved_entry
sync_with_at c vs m chunk = do
  (vs', m') ← link_all c (sort_moved_entry chunk.moved_entry_list) vs m
  ok (vs', m', record chunk { moved_entry_list = [] })

unfoldable pub relink :
    Config → Operation → MovedEntry → ValueStorage → Memory → Run (ValueStorage × Memory)
unfolding gc_link_to_at unlink_to_at
relink c Operation.insert e vs m = gc_link_to_at c vs m e.chunk_offset e.entry_offset e.at_entry
relink c Operation.remove e vs m = do
  vs' ← unlink_to_at c vs e.chunk_offset e.entry_offset
  ok (vs', m)

unfoldable pub relink_all :
    Config → List MovedEntry → ValueStorage → Memory → Run (ValueStorage × Memory)
unfolding relink
relink_all c [] vs m = ok (vs, m)
relink_all c (e ∷ rest) vs m = do (vs', m') ← relink c e.op_type e vs m; relink_all c rest vs' m'

unfoldable pub gc_sync_with_at : Config → ValueStorage → Memory → Run (ValueStorage × Memory)
unfolding relink_all sort_moved_entry
gc_sync_with_at c vs m = do
  (vs', m') ← relink_all c (sort_moved_entry vs.gc_w_chunk.moved_entry_list) vs m
  ok (record vs' { gc_w_chunk = record (vs'.gc_w_chunk) { moved_entry_list = [] } }, m')
