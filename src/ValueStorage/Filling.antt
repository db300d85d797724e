-- ===== src/ValueStorage/Filling.antt =====
-- Filling a write chunk in PRISM/src/ValueStorage.cpp: put_vs_entry appends to the buffer.
use hkv.Base.{
  ℕ, ◌+◌, ◌<◌, ◌≡◌, refl, sym, ap, subst, ◌∙◌, ◌≢◌, true, List, [], ◌∷◌, ◌++◌, map, arith, ok,
  length, length-append, length-map, update_self, All, All-append, set,
}
use mathlib.Core.List.{map-append}
use hkv.Config.{Config}
use hkv.Memory.{Memory, load_at, store_at, pre_valuestorage_val}
use hkv.ValueStorage.{VsEntry, MovedEntry, Operation, WChunk, ValueStorage}
use hkv.ValueStorage.Buffer.{key_and_at}
use hkv.ValueStorage.Put.{append_entry, set_chunk}
use hkv.ValueStorage.Sorted.{vs_pair, Slots}

-- The chunk holds the entries `es`, in the order of the calls, and `tail` behind them.
pub record Buffered (c : Config) (chunk : WChunk) (es tail : List VsEntry) : Type 0 where
  pub set_up : chunk.buffers_set ≡ true
  pub inside : chunk.chunk_offset < c.chunk_num
  pub filled_to : chunk.entry_offset ≡ length es
  pub contents : chunk.w_buffer ≡ es ++ tail
  pub whole : length (es ++ tail) ≡ c.entries_per_chunk
  pub slots : Slots chunk.chunk_offset 0 chunk.moved_entry_list
  pub pairs : map key_and_at chunk.moved_entry_list ≡ map vs_pair es
  pub in_use : All (λ e. e.at_entry ≢ 0) es

set_next :
    (es : List VsEntry) (x e : VsEntry) (tail : List VsEntry) (n : ℕ)
    → n ≡ length es
    → set (es ++ x ∷ tail) n e ≡ (es ++ e ∷ []) ++ tail
set_next [] x e tail n h = rw h
set_next (y ∷ es) x e tail n h = rw h (ap (λ l. y ∷ l) (set_next es x e tail _ refl))

Slots-snoc :
    (chunk i : ℕ) (moved : List MovedEntry) (x : MovedEntry) (n : ℕ)
    → n ≡ i + length moved
    → Slots chunk i moved
    → x.chunk_offset ≡ chunk
    → x.entry_offset ≡ n
    → Slots chunk i (moved ++ x ∷ [])
Slots-snoc chunk i [] x n h s p q = (p, q ∙ omega arith, tt)
Slots-snoc chunk i (y ∷ moved) x n h s p q =
    (s.0, s.1, Slots-snoc chunk (i + 1) moved x n (omega arith) s.2 p q)

abbrev pub appended : WChunk → VsEntry → WChunk
appended chunk e = record chunk {
  w_buffer = set chunk.w_buffer chunk.entry_offset e;
  moved_entry_list =
      chunk.moved_entry_list
      ++ record {
        key = e.key;
        at_entry = e.at_entry;
        chunk_offset = chunk.chunk_offset;
        entry_offset = chunk.entry_offset;
        op_type = Operation.insert;
      }
        ∷ [];
  entry_offset = chunk.entry_offset + 1;
}

length-moved :
    (c : Config) (chunk : WChunk) (es tail : List VsEntry)
    → Buffered c chunk es tail
    → length chunk.moved_entry_list ≡ length es
length-moved c chunk es tail b = omega (
  arith,
  length-map {0, 0} chunk.moved_entry_list key_and_at,
  ap length b.pairs,
  length-map {0, 0} es vs_pair,
)

pub appended-Buffered :
    (c : Config) (chunk : WChunk) (es tail : List VsEntry) (x e : VsEntry)
    → e.at_entry ≢ 0
    → Buffered c chunk es (x ∷ tail)
    → Buffered c (appended chunk e) (es ++ e ∷ []) tail
appended-Buffered c chunk es tail x e ne b = record {
  set_up = b.set_up;
  inside = b.inside;
  filled_to = omega (arith, b.filled_to, length-append {0} es (e ∷ []));
  contents = ap (λ w. set w chunk.entry_offset e) b.contents ∙ set_next es x e tail _ b.filled_to;
  whole = omega (
    arith,
    b.whole,
    length-append {0} es (x ∷ tail),
    length-append {0} (es ++ e ∷ []) tail,
    length-append {0} es (e ∷ []),
  );
  slots =
      Slots-snoc chunk.chunk_offset 0 chunk.moved_entry_list _ chunk.entry_offset
        (omega (arith, b.filled_to, length-moved c chunk es (x ∷ tail) b)) b.slots refl refl;
  pairs =
      map-append key_and_at chunk.moved_entry_list _
      ∙ ap (λ l. l ++ vs_pair e ∷ []) b.pairs
      ∙ sym (map-append vs_pair es (e ∷ []));
  in_use = All-append (λ y. y.at_entry ≢ 0) es (e ∷ []) b.in_use (ne, tt);
}

-- With room left, `put_vs_entry` appends the entry and marks its address-table entry as on its way
-- to the disk; the buffer of the chunk stays in step with its list of moved entries.
pub append_entry-Buffered :
    (c : Config) (i key val a : ℕ) (vs : ValueStorage) (m : Memory) (es tail : List VsEntry)
    (x : VsEntry)
    → a ≢ 0
    → Buffered c (vs.w_chunk i) es (x ∷ tail)
    → (vs' : ValueStorage) × (m' : Memory) × (append_entry i key val a vs m ≡ ok (vs', m'))
      × Buffered c (vs'.w_chunk i) (es ++ record { at_entry = a; key = key; val = val } ∷ []) tail
      × (m' ≡ store_at a (record (m.at a) { vs_offset = pre_valuestorage_val }) m)
unfolding append_entry load_at
append_entry-Buffered c i key val a vs m es tail x ne b =
    let e : VsEntry = record { at_entry = a; key = key; val = val } in
    (
      set_chunk vs i (appended (vs.w_chunk i) e),
      store_at a (record (m.at a) { vs_offset = pre_valuestorage_val }) m,
      ground arith,
      subst (λ ch. Buffered c ch (es ++ e ∷ []) tail) (sym (update_self vs.w_chunk i _))
          (appended-Buffered c (vs.w_chunk i) es tail x e ne b),
      refl,
    )
