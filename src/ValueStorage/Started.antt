-- ===== src/ValueStorage/Started.antt =====
-- put_vs_entry of PRISM/src/ValueStorage.cpp: the first entry of a chunk prepares it, the next ones go
-- behind.
use hkv.Base.{
  ℕ, ◌<◌, ◌≡◌, refl, sym, ap, subst, ◌∙◌, ◌≢◌, ◌⊎◌, inl, inr, true, false, List, [], ◌∷◌, ◌++◌, map,
  arith, ok, length, length-append, update_self, All, lt→ltb, ◌==◌,
}
use hkv.Config.{Config}
use hkv.Memory.{Memory, load_at, store_at, pre_valuestorage_val}
use hkv.ValueStorage.{VsEntry, WChunk, ValueStorage, count, not_enough_free_chunk}
use hkv.ValueStorage.Buffer.{IoUring, key_and_at}
use hkv.ValueStorage.Sorted.{Slots}
use hkv.ValueStorage.Chunks.{HasEmpty, get_free_chunk_offset-FirstFree}
use hkv.ValueStorage.Filling.{Buffered, appended, appended-Buffered}
use hkv.ValueStorage.Put.{
  append_entry, collect_if_low, init_w_chunk, fill_chunk, put_vs_entry, set_chunk,
}

-- The entry that a value on its way to the disk has in the table.
abbrev pub mark : ℕ → Memory → Memory
mark a m = store_at a (record (m.at a) { vs_offset = pre_valuestorage_val }) m

-- A buffer that is to be begun, with enough free chunks and one of them empty.
pub record Fresh (c : Config) (vs : ValueStorage) (i : ℕ) (tail : List VsEntry) : Type 0 where
  pub begins : (vs.w_chunk i).entry_offset ≡ 0
  pub contents : (vs.w_chunk i).w_buffer ≡ tail
  pub none_moved : (vs.w_chunk i).moved_entry_list ≡ []
  pub whole : length tail ≡ c.entries_per_chunk
  pub enough : not_enough_free_chunk c vs ≡ false
  pub in_file : All (λ ch. ch < c.chunk_num) vs.free_chunk_list
  pub has_empty : HasEmpty c vs vs.free_chunk_list

-- A buffer with entries, whose chunk holds no valid entry yet.
pub record Begun (c : Config) (vs : ValueStorage) (i : ℕ) (es tail : List VsEntry) : Type 0 where
  pub buffered : Buffered c (vs.w_chunk i) es tail
  pub some_in : 0 < length es
  pub empty : count c vs (vs.w_chunk i).chunk_offset ≡ 0

-- What filling a buffer leaves alone.
pub record SameFile (vs vs' : ValueStorage) : Type 0 where
  pub bitmap : vs'.bitmap ≡ vs.bitmap
  pub disk : vs'.disk ≡ vs.disk
  pub id : vs'.vs_id ≡ vs.vs_id

pub trans-SameFile : (a b d : ValueStorage) → SameFile a b → SameFile b d → SameFile a d
trans-SameFile a b d h k = record {
  bitmap = k.bitmap ∙ h.bitmap;
  disk = k.disk ∙ h.disk;
  id = k.id ∙ h.id;
}

abbrev pub Ready : Config → ValueStorage → ℕ → List VsEntry → List VsEntry → Type 0
Ready c vs i es tail = ((es ≡ []) × Fresh c vs i tail) ⊎ Begun c vs i es tail

abbrev entry : ℕ → ℕ → ℕ → VsEntry
entry key val a = record { at_entry = a; key = key; val = val }

append_entry-Begun :
    (c : Config) (i key val a : ℕ) (vs : ValueStorage) (m : Memory) (es tail : List VsEntry)
    (x : VsEntry)
    → a ≢ 0
    → Buffered c (vs.w_chunk i) es (x ∷ tail)
    → count c vs (vs.w_chunk i).chunk_offset ≡ 0
    → (vs' : ValueStorage) × (append_entry i key val a vs m ≡ ok (vs', mark a m))
      × Begun c vs' i (es ++ entry key val a ∷ []) tail
      × SameFile vs vs'
unfolding append_entry load_at count
append_entry-Begun c i key val a vs m es tail x ne b empty =
    let e = entry key val a in
    let chunk = appended (vs.w_chunk i) e in
    let now : chunk ≡ (set_chunk vs i chunk).w_chunk i = sym (update_self vs.w_chunk i chunk) in
    (
      set_chunk vs i chunk,
      ground arith,
      record {
        buffered =
            subst (λ ch. Buffered c ch (es ++ e ∷ []) tail) now
              (appended-Buffered c (vs.w_chunk i) es tail x e ne b);
        some_in = omega (arith, length-append {0} es (e ∷ []));
        empty = ap (λ (ch : WChunk). count c vs ch.chunk_offset) (sym now) ∙ empty;
      },
      record { bitmap = refl; disk = refl; id = refl },
    )

fill_chunk-room :
    (io : IoUring) (c : Config) (i key val a : ℕ) (vs : ValueStorage) (m : Memory)
    → (vs.w_chunk i).entry_offset < c.entries_per_chunk
    → fill_chunk io c i key val a vs m ≡ append_entry i key val a vs m
unfolding fill_chunk
fill_chunk-room io c i key val a vs m lt = rw (lt→ltb _ _ lt) refl

-- The storage with a chunk just prepared.
abbrev prepared : ℕ → ℕ → List ℕ → ValueStorage → ValueStorage
prepared i chunk rest vs =
    let vs2 : ValueStorage = record vs {
      is_writing = true;
      gc_done = false;
      free_chunk_list = rest;
    } in
    record (set_chunk vs2 i
      (record (vs2.w_chunk i) { chunk_offset = chunk; entry_offset = 0; buffers_set = true })) {
        is_writing = false;
      }

prepared-Buffered :
    (c : Config) (i : ℕ) (vs : ValueStorage) (tail : List VsEntry) (chunk : ℕ) (rest : List ℕ)
    → chunk < c.chunk_num
    → Fresh c vs i tail
    → Buffered c ((prepared i chunk rest vs).w_chunk i) [] tail
prepared-Buffered c i vs tail chunk rest inside fresh =
    subst (λ ch. Buffered c ch [] tail) (sym (update_self vs.w_chunk i _))
      (record {
        set_up = refl;
        inside = inside;
        filled_to = refl;
        contents = fresh.contents;
        whole = fresh.whole;
        slots = subst (Slots chunk 0) (sym fresh.none_moved) tt;
        pairs = ap (map key_and_at) fresh.none_moved;
        in_use = tt;
      })

prepared-empty :
    (c : Config) (i : ℕ) (vs : ValueStorage) (chunk : ℕ) (rest : List ℕ)
    → count c vs chunk ≡ 0
    → count c (prepared i chunk rest vs) ((prepared i chunk rest vs).w_chunk i).chunk_offset ≡ 0
unfolding count
prepared-empty c i vs chunk rest e =
    ap (λ (ch : WChunk). count c vs ch.chunk_offset) (update_self vs.w_chunk i _) ∙ e

init_w_chunk-prepared :
    (io : IoUring) (c : Config) (i : ℕ) (vs : ValueStorage) (m : Memory)
    → not_enough_free_chunk c vs ≡ false
    → All (λ ch. ch < c.chunk_num) vs.free_chunk_list
    → HasEmpty c vs vs.free_chunk_list
    → (chunk : ℕ) × (rest : List ℕ) × (init_w_chunk io c i vs m ≡ ok (prepared i chunk rest vs, m))
      × (chunk < c.chunk_num)
      × (count c vs chunk ≡ 0)
unfolding init_w_chunk collect_if_low count
init_w_chunk-prepared io c i vs m enough in_file has_empty =
    let (chunk, rest, run, first) =
      get_free_chunk_offset-FirstFree c (record vs { is_writing = true; gc_done = false }) in_file
        has_empty in
    (chunk, rest, rw (enough, run) refl, first.inside, first.empty)

-- The buffer is begun and has room, or it is not begun and unused, while the storage is not short of
-- free chunks (the used ones are not above VS_HIGH_MARK) and has an empty one on its free list. Then
-- put_vs_entry of an entry with a table entry takes it as the next one of the buffer and marks its
-- table entry; nothing becomes valid yet, and the file stays.
pub put_vs_entry-Begun :
    (io : IoUring) (c : Config) (i key val a : ℕ) (vs : ValueStorage) (m : Memory)
    (es tail : List VsEntry) (x : VsEntry)
    → a ≢ 0
    → Ready c vs i es (x ∷ tail)
    → (vs' : ValueStorage) × (put_vs_entry io c i key val a vs m ≡ ok (vs', mark a m))
      × Begun c vs' i (es ++ entry key val a ∷ []) tail
      × SameFile vs vs'
unfolding put_vs_entry
put_vs_entry-Begun io c i key val a vs m es tail x ne (inl (none_in, fresh)) =
    let (chunk, rest, init, inside, empty) =
      init_w_chunk-prepared io c i vs m fresh.enough fresh.in_file fresh.has_empty in
    let b = prepared-Buffered c i vs (x ∷ tail) chunk rest inside fresh in
    let vs1 = prepared i chunk rest vs in
    let begins : ((vs.w_chunk i).entry_offset == 0) ≡ true = ground (arith, fresh.begins) in
    let room : (vs1.w_chunk i).entry_offset < c.entries_per_chunk =
      omega (arith, b.filled_to, fresh.whole) in
    let (vs', run, b', same) =
      append_entry-Begun c i key val a vs1 m [] tail x ne b
        (prepared-empty c i vs chunk rest empty) in
    (
      vs',
      rw (begins, init) (fill_chunk-room io c i key val a vs1 m room ∙ run),
      subst (λ l. Begun c vs' i (l ++ entry key val a ∷ []) tail) (sym none_in) b',
      record { bitmap = same.bitmap; disk = same.disk; id = same.id },
    )
put_vs_entry-Begun io c i key val a vs m es tail x ne (inr b) =
    let filled : (vs.w_chunk i).entry_offset ≡ length es = b.buffered.filled_to in
    let later : ((vs.w_chunk i).entry_offset == 0) ≡ false = ground (arith, filled, b.some_in) in
    let room : (vs.w_chunk i).entry_offset < c.entries_per_chunk =
      omega (arith, filled, b.buffered.whole, length-append {0} es (x ∷ tail)) in
    let (vs', run, b', same) =
      append_entry-Begun c i key val a vs m es tail x ne b.buffered b.empty in
    (vs', rw later (fill_chunk-room io c i key val a vs m room ∙ run), b', same)
