-- ===== src/ValueStorage/Gathered.antt =====
-- Garbage collection in PRISM/src/ValueStorage.cpp: valid entries are copied into a new chunk.
use hkv.Base.{
  ℕ, ◌+◌, ◌≤◌, ◌<◌, ◌≡◌, refl, sym, ap, subst, ◌∙◌, ◌≢◌, true, false, List, [], ◌∷◌, ◌++◌, arith,
  ok, All, All-append, length, length-set, length-append, length-map, set, get_or, ◌==◌,
}
use mathlib.Core.List.{append_assoc, map-append}
use hkv.Config.{Config}
use hkv.ValueStorage.{VsEntry, blank}
use hkv.ValueStorage.Buffer.{IoUring}
use hkv.ValueStorage.Moved.{Copied, copies, notes, noted}
use hkv.ValueStorage.Relinked.{IsSource}
use hkv.ValueStorage.Collect.{GcState, Step, copy_entry, gc_entry}

-- The new chunk while entries are copied into it: the copies stand in front, each with its two notes,
-- and the rest of the buffer is unused.
pub record Gathered (c : Config) (st : GcState) (cs : List Copied) (tail : List VsEntry)
    : Type 0 where
  pub contents : st.vs.gc_w_chunk.w_buffer ≡ copies cs ++ tail
  pub whole : length st.vs.gc_w_chunk.w_buffer ≡ c.entries_per_chunk
  pub moved : st.vs.gc_w_chunk.moved_entry_list ≡ notes st.vs.gc_w_chunk.chunk_offset 0 cs
  pub next : st.w_offset ≡ length cs
  pub in_use : All (λ e. e.at_entry ≢ 0) (copies cs)
  pub unused : All (λ e. e.at_entry ≡ 0) tail
  pub inside : st.vs.gc_w_chunk.chunk_offset < c.chunk_num
  pub sources : All (IsSource c st.vs.gc_w_chunk.chunk_offset) cs

-- What copying leaves alone.
pub record Unmoved (st st' : GcState) : Type 0 where
  pub bitmap : st'.vs.bitmap ≡ st.vs.bitmap
  pub disk : st'.vs.disk ≡ st.vs.disk
  pub chunk : st'.vs.gc_w_chunk.chunk_offset ≡ st.vs.gc_w_chunk.chunk_offset
  pub id : st'.vs.vs_id ≡ st.vs.vs_id
  pub memory : st'.memory ≡ st.memory

-- The notes of one more copy.
notes-append :
    (chunk k : ℕ) (cs : List Copied) (x : Copied)
    → notes chunk k (cs ++ x ∷ []) ≡ notes chunk k cs ++ notes chunk (k + length cs) (x ∷ [])
notes-append chunk k [] x = ap (λ n. notes chunk n (x ∷ [])) (omega arith)
notes-append chunk k (y ∷ cs) x = ap (noted chunk k y.entry.at_entry y) (
    notes-append chunk (k + 1) cs x
    ∙ ap (λ n. notes chunk (k + 1) cs ++ notes chunk n (x ∷ [])) (omega arith))

set-append :
    (xs : List VsEntry) (t e : VsEntry) (tail : List VsEntry)
    → set (xs ++ t ∷ tail) (length xs) e ≡ xs ++ e ∷ tail
set-append [] t e tail = refl
set-append (x ∷ xs) t e tail = ap (λ l. x ∷ l) (set-append xs t e tail)

module _ (io : IoUring) (c : Config) (before victim i : ℕ) (r_buffer : List VsEntry) where
  -- What is copied of place `i`.
  abbrev pub copied : Copied
  copied = record { entry = get_or r_buffer i blank; victim = victim; slot = i }

  abbrev one_more : GcState → GcState
  one_more st = record st {
    vs = copy_entry victim i (get_or r_buffer i blank) st;
    w_offset = st.w_offset + 1;
  }

  one_more-Gathered :
      (st : GcState) (cs : List Copied) (t : VsEntry) (tail : List VsEntry)
      → Gathered c st cs (t ∷ tail)
      → copied.entry.at_entry ≢ 0
      → IsSource c st.vs.gc_w_chunk.chunk_offset copied
      → Gathered c (one_more st) (cs ++ copied ∷ []) tail
  unfolding copy_entry
  one_more-Gathered st cs t tail g real src =
      let e = copied.entry in
      let len : st.w_offset ≡ length (copies cs) = g.next ∙ sym (length-map cs (λ x. x.entry)) in
      let grown : copies (cs ++ copied ∷ []) ≡ copies cs ++ e ∷ [] =
        map-append (λ x. x.entry) cs (copied ∷ []) in
      record {
        contents =
            ap (λ b. set b st.w_offset e) g.contents
            ∙ ap (λ n. set (copies cs ++ t ∷ tail) n e) len
            ∙ set-append (copies cs) t e tail
            ∙ sym (ap (λ l. l ++ tail) grown ∙ append_assoc (copies cs) (e ∷ []) tail);
        whole = length-set st.vs.gc_w_chunk.w_buffer st.w_offset e ∙ g.whole;
        moved =
            append_assoc st.vs.gc_w_chunk.moved_entry_list (_ ∷ []) (_ ∷ [])
            ∙ ap (λ l. l ++ noted st.vs.gc_w_chunk.chunk_offset st.w_offset e.at_entry copied [])
                g.moved
            ∙ ap
                (λ n.
                  notes st.vs.gc_w_chunk.chunk_offset 0 cs
                  ++ notes st.vs.gc_w_chunk.chunk_offset n (copied ∷ []))
                (omega (arith, g.next))
            ∙ sym (notes-append st.vs.gc_w_chunk.chunk_offset 0 cs copied);
        next = omega (arith, g.next, length-append {0} cs (copied ∷ []));
        in_use =
            subst (All (λ x. x.at_entry ≢ 0)) (sym grown)
              (All-append _ (copies cs) (e ∷ []) g.in_use (real, tt));
        unused = g.unused.1;
        inside = g.inside;
        sources = All-append _ cs (copied ∷ []) g.sources (src, tt);
      }

  one_more-Unmoved : (st : GcState) → Unmoved st (one_more st)
  unfolding copy_entry
  one_more-Unmoved st = record {
    bitmap = refl;
    disk = refl;
    chunk = refl;
    id = refl;
    memory = refl;
  }

  -- A valid entry of a victim goes to the next place of a chunk that has room for more.
  pub gc_entry-Gathered :
      (st : GcState) (cs : List Copied) (t u : VsEntry) (tail : List VsEntry)
      → Gathered c st cs (t ∷ u ∷ tail)
      → st.vs.bitmap victim i ≡ true
      → copied.entry.at_entry ≢ 0
      → IsSource c st.vs.gc_w_chunk.chunk_offset copied
      → (st' : GcState) × (gc_entry io c before victim r_buffer i st ≡ ok (Step.continues st'))
        × Gathered c st' (cs ++ copied ∷ []) (u ∷ tail)
        × Unmoved st st'
  unfolding gc_entry
  gc_entry-Gathered st cs t u tail g valid real src =
      let more : st.w_offset + 2 ≤ c.entries_per_chunk = omega (
        arith,
        g.next,
        g.whole,
        ap length g.contents,
        length-append {0} (copies cs) (t ∷ u ∷ tail),
        length-map {0, 0} cs (λ (x : Copied). x.entry),
      ) in
      let room : (st.w_offset + 1 == c.entries_per_chunk) ≡ false = ground (arith, more) in
      (
        one_more st,
        rw (valid, room) refl,
        one_more-Gathered st cs t (u ∷ tail) g real src,
        one_more-Unmoved st,
      )
