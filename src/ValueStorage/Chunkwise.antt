-- ===== src/ValueStorage/Chunkwise.antt =====
-- PRISM/src/ValueStorage.cpp: a chunk is read in pieces.
use hkv.Base.{ℕ, zero, suc, ◌+◌, ◌*◌, ◌/◌, ◌≡◌, sym, ap, ◌∙◌, ◌∷◌, ◌++◌, arith}
use hkv.Config.{Config}
use hkv.ValueStorage.{VsEntry, ValueStorage}
use hkv.ValueStorage.Buffer.{IoUring, read_pieces, read_gc_r_chunk}
use hkv.ValueStorage.Sorted.{IsFaithful, slice}

suc_first : (a b : ℕ) → suc (a + b) ≡ suc a + b
suc_first a b = omega arith

slice-append :
    (disk : ℕ → VsEntry) (offset a b : ℕ)
    → slice disk offset a ++ slice disk (offset + a) b ≡ slice disk offset (a + b)
slice-append disk offset zero b =
    ap (λ o. slice disk o b) (omega arith) ∙ ap (slice disk offset) (omega arith)
slice-append disk offset (suc a) b =
    ap (λ l. disk offset ∷ l)
      (ap (λ o. slice disk (offset + 1) a ++ slice disk o b) (omega arith)
        ∙ slice-append disk (offset + 1) a b)
    ∙ ap (slice disk offset) (suc_first a b)

read_pieces-slice :
    (io : IoUring) (disk : ℕ → VsEntry) (q piece offset : ℕ)
    → IsFaithful io
    → read_pieces io disk q piece offset ≡ slice disk offset (q * piece)
unfolding read_pieces
read_pieces-slice io disk zero piece offset f =
    let none : 0 ≡ 0 * piece = grind arith in ap (slice disk offset) none
read_pieces-slice io disk (suc q) piece offset f =
    let all : piece + q * piece ≡ suc q * piece = grind arith in
    ap (λ l. l ++ read_pieces io disk q piece (offset + piece)) (f.read disk offset piece)
    ∙ ap (λ l. slice disk offset piece ++ l) (read_pieces-slice io disk q piece (offset + piece) f)
    ∙ slice-append disk offset piece (q * piece)
    ∙ ap (slice disk offset) all

-- The entries of a chunk as the disk holds them.
pub read_gc_r_chunk-slice :
    (io : IoUring) (c : Config) (vs : ValueStorage) (chunk : ℕ)
    → IsFaithful io
    → c.entries_per_chunk ≡ c.gc_qd * (c.entries_per_chunk / c.gc_qd)
    → read_gc_r_chunk io c vs chunk
      ≡ slice vs.disk (chunk * c.entries_per_chunk) c.entries_per_chunk
unfolding read_gc_r_chunk
read_gc_r_chunk-slice io c vs chunk f even =
    read_pieces-slice io vs.disk c.gc_qd (c.entries_per_chunk / c.gc_qd)
      (chunk * c.entries_per_chunk) f
    ∙ ap (slice vs.disk (chunk * c.entries_per_chunk)) (sym even)
