-- ===== src/ValueStorage/Ordered.antt =====
-- Sorting with distinct keys, in PRISM/src/ValueStorage.cpp: whatever order `std::sort` gives to equal
-- ones, sort_w_buffer and sort_moved_entry have one result.
use hkv.Base.{ℕ, subst, ◌≡◌, ap, ◌∙◌, sym, ◌≢◌, List, [], ◌∷◌, map, All}
use hkv.Base.Sort.{IsSorted, sort_by, sort_by-IsSorted, sort_by-perm}
use hkv.Base.Order.{Distinct, Distinct-Apart, Apart, sort_by-only}
use mathlib.Core.List.{Perm, Mem, mem-cons_self, mem-cons_of_mem, eq-or-mem_of_mem-cons, Mem-prop}
use mathlib.Core.Logic.Or
use native.Mathlib.Nat.{ℕ_set}
use hkv.ValueStorage.{VsEntry}
use hkv.ValueStorage.Buffer.{deal, sort_moved_entry}
use hkv.ValueStorage.Moved.{Copied, copies, notes, doubled, map-notes}
use hkv.ValueStorage.Sorted.{vs_pair}

VsEntry-IsSet : IsSet VsEntry
VsEntry-IsSet = hlevel ℕ_set

Pair-IsSet : IsSet (ℕ × ℕ)
Pair-IsSet = hlevel ℕ_set

All-keys :
    (k : ℕ) (es : List VsEntry)
    → All (λ e. e.key ≢ k) es
    → All (λ (p : ℕ × ℕ). p.0 ≢ k) (map vs_pair es)
All-keys k [] h = tt
All-keys k (e ∷ es) h = (h.0, All-keys k es h.1)

Distinct-pairs :
    (es : List VsEntry)
    → Distinct (λ (e : VsEntry). e.key) es
    → Distinct (λ (p : ℕ × ℕ). p.0) (map vs_pair es)
Distinct-pairs [] d = tt
Distinct-pairs (e ∷ es) d = (All-keys e.key es d.0, Distinct-pairs es d.1)

module _ {ℓ} {A : Type ℓ} where
  Mem-doubled : (xs : List A) (x : A) → Mem x (doubled xs) → Mem x xs
  Mem-doubled [] x m = m
  Mem-doubled (y ∷ ys) x m =
      Or.elim Mem-prop (eq-or-mem_of_mem-cons m)
        (λ e. subst (λ z. Mem z (y ∷ ys)) (sym e) mem-cons_self)
        (λ n.
          Or.elim Mem-prop (eq-or-mem_of_mem-cons n)
            (λ e. subst (λ z. Mem z (y ∷ ys)) (sym e) mem-cons_self)
            (λ o. mem-cons_of_mem y (Mem-doubled ys x o)))

-- `entries` and `pairs` are what `std::sort` makes of the copies `cs` in the buffer, and of the pairs
-- of a key and a table entry in their notes.
pub record SortResult (cs : List Copied) (entries : List VsEntry) (pairs : List (ℕ × ℕ))
    : Type 0 where
  pub entries_rise : IsSorted (λ e. e.key) entries
  pub entries_all : Perm entries (copies cs)
  pub pairs_rise : IsSorted (λ p. p.0) pairs
  pub pairs_all : Perm pairs (doubled (map vs_pair (copies cs)))

-- The orders that the collection of the copies `cs` to `chunk` takes are `entries` and `pairs`.
abbrev pub TakesOrder : ℕ → List Copied → List VsEntry → List (ℕ × ℕ) → Type 0
TakesOrder chunk cs entries pairs =
    (sort_by (λ e. e.key) (copies cs) ≡ entries)
    × (sort_moved_entry (notes chunk 0 cs) ≡ deal (notes chunk 0 cs) pairs)

pub takes_order :
    (chunk : ℕ) (cs : List Copied) (entries : List VsEntry) (pairs : List (ℕ × ℕ))
    → Distinct (λ (e : VsEntry). e.key) (copies cs)
    → SortResult cs entries pairs
    → TakesOrder chunk cs entries pairs
unfolding sort_moved_entry
takes_order chunk cs entries pairs d r =
    let apart : Apart (λ (p : ℕ × ℕ). p.0) (doubled (map vs_pair (copies cs))) = λ x y mx my e.
      Distinct-Apart Pair-IsSet (λ p. p.0) (map vs_pair (copies cs)) (Distinct-pairs (copies cs) d)
        x y (Mem-doubled _ x mx) (Mem-doubled _ y my) e in
    (
      sort_by-only (λ e. e.key) (copies cs) entries (Distinct-Apart VsEntry-IsSet _ (copies cs) d)
          r.entries_rise r.entries_all,
      ap (deal (notes chunk 0 cs)) (
          ap (sort_by (λ (p : ℕ × ℕ). p.0)) (map-notes chunk 0 cs)
          ∙ sort_by-only (λ p. p.0) (doubled (map vs_pair (copies cs))) pairs apart r.pairs_rise
              r.pairs_all),
    )

pub sort_by-SortResult :
    (cs : List Copied)
    → SortResult cs
        (sort_by (λ e. e.key) (copies cs))
        (sort_by (λ p. p.0) (doubled (map vs_pair (copies cs))))
sort_by-SortResult cs = record {
  entries_rise = sort_by-IsSorted (λ e. e.key) (copies cs);
  entries_all = sort_by-perm (λ e. e.key) (copies cs);
  pairs_rise = sort_by-IsSorted (λ p. p.0) (doubled (map vs_pair (copies cs)));
  pairs_all = sort_by-perm (λ p. p.0) (doubled (map vs_pair (copies cs)));
}
