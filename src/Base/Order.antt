-- ===== src/Base/Order.antt =====
-- The order that `std::sort` gives: where keys tell the elements of a list apart, it has one only.
use Prim.Native.Nat.{ℕ, ◌≤◌}
use mathlib.Core.Path.{◌≡◌, sym, ap, ap₂, subst, ◌∙◌}
use mathlib.Core.Logic.{◌≢◌}
use mathlib.Core.Logic.Or
use mathlib.Core.HLevel.{¬_prop}
use mathlib.Core.List.{
  List, [], ◌∷◌, Perm, Mem, mem-cons_self, mem-cons_of_mem, eq-or-mem_of_mem-cons, not-mem-nil,
}
use mathlib.Core.List.Perm
use native.Mathlib.Omega.{arith}
use native.Mathlib.Bridge.{le_prop}
use hkv.Base.Lists.{All}
use hkv.Base.Sort.{sort_by, sort_by-perm, sort_by-IsSorted, IsSorted}

module _ {ℓ} {A : Type ℓ} where
  All-Mem {κ} :
      (P : A → Type κ) (xs : List A) (x : A) → ((y : A) → IsProp (P y)) → All P xs → Mem x xs → P x
  All-Mem P [] x prop h m = absurd (not-mem-nil m)
  All-Mem P (y ∷ ys) x prop h m =
      Or.elim (prop x) (eq-or-mem_of_mem-cons m) (λ e. subst P (sym e) h.0)
        (λ n. All-Mem P ys x prop h.1 n)

  -- No two elements have one key.
  abbrev pub Distinct : (A → ℕ) → List A → Type 0
  Distinct f [] = Unit {0}
  Distinct f (x ∷ xs) = All (λ y. f y ≢ f x) xs × Distinct f xs

  -- The keys tell the elements apart.
  abbrev pub Apart : (A → ℕ) → List A → Type ℓ
  Apart f xs = (x y : A) → Mem x xs → Mem y xs → f x ≡ f y → x ≡ y

  pub Distinct-Apart : IsSet A → (f : A → ℕ) (xs : List A) → Distinct f xs → Apart f xs
  Distinct-Apart set f [] d x y mx my same = absurd (not-mem-nil mx)
  Distinct-Apart set f (z ∷ zs) d x y mx my same =
      Or.elim (set x y) (eq-or-mem_of_mem-cons mx)
        (λ ex.
          Or.elim (set x y) (eq-or-mem_of_mem-cons my) (λ ey. ex ∙ sym ey)
            (λ ny.
              absurd (All-Mem (λ w. f w ≢ f z) zs y (λ w. ¬_prop) d.0 ny (sym same ∙ ap f ex))))
        (λ nx.
          Or.elim (set x y) (eq-or-mem_of_mem-cons my)
            (λ ey. absurd (All-Mem (λ w. f w ≢ f z) zs x (λ w. ¬_prop) d.0 nx (same ∙ ap f ey)))
            (λ ny. Distinct-Apart set f zs d.1 x y nx ny same))

  head_le :
      (f : A → ℕ) (a b : A) (l r : List A) → IsSorted f (a ∷ l) → Perm (b ∷ r) (a ∷ l) → f a ≤ f b
  head_le f a b l r s p =
      All-Mem (λ y. f a ≤ f y) (a ∷ l) b (λ y. le_prop) (omega arith, s.0)
        ((Perm.mem_iff p).0 mem-cons_self)

  IsSorted-unique :
      (f : A → ℕ) (l r : List A) → Apart f l → IsSorted f l → IsSorted f r → Perm l r → l ≡ r
  IsSorted-unique f [] r apart sl sr p = Perm.nil-eq p
  IsSorted-unique f (a ∷ l) [] apart sl sr p = Perm.eq-nil p
  IsSorted-unique f (a ∷ l) (b ∷ r) apart sl sr p =
      let up = head_le f a b l r sl (Perm.symm p) in
      let down = head_le f b a r l sr p in
      let heads : a ≡ b =
        apart a b mem-cons_self ((Perm.mem_iff (Perm.symm p)).0 mem-cons_self)
          (omega (arith, up, down)) in
      let tails = Perm.cons_inv (Perm.trans p (Perm.symm (Perm.cons' heads Perm.rfl))) in
      ap₂ ◌∷◌ heads (
        IsSorted-unique f l r
          (λ x y mx my e. apart x y (mem-cons_of_mem a mx) (mem-cons_of_mem a my) e) sl.1 sr.1
          tails)

  -- Any arrangement of the elements by rising keys is the one of `sort_by`.
  pub sort_by-only :
      (f : A → ℕ) (xs ys : List A) → Apart f xs → IsSorted f ys → Perm ys xs → sort_by f xs ≡ ys
  sort_by-only f xs ys apart s p =
      let q = sort_by-perm f xs in
      IsSorted-unique f (sort_by f xs) ys
        (λ x y mx my. apart x y ((Perm.mem_iff q).0 mx) ((Perm.mem_iff q).0 my))
        (sort_by-IsSorted f xs) s (Perm.trans q (Perm.symm p))
