-- ===== src/Base/Sort.antt =====
-- `std::sort` by a number: insertion sort, which keeps the order of equal keys. The standard library
-- leaves that order open, so a result that hangs on it asks for distinct keys; the order is then the
-- only one, which the module Order shows.
use Prim.Native.Nat.{ℕ, ◌≤◌, suc}
use mathlib.Core.Path.{◌≡◌, refl, ap, ◌∙◌}
use mathlib.Core.List.{List, [], ◌∷◌, map, Perm}
use mathlib.Core.List.Perm
use native.Mathlib.Omega.{arith}
use mathlib.Core.Logic.{inl, inr}
use hkv.Base.Tests.{leb, leb→le, leb-false→le, if◌then◌else◌, Bool-cases}
use hkv.Base.Lists.{length, All, All-mono}

module _ {ℓ} {A : Type ℓ} where
  unfoldable pub insert_by : (A → ℕ) → A → List A → List A
  insert_by f a [] = a ∷ []
  insert_by f a (x ∷ xs) = if leb (f a) (f x) then a ∷ x ∷ xs else x ∷ insert_by f a xs

  unfoldable pub sort_by : (A → ℕ) → List A → List A
  unfolding insert_by
  sort_by f [] = []
  sort_by f (x ∷ xs) = insert_by f x (sort_by f xs)

  pub length-insert_by :
      (f : A → ℕ) (a : A) (xs : List A) → length (insert_by f a xs) ≡ suc (length xs)
  unfolding insert_by
  length-insert_by f a [] = refl
  length-insert_by f a (x ∷ xs) = ground (arith, length-insert_by f a xs)

  pub length-sort_by : (f : A → ℕ) (xs : List A) → length (sort_by f xs) ≡ length xs
  unfolding sort_by
  length-sort_by f [] = refl
  length-sort_by f (x ∷ xs) = length-insert_by f x (sort_by f xs) ∙ ap suc (length-sort_by f xs)

  pub All-insert_by {κ} :
      (P : A → Type κ) (f : A → ℕ) (a : A) (xs : List A) → P a → All P xs → All P (insert_by f a xs)
  unfolding insert_by
  All-insert_by P f a [] h k = (h, tt)
  All-insert_by P f a (x ∷ xs) h k = elim (Bool-cases (leb (f a) (f x))) [
    | inl e ↦ rw e (h, k)
    | inr e ↦ rw e (k.0, All-insert_by P f a xs h k.1)
  ]

  pub All-sort_by {κ} : (P : A → Type κ) (f : A → ℕ) (xs : List A) → All P xs → All P (sort_by f xs)
  unfolding sort_by
  All-sort_by P f [] k = tt
  All-sort_by P f (x ∷ xs) k = All-insert_by P f x (sort_by f xs) k.0 (All-sort_by P f xs k.1)

  All-of_insert_by {κ} :
      (P : A → Type κ) (f : A → ℕ) (a : A) (xs : List A) → All P (insert_by f a xs) → P a × All P xs
  unfolding insert_by
  All-of_insert_by P f a [] h = (h.0, tt)
  All-of_insert_by P f a (x ∷ xs) h = elim (Bool-cases (leb (f a) (f x))) [
    | inl e ↦ let k = rw e at h in (k.0, k.1)
    | inr e ↦ let k = rw e at h in let r = All-of_insert_by P f a xs k.1 in (r.0, (k.0, r.1))
  ]

  pub All-of_sort_by {κ} :
      (P : A → Type κ) (f : A → ℕ) (xs : List A) → All P (sort_by f xs) → All P xs
  unfolding sort_by
  All-of_sort_by P f [] h = tt
  All-of_sort_by P f (x ∷ xs) h =
      let r = All-of_insert_by P f x (sort_by f xs) h in (r.0, All-of_sort_by P f xs r.1)

  insert_by-perm : (f : A → ℕ) (a : A) (xs : List A) → Perm (insert_by f a xs) (a ∷ xs)
  unfolding insert_by
  insert_by-perm f a [] = Perm.refl _
  insert_by-perm f a (x ∷ xs) = elim (Bool-cases (leb (f a) (f x))) [
    | inl e ↦ rw e (Perm.refl _)
    | inr e ↦ rw e (Perm.trans (Perm.cons x (insert_by-perm f a xs)) (Perm.swap a x xs))
  ]

  pub sort_by-perm : (f : A → ℕ) (xs : List A) → Perm (sort_by f xs) xs
  unfolding sort_by
  sort_by-perm f [] = Perm.refl _
  sort_by-perm f (x ∷ xs) =
      Perm.trans (insert_by-perm f x (sort_by f xs)) (Perm.cons x (sort_by-perm f xs))

  -- Keys that rise along the list.
  abbrev pub IsSorted : (A → ℕ) → List A → Type 0
  IsSorted f [] = Unit {0}
  IsSorted f (x ∷ xs) = All (λ y. f x ≤ f y) xs × IsSorted f xs

  pub insert_by-IsSorted :
      (f : A → ℕ) (a : A) (xs : List A) → IsSorted f xs → IsSorted f (insert_by f a xs)
  unfolding insert_by
  insert_by-IsSorted f a [] s = (tt, tt)
  insert_by-IsSorted f a (x ∷ xs) s = elim (Bool-cases (leb (f a) (f x))) [
    | inl e ↦ rw e ((leb→le _ _ e, All-mono xs (λ y h. omega (arith, leb→le _ _ e)) s.0), s)
    | inr e ↦ rw e (All-insert_by _ f a xs (leb-false→le _ _ e) s.0, insert_by-IsSorted f a xs s.1)
  ]

  pub sort_by-IsSorted : (f : A → ℕ) (xs : List A) → IsSorted f (sort_by f xs)
  unfolding sort_by
  sort_by-IsSorted f [] = tt
  sort_by-IsSorted f (x ∷ xs) = insert_by-IsSorted f x (sort_by f xs) (sort_by-IsSorted f xs)

-- Sorting looks at the keys alone, so it commutes with a map that keeps them.
module _ {ℓ κ} {A : Type ℓ} {B : Type κ} where
  map-insert_by :
      (g : A → B) (f : B → ℕ) (a : A) (xs : List A)
      → map g (insert_by (λ x. f (g x)) a xs) ≡ insert_by f (g a) (map g xs)
  unfolding insert_by
  map-insert_by g f a [] = refl
  map-insert_by g f a (x ∷ xs) = elim (Bool-cases (leb (f (g a)) (f (g x)))) [
    | inl e ↦ rw e
    | inr e ↦ rw e (ap (λ l. g x ∷ l) (map-insert_by g f a xs))
  ]

  pub map-sort_by :
      (g : A → B) (f : B → ℕ) (xs : List A)
      → map g (sort_by (λ x. f (g x)) xs) ≡ sort_by f (map g xs)
  unfolding sort_by
  map-sort_by g f [] = refl
  map-sort_by g f (x ∷ xs) =
      map-insert_by g f x (sort_by (λ x. f (g x)) xs) ∙ ap (insert_by f (g x)) (map-sort_by g f xs)
