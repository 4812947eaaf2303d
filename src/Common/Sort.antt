-- ===== src/Common/Sort.antt =====
-- Python's stable `sorted`, by insertion: `le x y` says that `x` may stand before `y`.
use mathlib.Core.List.Perm
use mathlib.Core.List.{Perm, List, [], ◌∷◌}
use cqrs_ddd.Common.Tests.{if◌then◌else◌, Bool-cases}
use cqrs_ddd.Common.Lists.{All, All-map, drop, take, All-take, filter}
use mathlib.Core.Path.{◌≡◌, refl, ap, ◌∙◌}
use mathlib.Core.Logic.{inl, inr}
use mathlib.Core.Bool.{Bool, true, false}
use Prim.Native.Nat.{ℕ, suc, zero}

module _ {ℓ} {A : Type ℓ} (le : A → A → Bool) where
  -- In front of the first element that it may precede.
  unfoldable pub insert_sorted : A → List A → List A
  insert_sorted x [] = x ∷ []
  insert_sorted x (y ∷ ys) = if le x y then x ∷ y ∷ ys else y ∷ insert_sorted x ys

  unfoldable pub sort_by : List A → List A
  unfolding insert_sorted
  sort_by [] = []
  sort_by (x ∷ xs) = insert_sorted x (sort_by xs)

  -- Every element may precede all behind it.
  abbrev pub IsSorted : List A → Type 0
  IsSorted [] = Unit
  IsSorted (x ∷ xs) = All (λ y. le x y ≡ true) xs × IsSorted xs

module _ {ℓ} {A : Type ℓ} (le : A → A → Bool) (total : (x y : A) → le x y ≡ false → le y x ≡ true)
    (trans : (x y z : A) → le x y ≡ true → le y z ≡ true → le x z ≡ true) where
  All-insert_sorted :
      (z x : A) (ys : List A)
      → le z x ≡ true
      → All (λ y. le z y ≡ true) ys
      → All (λ y. le z y ≡ true) (insert_sorted le x ys)
  unfolding insert_sorted
  All-insert_sorted z x [] h k = (h, tt)
  All-insert_sorted z x (y ∷ ys) h k = elim (Bool-cases (le x y)) [
    | inl e ↦ rw e (h, k)
    | inr e ↦ rw e (k.0, All-insert_sorted z x ys h k.1)
  ]

  insert_sorted-IsSorted :
      (x : A) (ys : List A) → IsSorted le ys → IsSorted le (insert_sorted le x ys)
  unfolding insert_sorted
  insert_sorted-IsSorted x [] s = (tt, tt)
  insert_sorted-IsSorted x (y ∷ ys) s = elim (Bool-cases (le x y)) [
    | inl e ↦ rw e ((e, All-map ys (λ z h. trans x y z e h) s.0), s)
    | inr e ↦ rw e (All-insert_sorted y x ys (total x y e) s.0, insert_sorted-IsSorted x ys s.1)
  ]

  pub sort_by-IsSorted : (xs : List A) → IsSorted le (sort_by le xs)
  unfolding sort_by
  sort_by-IsSorted [] = tt
  sort_by-IsSorted (x ∷ xs) = insert_sorted-IsSorted x (sort_by le xs) (sort_by-IsSorted xs)

module _ {ℓ} {A : Type ℓ} (le : A → A → Bool) where
  insert_sorted-perm : (x : A) (ys : List A) → Perm (insert_sorted le x ys) (x ∷ ys)
  unfolding insert_sorted
  insert_sorted-perm x [] = Perm.refl (x ∷ [])
  insert_sorted-perm x (y ∷ ys) = elim (Bool-cases (le x y)) [
    | inl e ↦ rw e (Perm.refl (x ∷ y ∷ ys))
    | inr e ↦ rw e (Perm.trans (Perm.cons y (insert_sorted-perm x ys)) (Perm.swap x y ys))
  ]

  pub sort_by-perm : (xs : List A) → Perm (sort_by le xs) xs
  unfolding sort_by
  sort_by-perm [] = Perm.refl []
  sort_by-perm (x ∷ xs) =
      Perm.trans (insert_sorted-perm x (sort_by le xs)) (Perm.cons x (sort_by-perm xs))

module _ {ℓ} {A : Type ℓ} (le : A → A → Bool) where
  pub take-IsSorted : (n : ℕ) (xs : List A) → IsSorted le xs → IsSorted le (take n xs)
  take-IsSorted zero xs s = tt
  take-IsSorted (suc n) [] s = tt
  take-IsSorted (suc n) (x ∷ xs) s = (All-take _ n xs s.0, take-IsSorted n xs s.1)

  pub drop-IsSorted : (n : ℕ) (xs : List A) → IsSorted le xs → IsSorted le (drop n xs)
  drop-IsSorted zero xs s = s
  drop-IsSorted (suc n) [] s = tt
  drop-IsSorted (suc n) (x ∷ xs) s = drop-IsSorted n xs s.1

  -- A predicate on the elements outlives sorting.
  All-insert {κ} :
      (P : A → Type κ) (x : A) (ys : List A) → P x → All P ys → All P (insert_sorted le x ys)
  unfolding insert_sorted
  All-insert P x [] h k = (h, tt)
  All-insert P x (y ∷ ys) h k = elim (Bool-cases (le x y)) [
    | inl e ↦ rw e (h, k)
    | inr e ↦ rw e (k.0, All-insert P x ys h k.1)
  ]

  pub All-sort_by {κ} : (P : A → Type κ) (xs : List A) → All P xs → All P (sort_by le xs)
  unfolding sort_by
  All-sort_by P [] h = tt
  All-sort_by P (x ∷ xs) h = All-insert P x (sort_by le xs) h.0 (All-sort_by P xs h.1)

  -- What holds of all elements of the sorted list holds of all elements.
  All-uninsert {κ} :
      (P : A → Type κ) (x : A) (ys : List A) → All P (insert_sorted le x ys) → P x × All P ys
  unfolding insert_sorted
  All-uninsert P x [] h = h
  All-uninsert P x (y ∷ ys) h = elim (Bool-cases (le x y)) [
    | inl e ↦ let k = rw e at h in (k.0, k.1)
    | inr e ↦ let k = rw e at h in let (px, rest) = All-uninsert P x ys k.1 in (px, (k.0, rest))
  ]

  pub All-unsort {κ} : (P : A → Type κ) (xs : List A) → All P (sort_by le xs) → All P xs
  unfolding sort_by
  All-unsort P [] h = tt
  All-unsort P (x ∷ xs) h =
      let (px, rest) = All-uninsert P x (sort_by le xs) h in (px, All-unsort P xs rest)

-- Sorting is stable: it keeps the order of elements that may precede each other.
module _ {ℓ} {A : Type ℓ} (le : A → A → Bool) (q : A → Bool)
    (tied : (x y : A) → q x ≡ true → q y ≡ true → le x y ≡ true) where
  swapped :
      (x y : A) (ys : List A)
      → (q x ≡ true → q y ≡ true → le x y ≡ true)
      → le x y ≡ false
      → filter q (y ∷ x ∷ ys) ≡ filter q (x ∷ y ∷ ys)
  swapped x y ys tie e = elim (Bool-cases (q x)) [
    | inr nx ↦ rw nx refl
    | inl hx ↦ elim (Bool-cases (q y)) [
      | inr ny ↦ rw (hx, ny) refl
      | inl hy ↦ let t = tie hx hy in cc
    ]
  ]

  filter-insert_sorted :
      (x : A) (ys : List A) → filter q (insert_sorted le x ys) ≡ filter q (x ∷ ys)
  unfolding insert_sorted
  filter-insert_sorted x [] = refl
  filter-insert_sorted x (y ∷ ys) = elim (Bool-cases (le x y)) [
    | inl e ↦ rw e refl
    | inr e ↦ rw e (
        ap (λ zs. if q y then y ∷ zs else zs) (filter-insert_sorted x ys)
        ∙ swapped x y ys (tied x y) e)
  ]

  pub filter-sort_by : (xs : List A) → filter q (sort_by le xs) ≡ filter q xs
  unfolding sort_by
  filter-sort_by [] = refl
  filter-sort_by (x ∷ xs) =
      filter-insert_sorted x (sort_by le xs)
      ∙ ap (λ ys. if q x then x ∷ ys else ys) (filter-sort_by xs)
