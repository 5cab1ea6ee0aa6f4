-- ===== src/Base/Sort.antt =====
-- `slices.SortFunc`, as an insertion sort: the orders that the program sorts by tell any two elements
-- apart, so that every sort returns this list.
use fleetdiff.Base.Tests.{if◌then◌else◌, Bool-cases}
use mathlib.Core.Logic.{inl, inr}
use fleetdiff.Base.Lists.{sum_by, All}
use Prim.Native.Nat.{ℕ, ◌+◌}
use mathlib.Core.Path.{◌≡◌, refl}
use mathlib.Core.Bool.{Bool, true, false}
use mathlib.Core.List.{List, [], ◌∷◌}
use native.Mathlib.Omega.{arith}

-- Every element stands in the relation to all that follow it.
abbrev pub IsSorted {ℓ κ} : {A : Type ℓ} → (A → A → Type κ) → List A → Type κ
IsSorted R [] = Unit
IsSorted R (x ∷ xs) = All (R x) xs × IsSorted R xs

module _ {ℓ} {A : Type ℓ} (precedes : A → A → Bool) where
  unfoldable pub insert : A → List A → List A
  insert x [] = x ∷ []
  insert x (y ∷ ys) = if precedes y x then y ∷ insert x ys else x ∷ y ∷ ys

  unfoldable pub sort : List A → List A
  unfolding insert
  sort [] = []
  sort (x ∷ xs) = insert x (sort xs)

  sum_by-insert : (f : A → ℕ) (x : A) (ys : List A) → sum_by f (insert x ys) ≡ f x + sum_by f ys
  unfolding insert
  sum_by-insert f x [] = refl
  sum_by-insert f x (y ∷ ys) = ground (arith, sum_by-insert f x ys)

  -- Sorting keeps every sum over the elements.
  pub sum_by-sort : (f : A → ℕ) (xs : List A) → sum_by f (sort xs) ≡ sum_by f xs
  unfolding sort
  sum_by-sort f [] = refl
  sum_by-sort f (x ∷ xs) = omega (arith, sum_by-insert f x (sort xs), sum_by-sort f xs)

  All-insert {κ} : (P : A → Type κ) (x : A) (ys : List A) → P x → All P ys → All P (insert x ys)
  unfolding insert
  All-insert P x [] p h = (p, tt)
  All-insert P x (y ∷ ys) p h = elim (Bool-cases (precedes y x)) [
    | inl first ↦ rw first (h.0, All-insert P x ys p h.1)
    | inr last ↦ rw last (p, h)
  ]

  pub All-sort {κ} : (P : A → Type κ) (xs : List A) → All P xs → All P (sort xs)
  unfolding sort
  All-sort P [] h = tt
  All-sort P (x ∷ xs) h = All-insert P x (sort xs) h.0 (All-sort P xs h.1)

  module _ {κ} (R : A → A → Type κ) (first : (x y : A) → precedes y x ≡ true → R y x)
      (last : (x y : A) → precedes y x ≡ false → R x y)
      (trans : (x y z : A) → R x y → R y z → R x z) where
    all_after : (x y : A) (ys : List A) → R x y → All (R y) ys → All (R x) ys
    all_after x y [] r h = tt
    all_after x y (z ∷ zs) r h = (trans x y z r h.0, all_after x y zs r h.1)

    insert-IsSorted : (x : A) (ys : List A) → IsSorted R ys → IsSorted R (insert x ys)
    unfolding insert
    insert-IsSorted x [] h = (tt, tt)
    insert-IsSorted x (y ∷ ys) h = elim (Bool-cases (precedes y x)) [
      | inl e ↦ rw e (All-insert (R y) x ys (first x y e) h.0, insert-IsSorted x ys h.1)
      | inr e ↦ rw e ((last x y e, all_after x y ys (last x y e) h.0), h)
    ]

    pub sort-IsSorted : (xs : List A) → IsSorted R (sort xs)
    unfolding sort
    sort-IsSorted [] = tt
    sort-IsSorted (x ∷ xs) = insert-IsSorted x (sort xs) (sort-IsSorted xs)
