-- ===== src/Prelude/Sorting.antt =====
-- `Array.sort` with a comparator, as a stable insertion sort, and sums over a list, a view of it that
-- forgets its order.
use Prim.Native.Nat.{ℕ, ◌+◌}
use mathlib.Core.Path.{◌≡◌, refl, sym, ◌∙◌}
use mathlib.Core.Bool.{Bool, true, false}
use mathlib.Core.List.{List, [], ◌∷◌, ◌++◌}
use native.Mathlib.Omega.{arith}
use manifest_cv.Prelude.Tests.{if◌then◌else◌}
use manifest_cv.Prelude.Lists.{length, filter, All}

module _ {ℓ} {A : Type ℓ} where
  -- `le x y` where the comparator does not put `x` after `y`.
  unfoldable pub insert_before : (A → A → Bool) → A → List A → List A
  insert_before le x [] = x ∷ []
  insert_before le x (y ∷ ys) = if le x y then x ∷ y ∷ ys else y ∷ insert_before le x ys

  unfoldable pub sort : (A → A → Bool) → List A → List A
  unfolding insert_before
  sort le [] = []
  sort le (x ∷ xs) = insert_before le x (sort le xs)

  unfoldable pub sum_by : (A → ℕ) → List A → ℕ
  sum_by f [] = 0
  sum_by f (x ∷ xs) = f x + sum_by f xs

  pub sum_by-append : (f : A → ℕ) (xs ys : List A) → sum_by f (xs ++ ys) ≡ sum_by f xs + sum_by f ys
  unfolding sum_by
  sum_by-append f [] ys = omega arith
  sum_by-append f (x ∷ xs) ys = omega (arith, sum_by-append f xs ys)

  sum_by-insert_before :
      (f : A → ℕ) (le : A → A → Bool) (x : A) (xs : List A)
      → sum_by f (insert_before le x xs) ≡ f x + sum_by f xs
  unfolding sum_by insert_before
  sum_by-insert_before f le x [] = refl
  sum_by-insert_before f le x (y ∷ ys) = ground (arith, sum_by-insert_before f le x ys)

  pub sum_by-sort :
      (f : A → ℕ) (le : A → A → Bool) (xs : List A) → sum_by f (sort le xs) ≡ sum_by f xs
  unfolding sum_by sort
  sum_by-sort f le [] = refl
  sum_by-sort f le (x ∷ xs) =
      omega (arith, sum_by-insert_before f le x (sort le xs), sum_by-sort f le xs)

  length-sum_by : (xs : List A) → length xs ≡ sum_by (λ x. 1) xs
  unfolding sum_by
  length-sum_by [] = refl
  length-sum_by (x ∷ xs) = omega (arith, length-sum_by xs)

  pub length-sort : (le : A → A → Bool) (xs : List A) → length (sort le xs) ≡ length xs
  length-sort le xs =
      length-sum_by (sort le xs) ∙ sum_by-sort (λ x. 1) le xs ∙ sym (length-sum_by xs)

  -- How many entries pass a test.
  pub length-filter-sum_by :
      (p : A → Bool) (xs : List A) → length (filter p xs) ≡ sum_by (λ x. if p x then 1 else 0) xs
  unfolding sum_by
  length-filter-sum_by p [] = refl
  length-filter-sum_by p (x ∷ xs) = ground (arith, length-filter-sum_by p xs)

  -- The first entry of a sorted list comes before all others.
  abbrev pub Sorted : (A → A → Bool) → List A → Type 0
  Sorted le [] = Unit
  Sorted le (x ∷ xs) = All (λ y. le x y ≡ true) xs × Sorted le xs

module _ {ℓ κ} {A : Type ℓ} (P : A → Type κ) (le : A → A → Bool) where
  insert_before-All : (x : A) (xs : List A) → P x → All P xs → All P (insert_before le x xs)
  unfolding insert_before
  insert_before-All x [] p h = (p, tt)
  insert_before-All x (y ∷ ys) p (q, h) = go (le x y) (insert_before-All x ys p h)
    where
      go :
          (b : Bool)
          → All P (insert_before le x ys)
          → All P (if b then x ∷ y ∷ ys else y ∷ insert_before le x ys)
      go true k = (p, (q, h))
      go false k = (q, k)

  pub sort-All : (xs : List A) → All P xs → All P (sort le xs)
  unfolding sort
  sort-All [] h = tt
  sort-All (x ∷ xs) (p, h) = insert_before-All x (sort le xs) p (sort-All xs h)

  All-insert_before : (x : A) (xs : List A) → All P (insert_before le x xs) → P x × All P xs
  unfolding insert_before
  All-insert_before x [] h = h
  All-insert_before x (y ∷ ys) h = go (le x y) (All-insert_before x ys) h
    where
      go :
          (b : Bool)
          → (All P (insert_before le x ys) → P x × All P ys)
          → All P (if b then x ∷ y ∷ ys else y ∷ insert_before le x ys)
          → P x × All P (y ∷ ys)
      go true f k = k
      go false f (q, k) = ((f k).0, (q, (f k).1))

  pub All-sort : (xs : List A) → All P (sort le xs) → All P xs
  unfolding sort
  All-sort [] h = tt
  All-sort (x ∷ xs) h = let (p, k) = All-insert_before x (sort le xs) h in (p, All-sort xs k)

module _ {ℓ} {A : Type ℓ} (le : A → A → Bool) (total : (x y : A) → le x y ≡ false → le y x ≡ true)
    (trans : (x y z : A) → le x y ≡ true → le y z ≡ true → le x z ≡ true) where
  after_first :
      (x y : A) (zs : List A)
      → le x y ≡ true
      → All (λ z. le y z ≡ true) zs
      → All (λ z. le x z ≡ true) zs
  after_first x y [] e h = tt
  after_first x y (z ∷ zs) e (k, h) = (trans x y z e k, after_first x y zs e h)

  insert_before-Sorted : (x : A) (xs : List A) → Sorted le xs → Sorted le (insert_before le x xs)
  unfolding insert_before
  insert_before-Sorted x [] h = (tt, tt)
  insert_before-Sorted x (y ∷ ys) (h, k) = go (le x y) refl (insert_before-Sorted x ys k)
    where
      go :
          (b : Bool)
          → le x y ≡ b
          → Sorted le (insert_before le x ys)
          → Sorted le (if b then x ∷ y ∷ ys else y ∷ insert_before le x ys)
      go true e r = ((e, after_first x y ys e h), (h, k))
      go false e r = (insert_before-All (λ z. le y z ≡ true) le x ys (total x y e) h, r)

  pub sort-Sorted : (xs : List A) → Sorted le (sort le xs)
  unfolding sort
  sort-Sorted [] = tt
  sort-Sorted (x ∷ xs) = insert_before-Sorted x (sort le xs) (sort-Sorted xs)
