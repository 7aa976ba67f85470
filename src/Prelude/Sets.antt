-- ===== src/Prelude/Sets.antt =====
-- `Array.includes`, and a JavaScript `Set` as the list of its keys, oldest first.
use mathlib.Core.Path.{◌≡◌, refl}
use mathlib.Core.Bool.{Bool, false, ◌||◌, ◌&&◌, not}
use mathlib.Core.List.{List, [], ◌∷◌, ◌++◌}
use native.Mathlib.Omega.{arith}
use manifest_cv.Prelude.Tests.{if◌then◌else◌, Eq, ◌==◌}
use manifest_cv.Prelude.Lists.{filter}

module _ {ℓ} {A : Type ℓ} ⦃e : Eq A⦄ where
  -- `xs.includes(a)`, `set.has(a)`.
  unfoldable pub includes : List A → A → Bool
  includes [] a = false
  includes (x ∷ xs) a = x == a || includes xs a

  -- `set.add(a)`: a key that is there keeps its place.
  unfoldable pub add : A → List A → List A
  unfolding includes
  add a xs = if includes xs a then xs else xs ++ a ∷ []

  -- `set.delete(a)`.
  unfoldable pub remove : A → List A → List A
  remove a xs = filter (λ x. not (x == a)) xs

  pub includes-append :
      (xs ys : List A) (a : A) → includes (xs ++ ys) a ≡ (includes xs a || includes ys a)
  unfolding includes
  includes-append [] ys a = refl
  includes-append (x ∷ xs) ys a = ground (arith, includes-append xs ys a)

  pub includes-add : (a b : A) (xs : List A) → includes (add a xs) b ≡ (a == b || includes xs b)
  unfolding add includes
  includes-add a b xs = ground (arith, includes-append xs (a ∷ []) b, e.eqb_iff a b)

  pub includes-filter :
      (p : A → Bool) (a : A) (xs : List A) → includes (filter p xs) a ≡ (includes xs a && p a)
  unfolding includes
  includes-filter p a [] = refl
  includes-filter p a (x ∷ xs) = ground (arith, includes-filter p a xs, e.eqb_iff x a)

  pub includes-remove :
      (a b : A) (xs : List A) → includes (remove a xs) b ≡ (includes xs b && not (b == a))
  unfolding remove
  includes-remove a b xs = includes-filter (λ x. not (x == a)) b xs
