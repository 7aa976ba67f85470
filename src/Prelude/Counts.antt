-- ===== src/Prelude/Counts.antt =====
-- How often a key stands in a list: a view of the list that forgets its order.
use Prim.Native.Nat.{ℕ, suc, ◌+◌, ◌<◌}
use mathlib.Core.Path.{◌≡◌}
use mathlib.Core.Bool.{true}
use mathlib.Core.List.{List, [], ◌∷◌, ◌++◌}
use native.Mathlib.Omega.{arith}
use manifest_cv.Prelude.Tests.{if◌then◌else◌, Eq, ◌==◌}
use manifest_cv.Prelude.Sets.{includes, remove}

module _ {ℓ} {A : Type ℓ} ⦃e : Eq A⦄ where
  unfoldable pub count : A → List A → ℕ
  count a [] = 0
  count a (x ∷ xs) = if x == a then suc (count a xs) else count a xs

  pub count-append : (a : A) (xs ys : List A) → count a (xs ++ ys) ≡ count a xs + count a ys
  unfolding count
  count-append a [] ys = omega arith
  count-append a (x ∷ xs) ys = ground (arith, count-append a xs ys)

  pub count-remove :
      (a b : A) (xs : List A) → count a (remove b xs) ≡ (if a == b then 0 else count a xs)
  unfolding count remove
  count-remove a b [] = ground arith
  count-remove a b (x ∷ xs) =
      ground (arith, count-remove a b xs, e.eqb_iff x a, e.eqb_iff x b, e.eqb_iff a b)

  pub includes→count : (a : A) (xs : List A) → includes xs a ≡ true → 0 < count a xs
  unfolding count includes
  includes→count a [] h = cc
  includes→count a (x ∷ xs) h = ground (arith, includes→count a xs)

  pub count→includes : (a : A) (xs : List A) → 0 < count a xs → includes xs a ≡ true
  unfolding count includes
  count→includes a [] h = absurd (omega arith)
  count→includes a (x ∷ xs) h = ground (arith, count→includes a xs)
