-- ===== src/Resume/Layout/Columns.antt =====
-- The array operations of the page's edits, and what they do to the number of times an entry stands
-- in an array.
use manifest_cv.Prelude.{
  ℕ, zero, suc, ◌+◌, ◌≡◌, ◌≢◌, refl, ap, ◌∙◌, List, [], ◌∷◌, Option, some, none, Bool, true, false,
  arith, get_elem?, set, count, count-append, Eq, if◌then◌else◌,
}
use manifest_cv.Resume.Document.{flat}

module _ {ℓ} {A : Type ℓ} where
  -- `xs.findIndex(p)`; `none` is -1.
  unfoldable pub find_index : (A → Bool) → List A → Option ℕ
  find_index p [] = none
  find_index p (x ∷ xs) =
      if p x then some 0 else (elim (find_index p xs) [ none ↦ none | some i ↦ some (suc i) ])

  -- `xs.splice(i, 1)` and `xs.splice(i, 0, x)`.
  unfoldable pub remove_at : List A → ℕ → List A
  remove_at [] i = []
  remove_at (x ∷ xs) zero = xs
  remove_at (x ∷ xs) (suc i) = x ∷ remove_at xs i

  unfoldable pub insert_at : List A → ℕ → A → List A
  insert_at xs zero y = y ∷ xs
  insert_at [] (suc i) y = y ∷ []
  insert_at (x ∷ xs) (suc i) y = x ∷ insert_at xs i y

  -- `[xs[i], xs[j]] = [xs[j], xs[i]]`.
  unfoldable pub swap : List A → ℕ → ℕ → List A
  swap xs i j = elim (get_elem? xs i) [
    | none ↦ xs
    | some x ↦ elim (get_elem? xs j) [ none ↦ xs | some y ↦ set (set xs i y) j x ]
  ]

  pub get_elem?-set_self :
      (xs : List A) (i : ℕ) (v : A) {x : A}
      → get_elem? xs i ≡ some x
      → get_elem? (set xs i v) i ≡ some v
  get_elem?-set_self [] i v h = cc
  get_elem?-set_self (x ∷ xs) zero v h = refl
  get_elem?-set_self (x ∷ xs) (suc i) v h = get_elem?-set_self xs i v h

  pub get_elem?-set_ne :
      (xs : List A) (i j : ℕ) (v : A) → i ≢ j → get_elem? (set xs i v) j ≡ get_elem? xs j
  get_elem?-set_ne [] i j v h = refl
  get_elem?-set_ne (x ∷ xs) zero zero v h = absurd (h refl)
  get_elem?-set_ne (x ∷ xs) zero (suc j) v h = refl
  get_elem?-set_ne (x ∷ xs) (suc i) zero v h = refl
  get_elem?-set_ne (x ∷ xs) (suc i) (suc j) v h = get_elem?-set_ne xs i j v (λ e. h (ap suc e))

-- Replacing one entry moves the count by what the entry brings.
module _ {ℓ κ} {A : Type ℓ} {B : Type κ} ⦃e : Eq B⦄ where
  pub count-flat-set :
      (f : A → List B) (b : B) (xs : List A) (i : ℕ) {x : A} (y : A)
      → get_elem? xs i ≡ some x
      → count b (flat f (set xs i y)) + count b (f x) ≡ count b (flat f xs) + count b (f y)
  count-flat-set f b [] i y h = cc
  count-flat-set f b (z ∷ xs) zero {x} y h =
      let same : z ≡ x = cc in
      omega (
        arith,
        count-append b (f y) (flat f xs),
        count-append b (f z) (flat f xs),
        ap (λ w. count b (f w)) same,
      )
  count-flat-set f b (z ∷ xs) (suc i) y h = omega (
    arith,
    count-append b (f z) (flat f (set xs i y)),
    count-append b (f z) (flat f xs),
    count-flat-set f b xs i y h,
  )

module _ {ℓ} {B : Type ℓ} ⦃e : Eq B⦄ where
  pub count-set :
      (b : B) (xs : List B) (i : ℕ) {x : B} (y : B)
      → get_elem? xs i ≡ some x
      → count b (set xs i y) + count b (x ∷ []) ≡ count b xs + count b (y ∷ [])
  unfolding count
  count-set b [] i y h = cc
  count-set b (z ∷ xs) zero {x} y h = let same : z ≡ x = cc in rw same (ground arith)
  count-set b (z ∷ xs) (suc i) y h = ground (arith, count-set b xs i y h)

  -- A swap keeps every count.
  pub count-swap : (b : B) (xs : List B) (i j : ℕ) → i ≢ j → count b (swap xs i j) ≡ count b xs
  unfolding swap
  count-swap b xs i j ne = go (get_elem? xs i) (get_elem? xs j) refl refl
    where
      go :
          (p q : Option B)
          → get_elem? xs i ≡ p
          → get_elem? xs j ≡ q
          → count b
              (elim p [ none ↦ xs | some x ↦ elim q [ none ↦ xs | some y ↦ set (set xs i y) j x ] ])
            ≡ count b xs
      go none q hp hq = refl
      go (some x) none hp hq = refl
      go (some x) (some y) hp hq = omega (
        arith,
        count-set b xs i y hp,
        count-set b (set xs i y) j x (get_elem?-set_ne xs i j y ne ∙ hq),
      )

  pub count-remove_at :
      (b : B) (xs : List B) (i : ℕ) {x : B}
      → get_elem? xs i ≡ some x
      → count b (remove_at xs i) + count b (x ∷ []) ≡ count b xs
  unfolding count remove_at
  count-remove_at b [] i h = cc
  count-remove_at b (z ∷ xs) zero {x} h = let same : z ≡ x = cc in rw same (ground arith)
  count-remove_at b (z ∷ xs) (suc i) h = ground (arith, count-remove_at b xs i h)

  pub count-insert_at :
      (b : B) (xs : List B) (i : ℕ) (y : B)
      → count b (insert_at xs i y) ≡ count b xs + count b (y ∷ [])
  unfolding count insert_at
  count-insert_at b xs zero y = ground arith
  count-insert_at b [] (suc i) y = ground arith
  count-insert_at b (x ∷ xs) (suc i) y = ground (arith, count-insert_at b xs i y)

module _ {ℓ} {A : Type ℓ} (p : A → Bool) where
  -- The index that `findIndex` gives holds an entry that passes the test.
  pub get_elem?-find_index :
      (xs : List A) {i : ℕ}
      → find_index p xs ≡ some i
      → (x : A) × (get_elem? xs i ≡ some x) × (p x ≡ true)
  unfolding find_index
  get_elem?-find_index [] h = cc
  get_elem?-find_index (x ∷ xs) {i} h =
      go (p x) (find_index p xs) refl (λ j. get_elem?-find_index xs {i = j}) h
    where
      go :
          (t : Bool) (o : Option ℕ)
          → p x ≡ t
          → ((j : ℕ) → o ≡ some j → (y : A) × (get_elem? xs j ≡ some y) × (p y ≡ true))
          → (if t then some 0 else (elim o [ none ↦ none | some j ↦ some (suc j) ])) ≡ some i
          → (y : A) × (get_elem? (x ∷ xs) i ≡ some y) × (p y ≡ true)
      go true o e rest q = let zero_index : 0 ≡ i = cc in (x, rw (← zero_index) refl, e)
      go false none e rest q = cc
      go false (some j) e rest q =
          let next_index : suc j ≡ i = cc in
          let (y, at, holds) = rest j refl in (y, rw (← next_index) at, holds)
