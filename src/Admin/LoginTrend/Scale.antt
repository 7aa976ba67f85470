-- ===== src/Admin/LoginTrend/Scale.antt =====
-- The scale of the bars of the login trend chart, security_log/LoginTrendChart.tsx.
use manifest_cv.Prelude.{
  ◌≡◌, ◌⊎◌, inl, inr, refl, ℕ, zero, suc, ◌*◌, ◌/◌, ◌≤◌, ◌<◌, max, List, [], ◌∷◌, Bool, true, false,
  ltb, All, All-mono, arith,
}
use manifest_cv.Admin.LoginTrend.{
  LoginTrendPoint, ChartMode, magnitude, nice_residual, nice_max, bar_count, raw_max, scale_max,
  plot_height, Fraction, bar_height,
}

magnitude-bounds :
    (fuel value : ℕ)
    → value ≤ fuel
    → (magnitude fuel value ≤ max 1 value) × (value < 10 * magnitude fuel value)
unfolding magnitude
magnitude-bounds zero value h = (ground arith, ground arith)
magnitude-bounds (suc fuel) value h =
    let (low, high) = magnitude-bounds fuel (value / 10) (omega arith) in
    (ground (arith, low, high), ground (arith, low, high))

-- The top of the axis is at least the value and at most twice it.
nice_max-bounds : (value : ℕ) → 1 ≤ value → (value ≤ nice_max value) × (nice_max value ≤ 2 * value)
unfolding nice_max nice_residual
nice_max-bounds value h =
    let (low, high) = magnitude-bounds value value (omega arith) in
    (ground (arith, low, high), ground (arith, low, high))

raw_max-All :
    (mode : ChartMode) (points : List LoginTrendPoint) (bound : ℕ)
    → raw_max mode points ≤ bound
    → All (λ d. bar_count mode d ≤ bound) points
unfolding raw_max
raw_max-All mode [] bound h = tt
raw_max-All mode (d ∷ points) bound h =
    (omega (arith, h), raw_max-All mode points bound (omega (arith, h)))

raw_max-positive : (mode : ChartMode) (points : List LoginTrendPoint) → 1 ≤ raw_max mode points
unfolding raw_max
raw_max-positive mode [] = omega arith
raw_max-positive mode (d ∷ points) = omega (arith, raw_max-positive mode points)

-- A bar keeps to the plot's height; a bar takes at least half of it.
abbrev pub Fits : Fraction → Type 0
Fits height = height.numerator ≤ plot_height * height.denominator

abbrev pub TakesHalf : Fraction → Type 0
TakesHalf height = plot_height * height.denominator ≤ 2 * height.numerator

-- Some day of a list has the property.
abbrev pub AnyDay : (LoginTrendPoint → Type 0) → List LoginTrendPoint → Type 0
AnyDay P [] = ⊥
AnyDay P (d ∷ points) = P d ⊎ AnyDay P points

module _ (P Q : LoginTrendPoint → Type 0) (f : (d : LoginTrendPoint) → P d → Q d) where
  AnyDay-mono : (points : List LoginTrendPoint) → AnyDay P points → AnyDay Q points
  AnyDay-mono [] h = elim h [ ]
  AnyDay-mono (d ∷ points) (inl h) = inl (f d h)
  AnyDay-mono (d ∷ points) (inr h) = inr (AnyDay-mono points h)

raw_max-reached :
    (mode : ChartMode) (points : List LoginTrendPoint)
    → AnyDay (λ d. raw_max mode points ≤ bar_count mode d) points
      ⊎ ((raw_max mode points ≡ 1) × All (λ d. bar_count mode d ≡ 0) points)
unfolding raw_max
raw_max-reached mode [] = inr (refl, tt)
raw_max-reached mode (d ∷ points) =
    go (ltb (bar_count mode d) (raw_max mode points)) refl (raw_max-reached mode points)
  where
    ReachesBoth : LoginTrendPoint → Type 0
    ReachesBoth x = max (bar_count mode d) (raw_max mode points) ≤ bar_count mode x

    go :
        (b : Bool)
        → ltb (bar_count mode d) (raw_max mode points) ≡ b
        → AnyDay (λ x. raw_max mode points ≤ bar_count mode x) points
          ⊎ ((raw_max mode points ≡ 1) × All (λ x. bar_count mode x ≡ 0) points)
        → AnyDay ReachesBoth (d ∷ points)
          ⊎ ((max (bar_count mode d) (raw_max mode points) ≡ 1)
              × All (λ x. bar_count mode x ≡ 0) (d ∷ points))
    go true e (inl h) = inl (
        inr (
          AnyDay-mono (λ x. raw_max mode points ≤ bar_count mode x) ReachesBoth
            (λ x k. ground (arith, e, k)) points h))
    go true e (inr (one, zeros)) = inr (ground (arith, e, one), (ground (arith, e, one), zeros))
    go false e h = inl (inl (ground (arith, e)))

scale_max-bounds :
    (mode : ChartMode) (points : List LoginTrendPoint)
    → (raw_max mode points ≤ scale_max mode points)
      × (scale_max mode points ≤ 2 * raw_max mode points)
unfolding scale_max
scale_max-bounds mode points = nice_max-bounds (raw_max mode points) (raw_max-positive mode points)

-- In both modes no bar is higher than the plot, and some bar takes at least half of its height unless
-- every bar is empty.
pub bar_height-Fits :
    (mode : ChartMode) (points : List LoginTrendPoint)
    → All (λ d. Fits (bar_height mode points d)) points
      × (AnyDay (λ d. TakesHalf (bar_height mode points d)) points
          ⊎ All (λ d. bar_count mode d ≡ 0) points)
unfolding bar_height
bar_height-Fits mode points =
    let (low, high) = scale_max-bounds mode points in
    (
      All-mono (λ d. bar_count mode d ≤ scale_max mode points)
          (λ d. Fits (bar_height mode points d)) (λ d h. omega (arith, h)) points
          (raw_max-All mode points (scale_max mode points) low),
      elim (raw_max-reached mode points) [
        | inl h ↦ inl (
            AnyDay-mono (λ d. raw_max mode points ≤ bar_count mode d)
              (λ d. TakesHalf (bar_height mode points d)) (λ d k. omega (arith, k, high)) points h)
        | inr h ↦ inr (h.1)
      ],
    )
