-- ===== src/Admin/LoginTrend/Days.antt =====
-- The worst day and the failure rate of the login trend chart, security_log/LoginTrendChart.tsx.
use native.Mathlib.Nat.{div-lt_iff_lt-mul}
use manifest_cv.Prelude.{
  ◌≡◌, ◌⊎◌, inl, inr, refl, ap, ℕ, ◌+◌, ◌*◌, ◌/◌, ◌≤◌, ◌<◌, List, [], ◌∷◌, Bool, true, false, ltb,
  leb, All, sum_by, if◌then◌else◌, arith,
}
use manifest_cv.Admin.LoginTrend.{LoginTrendPoint, failure_rate, worst_day}

-- The first day of a list with the most failures.
abbrev pub FirstWorst : LoginTrendPoint → List LoginTrendPoint → Type 0
FirstWorst w [] = ⊥
FirstWorst w (d ∷ points) =
    ((d ≡ w) × All (λ x. x.failure ≤ w.failure) points)
    ⊎ ((d.failure < w.failure) × FirstWorst w points)

FirstWorst-first :
    (w d : LoginTrendPoint) (points : List LoginTrendPoint)
    → FirstWorst w (d ∷ points)
    → d.failure ≤ w.failure
FirstWorst-first w d points (inl (e, h)) = omega (arith, ap (λ x. x.failure) e)
FirstWorst-first w d points (inr (h, k)) = omega (arith, h)

-- The worst day of the chart is a day of its data, no day before it has as many failures and no day
-- after it has more.
pub worst_day-FirstWorst :
    (d : LoginTrendPoint) (points : List LoginTrendPoint)
    → FirstWorst (worst_day d points) (d ∷ points)
unfolding worst_day
worst_day-FirstWorst worst [] = inl (refl, tt)
worst_day-FirstWorst worst (d ∷ points) =
    go (ltb worst.failure d.failure) refl (worst_day-FirstWorst d points)
      (worst_day-FirstWorst worst points)
  where
    go :
        (b : Bool)
        → ltb worst.failure d.failure ≡ b
        → FirstWorst (worst_day d points) (d ∷ points)
        → FirstWorst (worst_day worst points) (worst ∷ points)
        → FirstWorst (if b then worst_day d points else worst_day worst points) (worst ∷ d ∷ points)
    go true e h k = inr (ground (arith, e, FirstWorst-first (worst_day d points) d points h), h)
    go false e h (inl (same, k)) = inl (same, (ground (arith, e, ap (λ x. x.failure) same), k))
    go false e h (inr (below, k)) = inr (below, inr (ground (arith, e, below), k))

below : (f t : ℕ) → 1 ≤ t → f ≤ t → (200 * f + t) / (2 * t) ≤ 100
below f t h k = omega (
  arith,
  (div-lt_iff_lt-mul {k = 2 * t} {x = 200 * f + t} {y = 101} (omega (arith, h))).1
      (omega (arith, k, h)),
)

rate_le : (s f : ℕ) → (if leb (s + f) 0 then 0 else (200 * f + (s + f)) / (2 * (s + f))) ≤ 100
rate_le s f = go (leb (s + f) 0) refl
  where
    go :
        (b : Bool)
        → leb (s + f) 0 ≡ b
        → (if b then 0 else (200 * f + (s + f)) / (2 * (s + f))) ≤ 100
    go true e = omega arith
    go false e = below f (s + f) (ground (arith, e)) (omega arith)

-- The failure rate is a percentage.
failure_rate-le_100 : (points : List LoginTrendPoint) → failure_rate points ≤ 100
unfolding failure_rate
failure_rate-le_100 points =
    rate_le (sum_by (λ d. d.success) points) (sum_by (λ d. d.failure) points)
