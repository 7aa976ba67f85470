-- ===== src/Admin/LoginTrend.antt =====
-- The numbers of the login trend chart, frontend/src/mystic_auth/audit_log/security_log/LoginTrendChart.tsx,
-- and its top axis value, loginTrendFormatting.ts beside it. Counts are natural numbers; a height in
pub mod Scale
pub mod Days
use manifest_cv.Prelude.{
  ◌≡◌, ◌⊎◌, inl, inr, refl, ℕ, zero, suc, ◌+◌, ◌*◌, ◌/◌, ◌≤◌, ◌<◌, max, String, List, [], ◌∷◌, Bool,
  true, false, ltb, leb, All, sum_by, All-mono, ap, if◌then◌else◌, arith,
}

pub record LoginTrendPoint : Type 0 where
  pub date : String
  pub success : ℕ
  pub failure : ℕ

pub data ChartMode : Type 0 where
  all failed : ChartMode

-- `10 ** Math.floor(Math.log10(value))`: the greatest power of ten up to a value that is not 0. The
-- fuel bounds the digits.
unfoldable pub magnitude : ℕ → ℕ → ℕ
magnitude zero value = 1
magnitude (suc fuel) value =
    let rest = magnitude fuel (value / 10) in if ltb value 10 then 1 else 10 * rest

-- The tests of the residual, each side times the magnitude.
unfoldable pub nice_residual : ℕ → ℕ → ℕ
nice_residual value m =
    if leb value m
    then m
    else if leb value (2 * m)
    then 2 * m
    else if leb (2 * value) (5 * m)
    then 5 * m / 2
    else if leb value (5 * m)
    then 5 * m
    else 10 * m

unfoldable pub nice_max : ℕ → ℕ
unfolding magnitude nice_residual
nice_max value =
    if leb value 1
    then 2
    else if leb value 5
    then value
    else nice_residual value (magnitude value value)

-- What a day's bar stands for.
abbrev pub bar_count : ChartMode → LoginTrendPoint → ℕ
bar_count all d = d.success + d.failure
bar_count failed d = d.failure

unfoldable pub raw_max : ChartMode → List LoginTrendPoint → ℕ
raw_max mode [] = 1
raw_max mode (d ∷ points) = max (bar_count mode d) (raw_max mode points)

unfoldable pub scale_max : ChartMode → List LoginTrendPoint → ℕ
unfolding raw_max nice_max
scale_max mode points = nice_max (raw_max mode points)

abbrev pub plot_height : ℕ
plot_height = 118

pub record Fraction : Type 0 where
  pub numerator : ℕ
  pub denominator : ℕ

unfoldable pub bar_height : ChartMode → List LoginTrendPoint → LoginTrendPoint → Fraction
unfolding scale_max
bar_height mode points d = record {
  numerator = bar_count mode d * plot_height;
  denominator = scale_max mode points;
}

-- `Math.round`, half up, of the share of the attempts that failed.
unfoldable pub failure_rate : List LoginTrendPoint → ℕ
failure_rate points =
    let total_failure = sum_by (λ d. d.failure) points in
    let total_attempts = sum_by (λ d. d.success) points + total_failure in
    if leb total_attempts 0
    then 0
    else (200 * total_failure + total_attempts) / (2 * total_attempts)

-- The reduce from the first day.
unfoldable pub worst_day : LoginTrendPoint → List LoginTrendPoint → LoginTrendPoint
worst_day worst [] = worst
worst_day worst (d ∷ points) =
    let replaced = worst_day d points in
    let kept = worst_day worst points in if ltb worst.failure d.failure then replaced else kept

unfoldable pub label_stride : ℕ → ℕ
label_stride days =
    if ltb 60 days then 7 else if ltb 30 days then 3 else if ltb 14 days then 2 else 1
