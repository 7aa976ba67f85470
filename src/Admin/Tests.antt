-- ===== src/Admin/Tests.antt =====
-- The theorems on the administration's lists at concrete inputs.
use manifest_cv.Prelude.{
  sum_by, String, List, All, ◌⊎◌, ◌≡◌, refl, ℕ, ◌≤◌, [], ◌∷◌, Option, some, none, false, ltb,
  length, filter, Sorted,
}
use manifest_cv.Ui.State.{desc}
use manifest_cv.Admin.TimeRange.{
  DatePlatform, TimeRangeState, custom, time_range_to_api_params, time_range_to_api_params-days,
}
use manifest_cv.Admin.LoginTrend.{
  LoginTrendPoint, all, failed, bar_count, bar_height, scale_max, failure_rate, worst_day,
}
use manifest_cv.Admin.LoginTrend.Scale.{Fits, TakesHalf, AnyDay, bar_height-Fits}
use manifest_cv.Admin.LoginTrend.Days.{FirstWorst, worst_day-FirstWorst}
use manifest_cv.Admin.RateLimits.{
  RateLimitEntry, IsStringOrder, comes_first, column_key, by_reset, sort_rate_limit_entries,
  sort_rate_limit_entries-Sorted,
}

abbrev dates : DatePlatform
dates = record {
  midnight = λ date. 86400000;
  start_of_day_iso = λ ms. "start";
  end_of_day_iso = λ ms. "end";
  to_iso = λ ms. "now";
}

abbrev one_day : TimeRangeState
one_day = record { range = custom; custom_from = "2026-01-01"; custom_to = "2026-01-01" }

time_range_to_api_params-days_example :
    (1 ≤ (time_range_to_api_params dates one_day 0).days)
    × ((time_range_to_api_params dates one_day 0).days ≤ 90)
time_range_to_api_params-days_example = time_range_to_api_params-days dates one_day 0

abbrev day : String → ℕ → ℕ → LoginTrendPoint
day date success failure = record { date = date; success = success; failure = failure }

abbrev three_days : List LoginTrendPoint
three_days = day "2026-01-01" 30 2 ∷ day "2026-01-02" 4 9 ∷ day "2026-01-03" 60 9 ∷ []

bar_height-Fits_example :
    All (λ d. Fits (bar_height failed three_days d)) three_days
    × (AnyDay (λ d. TakesHalf (bar_height failed three_days d)) three_days
        ⊎ All (λ d. bar_count failed d ≡ 0) three_days)
bar_height-Fits_example = bar_height-Fits failed three_days

scale_of_three_days : scale_max all three_days ≡ 100
unfolding scale_max
scale_of_three_days = refl

rate_of_three_days : failure_rate three_days ≡ 18
unfolding failure_rate sum_by
rate_of_three_days = refl

worst_day-FirstWorst_example :
    FirstWorst
      (worst_day (day "2026-01-01" 30 2) (day "2026-01-02" 4 9 ∷ day "2026-01-03" 60 9 ∷ []))
      three_days
worst_day-FirstWorst_example =
    worst_day-FirstWorst (day "2026-01-01" 30 2) (day "2026-01-02" 4 9 ∷ day "2026-01-03" 60 9 ∷ [])

-- An order in which no string is below another.
no_order : IsStringOrder (λ a b. false)
no_order = record { asymmetric = λ a b h. refl; transitive = λ a b c h k. refl }

abbrev entry : ℕ → Option ℕ → RateLimitEntry
entry count seconds = record {
  endpoint = "/login";
  scope = "ip";
  identifier = "10.0.0.1";
  count = count;
  resets_in_seconds = seconds;
}

abbrev two_entries : List RateLimitEntry
two_entries = entry 3 (some 60) ∷ entry 5 none ∷ []

sort_rate_limit_entries-Sorted_example :
    Sorted (comes_first (λ a b. false) by_reset desc) (
      sort_rate_limit_entries
        (λ a b. false)
        two_entries
        (record { key = column_key by_reset; direction = desc }))
    × (length (
          filter
            (λ e. ltb 3 e.count)
            (sort_rate_limit_entries
              (λ a b. false)
              two_entries
              (record { key = column_key by_reset; direction = desc })))
        ≡ length (filter (λ e. ltb 3 e.count) two_entries))
sort_rate_limit_entries-Sorted_example =
    sort_rate_limit_entries-Sorted (λ a b. false) no_order two_entries by_reset desc
      (λ e. ltb 3 e.count)
