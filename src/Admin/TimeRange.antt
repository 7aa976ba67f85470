-- ===== src/Admin/TimeRange.antt =====
-- The time range of the audit log, frontend/src/mystic_auth/audit_log/auditLogListConfig.ts. Instants are
-- milliseconds; reading a date and writing an instant are parameters.
use manifest_cv.Prelude.{
  ◌≡◌, ℕ, ◌+◌, ◌-◌, ◌*◌, ◌/◌, ◌≤◌, ◌<◌, min, max, String, Option, some, none, Bool, true, false,
  not, ◌&&◌, ltb, ◌==◌, string_eq, if◌then◌else◌, arith,
}

-- The presets' days.
pub data TimeRangeValue : Type 0 where
  last_7 last_14 last_30 last_90 custom : TimeRangeValue

pub record TimeRangeState : Type 0 where
  pub range : TimeRangeValue
  pub custom_from : String
  pub custom_to : String

abbrev pub audit_page_size : ℕ
audit_page_size = 25

-- `Math.max(1, Math.ceil(total / PAGE_SIZE))`.
unfoldable pub total_pages_for : ℕ → ℕ
total_pages_for total = max 1 ((total + (audit_page_size - 1)) / audit_page_size)

unfoldable pub to_bool_filter : String → Option Bool
to_bool_filter value = if value == "" then none else some (value == "true")

abbrev pub default_time_range : TimeRangeValue
default_time_range = last_14

abbrev pub default_time_range_state : TimeRangeState
default_time_range_state = record { range = default_time_range; custom_from = ""; custom_to = "" }

abbrev pub has_dates : TimeRangeState → Bool
has_dates s = not (s.custom_from == "") && not (s.custom_to == "")

unfoldable pub is_time_range_active : TimeRangeState → Bool
is_time_range_active s = elim s.range [ custom ↦ has_dates s | last_14 ↦ false | _ ↦ true ]

pub record DatePlatform : Type 0 where
  -- `new Date(`${date}T00:00:00`).getTime()`.
  pub midnight : String → ℕ
  pub start_of_day_iso : ℕ → String
  pub end_of_day_iso : ℕ → String
  pub to_iso : ℕ → String

pub record TimeRangeApiParams : Type 0 where
  pub from : String
  pub to : String
  pub days : ℕ

abbrev pub day_ms : ℕ
day_ms = 86400000

-- `Math.round(ms / 86400000) + 1` between 1 and 90; a span that ends before it starts rounds to at
-- most 0.
unfoldable pub custom_days : ℕ → ℕ → ℕ
custom_days from to =
    if ltb to from then 1 else max 1 (min 90 ((to - from + 43200000) / day_ms + 1))

abbrev pub preset_days : TimeRangeValue → ℕ
preset_days last_7 = 7
preset_days last_14 = 14
preset_days last_30 = 30
preset_days last_90 = 90
preset_days custom = 14

abbrev pub preset_params : DatePlatform → TimeRangeValue → ℕ → TimeRangeApiParams
preset_params d range now_ms = record {
  from = d.start_of_day_iso (now_ms - (preset_days range - 1) * day_ms);
  to = d.to_iso now_ms;
  days = preset_days range;
}

abbrev pub custom_params : DatePlatform → String → String → TimeRangeApiParams
custom_params d custom_from custom_to = record {
  from = d.start_of_day_iso (d.midnight custom_from);
  to = d.end_of_day_iso (d.midnight custom_to);
  days = custom_days (d.midnight custom_from) (d.midnight custom_to);
}

-- A custom range without its two dates stands for the default preset.
unfoldable pub time_range_to_api_params : DatePlatform → TimeRangeState → ℕ → TimeRangeApiParams
unfolding custom_days
time_range_to_api_params d s now_ms = elim s.range [
  | custom ↦
      if has_dates s
      then custom_params d s.custom_from s.custom_to
      else preset_params d custom now_ms
  | range ↦ preset_params d range now_ms
]

-- What the label says: a translation key with its arguments.
pub data TimeRangeLabel : Type 0 where
  one_day : String → TimeRangeLabel
  range_text : String → String → TimeRangeLabel
  preset_label : TimeRangeValue → TimeRangeLabel

unfoldable pub time_range_label : TimeRangeState → TimeRangeLabel
time_range_label s = elim s.range [
  | custom ↦
      if has_dates s
      then if s.custom_from == s.custom_to
        then one_day s.custom_from
        else range_text s.custom_from s.custom_to
      else preset_label default_time_range
  | range ↦ preset_label range
]

custom_days-bounds : (from to : ℕ) → (1 ≤ custom_days from to) × (custom_days from to ≤ 90)
unfolding custom_days
custom_days-bounds from to = (ground arith, ground arith)

-- Whatever is picked, the days that are asked for are between 1 and 90.
pub time_range_to_api_params-days :
    (d : DatePlatform) (s : TimeRangeState) (now_ms : ℕ)
    → (1 ≤ (time_range_to_api_params d s now_ms).days)
      × ((time_range_to_api_params d s now_ms).days ≤ 90)
unfolding time_range_to_api_params
time_range_to_api_params-days d s now_ms = go s.range (has_dates s)
  where
    InBounds : TimeRangeApiParams → Type 0
    InBounds p = (1 ≤ p.days) × (p.days ≤ 90)

    go :
        (range : TimeRangeValue) (b : Bool)
        → InBounds (elim range [
          | custom ↦
              if b then custom_params d s.custom_from s.custom_to else preset_params d custom now_ms
          | range ↦ preset_params d range now_ms
        ])
    go last_7 b = (omega arith, omega arith)
    go last_14 b = (omega arith, omega arith)
    go last_30 b = (omega arith, omega arith)
    go last_90 b = (omega arith, omega arith)
    go custom true = custom_days-bounds (d.midnight s.custom_from) (d.midnight s.custom_to)
    go custom false = (omega arith, omega arith)

-- The days of a span of whole days count both ends, up to 90, also where a clock change makes the span
-- up to half a day longer or shorter.
pub custom_days-count :
    (from n change : ℕ)
    → change < 43200000
    → (custom_days from (from + n * day_ms + change) ≡ min 90 (n + 1))
      × (custom_days (from + change) (from + n * day_ms) ≡ min 90 (n + 1))
unfolding custom_days
custom_days-count from n change h = (ground arith, ground arith)
