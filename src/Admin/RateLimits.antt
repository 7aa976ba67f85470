-- ===== src/Admin/RateLimits.antt =====
-- The sort of the rate limits page,
-- frontend/src/mystic_auth/rate_limits/sortRateLimitEntries.ts. The order `<` of two strings is a
-- parameter.
use manifest_cv.Prelude.{
  [], ◌∷◌, All-mono, leb, ◌≡◌, refl, ℕ, String, List, Option, some, none, Bool, true, false, not,
  ltb, length, filter, sort, Sorted, sort-Sorted, sum_by-sort, length-filter-sum_by, sym, ap, ◌∙◌,
  subst, ◌==◌, string_eq, if◌then◌else◌, arith,
}
use manifest_cv.Ui.State.{SortState, SortDirection, asc, desc}

pub record RateLimitEntry : Type 0 where
  pub endpoint : String
  pub scope : String
  pub identifier : String
  pub count : ℕ
  pub resets_in_seconds : Option ℕ

-- A column's `getValue`: a string, or a number with `Infinity` for `none`.
pub data SortValue : Type 0 where
  text_value : (RateLimitEntry → String) → SortValue
  number_value : (RateLimitEntry → Option ℕ) → SortValue

-- `SORT_VALUE`.
unfoldable pub sort_value : String → Option SortValue
sort_value key =
    if key == "endpoint"
    then some (text_value (λ e. e.endpoint))
    else if key == "scope"
    then some (text_value (λ e. e.scope))
    else if key == "identifier"
    then some (text_value (λ e. e.identifier))
    else if key == "requests"
    then some (number_value (λ e. some e.count))
    else if key == "resets_at"
    then some (number_value (λ e. e.resets_in_seconds))
    else none

-- `<` on numbers and `Infinity`.
abbrev pub number_lt : Option ℕ → Option ℕ → Bool
number_lt (some a) (some b) = ltb a b
number_lt (some a) none = true
number_lt none b = false

abbrev pub value_lt : (String → String → Bool) → SortValue → RateLimitEntry → RateLimitEntry → Bool
value_lt lt (text_value f) a b = lt (f a) (f b)
value_lt lt (number_value f) a b = number_lt (f a) (f b)

-- The comparator does not put `a` after `b`: it is 0 or has the direction's sign.
abbrev pub entry_le :
    (String → String → Bool) → SortValue → SortDirection → RateLimitEntry → RateLimitEntry → Bool
entry_le lt value asc a b = not (value_lt lt value b a)
entry_le lt value desc a b = not (value_lt lt value a b)

unfoldable pub sort_rate_limit_entries :
    (String → String → Bool) → List RateLimitEntry → SortState → List RateLimitEntry
unfolding sort_value sort
sort_rate_limit_entries lt entries s = elim (sort_value s.key) [
  | none ↦ entries
  | some value ↦ sort (entry_le lt value s.direction) entries
]

-- The order of strings: of two, at most one is below the other, and being no larger is transitive.
pub record IsStringOrder (lt : String → String → Bool) : Type 0 where
  pub asymmetric : (a b : String) → lt a b ≡ true → lt b a ≡ false
  pub transitive : (a b c : String) → lt b a ≡ false → lt c b ≡ false → lt c a ≡ false

number_lt_asym : (a b : Option ℕ) → number_lt a b ≡ true → number_lt b a ≡ false
number_lt_asym (some a) (some b) h = ground arith
number_lt_asym (some a) none h = refl
number_lt_asym none b h = absurd (cc h)

number_lt_trans :
    (a b c : Option ℕ) → number_lt b a ≡ false → number_lt c b ≡ false → number_lt c a ≡ false
number_lt_trans (some a) (some b) (some c) h k = ground arith
number_lt_trans (some a) (some b) none h k = refl
number_lt_trans (some a) none (some c) h k = absurd (cc k)
number_lt_trans (some a) none none h k = refl
number_lt_trans none (some b) c h k = absurd (cc h)
number_lt_trans none none (some c) h k = absurd (cc k)
number_lt_trans none none none h k = refl

module _ (lt : String → String → Bool) (order : IsStringOrder lt) where
  value_lt_asym :
      (v : SortValue) (a b : RateLimitEntry) → value_lt lt v a b ≡ true → value_lt lt v b a ≡ false
  value_lt_asym (text_value f) a b h = order.asymmetric (f a) (f b) h
  value_lt_asym (number_value f) a b h = number_lt_asym (f a) (f b) h

  value_lt_trans :
      (v : SortValue) (a b c : RateLimitEntry)
      → value_lt lt v b a ≡ false
      → value_lt lt v c b ≡ false
      → value_lt lt v c a ≡ false
  value_lt_trans (text_value f) a b c h k = order.transitive (f a) (f b) (f c) h k
  value_lt_trans (number_value f) a b c h k = number_lt_trans (f a) (f b) (f c) h k

  entry_le_total :
      (v : SortValue) (d : SortDirection) (a b : RateLimitEntry)
      → entry_le lt v d a b ≡ false
      → entry_le lt v d b a ≡ true
  entry_le_total v asc a b h = ground (arith, value_lt_asym v b a)
  entry_le_total v desc a b h = ground (arith, value_lt_asym v a b)

  entry_le_trans :
      (v : SortValue) (d : SortDirection) (a b c : RateLimitEntry)
      → entry_le lt v d a b ≡ true
      → entry_le lt v d b c ≡ true
      → entry_le lt v d a c ≡ true
  entry_le_trans v asc a b c h k = ground (arith, value_lt_trans v a b c)
  entry_le_trans v desc a b c h k = ground (arith, value_lt_trans v c b a)

-- The columns that can be sorted, and what the page says of their order, apart from the comparator.
pub data Column : Type 0 where
  by_endpoint by_scope by_identifier by_requests by_reset : Column

abbrev pub column_key : Column → String
column_key by_endpoint = "endpoint"
column_key by_scope = "scope"
column_key by_identifier = "identifier"
column_key by_requests = "requests"
column_key by_reset = "resets_at"

-- `a` expires no later than `b`; a missing expiry is later than every other.
abbrev pub no_later : Option ℕ → Option ℕ → Bool
no_later (some a) (some b) = leb a b
no_later a none = true
no_later none (some b) = false

-- `a` is no larger than `b` in the column.
abbrev pub at_most : (String → String → Bool) → Column → RateLimitEntry → RateLimitEntry → Bool
at_most lt by_endpoint a b = not (lt b.endpoint a.endpoint)
at_most lt by_scope a b = not (lt b.scope a.scope)
at_most lt by_identifier a b = not (lt b.identifier a.identifier)
at_most lt by_requests a b = leb a.count b.count
at_most lt by_reset a b = no_later a.resets_in_seconds b.resets_in_seconds

-- Ascending, the smaller row comes first; descending, the larger.
abbrev pub comes_first :
    (String → String → Bool) → Column → SortDirection → RateLimitEntry → RateLimitEntry → Bool
comes_first lt column asc a b = at_most lt column a b
comes_first lt column desc a b = at_most lt column b a

abbrev column_value : Column → SortValue
column_value by_endpoint = text_value (λ e. e.endpoint)
column_value by_scope = text_value (λ e. e.scope)
column_value by_identifier = text_value (λ e. e.identifier)
column_value by_requests = number_value (λ e. some e.count)
column_value by_reset = number_value (λ e. e.resets_in_seconds)

sort_value-column_key :
    (column : Column) → sort_value (column_key column) ≡ some (column_value column)
unfolding sort_value
sort_value-column_key by_endpoint = refl
sort_value-column_key by_scope = refl
sort_value-column_key by_identifier = refl
sort_value-column_key by_requests = refl
sort_value-column_key by_reset = refl

no_later-number_lt : (a b : Option ℕ) → no_later a b ≡ not (number_lt b a)
no_later-number_lt (some a) (some b) = ground arith
no_later-number_lt (some a) none = refl
no_later-number_lt none (some b) = refl
no_later-number_lt none none = refl

module _ (lt : String → String → Bool) where
  at_most-value_lt :
      (column : Column) (a b : RateLimitEntry)
      → at_most lt column a b ≡ not (value_lt lt (column_value column) b a)
  at_most-value_lt by_endpoint a b = refl
  at_most-value_lt by_scope a b = refl
  at_most-value_lt by_identifier a b = refl
  at_most-value_lt by_requests a b = no_later-number_lt (some a.count) (some b.count)
  at_most-value_lt by_reset a b = no_later-number_lt a.resets_in_seconds b.resets_in_seconds

  comes_first-entry_le :
      (column : Column) (d : SortDirection) (a b : RateLimitEntry)
      → comes_first lt column d a b ≡ entry_le lt (column_value column) d a b
  comes_first-entry_le column asc a b = at_most-value_lt column a b
  comes_first-entry_le column desc a b = at_most-value_lt column b a

  comes_first-Sorted :
      (column : Column) (d : SortDirection) (rows : List RateLimitEntry)
      → Sorted (entry_le lt (column_value column) d) rows
      → Sorted (comes_first lt column d) rows
  comes_first-Sorted column d [] h = tt
  comes_first-Sorted column d (x ∷ rows) (h, k) = (
    All-mono (λ y. entry_le lt (column_value column) d x y ≡ true)
        (λ y. comes_first lt column d x y ≡ true) (λ y e. comes_first-entry_le column d x y ∙ e)
        rows h,
    comes_first-Sorted column d rows k,
  )

-- In each column, the rows are sorted by what it shows, each before all that follow it: ascending, the
-- smaller first, descending, the larger first, where an expiry that is missing is larger than every
-- other; and each row is shown as often as it was loaded.
pub sort_rate_limit_entries-Sorted :
    (lt : String → String → Bool)
    → IsStringOrder lt
    → (entries : List RateLimitEntry) (column : Column) (direction : SortDirection)
      (p : RateLimitEntry → Bool)
    → Sorted (comes_first lt column direction) (
        sort_rate_limit_entries lt entries
          (record { key = column_key column; direction = direction }))
      × (length (
            filter p (
              sort_rate_limit_entries lt entries
                (record { key = column_key column; direction = direction })))
          ≡ length (filter p entries))
unfolding sort_rate_limit_entries
sort_rate_limit_entries-Sorted lt order entries column direction p = subst Correct (sym step) (
  comes_first-Sorted lt column direction (sort le entries) (
      sort-Sorted le (entry_le_total lt order (column_value column) direction)
        (entry_le_trans lt order (column_value column) direction) entries),
  length-filter-sum_by p (sort le entries)
      ∙ sum_by-sort (λ x. if p x then 1 else 0) le entries
      ∙ sym (length-filter-sum_by p entries),
)
  where
    le : RateLimitEntry → RateLimitEntry → Bool
    le = entry_le lt (column_value column) direction

    step :
        sort_rate_limit_entries lt entries
          (record { key = column_key column; direction = direction })
        ≡ sort le entries
    step =
        ap
          (λ o. elim o as (λ x. List RateLimitEntry) [
            | none ↦ entries
            | some v ↦ sort (entry_le lt v direction) entries
          ])
          (sort_value-column_key column)

    Correct : List RateLimitEntry → Type 0
    Correct xs =
        Sorted (comes_first lt column direction) xs
        × (length (filter p xs) ≡ length (filter p entries))
