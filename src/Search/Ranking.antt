-- ===== src/Search/Ranking.antt =====
-- The order of the palette's results: the memo `filtered` and `kindCount` of
-- frontend/src/mystic_auth/layout/command_palette/CommandPaletteResults.ts.
use text.Mathlib.Text.{starts_with}
use manifest_cv.Prelude.{
  ◌≡◌, refl, sym, ◌∙◌, ℕ, suc, ◌+◌, min, String, List, [], ◌∷◌, ◌++◌, map, Bool, ◌||◌, ◌&&◌, ltb,
  leb, nat_eqb, length, filter, ◌==◌, string_eq, if◌then◌else◌, arith, sort, sum_by, sum_by-append,
  sum_by-sort, length-filter-sum_by, add,
}
use manifest_cv.Policies.Grants.{upsert, group_by_resource_type}
use manifest_cv.Search.Text.{contains}
use manifest_cv.Search.Palette.{
  Result, ResultKind, page, content, match_text, user, policy, or_empty,
}

abbrev pub kind_key : ResultKind → String
kind_key page = "page"
kind_key content = "content"
kind_key match_text = "match"
kind_key user = "user"
kind_key policy = "policy"

abbrev pub kind_priority : ResultKind → ℕ
kind_priority page = 0
kind_priority content = 1
kind_priority match_text = 2
kind_priority policy = 3
kind_priority user = 4

unfoldable pub relevance : (String → String) → String → Result → ℕ
unfolding contains
relevance lower q r =
    let label = lower r.label in
    if label == q
    then 0
    else if starts_with label q
    then 1
    else if contains label q
    then 2
    else if contains (lower (or_empty r.sublabel)) q
    then 3
    else 4

pub record Ranked : Type 0 where
  pub result : Result
  pub relevance : ℕ
  pub index : ℕ

abbrev pub ranked_from : (String → String) → String → ℕ → List Result → List Ranked
ranked_from lower q index [] = []
ranked_from lower q index (r ∷ rest) =
    record { result = r; relevance = relevance lower q r; index = index }
    ∷ ranked_from lower q (suc index) rest

-- The `Map` from kinds to their items.
unfoldable pub groups_by_kind : List Ranked → List (String × List Ranked)
unfolding group_by_resource_type
groups_by_kind ranked = group_by_resource_type (λ item. kind_key item.result.kind) ranked []

-- `Math.min(...)`; a group is never empty, and no relevance is above 4.
abbrev pub min_relevance : List Ranked → ℕ
min_relevance [] = 5
min_relevance (item ∷ rest) = min item.relevance (min_relevance rest)

abbrev pub group_priority : List Ranked → ℕ
group_priority [] = 5
group_priority (item ∷ rest) = kind_priority item.result.kind

-- A comparator of two numbers, the second where the first ones agree.
abbrev pub le_pair : ℕ → ℕ → ℕ → ℕ → Bool
le_pair a b c d = ltb a c || (nat_eqb a c && leb b d)

abbrev pub group_le : String × List Ranked → String × List Ranked → Bool
group_le a b =
    le_pair (min_relevance a.1) (group_priority a.1) (min_relevance b.1) (group_priority b.1)

abbrev pub item_le : Ranked → Ranked → Bool
item_le a b = le_pair a.relevance a.index b.relevance b.index

abbrev pub flat_results : List (String × List Ranked) → List Result
flat_results [] = []
flat_results (group ∷ rest) = map (λ item. item.result) (sort item_le group.1) ++ flat_results rest

unfoldable pub rank_results : (String → String) → String → List Result → List Result
unfolding relevance groups_by_kind sort
rank_results lower q candidates =
    flat_results (sort group_le (groups_by_kind (ranked_from lower q 0 candidates)))

abbrev kinds_of : List Result → List String → List String
kinds_of [] kinds = kinds
kinds_of (r ∷ rest) kinds = kinds_of rest (add (kind_key r.kind) kinds)

unfoldable pub kind_count : List Result → ℕ
unfolding add
kind_count filtered = length (kinds_of filtered [])

-- A sum over all items of some groups.
abbrev in_groups : (Ranked → ℕ) → List (String × List Ranked) → ℕ
in_groups f groups = sum_by (λ g. sum_by f g.1) groups

in_groups-upsert :
    (f : Ranked → ℕ) (key : String) (item : Ranked) (groups : List (String × List Ranked))
    → in_groups f (upsert key (λ group. group ++ item ∷ []) (item ∷ []) groups)
      ≡ f item + in_groups f groups
unfolding sum_by
in_groups-upsert f key item [] = omega arith
in_groups-upsert f key item ((k, group) ∷ rest) =
    ground (arith, in_groups-upsert f key item rest, sum_by-append f group (item ∷ []))

in_groups-group :
    (f : Ranked → ℕ) (key : Ranked → String) (items : List Ranked)
    (groups : List (String × List Ranked))
    → in_groups f (group_by_resource_type key items groups) ≡ in_groups f groups + sum_by f items
unfolding sum_by group_by_resource_type
in_groups-group f key [] groups = omega arith
in_groups-group f key (item ∷ rest) groups = omega (
  arith,
  in_groups-group f key rest (upsert (key item) (λ group. group ++ item ∷ []) (item ∷ []) groups),
  in_groups-upsert f (key item) item groups,
)

sum_by-ranked_from :
    (f : Result → ℕ) (lower : String → String) (q : String) (index : ℕ) (rs : List Result)
    → sum_by (λ item. f item.result) (ranked_from lower q index rs) ≡ sum_by f rs
unfolding sum_by
sum_by-ranked_from f lower q index [] = refl
sum_by-ranked_from f lower q index (r ∷ rest) =
    omega (arith, sum_by-ranked_from f lower q (suc index) rest)

sum_by-results :
    (f : Result → ℕ) (items : List Ranked)
    → sum_by f (map (λ item. item.result) items) ≡ sum_by (λ item. f item.result) items
unfolding sum_by
sum_by-results f [] = refl
sum_by-results f (item ∷ rest) = omega (arith, sum_by-results f rest)

sum_by-flat_results :
    (f : Result → ℕ) (groups : List (String × List Ranked))
    → sum_by f (flat_results groups) ≡ in_groups (λ item. f item.result) groups
unfolding sum_by
sum_by-flat_results f [] = refl
sum_by-flat_results f (group ∷ rest) = omega (
  arith,
  sum_by-append f (map (λ item. item.result) (sort item_le group.1)) (flat_results rest),
  sum_by-results f (sort item_le group.1),
  sum_by-sort (λ item. f item.result) item_le group.1,
  sum_by-flat_results f rest,
)

pub sum_by-rank_results :
    (f : Result → ℕ) (lower : String → String) (q : String) (candidates : List Result)
    → sum_by f (rank_results lower q candidates) ≡ sum_by f candidates
unfolding rank_results sum_by
sum_by-rank_results f lower q candidates =
    let ranked = ranked_from lower q 0 candidates in
    sum_by-flat_results f (sort group_le (groups_by_kind ranked))
    ∙ sum_by-sort (λ g. sum_by (λ item. f item.result) g.1) group_le (groups_by_kind ranked)
    ∙ in_groups-group (λ item. f item.result) (λ item. kind_key item.result.kind) ranked []
    ∙ omega (arith, sum_by-ranked_from f lower q 0 candidates)

-- The ranking shows every candidate as often as it was found: as many results pass any test as
-- candidates do.
pub length-filter-rank_results :
    (lower : String → String) (q : String) (candidates : List Result) (p : Result → Bool)
    → length (filter p (rank_results lower q candidates)) ≡ length (filter p candidates)
length-filter-rank_results lower q candidates p =
    length-filter-sum_by p (rank_results lower q candidates)
    ∙ sum_by-rank_results (λ r. if p r then 1 else 0) lower q candidates
    ∙ sym (length-filter-sum_by p candidates)
