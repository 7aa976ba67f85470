-- ===== src/Policies/Lists.antt =====
-- The lists of policies, frontend/src/mystic_auth/policies/policyListHelpers.ts. `toLocaleLowerCase`,
-- `trim` and `localeCompare` are parameters.
pub mod Groups
mod Tests
use Prim.Native.String.{◌++◌ as ◌+++◌}
use manifest_cv.Prelude.{
  ◌≡◌, refl, ℕ, ◌+◌, ◌-◌, ◌*◌, ◌≤◌, String, List, [], ◌∷◌, ◌++◌, map, Option, some, none, Bool,
  true, false, not, ◌&&◌, ◌||◌, filter, any, take, drop, includes, length, All, All-map, sort-All,
  sort, sum_by, sum_by-sort, length-filter-sum_by, Sorted, ◌==◌, string_eq, eq_iff, if◌then◌else◌,
  arith,
}
use manifest_cv.Search.Text.{contains}
use manifest_cv.Auth.Can.{is_destructive_action}

-- The fields that the lists read.
pub record PolicyRead : Type 0 where
  pub name : String
  pub description : Option String
  pub actions : List String
  pub resource_type : String
  pub is_active : Bool

pub record ClientPolicyFilters : Type 0 where
  pub search : Option String
  pub resource_type : Option String
  pub is_active : Option Bool
  pub contains_action : Option String

-- `left.localeCompare(right) <= 0`, and the two functions on a text.
pub record Locale : Type 0 where
  pub before : String → String → Bool
  pub lower : String → String
  pub trim : String → String

abbrev pub or_empty : Option String → String
or_empty none = ""
or_empty (some text) = text

-- An absent or empty filter lets everything pass.
abbrev pub passes : Option String → (String → Bool) → Bool
passes filter_text test = or_empty filter_text == "" || test (or_empty filter_text)

abbrev pub same_status : Bool → Bool → Bool
same_status true b = b
same_status false b = not b

abbrev pub passes_status : Option Bool → Bool → Bool
passes_status none b = true
passes_status (some status) b = same_status status b

unfoldable pub is_shown : Locale → ClientPolicyFilters → PolicyRead → Bool
is_shown l filters policy =
    let search = l.lower (l.trim (or_empty filters.search)) in
    (search == ""
      || contains (l.lower (policy.name +++ " " +++ or_empty policy.description)) search)
    && passes filters.resource_type (λ type. policy.resource_type == type)
    && passes_status filters.is_active policy.is_active
    && passes filters.contains_action (λ action. includes policy.actions action)
    && any is_destructive_action policy.actions

abbrev pub name_before : Locale → PolicyRead → PolicyRead → Bool
name_before l a b = l.before a.name b.name

unfoldable pub filter_destructive_policies :
    Locale → List PolicyRead → ClientPolicyFilters → List PolicyRead
unfolding is_shown
filter_destructive_policies l policies filters =
    sort (name_before l) (filter (is_shown l filters) policies)

-- `Math.max(0, page - 1)` is the difference on natural numbers.
unfoldable pub paginate_policies : List PolicyRead → ℕ → ℕ → List PolicyRead
paginate_policies policies page page_size = take page_size (drop ((page - 1) * page_size) policies)

pub record PolicyGroup : Type 0 where
  pub resource_type : String
  pub policies : List PolicyRead

-- `groups.get` and then `push` or `set`: a new key comes last.
unfoldable pub push_policy : PolicyRead → List PolicyGroup → List PolicyGroup
push_policy policy [] = record { resource_type = policy.resource_type; policies = policy ∷ [] } ∷ []
push_policy policy (g ∷ groups) =
    if g.resource_type == policy.resource_type
    then record { resource_type = g.resource_type; policies = g.policies ++ policy ∷ [] } ∷ groups
    else g ∷ push_policy policy groups

unfoldable pub groups_from : List PolicyGroup → List PolicyRead → List PolicyGroup
unfolding push_policy
groups_from groups [] = groups
groups_from groups (policy ∷ policies) = groups_from (push_policy policy groups) policies

abbrev pub type_before : Locale → PolicyGroup → PolicyGroup → Bool
type_before l a b = l.before a.resource_type b.resource_type

abbrev pub sort_group : Locale → PolicyGroup → PolicyGroup
sort_group l g = record {
  resource_type = g.resource_type;
  policies = sort (name_before l) g.policies;
}

unfoldable pub group_policies_by_resource_type : Locale → List PolicyRead → List PolicyGroup
unfolding groups_from
group_policies_by_resource_type l policies =
    map (sort_group l) (sort (type_before l) (groups_from [] policies))
