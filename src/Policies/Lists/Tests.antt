-- ===== src/Policies/Lists/Tests.antt =====
-- The lists of policies at concrete inputs.
use manifest_cv.Prelude.{
  ◌≡◌, refl, ◌≤◌, String, List, [], ◌∷◌, some, none, true, All, length, filter, sum_by, sort,
  insert_before, ◌==◌, string_eq, if◌then◌else◌,
}
use manifest_cv.Auth.Can.{is_destructive_action}
use manifest_cv.Policies.Lists.{
  PolicyRead, Locale, paginate_policies, filter_destructive_policies,
  group_policies_by_resource_type,
}
use manifest_cv.Policies.Lists.Groups.{
  IsOfType, has_key, group_policies_by_resource_type-partitions,
}

abbrev plain_locale : Locale
plain_locale = record { before = λ a b. a == b; lower = λ text. text; trim = λ text. text }

abbrev listed : String → String → PolicyRead
listed name resource_type = record {
  name = name;
  description = none;
  actions = "users:delete_any" ∷ [];
  resource_type = resource_type;
  is_active = true;
}

abbrev three_policies : List PolicyRead
three_policies = listed "a" "users" ∷ listed "b" "policies" ∷ listed "c" "users" ∷ []

second_page : paginate_policies three_policies 2 2 ≡ listed "c" "users" ∷ []
unfolding paginate_policies
second_page = refl

shown_policies :
    length (
      filter_destructive_policies plain_locale three_policies (record {
        search = none;
        resource_type = some "users";
        is_active = none;
        contains_action = none;
      }))
    ≡ 2
unfolding filter_destructive_policies is_destructive_action sort insert_before
shown_policies = refl

group_policies_by_resource_type-partitions_example :
    All IsOfType (group_policies_by_resource_type plain_locale three_policies)
    × (sum_by
          (λ g. sum_by (λ p. if p.name == "c" then 1 else 0) g.policies)
          (group_policies_by_resource_type plain_locale three_policies)
        ≡ length (filter (λ p. p.name == "c") three_policies))
    × (sum_by (has_key "users") (group_policies_by_resource_type plain_locale three_policies) ≤ 1)
group_policies_by_resource_type-partitions_example =
    group_policies_by_resource_type-partitions plain_locale three_policies (λ p. p.name == "c")
      "users"
