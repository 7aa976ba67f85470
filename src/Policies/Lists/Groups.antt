-- ===== src/Policies/Lists/Groups.antt =====
-- The groups of frontend/src/mystic_auth/policies/policyListHelpers.ts.
use manifest_cv.Prelude.{
  ◌≡◌, refl, sym, ◌∙◌, subst, Bool-cases, inl, inr, ℕ, ◌+◌, ◌≤◌, String, List, [], ◌∷◌, ◌++◌, map,
  Bool, true, false, All, All-append, sort-All, sort, sum_by, sum_by-append, sum_by-sort, ◌==◌,
  string_eq, eq_iff, length, filter, length-filter-sum_by, if◌then◌else◌, arith,
}
use manifest_cv.Policies.Lists.{
  PolicyRead, PolicyGroup, Locale, name_before, type_before, sort_group, push_policy, groups_from,
  group_policies_by_resource_type,
}

module _ (f : PolicyRead → ℕ) where
  abbrev group_sum : PolicyGroup → ℕ
  group_sum g = sum_by f g.policies

  sum_by-push_policy :
      (p : PolicyRead) (groups : List PolicyGroup)
      → sum_by group_sum (push_policy p groups) ≡ f p + sum_by group_sum groups
  unfolding sum_by push_policy
  sum_by-push_policy p [] = omega arith
  sum_by-push_policy p (g ∷ groups) =
      go (g.resource_type == p.resource_type) (sum_by-push_policy p groups)
    where
      go :
          (b : Bool)
          → sum_by group_sum (push_policy p groups) ≡ f p + sum_by group_sum groups
          → sum_by group_sum (
              if b
              then record { resource_type = g.resource_type; policies = g.policies ++ p ∷ [] }
                ∷ groups
              else g ∷ push_policy p groups)
            ≡ f p + (group_sum g + sum_by group_sum groups)
      go true h = omega (arith, sum_by-append f g.policies (p ∷ []))
      go false h = omega (arith, h)

  sum_by-groups_from :
      (groups : List PolicyGroup) (policies : List PolicyRead)
      → sum_by group_sum (groups_from groups policies) ≡ sum_by f policies + sum_by group_sum groups
  unfolding sum_by groups_from
  sum_by-groups_from groups [] = omega arith
  sum_by-groups_from groups (p ∷ policies) =
      omega (arith, sum_by-groups_from (push_policy p groups) policies, sum_by-push_policy p groups)

  sum_by-sort_group :
      (l : Locale) (groups : List PolicyGroup)
      → sum_by group_sum (map (sort_group l) groups) ≡ sum_by group_sum groups
  unfolding sum_by
  sum_by-sort_group l [] = refl
  sum_by-sort_group l (g ∷ groups) =
      omega (arith, sum_by-sort f (name_before l) g.policies, sum_by-sort_group l groups)

  group_sum-group_policies :
      (l : Locale) (policies : List PolicyRead)
      → sum_by group_sum (group_policies_by_resource_type l policies) ≡ sum_by f policies
  unfolding group_policies_by_resource_type sum_by
  group_sum-group_policies l policies = omega (
    arith,
    sum_by-sort_group l (sort (type_before l) (groups_from [] policies)),
    sum_by-sort group_sum (type_before l) (groups_from [] policies),
    sum_by-groups_from [] policies,
  )

-- How many groups have a key.
module _ (key : String) where
  abbrev pub has_key : PolicyGroup → ℕ
  has_key g = if g.resource_type == key then 1 else 0

  sum_by-other :
      (p : PolicyRead) (groups : List PolicyGroup)
      → (p.resource_type == key) ≡ false
      → sum_by has_key (push_policy p groups) ≡ sum_by has_key groups
  unfolding sum_by push_policy
  sum_by-other p [] e = ground (arith, e)
  sum_by-other p (g ∷ groups) e = go (g.resource_type == p.resource_type) (sum_by-other p groups e)
    where
      go :
          (b : Bool)
          → sum_by has_key (push_policy p groups) ≡ sum_by has_key groups
          → sum_by has_key (
              if b
              then record { resource_type = g.resource_type; policies = g.policies ++ p ∷ [] }
                ∷ groups
              else g ∷ push_policy p groups)
            ≡ has_key g + sum_by has_key groups
      go true h = refl
      go false h = omega (arith, h)

  sum_by-same :
      (p : PolicyRead) (groups : List PolicyGroup)
      → p.resource_type ≡ key
      → sum_by has_key groups ≤ 1
      → sum_by has_key (push_policy p groups) ≤ 1
  unfolding sum_by push_policy
  sum_by-same p [] e h = ground arith
  sum_by-same p (g ∷ groups) e h =
      go (g.resource_type == p.resource_type) refl (sum_by-same p groups e (omega (arith, h)))
    where
      go :
          (b : Bool)
          → (g.resource_type == p.resource_type) ≡ b
          → sum_by has_key (push_policy p groups) ≤ 1
          → sum_by has_key (
              if b
              then record { resource_type = g.resource_type; policies = g.policies ++ p ∷ [] }
                ∷ groups
              else g ∷ push_policy p groups)
            ≤ 1
      go true t k = h
      go false t k = ground (arith, k, subst (λ type. (g.resource_type == type) ≡ false) e t)

  has_key-push_policy :
      (p : PolicyRead) (groups : List PolicyGroup)
      → sum_by has_key groups ≤ 1
      → sum_by has_key (push_policy p groups) ≤ 1
  has_key-push_policy p groups h = elim (Bool-cases (p.resource_type == key)) [
    | inl same ↦ sum_by-same p groups ((eq_iff p.resource_type key).0 same) h
    | inr other ↦ omega (arith, sum_by-other p groups other, h)
  ]

  has_key-groups_from :
      (groups : List PolicyGroup) (policies : List PolicyRead)
      → sum_by has_key groups ≤ 1
      → sum_by has_key (groups_from groups policies) ≤ 1
  unfolding groups_from
  has_key-groups_from groups [] h = h
  has_key-groups_from groups (p ∷ policies) h =
      has_key-groups_from (push_policy p groups) policies (has_key-push_policy p groups h)

  has_key-sort_group :
      (l : Locale) (groups : List PolicyGroup)
      → sum_by has_key (map (sort_group l) groups) ≡ sum_by has_key groups
  unfolding sum_by
  has_key-sort_group l [] = refl
  has_key-sort_group l (g ∷ groups) = omega (arith, has_key-sort_group l groups)

  has_key-group_policies :
      (l : Locale) (policies : List PolicyRead)
      → sum_by has_key (group_policies_by_resource_type l policies) ≤ 1
  unfolding group_policies_by_resource_type sum_by
  has_key-group_policies l policies = omega (
    arith,
    has_key-sort_group l (sort (type_before l) (groups_from [] policies)),
    sum_by-sort has_key (type_before l) (groups_from [] policies),
    has_key-groups_from [] policies (omega arith),
  )

-- The policies of a group have its type.
abbrev pub IsOfType : PolicyGroup → Type 0
IsOfType g = All (λ p. p.resource_type ≡ g.resource_type) g.policies

push_policy-IsOfType :
    (p : PolicyRead) (groups : List PolicyGroup)
    → All IsOfType groups
    → All IsOfType (push_policy p groups)
unfolding push_policy
push_policy-IsOfType p [] h = ((refl, tt), tt)
push_policy-IsOfType p (g ∷ groups) (here, h) =
    go (g.resource_type == p.resource_type) refl (push_policy-IsOfType p groups h)
  where
    go :
        (b : Bool)
        → (g.resource_type == p.resource_type) ≡ b
        → All IsOfType (push_policy p groups)
        → All IsOfType (
            if b
            then record { resource_type = g.resource_type; policies = g.policies ++ p ∷ [] }
              ∷ groups
            else g ∷ push_policy p groups)
    go true e k = (
      All-append (λ x. x.resource_type ≡ g.resource_type) g.policies (p ∷ []) here
          (sym ((eq_iff g.resource_type p.resource_type).0 e), tt),
      h,
    )
    go false e k = (here, k)

groups_from-IsOfType :
    (groups : List PolicyGroup) (policies : List PolicyRead)
    → All IsOfType groups
    → All IsOfType (groups_from groups policies)
unfolding groups_from
groups_from-IsOfType groups [] h = h
groups_from-IsOfType groups (p ∷ policies) h =
    groups_from-IsOfType (push_policy p groups) policies (push_policy-IsOfType p groups h)

sort_group-IsOfType :
    (l : Locale) (groups : List PolicyGroup)
    → All IsOfType groups
    → All IsOfType (map (sort_group l) groups)
sort_group-IsOfType l [] h = tt
sort_group-IsOfType l (g ∷ groups) (here, h) = (
  sort-All (λ x. x.resource_type ≡ g.resource_type) (name_before l) g.policies here,
  sort_group-IsOfType l groups h,
)

group_policies-IsOfType :
    (l : Locale) (policies : List PolicyRead)
    → All IsOfType (group_policies_by_resource_type l policies)
unfolding group_policies_by_resource_type
group_policies-IsOfType l policies =
    sort_group-IsOfType l (sort (type_before l) (groups_from [] policies)) (
      sort-All IsOfType (type_before l) (groups_from [] policies)
        (groups_from-IsOfType [] policies tt))

-- The groups hold every policy exactly once: as many in all groups pass any test as in the list. Each
-- policy is in a group of its own resource type, and no two groups have the same type.
pub group_policies_by_resource_type-partitions :
    (l : Locale) (policies : List PolicyRead) (test : PolicyRead → Bool) (key : String)
    → All IsOfType (group_policies_by_resource_type l policies)
      × (sum_by
            (λ g. sum_by (λ p. if test p then 1 else 0) g.policies)
            (group_policies_by_resource_type l policies)
          ≡ length (filter test policies))
      × (sum_by (has_key key) (group_policies_by_resource_type l policies) ≤ 1)
group_policies_by_resource_type-partitions l policies test key = (
  group_policies-IsOfType l policies,
  group_sum-group_policies (λ p. if test p then 1 else 0) l policies
      ∙ sym (length-filter-sum_by test policies),
  has_key-group_policies key l policies,
)
