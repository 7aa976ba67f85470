-- ===== src/Policies/Grants.antt =====
-- Effective grants, frontend/src/mystic_auth/policies/logic/effectiveGrants.ts. A `Set` is the list
-- of its keys and a `Map` the list of its entries, each in insertion order.
pub mod Laws
pub mod Groups
use Prim.Native.String.{◌++◌ as ◌+++◌}
use manifest_cv.Prelude.{
  String, List, [], ◌∷◌, ◌++◌, map, Option, some, none, Bool, true, false, not, ◌&&◌, ◌||◌, any,
  all, filter, includes, add, Eq, ◌==◌, string_eq, if◌then◌else◌,
}

abbrev pub wildcard_resource_type : String
wildcard_resource_type = "*"

unfoldable pub grant_key : String → String → String
grant_key action resource_type = action +++ ("::" +++ resource_type)

pub record Grant : Type 0 where
  pub action : String
  pub resource_type : String

pub record PolicyRead : Type 0 where
  pub name : String
  pub actions : List String
  pub resource_type : String

-- The loops that add the keys.
abbrev pub add_actions : String → List String → List String → List String
add_actions resource_type [] keys = keys
add_actions resource_type (action ∷ rest) keys =
    add_actions resource_type rest (add (grant_key action resource_type) keys)

abbrev pub add_policies : List PolicyRead → List String → List String
add_policies [] keys = keys
add_policies (p ∷ rest) keys = add_policies rest (add_actions p.resource_type p.actions keys)

abbrev pub add_grants : List Grant → List String → List String
add_grants [] keys = keys
add_grants (g ∷ rest) keys = add_grants rest (add (grant_key g.action g.resource_type) keys)

unfoldable pub build_effective_grant_key_set : List PolicyRead → List Grant → List String
build_effective_grant_key_set policies grants = add_grants grants (add_policies policies [])

unfoldable pub has_effective_grant : List String → String → String → Bool
unfolding grant_key includes
has_effective_grant keys action resource_type =
    includes keys (grant_key action resource_type)
    || includes keys (grant_key action wildcard_resource_type)

unfoldable pub policy_adds_nothing_new : PolicyRead → List String → Bool
unfolding has_effective_grant
policy_adds_nothing_new candidate keys =
    all (λ action. has_effective_grant keys action candidate.resource_type) candidate.actions

unfoldable pub is_already_effectively_granted : List String → String → String → Bool
unfolding has_effective_grant
is_already_effectively_granted keys action resource_type =
    has_effective_grant keys action resource_type

abbrev pub is_wildcard : Grant → Bool
is_wildcard g = g.resource_type == wildcard_resource_type

-- `new Set(wildcardSource.filter(…).map(…))`.
abbrev pub add_all : List String → List String → List String
add_all [] keys = keys
add_all (a ∷ rest) keys = add_all rest (add a keys)

unfoldable pub wildcard_actions : List Grant → List String
wildcard_actions source = add_all (map (λ g. g.action) (filter is_wildcard source)) []

unfoldable pub dedupe_against_wildcards : List Grant → List Grant → List Grant
unfolding includes wildcard_actions
dedupe_against_wildcards grants source =
    filter (λ g. is_wildcard g || not (includes (wildcard_actions source) g.action)) grants

unfoldable pub is_subsumed_by_wildcard : Grant → List Grant → Bool
is_subsumed_by_wildcard target source =
    not (is_wildcard target) && any (λ g. g.action == target.action && is_wildcard g) source

pub record EffectiveGrantWithSource : Type 0 where
  pub action : String
  pub resource_type : String
  pub policy_names : List String
  pub direct : Bool

-- A `Map` update: the entry of the key is changed in place, or a first one is put at the end.
abbrev pub upsert {ℓ} : {A : Type ℓ} → String → (A → A) → A → List (String × A) → List (String × A)
upsert key change first [] = (key, first) ∷ []
upsert key change first ((k, entry) ∷ rest) =
    if k == key then (k, change entry) ∷ rest else (k, entry) ∷ upsert key change first rest

abbrev pub Sources : Type 0
Sources = List (String × EffectiveGrantWithSource)

abbrev pub credit_policy : String → String → String → Sources → Sources
credit_policy name resource_type action =
    upsert (grant_key action resource_type)
      (λ entry. record entry { policy_names = entry.policy_names ++ name ∷ [] })
      (record {
        action = action;
        resource_type = resource_type;
        policy_names = name ∷ [];
        direct = false;
      })

abbrev pub credit_actions : String → String → List String → Sources → Sources
credit_actions name resource_type [] by_key = by_key
credit_actions name resource_type (action ∷ rest) by_key =
    credit_actions name resource_type rest (credit_policy name resource_type action by_key)

abbrev pub credit_policies : List PolicyRead → Sources → Sources
credit_policies [] by_key = by_key
credit_policies (p ∷ rest) by_key =
    credit_policies rest (credit_actions p.name p.resource_type p.actions by_key)

abbrev pub credit_grants : List Grant → Sources → Sources
credit_grants [] by_key = by_key
credit_grants (g ∷ rest) by_key = credit_grants rest (
    upsert (grant_key g.action g.resource_type) (λ entry. record entry { direct = true })
      (record {
        action = g.action;
        resource_type = g.resource_type;
        policy_names = [];
        direct = true;
      })
      by_key)

-- The map that `buildEffectiveGrantsWithSource` fills, and its values.
unfoldable pub grants_by_key : List PolicyRead → List Grant → Sources
grants_by_key policies grants = credit_grants grants (credit_policies policies [])

unfoldable pub build_effective_grants_with_source :
    List PolicyRead → List Grant → List EffectiveGrantWithSource
unfolding grants_by_key
build_effective_grants_with_source policies grants = map (λ e. e.1) (grants_by_key policies grants)

-- Groups of items by a key, in the order of their first items.
unfoldable pub group_by_resource_type {ℓ} :
    {A : Type ℓ} → (A → String) → List A → List (String × List A) → List (String × List A)
group_by_resource_type key [] groups = groups
group_by_resource_type key (item ∷ rest) groups =
    group_by_resource_type key rest
      (upsert (key item) (λ group. group ++ item ∷ []) (item ∷ []) groups)
