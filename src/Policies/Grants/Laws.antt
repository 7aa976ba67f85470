-- ===== src/Policies/Grants/Laws.antt =====
-- What the key set holds, and the two routines that drop what a wildcard covers.
use manifest_cv.Prelude.{
  ◌≡◌, refl, String, List, [], ◌∷◌, ◌++◌, map, Bool, true, not, ◌&&◌, ◌||◌, any, all, filter,
  includes, includes-add, add, ◌==◌, string_eq, arith,
}
use manifest_cv.Policies.Grants.{
  grant_key, Grant, PolicyRead, add_actions, add_policies, add_grants,
  build_effective_grant_key_set, has_effective_grant, policy_adds_nothing_new, is_wildcard, add_all,
  wildcard_actions, dedupe_against_wildcards, is_subsumed_by_wildcard,
}

includes-add_all :
    (a : String) (xs keys : List String)
    → includes (add_all xs keys) a ≡ (includes xs a || includes keys a)
unfolding includes
includes-add_all a [] keys = refl
includes-add_all a (x ∷ xs) keys =
    ground (arith, includes-add_all a xs (add x keys), includes-add x a keys)

includes-wildcards :
    (a : String) (source : List Grant)
    → includes (map (λ g. g.action) (filter is_wildcard source)) a
      ≡ any (λ g. g.action == a && is_wildcard g) source
unfolding includes
includes-wildcards a [] = refl
includes-wildcards a (g ∷ rest) = ground (arith, includes-wildcards a rest)

filter_ext {ℓ} :
    {A : Type ℓ} (p q : A → Bool)
    → ((a : A) → p a ≡ q a)
    → (xs : List A) → filter p xs ≡ filter q xs
filter_ext p q h [] = refl
filter_ext p q h (x ∷ xs) = ground (arith, h x, filter_ext p q h xs)

-- Deduplicating a list of grants against a source drops exactly the grants that the check of a
-- single grant calls subsumed by the source, and keeps the order of the others.
pub dedupe_against_wildcards-eq-filter :
    (grants source : List Grant)
    → dedupe_against_wildcards grants source
      ≡ filter (λ g. not (is_subsumed_by_wildcard g source)) grants
unfolding dedupe_against_wildcards is_subsumed_by_wildcard wildcard_actions includes
dedupe_against_wildcards-eq-filter grants source =
    filter_ext _ _
      (λ g. ground (
        arith,
        includes-add_all g.action (map (λ g. g.action) (filter is_wildcard source)) [],
        includes-wildcards g.action source,
      ))
      grants

includes-add_actions :
    (key resource_type : String) (actions keys : List String)
    → includes (add_actions resource_type actions keys) key
      ≡ (any (λ a. grant_key a resource_type == key) actions || includes keys key)
unfolding includes
includes-add_actions key t [] keys = refl
includes-add_actions key t (a ∷ rest) keys = ground (
  arith,
  includes-add_actions key t rest (add (grant_key a t) keys),
  includes-add (grant_key a t) key keys,
)

-- Some policy, or some direct grant, gives the key.
abbrev pub gives : String → PolicyRead → Bool
gives key p = any (λ a. grant_key a p.resource_type == key) p.actions

includes-add_policies :
    (key : String) (policies : List PolicyRead) (keys : List String)
    → includes (add_policies policies keys) key ≡ (any (gives key) policies || includes keys key)
unfolding includes
includes-add_policies key [] keys = refl
includes-add_policies key (p ∷ rest) keys = ground (
  arith,
  includes-add_policies key rest (add_actions p.resource_type p.actions keys),
  includes-add_actions key p.resource_type p.actions keys,
)

includes-add_grants :
    (key : String) (grants : List Grant) (keys : List String)
    → includes (add_grants grants keys) key
      ≡ (any (λ g. grant_key g.action g.resource_type == key) grants || includes keys key)
unfolding includes
includes-add_grants key [] keys = refl
includes-add_grants key (g ∷ rest) keys = ground (
  arith,
  includes-add_grants key rest (add (grant_key g.action g.resource_type) keys),
  includes-add (grant_key g.action g.resource_type) key keys,
)

-- The set of effective keys has a key exactly if an action of some assigned policy on the policy's
-- resource type, or some direct grant, has that key.
pub includes-build_effective_grant_key_set :
    (key : String) (policies : List PolicyRead) (grants : List Grant)
    → includes (build_effective_grant_key_set policies grants) key
      ≡ (any (λ g. grant_key g.action g.resource_type == key) grants || any (gives key) policies)
unfolding build_effective_grant_key_set includes
includes-build_effective_grant_key_set key policies grants = ground (
  arith,
  includes-add_grants key grants (add_policies policies []),
  includes-add_policies key policies [],
)

any-append {ℓ} :
    {A : Type ℓ} (p : A → Bool) (xs ys : List A) → any p (xs ++ ys) ≡ (any p xs || any p ys)
any-append p [] ys = refl
any-append p (x ∷ xs) ys = ground (arith, any-append p xs ys)

all-has_effective_grant :
    (t : String) (keys actions : List String)
    → ((a : String)
        → any (λ b. grant_key b t == grant_key a t) actions ≡ true
        → includes keys (grant_key a t) ≡ true)
    → all (λ a. has_effective_grant keys a t) actions ≡ true
unfolding has_effective_grant
all-has_effective_grant t keys [] h = refl
all-has_effective_grant t keys (a ∷ rest) h = ground (
  arith,
  h a (ground (arith, string_eq.eqb_iff (grant_key a t) (grant_key a t))),
  all-has_effective_grant t keys rest (λ b k. h b (ground arith)),
)

-- Once a policy is assigned, whatever else is, assigning it again adds nothing new.
pub policy_adds_nothing_new-assigned :
    (before after : List PolicyRead) (p : PolicyRead) (grants : List Grant)
    → policy_adds_nothing_new p (build_effective_grant_key_set (before ++ p ∷ after) grants) ≡ true
unfolding policy_adds_nothing_new
policy_adds_nothing_new-assigned before after p grants =
    all-has_effective_grant p.resource_type _ p.actions (λ a h. ground (
      arith,
      includes-build_effective_grant_key_set (grant_key a p.resource_type) (before ++ p ∷ after)
          grants,
      any-append (gives (grant_key a p.resource_type)) before (p ∷ after),
    ))
