-- ===== src/Policies/Grants/Groups.antt =====
-- The map that says where each grant comes from, and the groups by resource type.
use manifest_cv.Prelude.{
  ◌≡◌, refl, ap, ◌∙◌, String, List, [], ◌∷◌, ◌++◌, map, Bool, true, false, filter, includes, add,
  ◌==◌, string_eq, if◌then◌else◌, arith, sym,
}
use manifest_cv.Policies.Grants.{
  grant_key, Grant, PolicyRead, upsert, Sources, add_actions, add_policies, add_grants,
  build_effective_grant_key_set, credit_actions, credit_policies, credit_grants, grants_by_key,
  credit_policy, group_by_resource_type,
}

abbrev pub keys {ℓ} : {A : Type ℓ} → List (String × A) → List String
keys entries = map (λ e. e.0) entries

keys-upsert {ℓ} :
    {A : Type ℓ} (key : String) (change : A → A) (first : A) (entries : List (String × A))
    → keys (upsert key change first entries) ≡ add key (keys entries)
unfolding add includes
keys-upsert key change first [] = refl
keys-upsert key change first ((k, entry) ∷ rest) = ground (arith, keys-upsert key change first rest)

keys-credit_actions :
    (name t : String) (actions : List String) (by_key : Sources)
    → keys (credit_actions name t actions by_key) ≡ add_actions t actions (keys by_key)
keys-credit_actions name t [] by_key = refl
keys-credit_actions name t (a ∷ rest) by_key =
    keys-credit_actions name t rest (credit_policy name t a by_key)
    ∙ ap (add_actions t rest) (keys-upsert (grant_key a t) _ _ by_key)

keys-credit_policies :
    (policies : List PolicyRead) (by_key : Sources)
    → keys (credit_policies policies by_key) ≡ add_policies policies (keys by_key)
keys-credit_policies [] by_key = refl
keys-credit_policies (p ∷ rest) by_key =
    keys-credit_policies rest (credit_actions p.name p.resource_type p.actions by_key)
    ∙ ap (add_policies rest) (keys-credit_actions p.name p.resource_type p.actions by_key)

keys-credit_grants :
    (grants : List Grant) (by_key : Sources)
    → keys (credit_grants grants by_key) ≡ add_grants grants (keys by_key)
keys-credit_grants [] by_key = refl
keys-credit_grants (g ∷ rest) by_key =
    keys-credit_grants rest (upsert (grant_key g.action g.resource_type) _ _ by_key)
    ∙ ap (add_grants rest) (keys-upsert (grant_key g.action g.resource_type) _ _ by_key)

-- The grants with their sources stand under the keys of the effective key set, the same keys in the
-- same order.
pub keys-grants_by_key :
    (policies : List PolicyRead) (grants : List Grant)
    → keys (grants_by_key policies grants) ≡ build_effective_grant_key_set policies grants
unfolding grants_by_key build_effective_grant_key_set
keys-grants_by_key policies grants =
    keys-credit_grants grants (credit_policies policies [])
    ∙ ap (add_grants grants) (keys-credit_policies policies [])

-- The group under a key, empty if there is none.
abbrev pub group {ℓ} : {A : Type ℓ} → String → List (String × List A) → List A
group key [] = []
group key ((k, items) ∷ rest) = if k == key then items else group key rest

group-upsert {ℓ} :
    {A : Type ℓ} (key other : String) (item : A) (groups : List (String × List A))
    → group key (upsert other (λ items. items ++ item ∷ []) (item ∷ []) groups)
      ≡ (if other == key then group key groups ++ item ∷ [] else group key groups)
group-upsert key other item [] = ground arith
group-upsert key other item ((k, items) ∷ rest) = ground (
  arith,
  group-upsert key other item rest,
  string_eq.eqb_iff k key,
  string_eq.eqb_iff other key,
  string_eq.eqb_iff k other,
)

append_nil {ℓ} : {A : Type ℓ} (xs : List A) → xs ++ [] ≡ xs
append_nil [] = refl
append_nil (x ∷ xs) = ap (x ∷◌) (append_nil xs)

append_assoc {ℓ} : {A : Type ℓ} (xs ys zs : List A) → (xs ++ ys) ++ zs ≡ xs ++ (ys ++ zs)
append_assoc [] ys zs = refl
append_assoc (x ∷ xs) ys zs = ap (x ∷◌) (append_assoc xs ys zs)

-- Grouping puts under each resource type exactly the items of that type, in their order, after what
-- the group had.
pub group-group_by_resource_type {ℓ} :
    {A : Type ℓ} (key_of : A → String) (key : String) (items : List A)
    (groups : List (String × List A))
    → group key (group_by_resource_type key_of items groups)
      ≡ group key groups ++ filter (λ item. key_of item == key) items
unfolding group_by_resource_type
group-group_by_resource_type key_of key [] groups = sym (append_nil (group key groups))
group-group_by_resource_type {A = A} key_of key (item ∷ rest) groups =
    group-group_by_resource_type key_of key rest
      (upsert (key_of item) (λ items. items ++ item ∷ []) (item ∷ []) groups)
    ∙ ap (λ g. g ++ others) (group-upsert key (key_of item) item groups)
    ∙ put (key_of item == key)
  where
    others : List A
    others = filter (λ x. key_of x == key) rest

    put :
        (b : Bool)
        → (if b then group key groups ++ item ∷ [] else group key groups) ++ others
          ≡ group key groups ++ (if b then item ∷ others else others)
    put true = append_assoc (group key groups) (item ∷ []) others
    put false = refl
