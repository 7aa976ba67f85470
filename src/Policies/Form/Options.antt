-- ===== src/Policies/Form/Options.antt =====
-- The actions that the form offers, and those that it keeps under another resource type.
use manifest_cv.Prelude.{
  ◌≡◌, refl, ◌∙◌, String, List, [], ◌∷◌, ◌++◌, map, Bool, true, not, ◌&&◌, ◌||◌, any, filter,
  includes, includes-append, includes-filter, All, ◌==◌, string_eq, arith, ap, ap₂,
}
use manifest_cv.Policies.Form.{
  CatalogEntry, Form, is_of_type, action_options, valid_actions, handle_resource_type_change,
}

All_of_includes :
    (P : String → Type 0) (xs : List String)
    → ((a : String) → includes xs a ≡ true → P a)
    → All P xs
unfolding includes
All_of_includes P [] h = tt
All_of_includes P (x ∷ xs) h =
    (h x (ground (arith, string_eq.eqb_iff x x)), All_of_includes P xs (λ a k. h a (ground arith)))

abbrev actions_of : List CatalogEntry → List String
actions_of entries = map (λ entry. entry.action) entries

includes-actions_of :
    (a : String) (p : CatalogEntry → Bool) (entries : List CatalogEntry)
    → includes (actions_of (filter p entries)) a
      ≡ any (λ entry. entry.action == a && p entry) entries
unfolding includes
includes-actions_of a p [] = refl
includes-actions_of a p (entry ∷ rest) = ground (arith, includes-actions_of a p rest)

map-append {ℓ κ} :
    {A : Type ℓ} {B : Type κ} (f : A → B) (xs ys : List A) → map f (xs ++ ys) ≡ map f xs ++ map f ys
map-append f [] ys = refl
map-append f (x ∷ xs) ys = ap (f x ∷◌) (map-append f xs ys)

module _ (can_grant : String → Bool) (kept : List String) where
  abbrev grantable : CatalogEntry → Bool
  grantable entry = can_grant entry.action

  abbrev retained : CatalogEntry → Bool
  retained entry = includes kept entry.action && not (can_grant entry.action)

  any-offered :
      (a : String) (entries : List CatalogEntry)
      → includes kept a ≡ true
      → includes (actions_of entries) a ≡ true
      → (any (λ entry. entry.action == a && grantable entry) entries
          || any (λ entry. entry.action == a && retained entry) entries)
        ≡ true
  unfolding includes
  any-offered a [] h k = cc
  any-offered a (entry ∷ rest) h k = ground (arith, same, any-offered a rest h)
    where
      same : (entry.action == a) ≡ true → includes kept entry.action ≡ true
      same e = ap (includes kept) ((string_eq.eqb_iff entry.action a).0 e) ∙ h

  includes-offered :
      (a : String) (entries : List CatalogEntry)
      → includes kept a ≡ true
      → includes (actions_of entries) a ≡ true
      → includes (actions_of (filter grantable entries ++ filter retained entries)) a ≡ true
  includes-offered a entries h k =
      ap (λ xs. includes xs a) (map-append (λ entry. entry.action) (filter grantable entries) _)
      ∙ includes-append (actions_of (filter grantable entries)) _ a
      ∙ ap₂ (λ x y. x || y) (includes-actions_of a grantable entries)
          (includes-actions_of a retained entries)
      ∙ any-offered a entries h k

-- After a change of the resource type the form offers every action that it keeps, also one that the
-- caller may not grant, so that none is submitted that the form does not show.
pub handle_resource_type_change-Offered :
    (can_grant : String → Bool) (catalog : List CatalogEntry) (value : String) (form : Form)
    → let changed = (handle_resource_type_change catalog value form).0 in
      All
        (λ a. includes (action_options can_grant catalog changed.fields) a ≡ true)
        changed.fields.actions
unfolding handle_resource_type_change action_options
handle_resource_type_change-Offered can_grant catalog value form = All_of_includes _ _ (λ a h.
    includes-offered can_grant _ a (filter (is_of_type value) catalog) h (
      ground (
        arith,
        includes-filter (λ b. includes (valid_actions catalog value) b) a form.fields.actions,
      )))
