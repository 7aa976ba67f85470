-- ===== src/Policies/Activity.antt =====
-- The switch of a policy on the policies page: useOptimisticPolicyActivity.ts, `handleToggleActive` of
-- policiesPageHandlers.ts and of PoliciesPage.tsx in frontend/src/mystic_auth/policies. What the list
-- query answers after a change is an argument.
use manifest_cv.Prelude.{
  ◌≡◌, refl, ap, ◌∙◌, String, List, [], ◌∷◌, map, Option, some, none, Bool, true, not, ◌||◌, filter,
  all, ◌==◌, string_eq, eqb_self, eq_iff, if◌then◌else◌, arith,
}

pub record PolicyStatus : Type 0 where
  pub name : String
  pub is_active : Bool

-- `optimisticActiveStates`: the keys of an object with their values.
abbrev pub ActiveStates : Type 0
ActiveStates = List (String × Bool)

unfoldable pub active_state : ActiveStates → String → Option Bool
active_state [] name = none
active_state ((k, b) ∷ rest) name = if k == name then some b else active_state rest name

pub record PoliciesPage : Type 0 where
  pub server : List PolicyStatus
  pub optimistic : ActiveStates

abbrev pub with_state : Option Bool → PolicyStatus → PolicyStatus
with_state none p = p
with_state (some b) p = record p { is_active = b }

-- The list that the page shows.
unfoldable pub displayed : PoliciesPage → List PolicyStatus
unfolding active_state
displayed s = map (λ p. with_state (active_state s.optimistic p.name) p) s.server

abbrev pub drop_state : String → ActiveStates → ActiveStates
drop_state name states = filter (λ e. not (e.0 == name)) states

unfoldable pub set_optimistic_active : PolicyStatus → Bool → PoliciesPage → PoliciesPage
set_optimistic_active p is_active s = record s {
  optimistic = (p.name, is_active) ∷ drop_state p.name s.optimistic;
}

unfoldable pub rollback_optimistic_active : String → PoliciesPage → PoliciesPage
rollback_optimistic_active name s = record s { optimistic = drop_state name s.optimistic }

-- The request: the policy's name and the new value of `is_active`.
unfoldable pub handle_toggle_active : PolicyStatus → PoliciesPage → PoliciesPage × (String × Bool)
unfolding set_optimistic_active
handle_toggle_active p s = (set_optimistic_active p (not p.is_active) s, (p.name, not p.is_active))

-- A success refetches the list; a rejection has no list.
unfoldable pub toggle_settled :
    PolicyStatus → Option (List PolicyStatus) → PoliciesPage → PoliciesPage
unfolding rollback_optimistic_active
toggle_settled p none s = rollback_optimistic_active p.name s
toggle_settled p (some refetched) s = record s { server = refetched }

-- `Undo`: the request with the old value, and what its answer does.
abbrev pub undo_request : PolicyStatus → String × Bool
undo_request p = (p.name, p.is_active)

unfoldable pub undo_settled : Option (List PolicyStatus) → PoliciesPage → PoliciesPage
undo_settled none s = s
undo_settled (some refetched) s = record s { server = refetched }

-- The policy is shown with this value wherever it is shown.
abbrev pub shows_active : String → Bool → List PolicyStatus → Bool
shows_active name is_active policies =
    all (λ p. not (p.name == name) || (if p.is_active then is_active else not is_active)) policies

shows_active-map :
    (name : String) (b : Bool) (states : ActiveStates) (policies : List PolicyStatus)
    → active_state states name ≡ some b
    → shows_active name b (map (λ p. with_state (active_state states p.name) p) policies) ≡ true
shows_active-map name b states [] h = refl
shows_active-map name b states (p ∷ rest) h =
    ground (arith, shows_active-map name b states rest h, name_state)
  where
    name_state : (p.name == name) ≡ true → active_state states p.name ≡ some b
    name_state e = ap (λ n. active_state states n) ((eq_iff p.name name).0 e) ∙ h

-- Once a policy was switched with success, the page shows it as switched whatever the server then
-- answers: also after an `Undo` that has succeeded, when the server has the old value again.
pub displayed-undo_settled :
    (p : PolicyStatus) (s : PoliciesPage) (switched undone : List PolicyStatus)
    → shows_active p.name (not p.is_active) (
        displayed (
          undo_settled
            (some undone)
            (toggle_settled p (some switched) (handle_toggle_active p s).0)))
      ≡ true
unfolding displayed undo_settled toggle_settled handle_toggle_active active_state
displayed-undo_settled p s switched undone =
    shows_active-map p.name (not p.is_active)
      ((p.name, not p.is_active) ∷ drop_state p.name s.optimistic) undone
      (ground (arith, eqb_self p.name))
