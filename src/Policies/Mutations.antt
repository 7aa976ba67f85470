-- ===== src/Policies/Mutations.antt =====
-- What the single mutations invalidate: policyMutations.ts and permissionMutations.ts of
-- frontend/src/mystic_auth/policies/queries, and the guard of the tab's own changes that they arm.
use manifest_cv.Prelude.{
  ◌≡◌, refl, ℕ, ◌+◌, ◌<◌, String, List, [], ◌∷◌, ◌++◌, Option, some, none, Bool, true, false, ◌==◌,
  string_eq, if◌then◌else◌, arith,
}
use manifest_cv.Auth.Events.{Tab, mark_self_mutation, on_message, recent_self_mutation_window_ms}
use manifest_cv.Policies.Bulk.{
  Effects, QueryKey, permission_catalog_usage, my_policies, my_permissions, current_user,
  user_policies, user_permissions,
}
use manifest_cv.Users.Access.{
  AccessCall, assign_policy, revoke_policy, revoke_policy_action, grant_permission,
  revoke_permission,
}

-- `userEmail === useAuthStore.getState().email`.
abbrev pub is_own : Option String → String → Bool
is_own none email = false
is_own (some own) email = email == own

abbrev pub self_keys : Bool → List QueryKey
self_keys own = if own then current_user ∷ [] else []

abbrev pub effects_on : Option String → String → List QueryKey → Effects
effects_on own email keys = record {
  invalidated = permission_catalog_usage ∷ (keys ++ self_keys (is_own own email));
  marks_self = is_own own email;
}

-- `onSuccess` of the mutation that sends the request.
unfoldable pub access_effects : {C : Type 0} → Option String → AccessCall C → Effects
access_effects own (assign_policy email name) =
    effects_on own email (user_policies email ∷ my_policies ∷ [])
access_effects own (revoke_policy email name) =
    effects_on own email (user_policies email ∷ my_policies ∷ [])
access_effects own (revoke_policy_action email name action) =
    effects_on own email
      (user_policies email ∷ my_policies ∷ user_permissions email ∷ my_permissions ∷ [])
access_effects own (grant_permission email action resource_type conditions) =
    effects_on own email (user_permissions email ∷ my_permissions ∷ [])
access_effects own (revoke_permission email action resource_type) =
    effects_on own email (user_permissions email ∷ my_permissions ∷ [])

unfoldable pub apply_effects : ℕ → Effects → Tab → Tab
unfolding mark_self_mutation
apply_effects now effects tab = if effects.marks_self then mark_self_mutation now tab else tab

abbrev pub user_of : {C : Type 0} → AccessCall C → String
user_of (assign_policy email name) = email
user_of (revoke_policy email name) = email
user_of (revoke_policy_action email name action) = email
user_of (grant_permission email action resource_type conditions) = email
user_of (revoke_permission email action resource_type) = email

marks_self-eq :
    {C : Type 0} (own : Option String) (call : AccessCall C)
    → (access_effects own call).marks_self ≡ is_own own (user_of call)
unfolding access_effects
marks_self-eq own (assign_policy email name) = refl
marks_self-eq own (revoke_policy email name) = refl
marks_self-eq own (revoke_policy_action email name action) = refl
marks_self-eq own (grant_permission email action resource_type conditions) = refl
marks_self-eq own (revoke_permission email action resource_type) = refl

-- After a request of the access dialog that changes the caller's own access, a permissions_changed
-- event within five seconds leaves the stored permissions as they are; after one that changes another
-- user's, the event does to this tab what it would have done without the request.
pub on_message-access_effects :
    {C : Type 0} (own : String) (call : AccessCall C) (tab : Tab) (now later : ℕ)
    → later < now + recent_self_mutation_window_ms
    → (on_message later true (apply_effects now (access_effects (some own) call) tab)).0.auth
      ≡ (if user_of call == own then tab.auth else (on_message later true tab).0.auth)
unfolding on_message apply_effects
on_message-access_effects own call tab now later h =
    go (user_of call == own) (marks_self-eq (some own) call)
  where
    effects : Effects
    effects = access_effects (some own) call

    go :
        (b : Bool)
        → effects.marks_self ≡ b
        → (on_message later true (apply_effects now effects tab)).0.auth
          ≡ (if b then tab.auth else (on_message later true tab).0.auth)
    go true e = rw (e) (ground arith)
    go false e = rw (e) refl
