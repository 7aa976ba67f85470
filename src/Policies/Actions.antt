-- ===== src/Policies/Actions.antt =====
-- A change of a policy's actions that is saved at once: `handleActionsChange` of
-- frontend/src/mystic_auth/policies/policiesPageHandlers.ts with the `rollback` and the `apply` that
-- `handleActionsChange` of dialogs/usePolicyFormState.ts hands to it, and the toasts that it shows.
use manifest_cv.Prelude.{
  ◌≡◌, refl, sym, String, List, Option, some, none, Bool, true, false, not, find?, includes,
  string_eq,
}
use manifest_cv.Ui.Toaster.{
  Toaster, ToastOptions, success, failure, Key, absent, given, Duration, after, create,
}

-- The form's actions, the policy's on the server, and the toasts.
pub record ActionsPage : Type 0 where
  pub form : List String
  pub server : List String
  pub toaster : Toaster

pub record ActionsChange : Type 0 where
  pub policy_name : String
  pub previous_actions : List String
  pub actions : List String

pub data Answer : Type 0 where
  accepted : Answer
  rejected : String → Answer

abbrev pub granted_action : ActionsChange → Option String
granted_action c = find? (λ a. not (includes c.previous_actions a)) c.actions

abbrev pub revoked_action : ActionsChange → Option String
revoked_action c = find? (λ a. not (includes c.actions a)) c.previous_actions

abbrev pub or_else : Option String → Option String → Option String
or_else none other = other
or_else (some a) other = some a

unfoldable pub changed_action : ActionsChange → Option String
unfolding includes
changed_action c = or_else (granted_action c) (revoked_action c)

abbrev pub is_some : Option String → Bool
is_some none = false
is_some (some a) = true

unfoldable pub is_grant : ActionsChange → Bool
unfolding includes
is_grant c = is_some (granted_action c)

-- The key of the toast's title; its arguments are the action's label and the policy's name.
abbrev pub action_toast : Bool → String
action_toast true = "policies:page.policyActionGrantedToast"
action_toast false = "policies:page.policyActionRevokedToast"

abbrev pub toast : String → Key Duration → Key String → ToastOptions
toast title duration action = record {
  title = title;
  description = absent;
  type = some success;
  duration = duration;
  action = action;
}

abbrev pub error_toast : String → ToastOptions
error_toast message = record {
  title = message;
  description = absent;
  type = some failure;
  duration = absent;
  action = absent;
}

abbrev pub rollback : ActionsChange → ActionsPage → ActionsPage
rollback c s = record s { form = c.previous_actions }

abbrev pub apply : ActionsChange → ActionsPage → ActionsPage
apply c s = record s { form = c.actions }

unfoldable pub shows_toast : ToastOptions → ActionsPage → ActionsPage
unfolding create
shows_toast options s = record s { toaster = create options s.toaster }

-- The form shows the new actions at once, and the request is sent.
unfoldable pub change_actions : ActionsChange → ActionsPage → ActionsPage
change_actions c s = apply c s

unfoldable pub change_settled : ActionsChange → Answer → ActionsPage → ActionsPage
unfolding is_grant shows_toast
change_settled c accepted s =
    shows_toast
      (toast (action_toast (is_grant c)) (given (some (after 6000)))
        (given (some "policies:page.undo")))
      (record s { server = c.actions })
change_settled c (rejected message) s = shows_toast (error_toast message) (rollback c s)

-- The click on `Undo`, and its answer.
unfoldable pub undo_actions : ActionsChange → ActionsPage → ActionsPage
undo_actions c s = rollback c s

unfoldable pub undo_actions_settled : ActionsChange → Answer → ActionsPage → ActionsPage
unfolding is_grant shows_toast
undo_actions_settled c accepted s =
    shows_toast (toast (action_toast (not (is_grant c))) absent absent)
      (record s { server = c.previous_actions })
undo_actions_settled c (rejected message) s = shows_toast (error_toast message) (apply c s)

-- What can happen to one change: it fails, it stays, or it is undone.
pub data ActionsCourse : Type 0 where
  fails : String → ActionsCourse
  stays : ActionsCourse
  is_undone : Answer → ActionsCourse

unfoldable pub run_course : ActionsChange → ActionsCourse → ActionsPage → ActionsPage
unfolding change_actions change_settled undo_actions undo_actions_settled
run_course c (fails message) s = change_settled c (rejected message) (change_actions c s)
run_course c stays s = change_settled c accepted (change_actions c s)
run_course c (is_undone answer) s =
    undo_actions_settled c answer (undo_actions c (change_settled c accepted (change_actions c s)))

-- A change of the actions that the form and the server agreed on leaves them in agreement, on every
-- course: whether it fails, stays, or is undone with success or without.
pub form-run_course :
    (c : ActionsChange) (course : ActionsCourse) (s : ActionsPage)
    → s.server ≡ c.previous_actions
    → (run_course c course s).form ≡ (run_course c course s).server
unfolding run_course change_actions change_settled undo_actions undo_actions_settled shows_toast
form-run_course c (fails message) s h = sym h
form-run_course c stays s h = refl
form-run_course c (is_undone accepted) s h = refl
form-run_course c (is_undone (rejected message)) s h = refl
