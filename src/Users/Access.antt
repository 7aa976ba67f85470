-- ===== src/Users/Access.antt =====
-- The handlers of the access dialog, frontend/src/mystic_auth/users/dialogs/userAccessDialogHandlers.ts,
-- and the dialog's own state, useUserAccessDialogState.ts. A mutation that is in flight is a value, and
-- its callbacks run when it is settled with the server's answer.
pub mod Toasts
use manifest_cv.Prelude.{
  ℕ, String, List, [], ◌∷◌, map, Option, some, none, Bool, true, false, not, ◌&&◌, ◌||◌, find?,
  includes, add, remove, ◌==◌, string_eq, if◌then◌else◌,
}
use manifest_cv.Ui.Toaster.{
  Toaster, ToastOptions, ToastType, success, failure, info, loading, Key, absent, given, Duration,
  never, after, create, update_toast, begin_action, dismiss, dismiss_each,
}

-- The requests of the dialog's five mutations, with the conditions of a grant in the type `C`.
pub data AccessCall (C : Type 0) : Type 0 where
  assign_policy revoke_policy : String → String → AccessCall C
  revoke_policy_action : String → String → String → AccessCall C
  grant_permission : String → String → String → Option C → AccessCall C
  revoke_permission : String → String → String → AccessCall C

pub data Answer : Type 0 where
  succeeded : Answer
  failed_with : String → Answer

-- What the `Undo` of a toast sends, and the title of the toast that then reports it.
pub record Undo (C : Type 0) : Type 0 where
  pub call : AccessCall C
  pub title : String

-- A request that is in flight, with what its callbacks report: the toast of its success, and the toast
-- that reports that it is pending, if there is one.
pub record Mutation (C : Type 0) : Type 0 where
  pub call : AccessCall C
  pub title : String
  pub type : ToastType
  pub undo : Option (Undo C)
  pub pending_toast : Option ℕ

-- The translation of a key at the policy's or the action's name.
abbrev pub Translate : Type 0
Translate = String → String → String

abbrev pub undo_label : Option String
undo_label = some "users:accessDialog.undo"

abbrev pub error_options : String → Key Duration → ToastOptions
error_options message duration = record {
  title = message;
  description = absent;
  type = some failure;
  duration = duration;
  action = absent;
}

-- The click on a toast's action: the toast itself shows that it is loading.
unfoldable pub click_undo : ℕ → Toaster → Toaster
unfolding begin_action
click_undo id s = begin_action id s

-- The toast `create` returns the id of.
abbrev pub created_id : Toaster → ℕ
created_id s = (dismiss_each s.action_toast_ids s).next_id

abbrev pub pending_options : String → ToastOptions
pending_options title = record {
  title = title;
  description = absent;
  type = some loading;
  duration = given (some never);
  action = absent;
}

pub record DirectGrant (C : Type 0) : Type 0 where
  pub action : String
  pub resource_type : String
  pub conditions : Option C

module _ {C : Type 0} where
  abbrev pub action_key : Option (Undo C) → Key String
  action_key none = absent
  action_key (some undo) = given undo_label

  abbrev pub success_options : Mutation C → ToastOptions
  success_options m = record {
    title = m.title;
    description = absent;
    type = some m.type;
    duration = absent;
    action = action_key m.undo;
  }

  -- The callbacks of a mutation, with a pending toast and without one.
  unfoldable pub settled : Mutation C → Answer → Toaster → Toaster
  unfolding create update_toast dismiss
  settled m succeeded s = elim m.pending_toast [
    | none ↦ create (success_options m) s
    | some id ↦ update_toast id (success_options m) s
  ]
  settled m (failed_with message) s = elim m.pending_toast [
    | none ↦ create (error_options message absent) s
    | some id ↦ create (error_options message (given (some (after 8000)))) (dismiss id s)
  ]

  -- `onClick` of the toast's action.
  abbrev pub undo_mutation : Undo C → Mutation C
  undo_mutation undo = record {
    call = undo.call;
    title = undo.title;
    type = success;
    undo = none;
    pending_toast = none;
  }

  unfoldable pub toggle_policy : Translate → Option String → String → Bool → Option (Mutation C)
  toggle_policy t none name was_assigned = none
  toggle_policy t (some email) name true = some (record {
    call = revoke_policy email name;
    title = t "users:accessDialog.policyRevokedToast" name;
    type = info;
    undo = some (record {
      call = assign_policy email name;
      title = t "users:accessDialog.policyAssignedToast" name;
    });
    pending_toast = none;
  })
  toggle_policy t (some email) name false = some (record {
    call = assign_policy email name;
    title = t "users:accessDialog.policyAssignedToast" name;
    type = success;
    undo = some (record {
      call = revoke_policy email name;
      title = t "users:accessDialog.policyRevokedToast" name;
    });
    pending_toast = none;
  })

  unfoldable pub request_revoke_policy_action :
      Translate → Option String → String → String → Option (Mutation C)
  request_revoke_policy_action t none name action = none
  request_revoke_policy_action t (some email) name action = some (record {
    call = revoke_policy_action email name action;
    title = t "users:policiesDialog.actionRevokedToast" action;
    type = success;
    undo = none;
    pending_toast = none;
  })

  -- The toaster with the pending toast, and the request.
  unfoldable pub toggle_direct_permission :
      Translate
      → Option String
      → String
      → String
      → Option (DirectGrant C)
      → Toaster
      → Toaster × Option (Mutation C)
  unfolding create
  toggle_direct_permission t none action resource_type current_grant s = (s, none)
  toggle_direct_permission t (some email) action resource_type (some grant) s = (
    create (pending_options (t "users:accessDialog.permissionRevokingToast" action)) s,
    some (record {
      call = revoke_permission email action resource_type;
      title = t "users:accessDialog.permissionRevokedToast" action;
      type = info;
      undo = some (record {
        call = grant_permission email action resource_type grant.conditions;
        title = t "users:accessDialog.permissionGrantedToast" action;
      });
      pending_toast = some (created_id s);
    }),
  )
  toggle_direct_permission t (some email) action resource_type none s = (
    create (pending_options (t "users:accessDialog.permissionGrantingToast" action)) s,
    some (record {
      call = grant_permission email action resource_type none;
      title = t "users:accessDialog.permissionGrantedToast" action;
      type = success;
      undo = some (record {
        call = revoke_permission email action resource_type;
        title = t "users:accessDialog.permissionRevokedToast" action;
      });
      pending_toast = some (created_id s);
    }),
  )

  -- What is returned is the text of the error at the editor, if the conditions are not JSON.
  unfoldable pub save_conditions :
      Translate
      → (String → String)
      → (String → Option C)
      → Option String
      → String
      → String
      → String
      → Option (Mutation C) × Option String
  save_conditions t trim parse none action resource_type content = (none, none)
  save_conditions t trim parse (some email) action resource_type content =
      if trim content == ""
      then (some (grants_conditions email none), none)
      else elim (parse content) [
        | none ↦ (none, some (t "users:permissionsDialog.invalidConditionsJson" ""))
        | some conditions ↦ (some (grants_conditions email (some conditions)), none)
      ]
    where
      grants_conditions : String → Option C → Mutation C
      grants_conditions email conditions = record {
        call = grant_permission email action resource_type conditions;
        title = t "users:accessDialog.conditionsSavedToast" action;
        type = success;
        undo = none;
        pending_toast = none;
      }
