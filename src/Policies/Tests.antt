-- ===== src/Policies/Tests.antt =====
-- The theorems on grants and on the policy form at concrete inputs.
use manifest_cv.Prelude.{
  ◌≡◌, String, List, [], ◌∷◌, Option, some, none, Bool, true, false, includes, All, ◌==◌, string_eq,
  if◌then◌else◌, arith,
}
use manifest_cv.Auth.Store.{initial}
use manifest_cv.Auth.Events.{Tab, on_message}
use manifest_cv.Users.Access.{AccessCall, revoke_policy}
use manifest_cv.Policies.Bulk.{BulkRequest, BulkResponse, run_chunked_bulk, empty_response}
use manifest_cv.Policies.Bulk.Requests.{
  all_emails, Fits, merge_all, answers, run_chunked_bulk-covers,
}
use manifest_cv.Policies.Activity.{
  PolicyStatus, PoliciesPage, shows_active, displayed, undo_settled, toggle_settled,
  handle_toggle_active, displayed-undo_settled,
}
use manifest_cv.Policies.Mutations.{
  access_effects, apply_effects, user_of, on_message-access_effects,
}
use manifest_cv.Policies.Grants.{Grant, PolicyRead, grants_by_key, build_effective_grant_key_set}
use manifest_cv.Policies.Grants.Groups.{keys, keys-grants_by_key}
use manifest_cv.Policies.Form.{
  CatalogEntry, Form, Platform, basics_tab, action_options, handle_resource_type_change,
  request_exit, handle_actions_change, handle_submit,
}
use manifest_cv.Policies.Form.Edits.{
  Accepts, handle_submit-Accepts, request_exit-handle_actions_change,
}
use manifest_cv.Policies.Form.Options.{handle_resource_type_change-Offered}

abbrev auditor : PolicyRead
auditor = record {
  name = "auditor";
  actions = "policies:read" ∷ "policies:assign" ∷ [];
  resource_type = "policies";
}

abbrev superuser : PolicyRead
superuser = record { name = "superuser"; actions = "policies:read" ∷ []; resource_type = "*" }

abbrev direct : List Grant
direct =
    record { action = "policies:read"; resource_type = "policies" }
    ∷ record { action = "policies:read"; resource_type = "*" }
    ∷ []

keys-grants_by_key_example :
    keys (grants_by_key (auditor ∷ superuser ∷ []) direct)
    ≡ build_effective_grant_key_set (auditor ∷ superuser ∷ []) direct
keys-grants_by_key_example = keys-grants_by_key (auditor ∷ superuser ∷ []) direct

abbrev catalog : List CatalogEntry
catalog =
    record { action = "policies:read"; resource_type = "policies" }
    ∷ record { action = "users:list_all"; resource_type = "users" }
    ∷ []

abbrev named : Form
named = record {
  fields = record {
    name = "New name";
    description = "";
    actions = "policies:read" ∷ "users:list_all" ∷ [];
    resource_type = "*";
    conditions_text = "{}";
  };
  tab = basics_tab;
  conditions_enabled = true;
  initial_snapshot = "Old name";
  prev_is_open = false;
}

-- A platform that reads `{}` alone, and that snapshots the name.
abbrev small_platform : Platform String
small_platform = record {
  stringify = λ fields. fields.name;
  print = λ c. c;
  read_object = λ text. if_braces (text == "{}");
  is_blank = λ text. text == "";
}
  where
    if_braces : Bool → Option String
    if_braces true = some "{}"
    if_braces false = none

handle_resource_type_change-Offered_example :
    All
      (λ a.
        includes
          (action_options
            (λ b. false)
            catalog
            (handle_resource_type_change catalog "users" named).0.fields)
          a
        ≡ true)
      (handle_resource_type_change catalog "users" named).0.fields.actions
handle_resource_type_change-Offered_example =
    handle_resource_type_change-Offered (λ b. false) catalog "users" named

handle_submit-Accepts_example : Accepts small_platform named (handle_submit small_platform named)
handle_submit-Accepts_example = handle_submit-Accepts small_platform named

request_exit-handle_actions_change_example :
    request_exit small_platform (handle_actions_change small_platform [] named) ≡ true
request_exit-handle_actions_change_example =
    request_exit-handle_actions_change small_platform [] named

abbrev accepts : BulkRequest String → BulkResponse
accepts request = record { results = request.emails; success_count = 1; error_count = 0 }

abbrev two_users : List String
two_users = "asha@example.com" ∷ "ben@example.com" ∷ []

run_chunked_bulk-covers_example :
    (all_emails (run_chunked_bulk (answers accepts) "auditor" two_users).sent ≡ two_users)
    × All Fits (run_chunked_bulk (answers accepts) "auditor" two_users).sent
    × ((run_chunked_bulk (answers accepts) "auditor" two_users).response
        ≡ some (
            merge_all accepts
              (run_chunked_bulk (answers accepts) "auditor" two_users).sent
              empty_response))
run_chunked_bulk-covers_example = run_chunked_bulk-covers accepts "auditor" two_users

abbrev active_policy : PolicyStatus
active_policy = record { name = "auditor"; is_active = true }

abbrev inactive_policy : PolicyStatus
inactive_policy = record { name = "auditor"; is_active = false }

abbrev policies_page : PoliciesPage
policies_page = record { server = active_policy ∷ []; optimistic = [] }

displayed-undo_settled_example :
    shows_active "auditor" false (
      displayed (
        undo_settled (some (active_policy ∷ [])) (
          toggle_settled active_policy
            (some (inactive_policy ∷ []))
            (handle_toggle_active active_policy policies_page).0)))
    ≡ true
displayed-undo_settled_example =
    displayed-undo_settled active_policy policies_page (inactive_policy ∷ []) (active_policy ∷ [])

abbrev tab : Tab
tab = record { auth = initial; last_self_mutation_at = none }

abbrev revokes_own : AccessCall Unit
revokes_own = revoke_policy "asha@example.com" "auditor"

on_message-access_effects_example :
    (on_message 1200 true
      (apply_effects 1000 (access_effects (some "asha@example.com") revokes_own) tab)).0.auth
    ≡ (if user_of revokes_own == "asha@example.com"
        then tab.auth
        else (on_message 1200 true tab).0.auth)
on_message-access_effects_example =
    on_message-access_effects "asha@example.com" revokes_own tab 1000 1200 (omega arith)
