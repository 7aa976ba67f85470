-- ===== src/Users/Dialog.antt =====
-- The state of the access dialog,
-- frontend/src/mystic_auth/users/dialogs/useUserAccessDialogState.ts: what a render makes of it, the
-- open groups, and which queries run for whom.
use manifest_cv.Prelude.{
  String, List, [], ◌∷◌, Option, some, none, Bool, true, false, not, ◌&&◌, find?, includes, add,
  remove, ◌==◌, string_eq, if◌then◌else◌,
}
use manifest_cv.Auth.Can.{Permission, one}
use manifest_cv.Users.Access.{DirectGrant}

pub data AccessDialogTab : Type 0 where
  details policies permissions : AccessDialogTab

pub data AccessFilter : Type 0 where
  all_rows on off : AccessFilter

pub record AccessDialog : Type 0 where
  pub was_open : Bool
  pub tab : AccessDialogTab
  pub pol_query : String
  pub pol_filter : AccessFilter
  pub pol_open : List String
  pub perm_query : String
  pub perm_filter : AccessFilter
  pub perm_closed_groups : List String
  pub editing_key : Option String

abbrev pub opened : AccessDialogTab → AccessDialog
opened initial_tab = record {
  was_open = true;
  tab = initial_tab;
  pol_query = "";
  pol_filter = all_rows;
  pol_open = [];
  perm_query = "";
  perm_filter = all_rows;
  perm_closed_groups = [];
  editing_key = none;
}

-- `isOpen !== prevIsOpen`: opening resets everything, closing keeps it.
unfoldable pub render_dialog : Bool → AccessDialogTab → AccessDialog → AccessDialog
render_dialog true initial_tab d = if d.was_open then d else opened initial_tab
render_dialog false initial_tab d = record d { was_open = false }

-- A `Set` in which a key is switched.
unfoldable pub toggle_key : String → List String → List String
unfolding includes add remove
toggle_key key keys = if includes keys key then remove key keys else add key keys

abbrev add_keys : List String → List String → List String
add_keys [] keys = keys
add_keys (key ∷ rest) keys = add_keys rest (add key keys)

abbrev key_set : List String → List String
key_set keys = add_keys keys []

pub data DialogCall : Type 0 where
  set_tab : AccessDialogTab → DialogCall
  set_pol_query set_perm_query : String → DialogCall
  set_pol_filter set_perm_filter : AccessFilter → DialogCall
  toggle_policy_open toggle_perm_group : String → DialogCall
  -- With the names of all policies, or the resource types of the catalog.
  expand_all_policies collapse_all_perm_groups : List String → DialogCall
  collapse_all_policies expand_all_perm_groups : DialogCall
  set_editing_key : Option String → DialogCall
  renders : Bool → AccessDialogTab → DialogCall

unfoldable pub call_dialog : DialogCall → AccessDialog → AccessDialog
unfolding toggle_key render_dialog add
call_dialog (set_tab tab) d = record d { tab = tab }
call_dialog (set_pol_query query) d = record d { pol_query = query }
call_dialog (set_perm_query query) d = record d { perm_query = query }
call_dialog (set_pol_filter filter) d = record d { pol_filter = filter }
call_dialog (set_perm_filter filter) d = record d { perm_filter = filter }
call_dialog (toggle_policy_open name) d = record d { pol_open = toggle_key name d.pol_open }
call_dialog (toggle_perm_group resource_type) d = record d {
  perm_closed_groups = toggle_key resource_type d.perm_closed_groups;
}
call_dialog (expand_all_policies names) d = record d { pol_open = key_set names }
call_dialog (collapse_all_perm_groups types) d = record d { perm_closed_groups = key_set types }
call_dialog collapse_all_policies d = record d { pol_open = [] }
call_dialog expand_all_perm_groups d = record d { perm_closed_groups = [] }
call_dialog (set_editing_key key) d = record d { editing_key = key }
call_dialog (renders is_open tab) d = render_dialog is_open tab d

unfoldable pub call_dialog_all : List DialogCall → AccessDialog → AccessDialog
unfolding call_dialog
call_dialog_all [] d = d
call_dialog_all (c ∷ rest) d = call_dialog_all rest (call_dialog c d)

-- `!!userEmail && userEmail === currentUserEmail`.
unfoldable pub is_self : Option String → Option String → Bool
is_self none current = false
is_self (some email) none = false
is_self (some email) (some current) = not (email == "") && email == current

abbrev has_email : Option String → Bool
has_email none = false
has_email (some email) = not (email == "")

-- The endpoints the dialog's data can come from.
pub data Endpoint : Type 0 where
  user_policies my_policies user_permissions my_permissions all_policies : Endpoint
  permission_catalog my_access_changes user_access_changes : Endpoint

-- The requests of an open dialog: `enabled` of each query, and the branch of `queryFn`.
unfoldable pub requests : Bool → Option String → Option String → (Permission → Bool) → List Endpoint
unfolding is_self
requests false email current can = []
requests true email current can =
    let own = is_self email current in
    all_policies
    ∷ permission_catalog
    ∷ (if own
        then my_policies ∷ my_permissions ∷ my_access_changes ∷ []
        else if has_email email
        then user_policies
          ∷ user_permissions
          ∷ (if can (one "security_audit:read") then user_access_changes ∷ [] else [])
        else [])

-- `directGrants.find(…)`.
abbrev pub current_grant :
    {C : Type 0} → String → String → List (DirectGrant C) → Option (DirectGrant C)
current_grant action resource_type grants =
    find? (λ g. g.action == action && g.resource_type == resource_type) grants
