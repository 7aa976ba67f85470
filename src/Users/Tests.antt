-- ===== src/Users/Tests.antt =====
-- The theorems on the users page at concrete inputs.
use manifest_cv.Prelude.{
  ◌⊎◌, filter, map, includes, nat_eq, ◌≡◌, ◌≢◌, refl, String, List, [], ◌∷◌, some, none, true,
  false, not, ◌&&◌, ◌||◌, ltb, length, eq_iff, ◌==◌, string_eq, if◌then◌else◌,
}
use manifest_cv.Ui.Toaster.{success, no_toasts}
use manifest_cv.Users.Access.{
  grant_permission, revoke_permission, Mutation, Translate, created_id, toggle_direct_permission,
}
use manifest_cv.Users.Access.Toasts.{Stays, settled-toggle_direct_permission}
use manifest_cv.Users.Filters.{
  UsersFilters, param, is_there, or_stored, has_permission_source, has_active_filters,
  clear_filters, has_active_filters-clear_filters,
}
use manifest_cv.Users.Selecting.{
  UserRow, Selecting, nothing_selected, start_select_all, finish_select_all, selected_user_emails,
  Reaches, here, further, asks, answers, reach_selected, stale_selection,
}
use manifest_cv.Users.Fetching.{
  ListUsers, fetched, too_many, page_of, select_all_matching_max, Ends,
  fetch_all_matching_user_emails, fetch_all_matching_user_emails-Ends,
  fetch_all_matching_user_emails-selects,
}

abbrev emails : List String
emails = "asha@example.com" ∷ "ben@example.com" ∷ []

abbrev list_users : ListUsers
list_users offset = some (page_of emails offset)

-- A server that always claims more.
abbrev claims_more : ListUsers
claims_more offset = some (record { emails = "asha@example.com" ∷ []; total = some 9000 })

fetch_all_matching_user_emails-Ends_example : Ends (fetch_all_matching_user_emails claims_more)
fetch_all_matching_user_emails-Ends_example = fetch_all_matching_user_emails-Ends claims_more

fetch_all_matching_user_emails-selects_example :
    fetch_all_matching_user_emails list_users
    ≡ (if ltb select_all_matching_max (length emails) then too_many else fetched emails)
fetch_all_matching_user_emails-selects_example =
    fetch_all_matching_user_emails-selects list_users emails (λ offset. refl)

abbrev row : UserRow
row = record { id = 1; email = "asha@example.com" }

abbrev matching : String → List String
matching key = if key == "old" then "asha@example.com" ∷ [] else []

abbrev begun : Selecting
begun = nothing_selected "old"

abbrev waiting : Selecting
waiting = record begun { asked = some "old" }

waiting_eq : start_select_all begun ≡ waiting
unfolding start_select_all
waiting_eq = refl

abbrev Answered : String → List String → Type 0
Answered key emails = emails ≡ matching key

two_steps :
    Reaches Answered
      (nothing_selected "old")
      (finish_select_all (some (matching "old")) (start_select_all begun))
unfolding start_select_all
two_steps =
    further begun (start_select_all begun) _
      (further begun begun (start_select_all begun) (here begun) (asks begun refl))
      (answers (start_select_all begun) "old" (matching "old") refl refl)

abbrev old_key : String
old_key = "old"

abbrev new_key : String
new_key = "new"

new_ne_old : new_key ≢ old_key
new_ne_old e = absurd (cc ((eq_iff new_key old_key).1 e))

abbrev all_of_old : Selecting
all_of_old = finish_select_all (some (matching "old")) (start_select_all (nothing_selected "old"))

reach_selected_example :
    ((all_of_old.select_all_matching ≡ true)
      × ((chosen : String) × Answered chosen (selected_user_emails (row ∷ []) all_of_old)))
    ⊎ ((all_of_old.select_all_matching ≡ false)
        × (selected_user_emails (row ∷ []) all_of_old
            ≡ map
                (λ u. u.email)
                (filter (λ u. includes all_of_old.selected_user_ids u.id) (row ∷ []))))
reach_selected_example = reach_selected Answered "old" (row ∷ []) all_of_old two_steps

stale_selection_example :
    (s : Selecting) × Reaches Answered (nothing_selected "old") s
    × (s.key ≡ "new")
    × (selected_user_emails (row ∷ []) s ≡ "asha@example.com" ∷ [])
stale_selection_example =
    stale_selection Answered "old" "new" ("asha@example.com" ∷ []) new_ne_old refl (row ∷ [])

abbrev both_in_url : UsersFilters
both_in_url = record {
  params = ("policy", "auditor") ∷ ("permission", "users:read") ∷ [];
  search = "asha";
  role = "";
  verified = "";
  status = "";
  stored_policy = "";
  stored_permission = "";
  last_login = "";
}

has_active_filters-clear_filters_example : has_active_filters (clear_filters both_in_url) ≡ (
    (is_there (param both_in_url.params "permission")
      && not (or_stored (param both_in_url.params "policy") "" == ""))
    || (not (is_there (param both_in_url.params "permission"))
        && has_permission_source both_in_url))
has_active_filters-clear_filters_example = has_active_filters-clear_filters both_in_url

abbrev t : Translate
t key name = key

abbrev granting : Mutation Unit
granting = record {
  call = grant_permission "asha@example.com" "users:read" "users" none;
  title = "users:accessDialog.permissionGrantedToast";
  type = success;
  undo = some (record {
    call = revoke_permission "asha@example.com" "users:read" "users";
    title = "users:accessDialog.permissionRevokedToast";
  });
  pending_toast = some 1;
}

granting_eq :
    (toggle_direct_permission t (some "asha@example.com") "users:read" "users" none no_toasts).1
    ≡ some granting
unfolding toggle_direct_permission
granting_eq = refl

settled-toggle_direct_permission_example :
    Stays t "asha@example.com" "users:read" "users"
      (toggle_direct_permission {C = Unit} t
        (some "asha@example.com")
        "users:read"
        "users"
        none
        no_toasts).0
      (created_id no_toasts)
      granting
settled-toggle_direct_permission_example =
    settled-toggle_direct_permission t "asha@example.com" "users:read" "users" none no_toasts
      granting refl granting_eq
