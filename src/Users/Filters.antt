-- ===== src/Users/Filters.antt =====
-- The filters of the users page, frontend/src/mystic_auth/users/useUsersPageFilters.ts, with the
-- session store usersUiStore.ts. A handler closes over the URL's parameters of the last render, and
-- `setSearchParams` takes effect when it is called, so that the last call of one handler wins.
use manifest_cv.Prelude.{
  ◌≡◌, refl, ap, ◌∙◌, String, List, [], ◌∷◌, Option, some, none, Bool, true, false, not, ◌&&◌, ◌||◌,
  ◌==◌, string_eq, eq_iff, if◌then◌else◌, arith,
}

abbrev pub Params : Type 0
Params = List (String × String)

-- `URLSearchParams`: `get`, `delete` and `set`.
unfoldable pub param : Params → String → Option String
param [] key = none
param ((k, v) ∷ rest) key = if k == key then some v else param rest key

unfoldable pub delete_param : String → Params → Params
delete_param key [] = []
delete_param key ((k, v) ∷ rest) =
    if k == key then delete_param key rest else (k, v) ∷ delete_param key rest

unfoldable pub set_param : String → String → Params → Params
unfolding delete_param
set_param key value [] = (key, value) ∷ []
set_param key value ((k, v) ∷ rest) =
    if k == key then (key, value) ∷ delete_param key rest else (k, v) ∷ set_param key value rest

pub record UsersFilters : Type 0 where
  pub params : Params
  pub search : String
  pub role : String
  pub verified : String
  pub status : String
  pub stored_policy : String
  pub stored_permission : String
  pub last_login : String

abbrev pub or_stored : Option String → String → String
or_stored none stored = stored
or_stored (some value) stored = value

abbrev pub is_there : Option String → Bool
is_there none = false
is_there (some value) = true

-- The URL wins over the store.
unfoldable pub policy_of : UsersFilters → String
unfolding param
policy_of s = or_stored (param s.params "policy") s.stored_policy

unfoldable pub permission_of : UsersFilters → String
unfolding param
permission_of s = or_stored (param s.params "permission") s.stored_permission

abbrev pub is_source : Option String → Bool
is_source none = false
is_source (some value) = value == "policy" || value == "direct"

-- `permissionSource !== undefined`.
unfoldable pub has_permission_source : UsersFilters → Bool
unfolding param
has_permission_source s = is_source (param s.params "permission_source")

-- The setters, with the parameters of the render they were made in, and what these say of the key.
abbrev pub put_policy : Option String → Params → String → UsersFilters → UsersFilters
put_policy none rendered value s = record s { stored_policy = value }
put_policy (some old) rendered value s = record s {
  stored_policy = value;
  params =
      if value == "" then delete_param "policy" rendered else set_param "policy" value rendered;
}

unfoldable pub set_policy : Params → String → UsersFilters → UsersFilters
unfolding param delete_param set_param
set_policy rendered value s = put_policy (param rendered "policy") rendered value s

abbrev pub put_permission : Option String → Params → String → UsersFilters → UsersFilters
put_permission none rendered value s = record s { stored_permission = value }
put_permission (some old) rendered value s = record s {
  stored_permission = value;
  params =
      if value == ""
      then delete_param "permission_source" (delete_param "permission" rendered)
      else set_param "permission" value rendered;
}

unfoldable pub set_permission : Params → String → UsersFilters → UsersFilters
unfolding param delete_param set_param
set_permission rendered value s = put_permission (param rendered "permission") rendered value s

unfoldable pub has_active_filters : UsersFilters → Bool
unfolding policy_of permission_of has_permission_source
has_active_filters s =
    not (s.search == "")
    || not (s.role == "")
    || not (s.verified == "")
    || not (s.status == "")
    || not (policy_of s == "")
    || not (permission_of s == "")
    || has_permission_source s
    || not (s.last_login == "")

abbrev pub clear_plain : UsersFilters → UsersFilters
clear_plain s = record s { search = ""; role = ""; verified = ""; status = "" }

-- All setters are those of one render.
unfoldable pub clear_filters : UsersFilters → UsersFilters
unfolding set_policy set_permission
clear_filters s = record (set_permission s.params "" (set_policy s.params "" (clear_plain s))) {
  last_login = "";
}

param-delete_param :
    (key other : String) (ps : Params)
    → param (delete_param key ps) other ≡ (if key == other then none else param ps other)
unfolding param delete_param
param-delete_param key other [] = ground arith
param-delete_param key other ((k, v) ∷ rest) =
    ground
      (arith, param-delete_param key other rest, eq_iff k key, eq_iff k other, eq_iff key other)

-- Clearing leaves a filter active in two cases only: if the URL names a policy and a permission, the
-- policy stays; and if it names a permission's source without a permission, the source stays.
pub has_active_filters-clear_filters :
    (s : UsersFilters)
    → has_active_filters (clear_filters s) ≡ (
        (is_there (param s.params "permission")
          && not (or_stored (param s.params "policy") "" == ""))
        || (not (is_there (param s.params "permission")) && has_permission_source s))
unfolding has_active_filters clear_filters policy_of permission_of has_permission_source
has_active_filters-clear_filters s =
    go (param s.params "policy") (param s.params "permission") refl refl
  where
    left : Params
    left = delete_param "permission" s.params

    gone :
        (key : String)
        → param (delete_param "permission_source" left) key ≡ (
            if "permission_source" == key
            then none
            else if "permission" == key
            then none
            else param s.params key)
    gone key =
        param-delete_param "permission_source" key left
        ∙ ap (λ o. if "permission_source" == key then none else o)
            (param-delete_param "permission" key s.params)

    go :
        (policy permission : Option String)
        → param s.params "policy" ≡ policy
        → param s.params "permission" ≡ permission
        → has_active_filters
            (record (put_permission permission s.params ""
              (put_policy policy s.params "" (clear_plain s))) { last_login = "" })
          ≡ ((is_there permission && not (or_stored policy "" == ""))
              || (not (is_there permission) && is_source (param s.params "permission_source")))
    go none none e f = rw (e, f) (ground arith)
    go (some p) none e f =
        rw
          (
            param-delete_param "policy" "policy" s.params,
            param-delete_param "policy" "permission" s.params,
            param-delete_param "policy" "permission_source" s.params,
            f,
          )
          (ground arith)
    go none (some q) e f =
        rw (gone "policy", gone "permission", gone "permission_source", e) (ground arith)
    go (some p) (some q) e f =
        rw (gone "policy", gone "permission", gone "permission_source", e) (ground arith)
