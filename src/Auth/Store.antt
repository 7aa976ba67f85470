-- ===== src/Auth/Store.antt =====
-- The auth store, frontend/src/mystic_auth/store/authStore.ts, and the hook that mirrors
-- GET /auth/me into it, auth/current_user/useCurrentUserQuery.ts. Times are milliseconds.
use manifest_cv.Prelude.{
  ℕ, String, List, [], Option, some, none, Bool, true, false, ltb, if◌then◌else◌,
}

pub record CurrentUserProfile : Type 0 where
  pub name : String
  pub email : String
  pub role : String
  pub permissions : Option (List String)
  pub has_password : Bool

-- `is_authenticated` is `none` until the session is checked.
pub record AuthState : Type 0 where
  pub is_authenticated : Option Bool
  pub authenticated_at : Option ℕ
  pub name : Option String
  pub email : Option String
  pub role : Option String
  pub permissions : List String
  pub permissions_pending : Bool
  pub has_password : Bool

-- `set({ ...initialProfile })`.
unfoldable pub clear_profile : AuthState → AuthState
clear_profile s = record s {
  name = none;
  email = none;
  role = none;
  permissions = [];
  has_password = false;
  permissions_pending = false;
}

unfoldable pub initial : AuthState
initial = record {
  is_authenticated = none;
  authenticated_at = none;
  name = none;
  email = none;
  role = none;
  permissions = [];
  permissions_pending = false;
  has_password = false;
}

unfoldable pub set_authenticated : ℕ → Bool → AuthState → AuthState
unfolding clear_profile
set_authenticated now true s = record s {
  is_authenticated = some true;
  authenticated_at = some now;
}
set_authenticated now false s = record (clear_profile s) {
  is_authenticated = some false;
  authenticated_at = none;
}

abbrev pub or_empty : Option (List String) → List String
or_empty none = []
or_empty (some permissions) = permissions

unfoldable pub set_profile : CurrentUserProfile → AuthState → AuthState
set_profile profile s = record s {
  name = some profile.name;
  email = some profile.email;
  role = some profile.role;
  permissions = or_empty profile.permissions;
  has_password = profile.has_password;
  permissions_pending = false;
}

unfoldable pub drop_permissions : AuthState → AuthState
drop_permissions s = record s { permissions = []; permissions_pending = true }

unfoldable pub reset : AuthState → AuthState
unfolding clear_profile
reset s = record (clear_profile s) { is_authenticated = none; authenticated_at = none }

-- The answer of GET /auth/me: a profile, or an error with the time of its arrival.
pub data SessionResult : Type 0 where
  profile : CurrentUserProfile → SessionResult
  failure : ℕ → SessionResult

-- A failure older than the latest login is ignored.
abbrev pub is_stale : Option ℕ → ℕ → Bool
is_stale none error_at = false
is_stale (some authenticated_at) error_at = ltb error_at authenticated_at

-- The effect of `useAuthSession` on the store (its brand colour is not modelled).
unfoldable pub mirror : ℕ → SessionResult → AuthState → AuthState
unfolding set_profile set_authenticated clear_profile
mirror now (profile p) s = set_authenticated now true (set_profile p s)
mirror now (failure error_at) s =
    if is_stale s.authenticated_at error_at
    then s
    else set_authenticated now false (clear_profile s)
