-- ===== src/Auth/Can.antt =====
-- Access checks: frontend/src/mystic_auth/authorization/useAuthorization.ts (`can`), Authorized.tsx,
-- grantability.ts, destructiveActions.ts and permissions.ts.
pub mod Laws
use manifest_cv.Prelude.{
  String, List, [], ◌∷◌, Option, some, none, Bool, true, false, ◌&&◌, any, all, includes, string_eq,
}
use manifest_cv.Auth.Store.{AuthState}

-- `permission?: string | string[]`: an array means any of them.
pub data Permission : Type 0 where
  one : String → Permission
  any_of : List String → Permission

abbrev pub is_true : Option Bool → Bool
is_true (some true) = true
is_true (some false) = false
is_true none = false

abbrev pub holds : List String → Permission → Bool
holds permissions (one action) = includes permissions action
holds permissions (any_of actions) = any (λ a. includes permissions a) actions

unfoldable pub can : AuthState → Permission → Bool
unfolding includes
can s permission = is_true s.is_authenticated && holds s.permissions permission

-- What `Authorized` and `IfCan` render.
pub data Rendered : Type 0 where
  nothing children fallback : Rendered

unfoldable pub authorized : AuthState → Permission → Rendered
unfolding can
authorized s permission = elim s.is_authenticated [
  | none ↦ nothing
  | some _ ↦ elim (can s permission) [ true ↦ children | false ↦ fallback ]
]

unfoldable pub can_grant_action : AuthState → String → Bool
unfolding can
can_grant_action s action = can s (one action)

unfoldable pub can_grant_policy : AuthState → List String → Bool
unfolding can_grant_action
can_grant_policy s actions = all (can_grant_action s) actions

abbrev pub destructive_actions : List String
destructive_actions =
    "users:deactivate_any" ∷ "users:delete_any" ∷ "users:assign_system_role" ∷ "policies:delete"
    ∷ "policies:revoke" ∷ "permissions:revoke" ∷ "rate_limits:reset" ∷ []

unfoldable pub is_destructive_action : String → Bool
unfolding includes
is_destructive_action action = includes destructive_actions action

-- The values of `PERMISSIONS`, in order.
abbrev pub permission_values : List String
permission_values =
    "users:read_own" ∷ "users:update_own" ∷ "users:list_all" ∷ "users:update_any"
    ∷ "users:deactivate_any" ∷ "users:assign_role" ∷ "users:assign_system_role" ∷ "users:delete_any"
    ∷ "users:reactivate" ∷ "policies:read" ∷ "policies:create" ∷ "policies:update"
    ∷ "policies:delete" ∷ "policies:assign" ∷ "policies:revoke" ∷ "permissions:grant"
    ∷ "permissions:revoke" ∷ "permissions:read" ∷ "security_audit:read" ∷ "rate_limits:read"
    ∷ "rate_limits:reset" ∷ []
