-- ===== src/Auth/Can/Laws.antt =====
-- The access checks of useAuthorization.ts against the store's operations.
use manifest_cv.Prelude.{ℕ, [], ◌∷◌, false, ◌≡◌, refl, includes, string_eq, arith}
use manifest_cv.Auth.Store.{
  AuthState, CurrentUserProfile, set_authenticated, drop_permissions, clear_profile, reset, mirror,
  profile, or_empty,
}
use manifest_cv.Auth.Can.{Permission, one, any_of, can, holds}

holds_nothing : (p : Permission) → holds [] p ≡ false
unfolding includes
holds_nothing (one a) = refl
holds_nothing (any_of []) = refl
holds_nothing (any_of (a ∷ as')) = holds_nothing (any_of as')

pub can_nothing : (s : AuthState) (p : Permission) → s.permissions ≡ [] → can s p ≡ false
unfolding can
can_nothing s p h = ground (arith, holds_nothing p)

-- Once the session is set to unauthenticated, or the permissions are dropped, or the profile is cleared,
-- or the store is reset, every access check answers no, whatever was held before.
pub can_closed :
    (s : AuthState) (now : ℕ) (p : Permission)
    → (can (set_authenticated now false s) p ≡ false)
      × (can (drop_permissions s) p ≡ false)
      × (can (clear_profile s) p ≡ false)
      × (can (reset s) p ≡ false)
unfolding set_authenticated drop_permissions clear_profile reset
can_closed s now p = (
  can_nothing (set_authenticated now false s) p refl,
  can_nothing (drop_permissions s) p refl,
  can_nothing (clear_profile s) p refl,
  can_nothing (reset s) p refl,
)

pub can-mirror :
    (s : AuthState) (now : ℕ) (u : CurrentUserProfile) (p : Permission)
    → can (mirror now (profile u) s) p ≡ holds (or_empty u.permissions) p
unfolding mirror can
can-mirror s now u p = refl
