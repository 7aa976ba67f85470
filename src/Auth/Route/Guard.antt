-- ===== src/Auth/Route/Guard.antt =====
-- `ProtectedRoute`: what it shows, render after render. The routes of App.tsx render it without a key
-- at one place, so that one instance stays mounted while the app goes from one guarded route to another:
-- each render comes with the permission of its route.
use manifest_cv.Prelude.{
  String, List, [], ◌∷◌, Option, some, none, Bool, true, false, not, ◌≢◌, eq_iff, ◌&&◌, ◌||◌, ◌≡◌,
  ◌↔◌, arith, if◌then◌else◌,
}
use manifest_cv.Auth.Store.{AuthState, CurrentUserProfile, set_profile, drop_permissions, or_empty}
use manifest_cv.Auth.Can.{Permission, can, is_true, holds}
use manifest_cv.Auth.Can.Laws.{can_nothing}

pub data Screen : Type 0 where
  loader children : Screen
  navigate : String → Screen

-- The component's own state.
pub record GuardState : Type 0 where
  pub prev_is_allowed : Bool
  pub was_ever_allowed : Bool

unfoldable pub is_allowed : Option Permission → AuthState → Bool
unfolding can
is_allowed none s = is_true s.is_authenticated
is_allowed (some permission) s = is_true s.is_authenticated && can s permission

unfoldable pub mount : Option Permission → AuthState → GuardState
mount permission s = record {
  prev_is_allowed = is_allowed permission s;
  was_ever_allowed = is_allowed permission s;
}

-- `a !== b` on Booleans.
abbrev pub differs : Bool → Bool → Bool
differs true b = not b
differs false b = b

-- The updates in the render's body.
unfoldable pub observe : Bool → GuardState → GuardState
observe allowed g =
    if differs allowed g.prev_is_allowed
    then record { prev_is_allowed = allowed; was_ever_allowed = allowed || g.was_ever_allowed }
    else g

abbrev pub refused : Bool → Bool → Screen
refused true true = loader
refused true false = navigate "/dashboard"
refused false _ = navigate "/not-authorized"

unfoldable pub screen : Option Permission → GuardState → AuthState → Screen
unfolding is_allowed
screen permission g s = elim s.is_authenticated [
  | none ↦ loader
  | some false ↦ navigate "/login"
  | some true ↦
      if is_allowed permission s then children else refused g.was_ever_allowed s.permissions_pending
]

unfoldable pub render : Option Permission → GuardState → AuthState → GuardState × Screen
unfolding observe screen
render permission g s = let g' = observe (is_allowed permission s) g in (g', screen permission g' s)

-- What a render is given: the permission of the route, and the session.
pub record Render : Type 0 where
  pub permission : Option Permission
  pub state : AuthState

abbrev pub allows : Render → Bool
allows r = is_allowed r.permission r.state

-- Successive renders of the mounted guard.
unfoldable pub renders : GuardState → List Render → GuardState
unfolding render
renders g [] = g
renders g (r ∷ rest) = renders (render r.permission g r.state).0 rest

-- A guarded route shows its page exactly if the session is authenticated and holds the route's
-- permission, whichever renders came before.
pub screen-eq-children_iff :
    (permission : Option Permission) (g : GuardState) (s : AuthState)
    → ((render permission g s).1 ≡ children) ↔ (is_allowed permission s ≡ true)
unfolding render
screen-eq-children_iff none g s = ground arith
screen-eq-children_iff (some p) g s = ground arith

-- The flag remembers whether any render so far was allowed what its own route asks for.
abbrev pub any_allowed : List Render → Bool
any_allowed [] = false
any_allowed (r ∷ rest) = allows r || any_allowed rest

observe_lem :
    (allowed : Bool) (g : GuardState)
    → (g.prev_is_allowed ≡ true → g.was_ever_allowed ≡ true)
    → ((observe allowed g).was_ever_allowed ≡ (allowed || g.was_ever_allowed))
      × ((observe allowed g).prev_is_allowed ≡ true → (observe allowed g).was_ever_allowed ≡ true)
unfolding observe
observe_lem allowed g h = ground arith

was_ever_allowed-renders :
    (g : GuardState) (rs : List Render)
    → (g.prev_is_allowed ≡ true → g.was_ever_allowed ≡ true)
    → (renders g rs).was_ever_allowed ≡ (g.was_ever_allowed || any_allowed rs)
unfolding renders
was_ever_allowed-renders g [] h = ground arith
was_ever_allowed-renders g (r ∷ rest) h =
    let (same, keeps) = observe_lem (allows r) g h in
    ground (arith, same, was_ever_allowed-renders (observe (allows r) g) rest keeps)

keeps-renders :
    (g : GuardState) (rs : List Render)
    → (g.prev_is_allowed ≡ true → g.was_ever_allowed ≡ true)
    → (renders g rs).prev_is_allowed ≡ true
    → (renders g rs).was_ever_allowed ≡ true
unfolding renders
keeps-renders g [] h = h
keeps-renders g (r ∷ rest) h =
    keeps-renders (observe (allows r) g) rest (observe_lem (allows r) g h).1

not_authorized-ne : ◌≢◌ {A = String} "/dashboard" "/not-authorized"
not_authorized-ne = ground (arith, eq_iff "/dashboard" "/not-authorized")

login-ne : ◌≢◌ {A = String} "/login" "/not-authorized"
login-ne = ground (arith, eq_iff "/login" "/not-authorized")

login-dashboard : ◌≢◌ {A = String} "/login" "/dashboard"
login-dashboard = ground (arith, eq_iff "/login" "/dashboard")

screen_not_authorized :
    (permission : Option Permission) (g : GuardState) (s : AuthState)
    → (screen permission g s ≡ navigate "/not-authorized") ↔ (
        (is_true s.is_authenticated ≡ true)
        × (is_allowed permission s ≡ false)
        × (g.was_ever_allowed ≡ false))
unfolding screen
screen_not_authorized permission g s = ground (arith, not_authorized-ne, login-ne)

screen_dashboard :
    (permission : Option Permission) (g : GuardState) (s : AuthState)
    → (screen permission g s ≡ navigate "/dashboard") ↔ (
        (is_true s.is_authenticated ≡ true)
        × (is_allowed permission s ≡ false)
        × (g.was_ever_allowed ≡ true)
        × (s.permissions_pending ≡ false))
unfolding screen
screen_dashboard permission g s = ground (arith, not_authorized-ne, login-dashboard)

-- A render of a guarded route goes to /not-authorized exactly if the session is authenticated, lacks the
-- route's permission, and no render since the guard was mounted, of this route or of another one, was
-- allowed what its route asked for. If one was, and no permissions are pending, it goes to /dashboard.
pub not_authorized_iff :
    (first : Render) (rs : List Render) (r : Render)
    → (((render r.permission (renders (mount first.permission first.state) rs) r.state).1
          ≡ navigate "/not-authorized")
        ↔ ((is_true r.state.is_authenticated ≡ true)
            × (allows r ≡ false)
            × (any_allowed (first ∷ rs) ≡ false)))
      × (((render r.permission (renders (mount first.permission first.state) rs) r.state).1
            ≡ navigate "/dashboard")
          ↔ ((is_true r.state.is_authenticated ≡ true)
              × (allows r ≡ false)
              × (any_allowed (first ∷ rs) ≡ true)
              × (r.state.permissions_pending ≡ false)))
unfolding render mount
not_authorized_iff first rs r =
    let g = renders (mount first.permission first.state) rs in
    let history = was_ever_allowed-renders (mount first.permission first.state) rs (λ h. h) in
    let (same, _) =
      observe_lem (allows r) g (keeps-renders (mount first.permission first.state) rs (λ h. h)) in
    (
      ground
          (arith, history, same, screen_not_authorized r.permission (observe (allows r) g) r.state),
      ground (arith, history, same, screen_dashboard r.permission (observe (allows r) g) r.state),
    )

-- On an open route that needs a permission, dropping the permissions shows the loader, and the profile
-- that arrives next shows the page again if it has the permission, and goes to /dashboard if not.
pub render-drop_permissions :
    (p : Permission) (s : AuthState) (u : CurrentUserProfile)
    → is_allowed (some p) s ≡ true
    → ((render (some p) (mount (some p) s) (drop_permissions s)).1 ≡ loader)
      × ((render
            (some p)
            (renders
              (mount (some p) s)
              (record { permission = some p; state = drop_permissions s } ∷ []))
            (set_profile u (drop_permissions s))).1
          ≡ (if holds (or_empty u.permissions) p then children else navigate "/dashboard"))
unfolding render mount renders drop_permissions set_profile
render-drop_permissions p s u h = ground (arith, can_nothing (drop_permissions s) p)
