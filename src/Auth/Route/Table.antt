-- ===== src/Auth/Route/Table.antt =====
-- The routes of frontend/src/app/App.tsx with what their `ProtectedRoute` asks for, and the links of
-- the sidebar: NAV_ITEMS of mystic_auth/layout/app_layout/navItems.ts, App's own `extraNavItems`,
-- and how mystic_auth/layout/app_layout/Sidebar.tsx sorts and shows them.
use manifest_cv.Prelude.{
  ℕ, String, List, [], ◌∷◌, ◌++◌, Option, some, none, Bool, true, false, ◌≡◌, refl, arith, All,
  if◌then◌else◌, leb, string_eq, ◌==◌, find?,
}
use manifest_cv.Auth.Store.{AuthState}
use manifest_cv.Auth.Can.{Permission, one, any_of, can, is_true}
use manifest_cv.Auth.Route.Guard.{Screen, GuardState, children, refused, mount, render}

-- A route shows its page to everybody, or behind a guard.
pub data Access : Type 0 where
  open_to_all : Access
  guarded : Option Permission → Access

pub record AppRoute : Type 0 where
  pub path : String
  pub access : Access

abbrev pub shown : String → AppRoute
shown path = record { path = path; access = open_to_all }

abbrev pub signed_in : String → AppRoute
signed_in path = record { path = path; access = guarded none }

abbrev pub needs : String → Permission → AppRoute
needs path permission = record { path = path; access = guarded (some permission) }

abbrev pub routes : List AppRoute
routes =
    shown "/"
    ∷ signed_in "/dashboard"
    ∷ needs "/users" (one "users:list_all")
    ∷ needs "/policies" (any_of ("policies:read" ∷ "policies:create" ∷ []))
    ∷ needs "/permissions" (one "permissions:read")
    ∷ needs "/rate-limits" (one "rate_limits:read")
    ∷ signed_in "/audit-log"
    ∷ signed_in "/account-settings"
    ∷ signed_in "/career-knowledge"
    ∷ signed_in "/resume-builder"
    ∷ signed_in "/resume-builder/new"
    ∷ signed_in "/resume-builder/new/templates"
    ∷ signed_in "/resume-builder/:workspaceId"
    ∷ signed_in "/applications"
    ∷ shown "/login"
    ∷ shown "/signup"
    ∷ shown "/verify-account"
    ∷ shown "/password-reset-request"
    ∷ shown "/reset-password"
    ∷ shown "/confirm-delete"
    ∷ shown "/privacy"
    ∷ shown "/terms"
    ∷ shown "/not-authorized"
    ∷ shown "*"
    ∷ []

pub record NavItem : Type 0 where
  pub label : String
  pub to : String
  pub permission : Option Permission
  pub order : Option ℕ

abbrev link : String → String → Option Permission → ℕ → NavItem
link label to permission order = record {
  label = label;
  to = to;
  permission = permission;
  order = some order;
}

abbrev pub nav_items : List NavItem
nav_items =
    link "layout:nav.dashboard" "/dashboard" none 10
    ∷ link "layout:nav.users" "/users" (some (one "users:list_all")) 20
    ∷ link "layout:nav.policies" "/policies"
        (some (any_of ("policies:read" ∷ "policies:create" ∷ []))) 30
    ∷ link "layout:nav.permissions" "/permissions" (some (one "permissions:read")) 32
    ∷ link "layout:nav.rateLimits" "/rate-limits" (some (one "rate_limits:read")) 35
    ∷ link "layout:nav.auditLog" "/audit-log" none 40
    ∷ link "layout:nav.accountSettings" "/account-settings" none 50
    ∷ []

-- App's links; their labels are translated, and stand here by their keys.
abbrev pub extra_nav_items : List NavItem
extra_nav_items =
    link "nav.careerKnowledge" "/career-knowledge" none 12
    ∷ link "nav.resumes" "/resume-builder" none 14
    ∷ link "nav.applications" "/applications" none 16
    ∷ []

-- A missing order sorts last.
abbrev pub order_le : Option ℕ → Option ℕ → Bool
order_le (some a) (some b) = leb a b
order_le (some a) none = true
order_le none (some b) = false
order_le none none = true

-- The stable sort by `order`.
unfoldable pub insert_item : NavItem → List NavItem → List NavItem
insert_item item [] = item ∷ []
insert_item item (x ∷ xs) =
    if order_le item.order x.order then item ∷ x ∷ xs else x ∷ insert_item item xs

unfoldable pub sort_items : List NavItem → List NavItem
unfolding insert_item
sort_items [] = []
sort_items (x ∷ xs) = insert_item x (sort_items xs)

unfoldable pub sidebar_items : List NavItem → List NavItem
unfolding sort_items
sidebar_items [] = nav_items
sidebar_items (x ∷ extra) = sort_items (nav_items ++ x ∷ extra)

-- A link without a permission is always shown, one with a permission inside `IfCan`.
unfoldable pub is_visible : AuthState → NavItem → Bool
unfolding can
is_visible s item = elim item.permission [ none ↦ true | some permission ↦ can s permission ]

unfoldable pub route_of : String → Option AppRoute
route_of path = find? (λ r. r.path == path) routes

-- The link's route exists, is guarded, and asks for what the link asks for.
abbrev pub Agrees : NavItem → Type 0
Agrees item = route_of item.to ≡ some (record { path = item.to; access = guarded item.permission })

all_agree : All Agrees (sidebar_items extra_nav_items)
unfolding route_of sidebar_items
all_agree = (refl, (refl, (refl, (refl, (refl, (refl, (refl, (refl, (refl, (refl, tt))))))))))

-- What a visit to a route shows: on a first load, or from a page without a guard, the guard is mounted;
-- from a guarded route its instance stays, with its state.
unfoldable pub visit_route : Option GuardState → AuthState → AppRoute → Screen
unfolding render mount
visit_route g s r = elim r.access [
  | open_to_all ↦ children
  | guarded permission ↦ elim g [
    | none ↦ (render permission (mount permission s) s).1
    | some kept ↦ (render permission kept s).1
  ]
]

abbrev pub was_allowed : Option GuardState → Bool
was_allowed none = false
was_allowed (some kept) = kept.was_ever_allowed

-- Where a link that is not visible leads: to /not-authorized, or, from a guard that has shown a page,
-- to the loader while permissions are pending, and then to /dashboard.
abbrev pub closed : Option GuardState → AuthState → Screen
closed g s = refused (was_allowed g) s.permissions_pending

abbrev pub Opens : Option GuardState → AuthState → NavItem → Type 0
Opens g s item =
    (r : AppRoute) × (route_of item.to ≡ some r)
    × (visit_route g s r ≡ (if is_visible s item then children else closed g s))

Opens-Agrees :
    (g : Option GuardState) (s : AuthState) (item : NavItem)
    → is_true s.is_authenticated ≡ true
    → Agrees item
    → Opens g s item
unfolding visit_route is_visible
Opens-Agrees g s item h e =
    (record { path = item.to; access = guarded item.permission }, e, go g item.permission)
  where
    go :
        (o : Option GuardState) (p : Option Permission)
        → visit_route o s (record { path = item.to; access = guarded p }) ≡ (
            if (elim p [ none ↦ true | some permission ↦ can s permission ])
            then children
            else closed o s)
    go none none = ground arith
    go none (some p) = ground arith
    go (some kept) none = ground arith
    go (some kept) (some p) = ground arith

All-map_property {ℓ} :
    {A : Type ℓ} (P Q : A → Type 0) (xs : List A) → ((x : A) → P x → Q x) → All P xs → All Q xs
All-map_property P Q [] f h = tt
All-map_property P Q (x ∷ xs) f (p, h) = (f x p, All-map_property P Q xs f h)

-- For an authenticated session, every link of the sidebar leads to a route of the app, and a visit shows
-- the page if the link is visible. If it is not, the visit goes to /not-authorized, unless it
-- comes from a guarded route that was open: then it goes to /dashboard, or to the loader while
-- permissions are pending.
pub sidebar_items-Opens :
    (g : Option GuardState) (s : AuthState)
    → is_true s.is_authenticated ≡ true
    → All (Opens g s) (sidebar_items extra_nav_items)
sidebar_items-Opens g s h =
    All-map_property Agrees (Opens g s) (sidebar_items extra_nav_items)
      (λ item. Opens-Agrees g s item h) all_agree
