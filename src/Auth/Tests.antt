-- ===== src/Auth/Tests.antt =====
-- The theorems on the session and on access at concrete inputs.
use manifest_cv.Auth.Refresh.Flight.{
  FlightEvent, is_refused, settles, no_flight, fly, flying, outcomes_of, expected, fly-outcomes,
}
use manifest_cv.Prelude.{
  ◌≡◌, ◌↔◌, ◌+◌, refl, List, [], ◌∷◌, Option, map, some, none, true, false, All,
}
use manifest_cv.Auth.Store.{AuthState, CurrentUserProfile}
use manifest_cv.Auth.Can.{Permission, one, can, is_true}
use manifest_cv.Auth.Events.{Tab, Signal, mutates, pushed}
use manifest_cv.Auth.Route.Guard.{
  Screen, GuardState, Render, navigate, mount, render, renders, is_allowed, allows, any_allowed,
  not_authorized_iff,
}
use manifest_cv.Auth.Route.Table.{sidebar_items, extra_nav_items, Opens, sidebar_items-Opens}
use manifest_cv.Auth.Interceptor.{success, unauthorized, status, Client, request}
use manifest_cv.Auth.Interceptor.Laws.{Shows, request-Shows}
use manifest_cv.Auth.Interceptor.Errors.{Fails, request-Fails}
use manifest_cv.Auth.Interceptor.Totality.{Returns, request-Returns}
use manifest_cv.Auth.Refresh.{Storage, Tabs, idle, refresh_in_turn}
use manifest_cv.Auth.Refresh.Queue.{first_success, refresh_in_turn-first_success}

abbrev reader : AuthState
reader = record {
  is_authenticated = some true;
  authenticated_at = some 100;
  name = some "Ada";
  email = some "ada@example.com";
  role = none;
  permissions = "users:list_all" ∷ [];
  permissions_pending = false;
  has_password = true;
}

abbrev reader_profile : CurrentUserProfile
reader_profile = record {
  name = "Ada";
  email = "ada@example.com";
  role = "user";
  permissions = some ("users:list_all" ∷ []);
  has_password = true;
}

abbrev fresh_tab : Tab
fresh_tab = record { auth = reader; last_self_mutation_at = none }

abbrev two_events : List Signal
two_events = mutates 10 ∷ pushed 20 true ∷ pushed 30 true ∷ []

abbrev on_dashboard : Render
on_dashboard = record { permission = none; state = reader }

abbrev on_policies : Render
on_policies = record { permission = some (one "policies:read"); state = reader }

abbrev last_render : Screen
last_render =
    (render on_policies.permission
      (renders (mount on_dashboard.permission on_dashboard.state) (on_dashboard ∷ []))
      on_policies.state).1

not_authorized_iff_example :
    ((last_render ≡ navigate "/not-authorized") ↔ (
      (is_true on_policies.state.is_authenticated ≡ true)
      × (allows on_policies ≡ false)
      × (any_allowed (on_dashboard ∷ on_dashboard ∷ []) ≡ false)))
    × ((last_render ≡ navigate "/dashboard") ↔ (
        (is_true on_policies.state.is_authenticated ≡ true)
        × (allows on_policies ≡ false)
        × (any_allowed (on_dashboard ∷ on_dashboard ∷ []) ≡ true)
        × (on_policies.state.permissions_pending ≡ false)))
not_authorized_iff_example = not_authorized_iff on_dashboard (on_dashboard ∷ []) on_policies

-- From the dashboard to a route that the session may not open.
to_policies : last_render ≡ navigate "/dashboard"
unfolding render renders mount is_allowed can
to_policies = refl

abbrev listing : Permission
listing = one "users:list_all"

reader-is_allowed : is_allowed (some listing) reader ≡ true
unfolding is_allowed can
reader-is_allowed = refl

abbrev opened : Option GuardState
opened = some (record { prev_is_allowed = true; was_ever_allowed = true })

sidebar_items-Opens_example : All (Opens opened reader) (sidebar_items extra_nav_items)
sidebar_items-Opens_example = sidebar_items-Opens opened reader refl

-- The access token has run out, the refresh is answered, the retry is not allowed.
abbrev expired : Client
expired = record {
  auth = reader;
  clears = 0;
  toasts = 0;
  sent = 0;
  now = 200;
  responses = unauthorized ∷ success ∷ status 403 ∷ [];
  rotations = [];
}

request-Shows_example : Shows expired (request true expired)
request-Shows_example = request-Shows true expired

request-Fails_example : Fails expired (request true expired)
request-Fails_example = request-Fails true expired

request-Returns_example : Returns (request true expired)
request-Returns_example = request-Returns true expired

abbrev empty_storage : Storage
empty_storage = record { lease = none; result = none }

refresh_in_turn-first_success_example :
    refresh_in_turn (map (λ a. (none, a)) (false ∷ true ∷ true ∷ [])) empty_storage
    ≡ first_success (false ∷ true ∷ true ∷ [])
refresh_in_turn-first_success_example =
    refresh_in_turn-first_success empty_storage (false ∷ true ∷ true ∷ [])

abbrev two_tabs : Tabs
two_tabs = record { storage = empty_storage; phase = λ tab. idle; before = λ tab. none }

abbrev two_refused : List FlightEvent
two_refused = is_refused 1 ∷ is_refused 2 ∷ settles true ∷ is_refused 3 ∷ []

fly-outcomes_example :
    ((fly two_refused no_flight).sent
      ≡ (fly two_refused no_flight).settled + flying (fly two_refused no_flight).in_flight)
    × (outcomes_of (fly two_refused no_flight) ≡ expected two_refused)
fly-outcomes_example = fly-outcomes two_refused
