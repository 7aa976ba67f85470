-- ===== src/Auth/Interceptor.antt =====
-- The response interceptor of frontend/src/mystic_auth/auth/session_lifecycle/setupAuthInterceptor.ts.
-- What the server answers and how far a rotation is at each check are inputs, taken in order. The waits
-- are not modelled: a request runs to its end with nothing of this tab in between.
pub mod Laws
pub mod Errors
pub mod Totality
use manifest_cv.Prelude.{
  ℕ, zero, suc, ◌+◌, String, List, [], ◌∷◌, Option, some, none, Bool, true, false, not, ◌&&◌,
  if◌then◌else◌,
}
use manifest_cv.Auth.Store.{AuthState, set_authenticated}
use manifest_cv.Auth.Can.{is_true}

-- `unreachable` is an error without a response.
pub data Response : Type 0 where
  success unauthorized unreachable : Response
  status : ℕ → Response

-- What `getPendingSessionRotation` and `wasSessionRecentlyRotated` find.
pub data RotationState : Type 0 where
  idle pending recent : RotationState

-- `_retriedAfterRefresh` and `_retriedAfterRotation` of a request's config.
pub record Flags : Type 0 where
  pub refresh : Bool
  pub rotation : Bool

abbrev pub no_flags : Flags
no_flags = record { refresh = false; rotation = false }

pub record Client : Type 0 where
  pub auth : AuthState
  -- How often the caches of the account were cleared, and how many toasts were shown.
  pub clears : ℕ
  pub toasts : ℕ
  pub sent : ℕ
  pub now : ℕ
  pub responses : List Response
  pub rotations : List RotationState

pub data Reply : Type 0 where
  resolved : Flags → Client → Reply
  rejected : Response → Flags → Client → Reply
  exhausted : Reply

abbrev pub is_live : Client → Bool
is_live c = is_true c.auth.is_authenticated

-- `setAuthenticated(false)`, the caches of the account, and the toast of a live session that died.
unfoldable pub log_out : Client → Client
unfolding set_authenticated
log_out c = record c {
  auth = set_authenticated c.now false c.auth;
  clears = c.clears + 1;
  toasts = if is_live c then c.toasts + 1 else c.toasts;
}

-- The server is out of reach once the given responses are used up.
abbrev pub next_response : List Response → Response
next_response [] = unreachable
next_response (r ∷ rest) = r

abbrev pub later {ℓ} : {A : Type ℓ} → List A → List A
later [] = []
later (x ∷ rest) = rest

abbrev pub next_rotation : List RotationState → RotationState
next_rotation [] = idle
next_rotation (r ∷ rest) = r

abbrev pub after_send : Client → Client
after_send c = record c { sent = c.sent + 1; responses = later c.responses }

abbrev pub after_check : Client → Client
after_check c = record c { rotations = later c.rotations }

-- A response passes, an error goes to the interceptor.
abbrev pub dispatch : (Response → Flags → Client → Reply) → Response → Flags → Client → Reply
dispatch handler success flags c = resolved flags c
dispatch handler unauthorized flags c = handler unauthorized flags c
dispatch handler unreachable flags c = handler unreachable flags c
dispatch handler (status code) flags c = handler (status code) flags c

unfoldable pub send : (Response → Flags → Client → Reply) → Flags → Client → Reply
send handler flags c = dispatch handler (next_response c.responses) flags (after_send c)

-- The end of the interceptor: the session is over, and the error that came first is passed on.
abbrev pub give_up : Response → Flags → Client → Reply
give_up error flags c = rejected error flags (log_out c)

abbrev pub settle : Response → Flags → Reply → Reply
settle error own (resolved flags c) = resolved flags c
settle error own (rejected _ _ c) = give_up error own c
settle error own exhausted = exhausted

abbrev pub try_again : (Flags → Client → Reply) → RotationState → Response → Flags → Client → Reply
try_again again idle error flags c = give_up error flags c
try_again again pending error flags c =
    settle error (record flags { rotation = true }) (again (record flags { rotation = true }) c)
try_again again recent error flags c =
    settle error (record flags { rotation = true }) (again (record flags { rotation = true }) c)

-- The check for a rotation, once per request.
unfoldable pub retry_after_rotation : (Flags → Client → Reply) → Response → Flags → Client → Reply
retry_after_rotation again error flags c =
    if flags.rotation
    then give_up error flags c
    else try_again again (next_rotation c.rotations) error flags (after_check c)

-- `return await refreshAndRetry(…)`, and its `catch`, which takes any error. The HTTP client copies the
-- config of a request it sends again, so that what a retry marks is not seen here.
unfoldable pub after_retry : (Flags → Client → Reply) → Response → Flags → Reply → Reply
unfolding retry_after_rotation
after_retry again error own (resolved flags c) = resolved flags c
after_retry again error own (rejected _ _ c) = retry_after_rotation again error own c
after_retry again error own exhausted = exhausted

unfoldable pub after_refresh : (Flags → Client → Reply) → Response → Flags → Reply → Reply
unfolding after_retry
after_refresh again error flags (resolved _ c) =
    after_retry again error (record flags { refresh = true })
      (again (record flags { refresh = true }) c)
after_refresh again error flags (rejected _ _ c) = retry_after_rotation again error flags c
after_refresh again error flags exhausted = exhausted

abbrev pub is_unauthorized : Response → Bool
is_unauthorized unauthorized = true
is_unauthorized success = false
is_unauthorized unreachable = false
is_unauthorized (status code) = false

-- The error handler. `eligible` says that the request's path is none of those that are excluded
-- from refresh. A refresh is itself a request, not eligible, with flags of its own.
unfoldable pub handle : ℕ → Bool → Response → Flags → Client → Reply
unfolding send after_refresh
handle zero eligible error flags c = exhausted
handle (suc fuel) eligible error flags c =
    let again = send (handle fuel eligible) in
    let refreshed = send (handle fuel false) no_flags c in
    if is_unauthorized error
    then if eligible && not flags.refresh
      then after_refresh again error flags refreshed
      else retry_after_rotation again error flags c
    else rejected error flags c

-- A request of the app. Four rounds of the interceptor are as deep as its flags let it go:
-- a retry, the rotation retry of a refresh that was refused, and the refresh of that retry.
unfoldable pub request : Bool → Client → Reply
unfolding handle
request eligible c = send (handle 4 eligible) no_flags c
