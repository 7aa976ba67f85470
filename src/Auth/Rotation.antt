-- ===== src/Auth/Rotation.antt =====
-- The guard on requests that rotate the session, frontend/src/mystic_auth/auth/session_lifecycle/
-- sessionRotationGuard.ts: what the interceptor's check finds. A tracked request is named by a number.
use manifest_cv.Prelude.{
  ℕ, ◌-◌, ◌≡◌, refl, List, [], ◌∷◌, Option, some, none, Bool, true, false, nat_eqb, ltb,
  if◌then◌else◌, Bool-cases, inl, inr,
}
use manifest_cv.Auth.Interceptor.{RotationState, idle, pending, recent}

pub record RotationGuard : Type 0 where
  pub pending_rotation : Option ℕ
  pub rotation_settled_at : Option ℕ

abbrev pub recently_rotated_grace_ms : ℕ
recently_rotated_grace_ms = 3000

abbrev pub is_tracked : ℕ → Option ℕ → Bool
is_tracked request none = false
is_tracked request (some tracked) = nat_eqb tracked request

-- A request starts to be tracked, or a tracked one settles.
pub data RotationEvent : Type 0 where
  tracks : ℕ → RotationEvent
  settles : ℕ → ℕ → RotationEvent

unfoldable pub rotate : RotationEvent → RotationGuard → RotationGuard
rotate (tracks request) g = record g { pending_rotation = some request }
rotate (settles request now) g = record {
  pending_rotation = if is_tracked request g.pending_rotation then none else g.pending_rotation;
  rotation_settled_at = some now;
}

abbrev pub is_in_grace : ℕ → Option ℕ → Bool
is_in_grace now none = false
is_in_grace now (some settled_at) = ltb (now - settled_at) recently_rotated_grace_ms

-- `getPendingSessionRotation`, and `wasSessionRecentlyRotated` where there is none.
unfoldable pub find_rotation : ℕ → RotationGuard → RotationState
find_rotation now g = elim g.pending_rotation [
  | none ↦ if is_in_grace now g.rotation_settled_at then recent else idle
  | some _ ↦ pending
]

unfoldable pub rotate_all : List RotationEvent → RotationGuard → RotationGuard
unfolding rotate
rotate_all [] g = g
rotate_all (e ∷ rest) g = rotate_all rest (rotate e g)

-- The events are settlements of other requests than this one.
abbrev pub settles_others : ℕ → List RotationEvent → Bool
settles_others request [] = true
settles_others request (tracks other ∷ rest) = false
settles_others request (settles other now ∷ rest) =
    if nat_eqb request other then false else settles_others request rest

still_pending :
    (request : ℕ) (events : List RotationEvent) (g : RotationGuard)
    → g.pending_rotation ≡ some request
    → settles_others request events ≡ true
    → (rotate_all events g).pending_rotation ≡ some request
unfolding rotate_all rotate
still_pending request [] g h k = h
still_pending request (tracks other ∷ rest) g h k = cc
still_pending request (settles other now ∷ rest) g h k = elim (Bool-cases (nat_eqb request other)) [
  | inl e ↦ cc (rw e at k)
  | inr e ↦ still_pending request rest _ (rw (h, e) refl) (rw e at k)
]

-- The latest rotating request is found pending for as long as only other requests settle, whatever was
-- tracked or settled before it.
pub find_rotation-rotate_all :
    (request now : ℕ) (events : List RotationEvent) (g : RotationGuard)
    → settles_others request events ≡ true
    → find_rotation now (rotate_all (tracks request ∷ events) g) ≡ pending
unfolding find_rotation rotate_all rotate
find_rotation-rotate_all request now events g k =
    rw (still_pending request events (record g { pending_rotation = some request }) refl k) refl
