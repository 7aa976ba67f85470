-- ===== src/Auth/Refresh/Queue.antt =====
-- How many requests the tabs that wait for the web lock send.
use manifest_cv.Prelude.{
  ◌≡◌, ◌≤◌, refl, List, [], ◌∷◌, map, Option, some, none, Bool, true, false, ◌&&◌, arith, ap,
}
use manifest_cv.Auth.Refresh.{
  RotationResult, Storage, epoch_of, publish_rotation_result, is_other_epoch,
  rotation_completed_after, Refreshed, requested, already_rotated, refresh_under_lock,
  refresh_in_turn,
}

-- The tabs up to the first whose answer is good: each of them sends its request, no later one does.
abbrev pub first_success : List Bool → List Refreshed
first_success [] = []
first_success (true ∷ rest) = requested true ∷ map (λ _. already_rotated) rest
first_success (false ∷ rest) = requested false ∷ first_success rest

all_rotated :
    (before : Option RotationResult) (answers : List Bool) (s : Storage)
    → rotation_completed_after before s ≡ true
    → refresh_in_turn (map (λ a. (before, a)) answers) s ≡ map (λ _. already_rotated) answers
unfolding refresh_in_turn refresh_under_lock
all_rotated before [] s h = refl
all_rotated before (a ∷ rest) s h = rw (h) (ap (already_rotated ∷◌) (all_rotated before rest s h))

completed-publish :
    (before : Option RotationResult) (answer : Bool) (s : Storage)
    → epoch_of before ≤ epoch_of s.result
    → rotation_completed_after before (publish_rotation_result answer s) ≡ answer
unfolding rotation_completed_after publish_rotation_result
completed-publish none answer s h = refl
completed-publish (some b) answer s h = ground arith

in_turn :
    (before : Option RotationResult) (answers : List Bool) (s : Storage)
    → rotation_completed_after before s ≡ false
    → epoch_of before ≤ epoch_of s.result
    → refresh_in_turn (map (λ a. (before, a)) answers) s ≡ first_success answers
unfolding refresh_in_turn refresh_under_lock
in_turn before [] s h k = refl
in_turn before (true ∷ rest) s h k = rw (h) (
    ap (requested true ∷◌) (
      all_rotated before rest (publish_rotation_result true s) (completed-publish before true s k)))
in_turn before (false ∷ rest) s h k = rw (h) (
    ap (requested false ∷◌) (
      in_turn before rest (publish_rotation_result false s) (completed-publish before false s k)
        (unfold publish_rotation_result in omega arith)))

completed-now : (s : Storage) → rotation_completed_after s.result s ≡ false
unfolding rotation_completed_after
completed-now s = go s.result s.result refl
  where
    go :
        (o before : Option RotationResult)
        → before ≡ o
        → (elim o [
          | none ↦ false
          | some after ↦ is_other_epoch before after.epoch && after.success
        ])
          ≡ false
    go none before e = refl
    go (some r) before e = rw (e) (ground arith)

-- Of tabs that queue for the web lock with the same rotation result before them, each sends its own
-- request until the first that succeeds, and every later tab takes that rotation over without a request.
pub refresh_in_turn-first_success :
    (s : Storage) (answers : List Bool)
    → refresh_in_turn (map (λ a. (s.result, a)) answers) s ≡ first_success answers
refresh_in_turn-first_success s answers = in_turn s.result answers s (completed-now s) (omega arith)
