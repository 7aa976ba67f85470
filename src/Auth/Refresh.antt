-- ===== src/Auth/Refresh.antt =====
-- One refresh for all tabs, frontend/src/mystic_auth/auth/session_lifecycle/crossTabRefresh.ts: the
-- queue of the web lock, and the lease in local storage as steps of the tabs, one at a time.
-- But for a write of the lease, which can fail, storage is taken to work.
pub mod Queue
pub mod Flight
pub mod Lease
use manifest_cv.Prelude.{
  ℕ, zero, suc, ◌+◌, ◌≡◌, List, [], ◌∷◌, Option, some, none, Bool, true, false, not, ◌&&◌, ◌||◌,
  nat_eqb, ltb, if◌then◌else◌,
}

pub record RotationResult : Type 0 where
  pub epoch : ℕ
  pub success : Bool

pub record LeaseRecord : Type 0 where
  pub owner : ℕ
  pub expires_at : ℕ

abbrev pub lease_ms : ℕ
lease_ms = 15000

pub record Storage : Type 0 where
  pub lease : Option LeaseRecord
  pub result : Option RotationResult

abbrev pub epoch_of : Option RotationResult → ℕ
epoch_of none = 0
epoch_of (some r) = r.epoch

unfoldable pub publish_rotation_result : Bool → Storage → Storage
publish_rotation_result success s = record s {
  result = some (record { epoch = epoch_of s.result + 1; success = success });
}

abbrev pub is_other_epoch : Option RotationResult → ℕ → Bool
is_other_epoch none epoch = true
is_other_epoch (some before) epoch = not (nat_eqb epoch before.epoch)

unfoldable pub rotation_completed_after : Option RotationResult → Storage → Bool
rotation_completed_after before s = elim s.result [
  | none ↦ false
  | some after ↦ is_other_epoch before after.epoch && after.success
]

-- A tab's refresh comes to a request of its own, answered well or not, or to the other tab's.
pub data Refreshed : Type 0 where
  requested : Bool → Refreshed
  already_rotated : Refreshed

-- The body under the web lock, with the answer that a request would get.
unfoldable pub refresh_under_lock : Option RotationResult → Bool → Storage → Storage × Refreshed
unfolding publish_rotation_result rotation_completed_after
refresh_under_lock before answer s =
    if rotation_completed_after before s
    then (s, already_rotated)
    else (publish_rotation_result answer s, requested answer)

-- The tabs that wait for the lock, one after the other, each with what it read before and its answer.
unfoldable pub refresh_in_turn : List (Option RotationResult × Bool) → Storage → List Refreshed
unfolding refresh_under_lock
refresh_in_turn [] s = []
refresh_in_turn ((before, answer) ∷ rest) s =
    let (next, outcome) = refresh_under_lock before answer s in outcome ∷ refresh_in_turn rest next

-- Where a tab is in `refreshWithStorageLease`. `free_seen` is before the write, `written` before its
-- read-back, `owning` before the check of line 136, `retrying` in the wait after a lost read-back.
pub data Phase : Type 0 where
  idle looking free_seen waiting written retrying owning requesting : Phase
  finished : Refreshed → Phase

-- `before` is each tab's `rotationBefore`.
pub record Tabs : Type 0 where
  pub storage : Storage
  pub phase : ℕ → Phase
  pub before : ℕ → Option RotationResult

abbrev pub is_at_rest : Phase → Bool
is_at_rest idle = true
is_at_rest (finished outcome) = true
is_at_rest phase = false

abbrev pub with_before :
    ℕ → Option RotationResult → (ℕ → Option RotationResult) → ℕ → Option RotationResult
with_before tab result before other = if nat_eqb other tab then result else before other

abbrev pub in_phase : ℕ → Phase → (ℕ → Phase) → ℕ → Phase
in_phase tab p phase other = if nat_eqb other tab then p else phase other

unfoldable pub is_blocked : ℕ → ℕ → Option LeaseRecord → Bool
is_blocked tab now none = false
is_blocked tab now (some lease) = not (nat_eqb lease.owner tab) && ltb now lease.expires_at

abbrev pub owns : ℕ → Option LeaseRecord → Bool
owns tab none = false
owns tab (some lease) = nat_eqb lease.owner tab

abbrev pub lease_of : ℕ → ℕ → LeaseRecord
lease_of tab now = record { owner = tab; expires_at = now + lease_ms }

-- `writeLease`, also by the heartbeat; `releaseLease` of the tab that still owns it.
abbrev pub write_lease : ℕ → ℕ → Storage → Storage
write_lease tab now s = record s { lease = some (lease_of tab now) }

abbrev pub release_lease : ℕ → Storage → Storage
release_lease tab s = record s { lease = if owns tab s.lease then none else s.lease }

-- After the wait: line 126.
unfoldable pub woken : Bool → Phase
woken completed = if completed then finished already_rotated else looking

-- After the write's read-back: lines 131 to 134.
unfoldable pub read_back : Bool → Phase
read_back owned = if owned then owning else retrying

-- The check of lines 136 to 139, under the lease.
unfoldable pub check_lease : ℕ → Tabs → Tabs
unfolding rotation_completed_after
check_lease tab w =
    if rotation_completed_after (w.before tab) w.storage
    then record w {
      storage = release_lease tab w.storage;
      phase = in_phase tab (finished already_rotated) w.phase;
    }
    else record w { phase = in_phase tab requesting w.phase }

-- The steps of a tab, each one access to the storage: the start of a refresh, the check of the lease,
-- the end of a wait, the write and its read-back, the check for a rotation, the heartbeat, and the end
-- of the request.
pub data TabStep : Tabs → Tabs → Type 0 where
  begins :
      {w : Tabs} (tab : ℕ)
      → is_at_rest (w.phase tab) ≡ true
      → TabStep w (record w {
        phase = in_phase tab looking w.phase;
        before = with_before tab w.storage.result w.before;
      })
  sees_free :
      {w : Tabs} (tab now : ℕ)
      → w.phase tab ≡ looking
      → is_blocked tab now w.storage.lease ≡ false
      → TabStep w (record w { phase = in_phase tab free_seen w.phase })
  sees_lease :
      {w : Tabs} (tab now : ℕ)
      → w.phase tab ≡ looking
      → is_blocked tab now w.storage.lease ≡ true
      → TabStep w (record w { phase = in_phase tab waiting w.phase })
  wakes :
      {w : Tabs} (tab : ℕ)
      → w.phase tab ≡ waiting
      → TabStep w (record w {
        phase = in_phase tab (woken (rotation_completed_after (w.before tab) w.storage)) w.phase;
      })
  writes_lease :
      {w : Tabs} (tab now : ℕ)
      → w.phase tab ≡ free_seen
      → TabStep w (record w {
        storage = write_lease tab now w.storage;
        phase = in_phase tab written w.phase;
      })
  -- `setItem` throws.
  write_fails :
      {w : Tabs} (tab : ℕ)
      → w.phase tab ≡ free_seen
      → TabStep w (record w { phase = in_phase tab retrying w.phase })
  reads_back :
      {w : Tabs} (tab : ℕ)
      → w.phase tab ≡ written
      → TabStep w (record w { phase = in_phase tab (read_back (owns tab w.storage.lease)) w.phase })
  retries :
      {w : Tabs} (tab : ℕ)
      → w.phase tab ≡ retrying
      → TabStep w (record w { phase = in_phase tab looking w.phase })
  checks : {w : Tabs} (tab : ℕ) → w.phase tab ≡ owning → TabStep w (check_lease tab w)
  beats :
      {w : Tabs} (tab now : ℕ)
      → w.phase tab ≡ requesting
      → owns tab w.storage.lease ≡ true
      → TabStep w (record w { storage = write_lease tab now w.storage })
  ends_request :
      {w : Tabs} (tab : ℕ) (answer : Bool)
      → w.phase tab ≡ requesting
      → TabStep w (record w {
        storage = release_lease tab (publish_rotation_result answer w.storage);
        phase = in_phase tab (finished (requested answer)) w.phase;
      })

pub data Reaches : Tabs → Tabs → Type 0 where
  stays : {w : Tabs} → Reaches w w
  steps : {u v w : Tabs} → TabStep u v → Reaches v w → Reaches u w
