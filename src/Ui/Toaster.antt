-- ===== src/Ui/Toaster.antt =====
-- The toasts, frontend/src/mystic_auth/ui/toaster/toasterInstance.ts: the list that is shown, with the
-- ids that have a running timer. A timer that fires is a call of its own. Listeners are not modelled.
pub mod Timers
pub mod Calls
use manifest_cv.Prelude.{
  ℕ, ◌+◌, String, List, [], ◌∷◌, ◌++◌, map, Option, some, none, Bool, true, false, not, find?,
  filter, includes, add, remove, nat_eq, nat_eqb, ltb, if◌then◌else◌,
}

pub data ToastType : Type 0 where
  success failure warning info loading : ToastType

-- Milliseconds, or `Infinity`.
pub data Duration : Type 0 where
  never : Duration
  after : ℕ → Duration

-- A key of the options that is not there, or is there with a value.
pub data Key (A : Type 0) : Type 0 where
  absent : Key A
  given : Option A → Key A

pub record ToastOptions : Type 0 where
  pub title : String
  pub description : Key String
  pub type : Option ToastType
  pub duration : Key Duration
  -- The label of the action.
  pub action : Key String

pub record AppToast : Type 0 where
  pub id : ℕ
  pub title : String
  pub description : Option String
  pub type : ToastType
  pub duration : Option Duration
  pub action : Option String
  pub exiting : Bool

pub record Toaster : Type 0 where
  pub next_id : ℕ
  pub toasts : List AppToast
  pub timers : List ℕ
  pub exit_timers : List ℕ
  pub action_toast_ids : List ℕ

abbrev pub no_toasts : Toaster
no_toasts = record {
  next_id = 1;
  toasts = [];
  timers = [];
  exit_timers = [];
  action_toast_ids = [];
}

abbrev pub find_toast : ℕ → List AppToast → Option AppToast
find_toast id toasts = find? (λ t. nat_eqb t.id id) toasts

abbrev pub clear_timer : ℕ → Toaster → Toaster
clear_timer id s = record s { timers = remove id s.timers }

abbrev pub mark_exiting : ℕ → AppToast → AppToast
mark_exiting id t = record t { exiting = if nat_eqb t.id id then true else t.exiting }

unfoldable pub dismiss_toast : ℕ → Toaster → Toaster
dismiss_toast id s = elim (find_toast id s.toasts) [
  | none ↦ clear_timer id s
  | some existing ↦ if existing.exiting then clear_timer id s else record (clear_timer id s) {
    toasts = map (mark_exiting id) s.toasts;
    exit_timers = add id s.exit_timers;
  }
]

-- `duration ?? 5000`, not `Infinity`, and positive.
abbrev pub expires : Option Duration → Bool
expires none = true
expires (some never) = false
expires (some (after ms)) = ltb 0 ms

unfoldable pub arm_auto_dismiss : ℕ → Option Duration → Toaster → Toaster
arm_auto_dismiss id duration s =
    if expires duration then record s { timers = add id s.timers } else s

abbrev pub or_success : Option ToastType → ToastType
or_success none = success
or_success (some type) = type

-- `{ ...existing, ...options }` at one key.
abbrev pub spread : {A : Type 0} → Option A → Key A → Option A
spread existing absent = existing
spread existing (given value) = value

abbrev pub dismiss_each : List ℕ → Toaster → Toaster
dismiss_each [] s = s
dismiss_each (id ∷ rest) s = dismiss_each rest (dismiss_toast id s)

abbrev pub new_toast : ℕ → ToastOptions → AppToast
new_toast id options = record {
  id = id;
  title = options.title;
  description = spread none options.description;
  type = or_success options.type;
  duration = spread none options.duration;
  action = spread none options.action;
  exiting = false;
}

abbrev pub append_toast : ToastOptions → Toaster → Toaster
append_toast options s = record s {
  next_id = s.next_id + 1;
  toasts = s.toasts ++ new_toast s.next_id options ∷ [];
  action_toast_ids = [];
}

unfoldable pub create : ToastOptions → Toaster → Toaster
unfolding dismiss_toast arm_auto_dismiss
create options s =
    let cleared = dismiss_each s.action_toast_ids s in
    arm_auto_dismiss cleared.next_id (spread none options.duration) (append_toast options cleared)

abbrev pub updated : ToastOptions → AppToast → AppToast
updated options existing = record existing {
  title = options.title;
  description = spread existing.description options.description;
  type = or_success options.type;
  duration = spread existing.duration options.duration;
  action = spread existing.action options.action;
}

abbrev pub put_toast : AppToast → AppToast → AppToast
put_toast new t = if nat_eqb t.id new.id then new else t

unfoldable pub update_toast : ℕ → ToastOptions → Toaster → Toaster
unfolding arm_auto_dismiss
update_toast id options s = elim (find_toast id s.toasts) [
  | none ↦ s
  | some existing ↦
      arm_auto_dismiss id (updated options existing).duration
        (record (clear_timer id s) { toasts = map (put_toast (updated options existing)) s.toasts })
]

unfoldable pub begin_action : ℕ → Toaster → Toaster
unfolding update_toast
begin_action id s = elim (find_toast id s.toasts) [
  | none ↦ s
  | some existing ↦
      update_toast id
        (record {
          title = existing.title;
          description = given existing.description;
          type = some loading;
          duration = given (some (after 15000));
          action = given none;
        })
        (record s { action_toast_ids = add id s.action_toast_ids })
]

abbrev pub exit_now : AppToast → AppToast
exit_now t = record t { exiting = true }

abbrev pub ids_of : List AppToast → List ℕ
ids_of toasts = map (λ t. t.id) toasts

unfoldable pub dismiss_all : Toaster → Toaster
dismiss_all s = record s {
  timers = [];
  toasts = map exit_now s.toasts;
  exit_timers = ids_of s.toasts;
}

unfoldable pub dismiss : ℕ → Toaster → Toaster
unfolding dismiss_toast
dismiss id s = dismiss_toast id (record s { action_toast_ids = remove id s.action_toast_ids })

-- A timer fires only while it runs.
unfoldable pub timer_fires : ℕ → Toaster → Toaster
unfolding dismiss_toast
timer_fires id s = if includes s.timers id then dismiss_toast id s else s

unfoldable pub exit_timer_fires : ℕ → Toaster → Toaster
exit_timer_fires id s =
    if includes s.exit_timers id
    then record s {
      exit_timers = remove id s.exit_timers;
      toasts = filter (λ t. not (nat_eqb t.id id)) s.toasts;
    }
    else s

pub data ToastCall : Type 0 where
  creates : ToastOptions → ToastCall
  updates : ℕ → ToastOptions → ToastCall
  begins_action : ℕ → ToastCall
  dismisses : ℕ → ToastCall
  dismisses_all : ToastCall
  fires exit_fires : ℕ → ToastCall

unfoldable pub call_toaster : ToastCall → Toaster → Toaster
unfolding create update_toast begin_action dismiss dismiss_all timer_fires exit_timer_fires
call_toaster (creates options) s = create options s
call_toaster (updates id options) s = update_toast id options s
call_toaster (begins_action id) s = begin_action id s
call_toaster (dismisses id) s = dismiss id s
call_toaster dismisses_all s = dismiss_all s
call_toaster (fires id) s = timer_fires id s
call_toaster (exit_fires id) s = exit_timer_fires id s

unfoldable pub call_all : List ToastCall → Toaster → Toaster
unfolding call_toaster
call_all [] s = s
call_all (c ∷ rest) s = call_all rest (call_toaster c s)
