-- ===== src/Ui/Toaster/Calls.antt =====
-- The calls of toasterInstance.ts and the timers that its toasts need.
use manifest_cv.Prelude.{
  ℕ, ◌≡◌, ◌⊎◌, inl, inr, Bool-cases, refl, sym, ap, ◌∙◌, List, [], ◌∷◌, ◌++◌, map, Option, some,
  none, Bool, true, false, includes, add, remove, includes-add, nat_eq, nat_eqb, nat_eqb_iff,
  if◌then◌else◌, arith,
}
use manifest_cv.Ui.Toaster.{
  ToastOptions, AppToast, Toaster, Duration, after, loading, given, no_toasts, find_toast,
  clear_timer, dismiss_toast, expires, arm_auto_dismiss, spread, dismiss_each, new_toast,
  append_toast, create, updated, put_toast, update_toast, begin_action, dismiss, timer_fires,
  ToastCall, creates, updates, begins_action, dismisses, dismisses_all, fires, exit_fires,
  call_toaster, call_all,
}
use manifest_cv.Ui.Toaster.Timers.{
  is_timed_toast, is_timed, map_found, find_toast-map, find_toast-id, find_toast-append,
  timed_remove, timed_add, dismiss_toast-Timed, exit_timer_fires-Timed, dismiss_all-Timed,
}

abbrev pub Timed : Toaster → Type 0
Timed s = (id : ℕ) → is_timed s id ≡ true

-- A state in which every toast but those under k is timed, and those under k have this duration and,
-- if exiting, their exit timer, is timed once k is armed.
arm_auto_dismiss-Timed :
    (s : Toaster) (k : ℕ) (d : Option Duration)
    → ((id : ℕ)
        → (is_timed s id ≡ true)
          ⊎ ((t : AppToast) × (find_toast id s.toasts ≡ some t)
              × (id ≡ k)
              × (t.duration ≡ d)
              × (t.exiting ≡ true → includes s.exit_timers id ≡ true)))
    → Timed (arm_auto_dismiss k d s)
unfolding arm_auto_dismiss
arm_auto_dismiss-Timed s k d h id = go (expires d) refl (h id)
  where
    go :
        (b : Bool)
        → expires d ≡ b
        → (is_timed s id ≡ true)
          ⊎ ((t : AppToast) × (find_toast id s.toasts ≡ some t)
              × (id ≡ k)
              × (t.duration ≡ d)
              × (t.exiting ≡ true → includes s.exit_timers id ≡ true))
        → is_timed (if b then record s { timers = add k s.timers } else s) id ≡ true
    go true e (inl timed) = timed_add s.timers s.exit_timers k id (find_toast id s.toasts) timed
    go false e (inl timed) = timed
    go true e (inr (t, f, same, dur, exits)) =
        ap (is_timed_toast (add k s.timers) s.exit_timers id) f
        ∙ ground (arith, includes-add k id s.timers, exits)
    go false e (inr (t, f, same, dur, exits)) =
        ap (is_timed_toast s.timers s.exit_timers id) f ∙ never (ap expires dur ∙ e)
      where
        never :
            expires t.duration ≡ false → is_timed_toast s.timers s.exit_timers id (some t) ≡ true
        never f = ground (arith, exits)

dismiss_each-Timed : (ids : List ℕ) (s : Toaster) → Timed s → Timed (dismiss_each ids s)
dismiss_each-Timed [] s h = h
dismiss_each-Timed (id ∷ rest) s h =
    dismiss_each-Timed rest (dismiss_toast id s) (λ k. dismiss_toast-Timed s h id k)

create-Timed : (options : ToastOptions) (s : Toaster) → Timed s → Timed (create options s)
unfolding create
create-Timed options s h =
    arm_auto_dismiss-Timed (append_toast options cleared) cleared.next_id
      (spread none options.duration)
      (λ id. go id (find_toast id cleared.toasts) refl (nat_eqb cleared.next_id id) refl)
  where
    cleared : Toaster
    cleared = dismiss_each s.action_toast_ids s

    timed : Timed cleared
    timed = dismiss_each-Timed s.action_toast_ids s h

    new : AppToast
    new = new_toast cleared.next_id options

    shown : List AppToast
    shown = cleared.toasts ++ new ∷ []

    same_as :
        (id : ℕ) (o : Option AppToast)
        → find_toast id cleared.toasts ≡ o
        → find_toast id shown
          ≡ (elim o [ none ↦ if nat_eqb new.id id then some new else none | some t ↦ some t ])
    same_as id o e =
        find_toast-append id cleared.toasts new
        ∙ ap (λ p. elim p [ none ↦ if nat_eqb new.id id then some new else none | some t ↦ some t ])
            e

    go :
        (id : ℕ) (o : Option AppToast)
        → find_toast id cleared.toasts ≡ o
        → (b : Bool) → nat_eqb cleared.next_id id ≡ b
        → (is_timed (append_toast options cleared) id ≡ true)
          ⊎ ((t : AppToast) × (find_toast id shown ≡ some t)
              × (id ≡ cleared.next_id)
              × (t.duration ≡ spread none options.duration)
              × (t.exiting ≡ true → includes cleared.exit_timers id ≡ true))
    go id (some t) e b f = inl (
        ap (is_timed_toast cleared.timers cleared.exit_timers id) (same_as id (some t) e ∙ sym e)
        ∙ timed id)
    go id none e true f = inr (
      new,
      same_as id none e ∙ ap (λ c. if c then some new else none) f,
      sym ((nat_eqb_iff cleared.next_id id).0 f),
      refl,
      λ x. cc,
    )
    go id none e false f = inl (
        ap (is_timed_toast cleared.timers cleared.exit_timers id)
          (same_as id none e ∙ ap (λ c. if c then some new else none) f))

put_toast-id : (new t : AppToast) → (put_toast new t).id ≡ t.id
put_toast-id new t = go (nat_eqb t.id new.id) refl
  where
    go : (b : Bool) → nat_eqb t.id new.id ≡ b → (if b then new else t).id ≡ t.id
    go true e = sym ((nat_eqb_iff t.id new.id).0 e)
    go false e = refl

module _ (k : ℕ) (s : Toaster) (h : Timed s) (new existing : AppToast)
    (found : find_toast k s.toasts ≡ some existing) (named : new.id ≡ existing.id)
    (kept : new.exiting ≡ existing.exiting) where
  abbrev put : Toaster
  put = record (clear_timer k s) { toasts = map (put_toast new) s.toasts }

  is_k : existing.id ≡ k
  is_k = find_toast-id k s.toasts existing found

  put_found :
      (id : ℕ) (o : Option AppToast)
      → find_toast id s.toasts ≡ o
      → find_toast id put.toasts ≡ map_found (put_toast new) o
  put_found id o e =
      find_toast-map (put_toast new) id (put_toast-id new) s.toasts
      ∙ ap (map_found (put_toast new)) e

  put_at : (id : ℕ) → id ≡ k → find_toast id put.toasts ≡ some new
  put_at id e =
      put_found id (some existing) (ap (λ n. find_toast n s.toasts) e ∙ found)
      ∙ ap (λ c. some (if c then new else existing))
          ((nat_eqb_iff existing.id new.id).1 (sym named))

  put_away :
      (id : ℕ) (o : Option AppToast)
      → find_toast id s.toasts ≡ o
      → nat_eqb id k ≡ false
      → find_toast id put.toasts ≡ o
  put_away id none e f = put_found id none e
  put_away id (some t) e f = put_found id (some t) e ∙ ap (λ c. some (if c then new else t)) other
    where
      other : nat_eqb t.id new.id ≡ false
      other = ground (arith, find_toast-id id s.toasts t e, is_k, named)

  exits_at : (id : ℕ) → id ≡ k → new.exiting ≡ true → includes s.exit_timers id ≡ true
  exits_at id e f =
      let timed : is_timed_toast s.timers s.exit_timers id (some existing) ≡ true =
        ap (is_timed_toast s.timers s.exit_timers id)
          (sym found ∙ ap (λ n. find_toast n s.toasts) (sym e))
        ∙ h id in
      ground (arith, kept)

  put-Timed : Timed (arm_auto_dismiss k new.duration put)
  put-Timed = arm_auto_dismiss-Timed put k new.duration (λ id. elim (Bool-cases (nat_eqb id k)) [
    | inl e ↦
        let same : id ≡ k = (nat_eqb_iff id k).0 e in
        inr (new, put_at id same, same, refl, exits_at id same)
    | inr e ↦ inl (
        ap (is_timed_toast put.timers put.exit_timers id)
          (put_away id (find_toast id s.toasts) refl e)
        ∙ timed_remove s.timers s.exit_timers k id (find_toast id s.toasts) (h id) (λ t f g. cc))
  ])

update_toast-Timed :
    (k : ℕ) (options : ToastOptions) (s : Toaster) → Timed s → Timed (update_toast k options s)
unfolding update_toast
update_toast-Timed k options s h = go (find_toast k s.toasts) refl
  where
    go :
        (o : Option AppToast)
        → find_toast k s.toasts ≡ o
        → Timed (elim o [
          | none ↦ s
          | some existing ↦
              arm_auto_dismiss k (updated options existing).duration (record (clear_timer k s) {
                toasts = map (put_toast (updated options existing)) s.toasts;
              })
        ])
    go none e = h
    go (some existing) e = put-Timed k s h (updated options existing) existing e refl refl

begin_action-Timed : (k : ℕ) (s : Toaster) → Timed s → Timed (begin_action k s)
unfolding begin_action
begin_action-Timed k s h = go (find_toast k s.toasts)
  where
    marked : Toaster
    marked = record s { action_toast_ids = add k s.action_toast_ids }

    options : AppToast → ToastOptions
    options existing = record {
      title = existing.title;
      description = given existing.description;
      type = some loading;
      duration = given (some (after 15000));
      action = given none;
    }

    go :
        (o : Option AppToast)
        → Timed (elim o [ none ↦ s | some existing ↦ update_toast k (options existing) marked ])
    go none = h
    go (some existing) = update_toast-Timed k (options existing) marked h

timer_fires-Timed : (k : ℕ) (s : Toaster) → Timed s → Timed (timer_fires k s)
unfolding timer_fires
timer_fires-Timed k s h = go (includes s.timers k)
  where
    go : (b : Bool) → Timed (if b then dismiss_toast k s else s)
    go true = dismiss_toast-Timed s h k
    go false = h

call_toaster-Timed : (c : ToastCall) (s : Toaster) → Timed s → Timed (call_toaster c s)
unfolding call_toaster dismiss
call_toaster-Timed (creates options) s h = create-Timed options s h
call_toaster-Timed (updates k options) s h = update_toast-Timed k options s h
call_toaster-Timed (begins_action k) s h = begin_action-Timed k s h
call_toaster-Timed (dismisses k) s h =
    dismiss_toast-Timed (record s { action_toast_ids = remove k s.action_toast_ids }) h k
call_toaster-Timed dismisses_all s h = dismiss_all-Timed s
call_toaster-Timed (fires k) s h = timer_fires-Timed k s h
call_toaster-Timed (exit_fires k) s h = exit_timer_fires-Timed s h k

call_all-Timed_from : (calls : List ToastCall) (s : Toaster) → Timed s → Timed (call_all calls s)
unfolding call_all
call_all-Timed_from [] s h = h
call_all-Timed_from (c ∷ rest) s h =
    call_all-Timed_from rest (call_toaster c s) (call_toaster-Timed c s h)

-- Whatever is called and whichever timers fire, from the start on, the toast under any id is either
-- exiting with a running exit timer, or it has a running timer, unless its duration says that it
-- never expires: no other toast stays on the screen for good.
pub call_all-Timed : (calls : List ToastCall) → Timed (call_all calls no_toasts)
call_all-Timed calls = call_all-Timed_from calls no_toasts (λ id. refl)
