-- ===== src/Users/Access/Toasts.antt =====
-- The pending toast of `toggleDirectPermission`,
-- frontend/src/mystic_auth/users/dialogs/userAccessDialogHandlers.ts, once its request is settled.
use manifest_cv.Prelude.{
  ◌≡◌, refl, sym, ap, ap₂, ◌∙◌, ℕ, String, List, [], ◌∷◌, map, Option, some, none, Bool, true,
  false, includes, includes-remove, add, nat_eq, nat_eqb_iff, eqb_self, if◌then◌else◌, arith,
}
use manifest_cv.Ui.Toaster.{
  Toaster, ToastOptions, AppToast, ToastType, Duration, never, absent, create, update_toast,
  dismiss_toast, dismiss_each, find_toast, new_toast, updated, put_toast, mark_exiting, clear_timer,
  arm_auto_dismiss, spread,
}
use manifest_cv.Ui.Toaster.Timers.{map_found, find_toast-map, find_toast-append}
use manifest_cv.Users.Access.{
  succeeded, Mutation, Translate, settled, created_id, pending_options, success_options,
  toggle_direct_permission, DirectGrant,
}

-- No toast has the id, and none gets it when others are dismissed.
dismiss_toast-none :
    (id k : ℕ) (s : Toaster)
    → find_toast id s.toasts ≡ none
    → find_toast id (dismiss_toast k s).toasts ≡ none
unfolding dismiss_toast
dismiss_toast-none id k s h = go (find_toast k s.toasts)
  where
    go :
        (o : Option AppToast)
        → find_toast id
            (elim o as (λ x. Toaster) [
              | none ↦ clear_timer k s
              | some existing ↦
                  if existing.exiting then clear_timer k s else record (clear_timer k s) {
                    toasts = map (mark_exiting k) s.toasts;
                    exit_timers = add k s.exit_timers;
                  }
            ]).toasts
          ≡ none
    go none = h
    go (some existing) = pick existing.exiting
      where
        pick :
            (b : Bool)
            → find_toast id
                (if b then clear_timer k s else record (clear_timer k s) {
                  toasts = map (mark_exiting k) s.toasts;
                  exit_timers = add k s.exit_timers;
                }).toasts
              ≡ none
        pick true = h
        pick false =
            find_toast-map (mark_exiting k) id (λ t. refl) s.toasts
            ∙ ap (map_found (mark_exiting k)) h

dismiss_each-none :
    (id : ℕ) (ids : List ℕ) (s : Toaster)
    → find_toast id s.toasts ≡ none
    → find_toast id (dismiss_each ids s).toasts ≡ none
dismiss_each-none id [] s h = h
dismiss_each-none id (k ∷ rest) s h =
    dismiss_each-none id rest (dismiss_toast k s) (dismiss_toast-none id k s h)

-- The pending toast is there.
find-pending :
    (title : String) (s : Toaster)
    → find_toast (created_id s) s.toasts ≡ none
    → find_toast (created_id s) (create (pending_options title) s).toasts
      ≡ some (new_toast (created_id s) (pending_options title))
unfolding create arm_auto_dismiss
find-pending title s h =
    find_toast-append (created_id s) (dismiss_each s.action_toast_ids s).toasts
      (new_toast (created_id s) (pending_options title))
    ∙ ground (arith, dismiss_each-none (created_id s) s.action_toast_ids s h)

-- What a toast shows: its title, type and duration.
abbrev pub shows : Option AppToast → Option (String × ToastType × Option Duration)
shows none = none
shows (some t) = some (t.title, t.type, t.duration)

put_toast-id : (u : AppToast) (t : AppToast) → (put_toast u t).id ≡ t.id
put_toast-id u t = ground (arith, nat_eqb_iff t.id u.id)

update_toast-eq :
    (id : ℕ) (options : ToastOptions) (s : Toaster) (old : AppToast)
    → find_toast id s.toasts ≡ some old
    → update_toast id options s
      ≡ arm_auto_dismiss id
          (updated options old).duration
          (record (clear_timer id s) { toasts = map (put_toast (updated options old)) s.toasts })
unfolding update_toast
update_toast-eq id options s old h =
    ap
      (λ o. elim o as (λ x. Toaster) [
        | none ↦ s
        | some existing ↦
            arm_auto_dismiss id (updated options existing).duration (record (clear_timer id s) {
              toasts = map (put_toast (updated options existing)) s.toasts;
            })
      ])
      h

-- An update without a duration keeps that of the toast, and arms no timer if it is `Infinity`.
update_toast-never :
    (id : ℕ) (options : ToastOptions) (s : Toaster) (old : AppToast)
    → find_toast id s.toasts ≡ some old
    → old.duration ≡ some never
    → options.duration ≡ absent
    → (map_found (put_toast (updated options old)) (some old)
        ≡ find_toast id (update_toast id options s).toasts)
      × (includes (update_toast id options s).timers id ≡ false)
unfolding arm_auto_dismiss
update_toast-never id options s old h d a =
    let rest = record (clear_timer id s) { toasts = map (put_toast new) s.toasts } in
    let step : update_toast id options s ≡ rest =
      update_toast-eq id options s old h
      ∙ ap (λ x. arm_auto_dismiss id x rest) (ap₂ (λ x y. spread x y) d a) in
    (
      sym (
          ap (λ x. find_toast id x.toasts) step
          ∙ find_toast-map (put_toast new) id (put_toast-id new) s.toasts
          ∙ ap (map_found (put_toast new)) h),
      ap (λ x. includes x.timers id) step
          ∙ (includes-remove id id s.timers ∙ ground (arith, eqb_self id)),
    )
  where
    new : AppToast
    new = updated options old

module _ {C : Type 0} (t : Translate) (email action resource_type : String) where
  abbrev pending_of : Option (Mutation C) → Option ℕ
  pending_of none = none
  pending_of (some m) = m.pending_toast

  -- What a pending request becomes when it succeeds.
  abbrev pub Stays : Toaster → ℕ → Mutation C → Type 0
  Stays s id m =
      (shows (find_toast id (settled m succeeded s).toasts) ≡ some (m.title, m.type, some never))
      × (includes (settled m succeeded s).timers id ≡ false)

  pending-Stays :
      (title : String) (s : Toaster) (m : Mutation C)
      → find_toast (created_id s) s.toasts ≡ none
      → m.pending_toast ≡ some (created_id s)
      → Stays (create (pending_options title) s) (created_id s) m
  unfolding settled
  pending-Stays title s m h p = (
    ap (λ x. shows (find_toast id x.toasts)) update
        ∙ sym (ap shows result.0)
        ∙ ground (arith, eqb_self id),
    ap (λ x. includes x.timers id) update ∙ result.1,
  )
    where
      id : ℕ
      id = created_id s

      pending : Toaster
      pending = create (pending_options title) s

      update : settled m succeeded pending ≡ update_toast id (success_options m) pending
      update =
          ap
            (λ o. elim o as (λ x. Toaster) [
              | none ↦ create (success_options m) pending
              | some k ↦ update_toast k (success_options m) pending
            ])
            p

      result :
          (map_found
              (put_toast (updated (success_options m) (new_toast id (pending_options title))))
              (some (new_toast id (pending_options title)))
            ≡ find_toast id (update_toast id (success_options m) pending).toasts)
          × (includes (update_toast id (success_options m) pending).timers id ≡ false)
      result =
          update_toast-never id (success_options m) pending (new_toast id (pending_options title))
            (find-pending title s h) refl refl

  -- After a direct permission is granted or revoked, the toast that was pending shows the result for
  -- ever: it has kept its infinite duration, and no timer will dismiss it.
  pub settled-toggle_direct_permission :
      (current_grant : Option (DirectGrant C)) (s : Toaster) (m : Mutation C)
      → find_toast (created_id s) s.toasts ≡ none
      → (toggle_direct_permission t (some email) action resource_type current_grant s).1 ≡ some m
      → Stays
          (toggle_direct_permission t (some email) action resource_type current_grant s).0
          (created_id s)
          m
  unfolding toggle_direct_permission
  settled-toggle_direct_permission none s m h e =
      pending-Stays (t "users:accessDialog.permissionGrantingToast" action) s m h
        (sym (ap pending_of e))
  settled-toggle_direct_permission (some grant) s m h e =
      pending-Stays (t "users:accessDialog.permissionRevokingToast" action) s m h
        (sym (ap pending_of e))
