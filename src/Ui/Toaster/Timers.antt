-- ===== src/Ui/Toaster/Timers.antt =====
-- The timers that a toast of toasterInstance.ts needs, and the calls that dismiss.
use manifest_cv.Prelude.{
  ℕ, ◌≡◌, refl, sym, ap, ◌∙◌, List, [], ◌∷◌, ◌++◌, map, Option, some, none, Bool, true, false, not,
  ◌||◌, filter, includes, add, remove, includes-add, includes-remove, nat_eq, nat_eqb, nat_eqb_iff,
  if◌then◌else◌, arith,
}
use manifest_cv.Ui.Toaster.{
  AppToast, Toaster, find_toast, clear_timer, mark_exiting, dismiss_toast, expires, exit_now,
  ids_of, dismiss_all, exit_timer_fires,
}

-- The toast under an id has the timer that it needs.
abbrev pub is_timed_toast : List ℕ → List ℕ → ℕ → Option AppToast → Bool
is_timed_toast timers exit_timers id none = true
is_timed_toast timers exit_timers id (some t) =
    if t.exiting then includes exit_timers id else not (expires t.duration) || includes timers id

abbrev pub is_timed : Toaster → ℕ → Bool
is_timed s id = is_timed_toast s.timers s.exit_timers id (find_toast id s.toasts)

abbrev pub map_found : (AppToast → AppToast) → Option AppToast → Option AppToast
map_found f none = none
map_found f (some t) = some (f t)

pub find_toast-map :
    (f : AppToast → AppToast) (id : ℕ)
    → ((t : AppToast) → (f t).id ≡ t.id)
    → (ts : List AppToast) → find_toast id (map f ts) ≡ map_found f (find_toast id ts)
find_toast-map f id h [] = refl
find_toast-map f id h (t ∷ ts) =
    ap (λ n. if nat_eqb n id then some (f t) else find_toast id (map f ts)) (h t)
    ∙ go (nat_eqb t.id id) (find_toast-map f id h ts)
  where
    go :
        (b : Bool)
        → find_toast id (map f ts) ≡ map_found f (find_toast id ts)
        → (if b then some (f t) else find_toast id (map f ts))
          ≡ map_found f (if b then some t else find_toast id ts)
    go true e = refl
    go false e = e

pub find_toast-id :
    (id : ℕ) (ts : List AppToast) (t : AppToast) → find_toast id ts ≡ some t → t.id ≡ id
find_toast-id id [] t e = cc
find_toast-id id (x ∷ xs) t e = ground (arith, find_toast-id id xs t, nat_eqb_iff x.id id)

pub find_toast-append :
    (id : ℕ) (ts : List AppToast) (new : AppToast)
    → find_toast id (ts ++ new ∷ []) ≡ (elim (find_toast id ts) [
      | none ↦ if nat_eqb new.id id then some new else none
      | some t ↦ some t
    ])
find_toast-append id [] new = refl
find_toast-append id (t ∷ ts) new = go (nat_eqb t.id id) (find_toast-append id ts new)
  where
    go :
        (b : Bool)
        → find_toast id (ts ++ new ∷ []) ≡ (elim (find_toast id ts) [
          | none ↦ if nat_eqb new.id id then some new else none
          | some x ↦ some x
        ])
        → (if b then some t else find_toast id (ts ++ new ∷ []))
          ≡ (elim (if b then some t else find_toast id ts) [
            | none ↦ if nat_eqb new.id id then some new else none
            | some x ↦ some x
          ])
    go true e = refl
    go false e = e

find_toast-filter :
    (id k : ℕ) (ts : List AppToast)
    → find_toast id (filter (λ t. not (nat_eqb t.id k)) ts)
      ≡ (if nat_eqb id k then none else find_toast id ts)
find_toast-filter id k [] = ground arith
find_toast-filter id k (t ∷ ts) = ground (arith, find_toast-filter id k ts)

module _ (T X : List ℕ) (k id : ℕ) where
  pub timed_remove :
      (o : Option AppToast)
      → is_timed_toast T X id o ≡ true
      → ((t : AppToast) → o ≡ some t → nat_eqb id k ≡ true → t.exiting ≡ true)
      → is_timed_toast (remove k T) X id o ≡ true
  timed_remove none h f = refl
  timed_remove (some t) h f = ground (arith, includes-remove k id T, f t refl)

  timed_exit :
      (o : Option AppToast)
      → is_timed_toast T X id o ≡ true
      → ((t : AppToast) → o ≡ some t → t.id ≡ id)
      → is_timed_toast (remove k T) (add k X) id (map_found (mark_exiting k) o) ≡ true
  timed_exit none h f = refl
  timed_exit (some t) h f = ground (arith, includes-remove k id T, includes-add k id X, f t refl)

  pub timed_add :
      (o : Option AppToast)
      → is_timed_toast T X id o ≡ true
      → is_timed_toast (add k T) X id o ≡ true
  timed_add none h = refl
  timed_add (some t) h = ground (arith, includes-add k id T)

  timed_gone :
      (o : Option AppToast)
      → is_timed_toast T X id o ≡ true
      → is_timed_toast T (remove k X) id (if nat_eqb id k then none else o) ≡ true
  timed_gone none h = ground arith
  timed_gone (some t) h = ground (arith, includes-remove k id X)

module _ (s : Toaster) (h : (id : ℕ) → is_timed s id ≡ true) where
  pub dismiss_toast-Timed : (k id : ℕ) → is_timed (dismiss_toast k s) id ≡ true
  unfolding dismiss_toast
  dismiss_toast-Timed k id = go (find_toast k s.toasts) refl
    where
      at_k : nat_eqb id k ≡ true → find_toast id s.toasts ≡ find_toast k s.toasts
      at_k e = ap (λ n. find_toast n s.toasts) ((nat_eqb_iff id k).0 e)

      leaves :
          (existing : AppToast) (b : Bool)
          → find_toast k s.toasts ≡ some existing
          → existing.exiting ≡ b
          → is_timed
              (if b then clear_timer k s else record (clear_timer k s) {
                toasts = map (mark_exiting k) s.toasts;
                exit_timers = add k s.exit_timers;
              })
              id
            ≡ true
      leaves t true e f =
          timed_remove s.timers s.exit_timers k id (find_toast id s.toasts) (h id) (λ x g same.
            let there : some x ≡ some t = sym g ∙ at_k same ∙ e in
            let is_t : x ≡ t = cc in ap (λ y. y.exiting) is_t ∙ f)
      leaves t false e f =
          ap (is_timed_toast (remove k s.timers) (add k s.exit_timers) id)
            (find_toast-map (mark_exiting k) id (λ x. refl) s.toasts)
          ∙ timed_exit s.timers s.exit_timers k id (find_toast id s.toasts) (h id)
              (λ x g. find_toast-id id s.toasts x g)

      go :
          (o : Option AppToast)
          → find_toast k s.toasts ≡ o
          → is_timed
              (elim o [
                | none ↦ clear_timer k s
                | some existing ↦
                    if existing.exiting then clear_timer k s else record (clear_timer k s) {
                      toasts = map (mark_exiting k) s.toasts;
                      exit_timers = add k s.exit_timers;
                    }
              ])
              id
            ≡ true
      go none e =
          timed_remove s.timers s.exit_timers k id (find_toast id s.toasts) (h id)
            (λ x g same. let there : some x ≡ none = sym g ∙ at_k same ∙ e in cc)
      go (some t) e = leaves t t.exiting e refl

  pub exit_timer_fires-Timed : (k id : ℕ) → is_timed (exit_timer_fires k s) id ≡ true
  unfolding exit_timer_fires
  exit_timer_fires-Timed k id = go (includes s.exit_timers k)
    where
      go :
          (b : Bool)
          → is_timed
              (if b
                then record s {
                  exit_timers = remove k s.exit_timers;
                  toasts = filter (λ t. not (nat_eqb t.id k)) s.toasts;
                }
                else s)
              id
            ≡ true
      go true =
          ap (is_timed_toast s.timers (remove k s.exit_timers) id) (find_toast-filter id k s.toasts)
          ∙ timed_gone s.timers s.exit_timers k id (find_toast id s.toasts) (h id)
      go false = h id

includes-ids_of :
    (id : ℕ) (ts : List AppToast) (t : AppToast)
    → find_toast id ts ≡ some t
    → includes (ids_of ts) id ≡ true
unfolding includes
includes-ids_of id [] t e = cc
includes-ids_of id (x ∷ xs) t e = ground (arith, includes-ids_of id xs t)

all_exiting :
    (id : ℕ) (ts : List AppToast)
    → is_timed_toast [] (ids_of ts) id (map_found exit_now (find_toast id ts)) ≡ true
all_exiting id ts = go (find_toast id ts) refl
  where
    go :
        (o : Option AppToast)
        → find_toast id ts ≡ o
        → is_timed_toast [] (ids_of ts) id (map_found exit_now o) ≡ true
    go none e = refl
    go (some t) e = includes-ids_of id ts t e

pub dismiss_all-Timed : (s : Toaster) (id : ℕ) → is_timed (dismiss_all s) id ≡ true
unfolding dismiss_all
dismiss_all-Timed s id =
    ap (is_timed_toast [] (ids_of s.toasts) id) (find_toast-map exit_now id (λ x. refl) s.toasts)
    ∙ all_exiting id s.toasts
