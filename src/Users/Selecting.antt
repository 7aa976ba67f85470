-- ===== src/Users/Selecting.antt =====
-- The rows a bulk action acts on, frontend/src/mystic_auth/users/useUsersPageState.ts, as steps of the
-- page: renders with a page and filters, changes of the selection, and `handleSelectAllMatching`, whose
-- answer arrives at a step of its own.
use manifest_cv.Prelude.{
  ◌⊎◌, inl, inr, Bool-cases, ◌≡◌, ◌≢◌, refl, ap, ℕ, String, List, [], map, Option, some, none, Bool,
  true, false, filter, length, includes, ◌==◌, string_eq, nat_eq, eqb_ne, if◌then◌else◌,
}

pub record UserRow : Type 0 where
  pub id : ℕ
  pub email : String

-- `key` is `selectionResetKey`. `asked` is the key at which a fetch that is in flight was started.
pub record Selecting : Type 0 where
  pub key : String
  pub selected_user_ids : List ℕ
  pub select_all_matching : Bool
  pub all_matching_emails : List String
  pub asked : Option String

abbrev pub nothing_selected : String → Selecting
nothing_selected key = record {
  key = key;
  selected_user_ids = [];
  select_all_matching = false;
  all_matching_emails = [];
  asked = none;
}

-- A render: another page or other filters clear the selection, and leave a fetch in flight.
unfoldable pub render_key : String → Selecting → Selecting
render_key key s =
    if key == s.key
    then s
    else record s { key = key; selected_user_ids = []; select_all_matching = false }

unfoldable pub handle_selection_change : List ℕ → Selecting → Selecting
handle_selection_change ids s = record s { selected_user_ids = ids; select_all_matching = false }

unfoldable pub clear_selection : Selecting → Selecting
clear_selection s = record s { selected_user_ids = []; select_all_matching = false }

unfoldable pub start_select_all : Selecting → Selecting
start_select_all s = record s { asked = some s.key }

-- The fetch's answer; a rejected one only shows a toast.
unfoldable pub finish_select_all : Option (List String) → Selecting → Selecting
finish_select_all none s = record s { asked = none }
finish_select_all (some emails) s = record s {
  all_matching_emails = emails;
  select_all_matching = true;
  asked = none;
}

unfoldable pub selected_user_emails : List UserRow → Selecting → List String
unfolding includes
selected_user_emails users s =
    if s.select_all_matching
    then s.all_matching_emails
    else map (λ u. u.email) (filter (λ u. includes s.selected_user_ids u.id) users)

-- `data?.total ?? allMatchingEmails.length`.
unfoldable pub selected_count : Option ℕ → Selecting → ℕ
selected_count none s =
    if s.select_all_matching then length s.all_matching_emails else length s.selected_user_ids
selected_count (some total) s = if s.select_all_matching then total else length s.selected_user_ids

-- The steps. `answered key emails` says that `fetchAllMatchingUserEmails` may return these emails when it
-- was asked with the filters of the key, all that match or, where it stops early, a part of them.
pub data PageStep (answered : String → List String → Type 0) : Selecting → Selecting → Type 0 where
  renders : (s : Selecting) (key : String) → PageStep answered s (render_key key s)
  selects : (s : Selecting) (ids : List ℕ) → PageStep answered s (handle_selection_change ids s)
  clears : (s : Selecting) → PageStep answered s (clear_selection s)
  asks : (s : Selecting) → s.asked ≡ none → PageStep answered s (start_select_all s)
  answers :
      (s : Selecting) (key : String) (emails : List String)
      → s.asked ≡ some key
      → answered key emails
      → PageStep answered s (finish_select_all (some emails) s)
  rejects :
      (s : Selecting) (key : String)
      → s.asked ≡ some key
      → PageStep answered s (finish_select_all none s)

pub data Reaches (answered : String → List String → Type 0) : Selecting → Selecting → Type 0 where
  here : (s : Selecting) → Reaches answered s s
  further :
      (s t u : Selecting) → Reaches answered s t → PageStep answered t u → Reaches answered s u

module _ (answered : String → List String → Type 0) where
  -- Selecting all that match acts on one answer of a fetch for one choice of filters, not on a mix.
  abbrev pub IsOneAnswer : Selecting → Type 0
  IsOneAnswer s = s.select_all_matching ≡ true → (key : String) × answered key s.all_matching_emails

  step-IsOneAnswer : (s t : Selecting) → PageStep answered s t → IsOneAnswer s → IsOneAnswer t
  unfolding render_key handle_selection_change clear_selection start_select_all finish_select_all
  step-IsOneAnswer _ _ (renders s key) h = go (key == s.key)
    where
      go :
          (b : Bool)
          → IsOneAnswer (
              if b
              then s
              else record s { key = key; selected_user_ids = []; select_all_matching = false })
      go true = h
      go false = λ e. absurd (cc e)
  step-IsOneAnswer _ _ (selects s ids) h = λ e. absurd (cc e)
  step-IsOneAnswer _ _ (clears s) h = λ e. absurd (cc e)
  step-IsOneAnswer _ _ (asks s e) h = h
  step-IsOneAnswer _ _ (answers s key emails e a) h = λ d. (key, a)
  step-IsOneAnswer _ _ (rejects s key e) h = h

  reach-IsOneAnswer : (s t : Selecting) → Reaches answered s t → IsOneAnswer s → IsOneAnswer t
  reach-IsOneAnswer _ _ (here s) h = h
  reach-IsOneAnswer _ _ (further s t u r step) h =
      step-IsOneAnswer t u step (reach-IsOneAnswer s t r h)

-- Whatever is selected and whenever answers arrive, once all that match are selected, a bulk action acts
-- on exactly what one fetch has returned for some choice of filters, never on a mix of two answers or of
-- an answer and single rows. If they are not, it acts on
-- the selected rows of the page.
pub reach_selected :
    (answered : String → List String → Type 0) (key : String) (users : List UserRow) (s : Selecting)
    → Reaches answered (nothing_selected key) s
    → ((s.select_all_matching ≡ true)
        × ((chosen : String) × answered chosen (selected_user_emails users s)))
      ⊎ ((s.select_all_matching ≡ false)
          × (selected_user_emails users s
              ≡ map (λ u. u.email) (filter (λ u. includes s.selected_user_ids u.id) users)))
unfolding selected_user_emails
reach_selected answered key users s r = elim (Bool-cases s.select_all_matching) [
  | inl e ↦
      let (chosen, given) =
        reach-IsOneAnswer answered (nothing_selected key) s r (λ d. absurd (cc d)) e in
      inl (e, (chosen, rw (e) given))
  | inr e ↦ inr (e, rw (e) refl)
]

-- After a fetch was started, filters can change before it answers; the answer is then taken over: the
-- page shows the new filters, and a bulk action would change the users that the fetch has returned for
-- the old ones.
pub stale_selection :
    (answered : String → List String → Type 0) (old new : String) (emails : List String)
    → new ≢ old
    → answered old emails
    → (users : List UserRow)
    → (s : Selecting) × Reaches answered (nothing_selected old) s
      × (s.key ≡ new)
      × (selected_user_emails users s ≡ emails)
unfolding selected_user_emails render_key start_select_all finish_select_all
stale_selection answered old new emails h a users = (
  finished,
  further start shown finished
      (further start asked shown (further start start asked (here start) (asks start refl))
        (renders asked new))
      (answers shown old emails (ap (λ s. s.asked) changed) a),
  ap (λ s. s.key) changed,
  refl,
)
  where
    start : Selecting
    start = nothing_selected old

    asked : Selecting
    asked = start_select_all start

    shown : Selecting
    shown = render_key new asked

    finished : Selecting
    finished = finish_select_all (some emails) shown

    other : Selecting
    other = record asked { key = new; selected_user_ids = []; select_all_matching = false }

    changed : shown ≡ other
    changed = ap (λ b. if b then asked else other) (eqb_ne new old h)
