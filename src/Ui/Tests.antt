-- ===== src/Ui/Tests.antt =====
-- The theorems on the pages' shared parts at concrete inputs.
use manifest_cv.Prelude.{false, ◌≡◌, List, [], ◌∷◌, none, some, nat_eq}
use manifest_cv.Ui.State.{StatusCell}
use manifest_cv.Ui.Toaster.{
  ToastOptions, absent, given, no_toasts, ToastCall, creates, begins_action, exit_fires, call_all,
}
use manifest_cv.Ui.Toaster.Calls.{Timed, call_all-Timed}
use manifest_cv.Ui.Language.{
  LanguageEvent, picks, finishes, with_hi, plain, gu, start, on_events, wanted,
}
use manifest_cv.Ui.Language.Loads.{all_finish, on_events-shown}

abbrev picked : List LanguageEvent
picked = picks with_hi ∷ finishes 1 ∷ picks (plain gu) ∷ finishes 0 ∷ []

on_events-shown_example :
    (on_events
      (all_finish (on_events picked (start none "mr")).loads)
      (on_events picked (start none "mr"))).shown
    ≡ some (wanted (on_events picked (start none "mr")))
on_events-shown_example = on_events-shown none "mr" picked

abbrev saving : ToastOptions
saving = record {
  title = "Saving";
  description = absent;
  type = none;
  duration = absent;
  action = given (some "Undo");
}

abbrev toast_calls : List ToastCall
toast_calls = creates saving ∷ begins_action 1 ∷ creates saving ∷ exit_fires 1 ∷ []

call_all-Timed_example : Timed (call_all toast_calls no_toasts)
call_all-Timed_example = call_all-Timed toast_calls

abbrev applied : StatusCell
applied = record { local_status = "applied"; prev_server_status = "applied"; is_pending = false }
