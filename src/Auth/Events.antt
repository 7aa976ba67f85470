-- ===== src/Auth/Events.antt =====
-- The server's push events, frontend/src/mystic_auth/auth/session_lifecycle: the handler of
-- useSessionEventsStream.ts and the guard of selfPermissionMutationGuard.ts.
use manifest_cv.Prelude.{
  ℕ, suc, ◌+◌, ◌-◌, ◌≡◌, refl, String, List, [], ◌∷◌, Option, some, none, Bool, true, false, ltb,
  if◌then◌else◌,
}
use manifest_cv.Auth.Store.{AuthState, drop_permissions}
use manifest_cv.Auth.Can.{Permission, can}
use manifest_cv.Auth.Can.Laws.{can_nothing}

abbrev pub recent_self_mutation_window_ms : ℕ
recent_self_mutation_window_ms = 5000

-- The answer, and the flag after the check: any check consumes it.
unfoldable pub was_self_mutation_recent : ℕ → Option ℕ → Bool × Option ℕ
was_self_mutation_recent now none = (false, none)
was_self_mutation_recent now (some at) = (ltb (now - at) recent_self_mutation_window_ms, none)

-- The calls on the query cache.
pub data QueryCall : Type 0 where
  resets_queries : QueryCall
  invalidates : String → QueryCall

-- The tab: its store and `lastSelfMutationAt`.
pub record Tab : Type 0 where
  pub auth : AuthState
  pub last_self_mutation_at : Option ℕ

unfoldable pub mark_self_mutation : ℕ → Tab → Tab
mark_self_mutation now tab = record tab { last_self_mutation_at = some now }

-- `onmessage`; `false` stands for any other type and for a payload that does not parse.
unfoldable pub on_message : ℕ → Bool → Tab → Tab × List QueryCall
unfolding was_self_mutation_recent
on_message now true tab =
    let (recent, flag) = was_self_mutation_recent now tab.last_self_mutation_at in
    (
      record {
        auth = if recent then tab.auth else drop_permissions tab.auth;
        last_self_mutation_at = flag;
      },
      resets_queries ∷ [],
    )
on_message now false tab =
    (tab, invalidates "currentUser" ∷ invalidates "sessions" ∷ invalidates "previousLogin" ∷ [])

-- What happens to a tab: its own mutations, and pushed events.
pub data Signal : Type 0 where
  mutates : ℕ → Signal
  pushed : ℕ → Bool → Signal

unfoldable pub receive : Signal → Tab → Tab
unfolding mark_self_mutation on_message
receive (mutates now) tab = mark_self_mutation now tab
receive (pushed now changed) tab = (on_message now changed tab).0

-- How many `permissions_changed` events left the permissions as they were.
unfoldable pub skipped : List Signal → Tab → ℕ
unfolding was_self_mutation_recent receive
skipped [] tab = 0
skipped (mutates now ∷ rest) tab = skipped rest (receive (mutates now) tab)
skipped (pushed now false ∷ rest) tab = skipped rest (receive (pushed now false) tab)
skipped (pushed now true ∷ rest) tab =
    (if (was_self_mutation_recent now tab.last_self_mutation_at).0 then 1 else 0)
    + skipped rest (receive (pushed now true) tab)

abbrev pub mutations : List Signal → ℕ
mutations [] = 0
mutations (mutates now ∷ rest) = suc (mutations rest)
mutations (pushed now changed ∷ rest) = mutations rest

abbrev pub armed : Tab → ℕ
armed tab = elim tab.last_self_mutation_at [ none ↦ 0 | some _ ↦ 1 ]

-- In a tab without a recent permission change of its own, every access check answers no right after a
-- permissions_changed event, whatever was held before.
pub on_message_closed :
    (now : ℕ) (tab : Tab) (p : Permission)
    → tab.last_self_mutation_at ≡ none
    → can (on_message now true tab).0.auth p ≡ false
unfolding on_message
on_message_closed now tab p h =
    rw (h, was_self_mutation_recent)
      (can_nothing (drop_permissions tab.auth) p (unfold drop_permissions in refl))
