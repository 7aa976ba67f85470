-- ===== src/Lib.antt =====
-- A model of the frontend of ManifestCV, frontend/src, and theorems on it. The app's own pages live in
-- frontend/src/app, and the session, access and administration code in frontend/src/mystic_auth.
--
-- Parts, and the files that model them:
-- - Resume.Document, Resume.Layout: app/resume_builder/resumeDocumentTypes.ts and the edits of
--   ResumeBuilderPage.tsx (`move`, `moveToColumn`, `resizeColumn`, `addBlock`, `addRow`,
--   `duplicateSelected`, `removeSelected`, `editBlock`, the style and the paper), each a function from a
--   document to a document, which Layout.Edits hands to `updateDocument` with its guards.
--   Layout.Visit is the shape of their loops over pages and rows, which stop at the first row that
--   answers.
-- - Resume.Editor: the store of useResumeEditorStore.ts, which the page hands its edits to.
-- - Resume.Builder: the page's saving (the effect that takes the server's revision over, `save`, the
--   autosave) and the loop that polls an export or a generation.
-- - Auth.Store, Auth.Can, Auth.Events: store/authStore.ts with the hook that mirrors GET /auth/me into
--   it, the checks of authorization/, and the server's push events with the guard that recognises the
--   tab's own change. Every check reads the store.
-- - Auth.Route: authorization/ProtectedRoute.tsx as a state that renders change, each with the permission
--   of its route, since one instance stays mounted from one guarded route to the next, and the table of
--   the routes of app/App.tsx with the sidebar's links (navItems.ts, Sidebar.tsx).
-- - Auth.Interceptor: setupAuthInterceptor.ts, which refreshes and retries a request that got a 401
--   and ends the session in Auth.Store; Auth.Rotation: sessionRotationGuard.ts, which its
--   check asks; Auth.Refresh: crossTabRefresh.ts, one refresh for all tabs, and in its Flight the single
--   flight of `refreshSession` in one tab.
-- - Policies.Grants, Policies.Form: policies/logic/effectiveGrants.ts and the form's state of
--   policies/dialogs/usePolicyFormState.ts.
-- - Policies.Bulk, Policies.Mutations: the loops of policies/queries/bulkAssignmentMutations.ts, and what
--   these and the single mutations of policyMutations.ts and permissionMutations.ts invalidate; they arm
--   the guard of Auth.Events. Policies.Activity, Policies.Actions: the switch of a policy and
--   the change of its actions (policiesPageHandlers.ts, useOptimisticPolicyActivity.ts).
-- - Users.Access, Users.Dialog: users/dialogs/userAccessDialogHandlers.ts, whose callbacks call
--   Ui.Toaster, and useUserAccessDialogState.ts. Users.Fetching, Users.Selecting, Users.Filters:
--   `fetchAllMatchingUserEmails`, and the selection and the filters of the users page.
-- - Search: the command palette, layout/command_palette, with translations/searchText.ts: the texts
--   below a path, the rows, their order, and the keys; Search.Occurrences tells what stands below a path
--   without the walk. It asks the checks that Auth.Can models.
-- - Policies.Lists: policies/policyListHelpers.ts, the filter, the pages and the groups by resource type.
-- - Admin: the time range of audit_log/auditLogListConfig.ts, rate_limits/sortRateLimitEntries.ts, and
--   the numbers of audit_log/security_log/LoginTrendChart.tsx, where a power of ten is found on fuel,
--   which is the value itself and so exceeds its number of digits.
-- - Ui: row selection, the page list, the pager with the step back of ApplicationsPage.tsx, the
--   password rules, and the toasts with their timers (ui/toaster/toasterInstance.ts). Ui.State:
--   the sort, the page reset, the status cell of ApplicationsPage.tsx and the text of
--   career_knowledge/CareerKnowledgePage.tsx; Ui.Cooldown: useCooldown.ts. Ui.Language:
--   store/languageStore.ts.
-- - Prelude: Boolean tests, lists, sets as lists of keys, counts, a stable sort, and integers.
--
-- State is passed explicitly: a handler is a function on a record that holds the component's state, and
-- what the server or the platform answers is an argument. Tabs that share a lease are a step relation,
-- with the write of the lease and its read-back as two steps, and so is the selection of the users page, where an answer arrives at a step of its own.
-- Widths are integers in a fixed unit. Times are natural numbers of milliseconds.
--
-- Bounds: the interceptor runs on four rounds of fuel. A request is marked after each of its two
-- retries, and a refresh is a request of its own that is not refreshed, so that none goes deeper. A
-- history holds fifty documents, and a job is polled sixty times, as in the source. The fetch of all
-- matching users runs on 2002 rounds, since each but the last adds one of at most 2000 emails; a list
-- is cut into chunks on as many rounds as it has entries.
--
-- Not modelled: React's rendering and the styles, the HTTP client and the query cache (their answers are
-- inputs), JSON and `trim` (parameters of the forms), `toLowerCase` and the order of strings (parameters
-- of the search and the sort), the other administration pages, the translations, and the backend.
pub mod Prelude
pub mod Resume
pub mod Auth
pub mod Policies
pub mod Ui
pub mod Users
pub mod Search
pub mod Admin
