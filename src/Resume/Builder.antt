-- ===== src/Resume/Builder.antt =====
-- Saving and jobs of frontend/src/app/resume_builder/ResumeBuilderPage.tsx: the effect that takes
-- the server's revision over, `save` with its autosave, and the loop that polls a job. What the
-- server answers is an input.
pub mod Saving
pub mod Polling
use manifest_cv.Prelude.{
  ℕ, zero, suc, ◌+◌, String, List, [], ◌∷◌, Option, some, none, Bool, true, false, not, ◌&&◌, ◌||◌,
  nat_eqb, if◌then◌else◌,
}
use manifest_cv.Resume.Editor.{EditorState, set_document, mark_saved}

pub record Revision (D : Type 0) : Type 0 where
  pub id : ℕ
  pub document : D

-- The page: the editor's store, the revision of the last query, and whether the workspace is
-- approved.
pub record BuilderPage (D : Type 0) : Type 0 where
  pub editor : EditorState D
  pub revision : Option (Revision D)
  pub approved : Bool

abbrev pub is_revision : ℕ → Option ℕ → Bool
is_revision id none = false
is_revision id (some saved) = nat_eqb saved id

abbrev pub has_document : {D : Type 0} → EditorState D → Bool
has_document s = elim s.document [ none ↦ false | some _ ↦ true ]

abbrev pub or_else {ℓ} : {A : Type ℓ} → Option A → Option A → Option A
or_else none other = other
or_else (some a) other = some a

module _ {D : Type 0} where
  abbrev pub takes_over : EditorState D → ℕ → Bool
  takes_over s id =
      not (has_document s) || (not s.dirty && not (is_revision id s.saved_revision_id))

  -- The effect on the query's revision, run whenever the store or the revision changes.
  unfoldable pub sync : Option (Revision D) → EditorState D → EditorState D
  unfolding set_document
  sync none s = s
  sync (some revision) s =
      if takes_over s revision.id then set_document revision.document (some revision.id) s else s

  -- `editorDocument` and `currentRevisionId`.
  abbrev pub editor_document : BuilderPage D → Option D
  editor_document page =
      or_else page.editor.document
        (elim page.revision [ none ↦ none | some revision ↦ some revision.document ])

  abbrev pub current_revision_id : BuilderPage D → Option ℕ
  current_revision_id page =
      or_else page.editor.saved_revision_id
        (elim page.revision [ none ↦ none | some revision ↦ some revision.id ])

  -- What `save` sends: the document and the revision that it replaces. Nothing is sent without a
  -- document or once the workspace is approved.
  unfoldable pub save_request : Option D → BuilderPage D → Option (D × Option ℕ)
  save_request none page = none
  save_request (some document) page =
      if page.approved then none else some (document, current_revision_id page)

  -- The autosave starts a timer only for a dirty editor.
  unfoldable pub autosave_request : BuilderPage D → Option (D × Option ℕ)
  unfolding save_request
  autosave_request page =
      if page.editor.dirty then save_request (editor_document page) page else none

  -- The server's answer to a save, and that of the query that follows.
  unfoldable pub save_succeeds : ℕ → BuilderPage D → BuilderPage D
  unfolding mark_saved
  save_succeeds id page = record page { editor = mark_saved id page.editor }

  unfoldable pub refetched : Revision D → BuilderPage D → BuilderPage D
  refetched revision page = record page { revision = some revision }

  -- A render with the effect.
  unfoldable pub settled : BuilderPage D → BuilderPage D
  unfolding sync
  settled page = record page { editor = sync page.revision page.editor }

-- `getBuilderJobApi` at each attempt; `unreachable` is a request that throws.
pub data JobStatus : Type 0 where
  queued running succeeded failed cancelled unreachable : JobStatus

pub data Outcome : Type 0 where
  -- The attempt at which it was known.
  delivered : ℕ → Outcome
  refused : ℕ → Outcome
  timed_out : Outcome

abbrev pub poll_attempts : ℕ
poll_attempts = 60

-- The loop of `exportPdf` and of `generate`, from an attempt on with this many attempts left.
unfoldable pub poll_from : (ℕ → JobStatus) → ℕ → ℕ → Outcome
poll_from job attempt zero = timed_out
poll_from job attempt (suc left) =
    let later = poll_from job (suc attempt) left in
    elim (job attempt) [
      | queued ↦ later
      | running ↦ later
      | succeeded ↦ delivered attempt
      | failed ↦ refused attempt
      | cancelled ↦ refused attempt
      | unreachable ↦ refused attempt
    ]

unfoldable pub poll : (ℕ → JobStatus) → Outcome
unfolding poll_from
poll job = poll_from job 0 poll_attempts
