-- ===== src/Resume/Builder/Saving.antt =====
-- What the effect and a save do to the editor.
use manifest_cv.Prelude.{
  ℕ, ◌≡◌, ◌≢◌, refl, Option, some, none, Bool, true, false, not, ◌||◌, nat_eqb, if◌then◌else◌,
  arith, nat_eqb_iff,
}
use manifest_cv.Resume.Editor.{EditorState, set_document, mark_saved}
use manifest_cv.Resume.Builder.{
  Revision, BuilderPage, takes_over, has_document, sync, save_succeeds, settled,
}

module _ {D : Type 0} where
  -- A second run of the effect with the same revision changes nothing: the effect, which writes the
  -- store that it depends on, comes to rest.
  pub sync_twice : (r : Option (Revision D)) (s : EditorState D) → sync r (sync r s) ≡ sync r s
  unfolding sync set_document
  sync_twice none s = refl
  sync_twice (some r) s = go (takes_over s r.id) refl
    where
      go :
          (b : Bool)
          → takes_over s r.id ≡ b
          → (if takes_over (if b then set_document r.document (some r.id) s else s) r.id
              then set_document r.document
                  (some r.id)
                  (if b then set_document r.document (some r.id) s else s)
              else (if b then set_document r.document (some r.id) s else s))
            ≡ (if b then set_document r.document (some r.id) s else s)
      go true e = rw ((nat_eqb_iff r.id r.id).1 refl) refl
      go false e = rw (e) refl

  -- An editor with unsaved changes of a loaded document is left as it is by the effect, whichever
  -- revision the query has.
  pub sync_dirty :
      (r : Option (Revision D)) (s : EditorState D) (d : D)
      → s.document ≡ some d
      → s.dirty ≡ true
      → sync r s ≡ s
  unfolding sync
  sync_dirty none s d e h = refl
  sync_dirty (some r) s d e h = rw (e, h) refl

  -- When a save succeeds under a new revision id while the query still has
  -- another revision, the effect puts the document of that older revision back into the editor: the
  -- saved document and any change made since the save was sent are replaced.
  pub settled-save_succeeds :
      (page : BuilderPage D) (r : Revision D) (id : ℕ)
      → page.revision ≡ some r
      → id ≢ r.id
      → (settled (save_succeeds id page)).editor ≡ set_document r.document (some r.id) page.editor
  unfolding settled save_succeeds sync set_document mark_saved
  settled-save_succeeds page r id e h = rw (e, taken (has_document page.editor)) refl
    where
      taken : (b : Bool) → (not b || not (nat_eqb id r.id)) ≡ true
      taken true = ground (arith, nat_eqb_iff id r.id)
      taken false = refl
