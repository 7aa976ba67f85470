-- ===== src/Policies/Form/Edits.antt =====
-- Opening the form, its unsaved changes, and submitting it.
use manifest_cv.Prelude.{
  ◌≡◌, refl, String, List, Option, some, none, Bool, true, false, not, ◌&&◌, ◌||◌, eqb_self,
  string_eq, if◌then◌else◌,
}
use manifest_cv.Policies.Form.{
  CatalogEntry, Form, Policy, Platform, handle_resource_type_change, undo_resource_type_change,
  conditions_error, opened, render, is_dirty, handle_actions_change, request_exit, Submitted,
  shows_basics, submits, throws, handle_submit, is_some, basics_tab,
}

-- Undoing a change of the resource type gives back the form from before it, whatever was cleared.
pub undo_resource_type_change-handle_resource_type_change :
    (catalog : List CatalogEntry) (value : String) (form : Form)
    → undo_resource_type_change form (handle_resource_type_change catalog value form).0 ≡ form
unfolding undo_resource_type_change handle_resource_type_change
undo_resource_type_change-handle_resource_type_change catalog value form = refl

module _ {C : Type 0} (platform : Platform C) where
  -- A form that was closed at the last render and opens now, whatever fields it had, exits without a
  -- confirmation: it holds the policy's fields.
  pub request_exit-render :
      (policy : Option (Policy C)) (form : Form)
      → form.prev_is_open ≡ false
      → request_exit platform (render platform true policy form) ≡ true
  unfolding render request_exit is_dirty
  request_exit-render policy form h =
      rw (h) (rw (eqb_self (opened platform policy).initial_snapshot) refl)

  -- Right after a change of the selected actions the form exits without a confirmation, also where
  -- its name, its description or its conditions have unsaved changes.
  pub request_exit-handle_actions_change :
      (next : List String) (form : Form)
      → request_exit platform (handle_actions_change platform next form) ≡ true
  unfolding request_exit is_dirty handle_actions_change
  request_exit-handle_actions_change next form =
      rw (eqb_self (platform.stringify (record form.fields { actions = next }))) refl

  abbrev pub Accepts : Form → Submitted C → Type 0
  Accepts form (shows_basics form') = conditions_error platform form ≡ true
  Accepts form (submits fields none) =
      (fields ≡ form.fields)
      × ((form.conditions_enabled && not (platform.is_blank form.fields.conditions_text)) ≡ false)
  Accepts form (submits fields (some conditions)) =
      (fields ≡ form.fields)
      × (form.conditions_enabled ≡ true)
      × (platform.read_object form.fields.conditions_text ≡ some conditions)
  Accepts form throws = ⊥

  -- Submitting never throws: the form is held back exactly where the conditions are wrong, and what
  -- is submitted has the conditions that the text reads as if they are enabled and not blank, and no
  -- conditions otherwise.
  pub handle_submit-Accepts : (form : Form) → Accepts form (handle_submit platform form)
  unfolding handle_submit conditions_error
  handle_submit-Accepts form =
      go form.conditions_enabled (platform.is_blank form.fields.conditions_text)
        (platform.read_object form.fields.conditions_text) refl refl refl
    where
      text : String
      text = form.fields.conditions_text

      wrong : Bool → Bool → Option C → Bool
      wrong e b o = if not e || b then false else not (is_some o)

      go :
          (e b : Bool) (o : Option C)
          → form.conditions_enabled ≡ e
          → platform.is_blank text ≡ b
          → platform.read_object text ≡ o
          → Accepts form (
              if wrong e b o
              then shows_basics (record form { tab = basics_tab })
              else if e && not b
              then elim o [
                | none ↦ throws
                | some conditions ↦ submits form.fields (some conditions)
              ]
              else submits form.fields none)
      go true true o p q r = (refl, rw (p, q) refl)
      go true false none p q r = rw (p, q, r) refl
      go true false (some c) p q r = (refl, p, r)
      go false b o p q r = (refl, rw (p) refl)
