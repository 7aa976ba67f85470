-- ===== src/Resume/Editor.antt =====
-- The editor store, frontend/src/app/resume_builder/useResumeEditorStore.ts: the document with its
-- undo and redo stacks. The document's type is a parameter, since the store never looks into it.
pub mod History
use manifest_cv.Prelude.{
  ℕ, ◌-◌, String, List, [], ◌∷◌, ◌++◌, Option, some, none, Bool, true, false, length, take, drop,
}

pub record EditorState (D : Type 0) : Type 0 where
  pub document : Option D
  pub selected_id : Option String
  pub saved_revision_id : Option ℕ
  pub dirty : Bool
  pub undo : List D
  pub redo : List D

module _ {ℓ} {A : Type ℓ} where
  -- `xs.at(-1)` and `xs.slice(0, -1)`.
  unfoldable pub last? : List A → Option A
  last? [] = none
  last? (x ∷ []) = some x
  last? (x ∷ y ∷ xs) = last? (y ∷ xs)

  unfoldable pub drop_last : List A → List A
  drop_last [] = []
  drop_last (x ∷ []) = []
  drop_last (x ∷ y ∷ xs) = x ∷ drop_last (y ∷ xs)

  -- `xs.slice(-n)`: the last n entries, for n > 0.
  unfoldable pub take_last : ℕ → List A → List A
  take_last n xs = drop (length xs - n) xs

-- Both stacks keep fifty entries at most.
abbrev pub history_limit : ℕ
history_limit = 50

module _ {D : Type 0} where
  unfoldable pub initial : EditorState D
  initial = record {
    document = none;
    selected_id = none;
    saved_revision_id = none;
    dirty = false;
    undo = [];
    redo = [];
  }

  unfoldable pub set_document : D → Option ℕ → EditorState D → EditorState D
  set_document document revision_id s = record s {
    document = some document;
    saved_revision_id = revision_id;
    dirty = false;
    undo = [];
    redo = [];
  }

  unfoldable pub update : (D → D) → EditorState D → EditorState D
  update change s = elim s.document [
    | none ↦ s
    | some document ↦ record s {
      document = some (change document);
      undo = take_last history_limit (s.undo ++ document ∷ []);
      redo = [];
      dirty = true;
    }
  ]

  unfoldable pub select : Option String → EditorState D → EditorState D
  select id s = record s { selected_id = id }

  unfoldable pub undo_change : EditorState D → EditorState D
  undo_change s = elim (last? s.undo) [
    | none ↦ s
    | some previous ↦ elim s.document [
      | none ↦ s
      | some document ↦ record s {
        document = some previous;
        undo = drop_last s.undo;
        redo = take history_limit (document ∷ s.redo);
        dirty = true;
      }
    ]
  ]

  unfoldable pub redo_change : EditorState D → EditorState D
  redo_change s = elim s.redo [
    | [] ↦ s
    | next ∷ later ↦ elim s.document [
      | none ↦ s
      | some document ↦ record s {
        document = some next;
        redo = later;
        undo = take_last history_limit (s.undo ++ document ∷ []);
        dirty = true;
      }
    ]
  ]

  unfoldable pub mark_saved : ℕ → EditorState D → EditorState D
  mark_saved revision_id s = record s {
    saved_revision_id = some revision_id;
    dirty = false;
    undo = [];
    redo = [];
  }

-- The calls of the store, as one type.
pub data Action (D : Type 0) : Type 0 where
  sets : D → Option ℕ → Action D
  updates : (D → D) → Action D
  selects : Option String → Action D
  undoes redoes : Action D
  marks : ℕ → Action D

module _ {D : Type 0} where
  unfoldable pub act : Action D → EditorState D → EditorState D
  unfolding set_document update select undo_change redo_change mark_saved
  act (sets document id) s = set_document document id s
  act (updates change) s = update change s
  act (selects id) s = select id s
  act undoes s = undo_change s
  act redoes s = redo_change s
  act (marks id) s = mark_saved id s

  unfoldable pub run : List (Action D) → EditorState D → EditorState D
  run [] s = s
  run (a ∷ rest) s = run rest (act a s)
