-- ===== src/Resume/Editor/History.antt =====
-- The store's two stacks: their bounds, and undo and redo as moves along one line of documents.
use manifest_cv.Prelude.{
  zero, suc, ℕ, ◌+◌, ◌-◌, ◌≤◌, ◌≡◌, inl, inr, refl, ap, ◌∙◌, List, [], ◌∷◌, ◌++◌, Option, some,
  none, Bool, true, false, length, take, drop, arith, length-append, length-take, length-drop,
  take_all, Option-cases,
}
use mathlib.Core.List.{append_assoc}
use manifest_cv.Resume.Editor.{
  EditorState, Action, sets, updates, selects, undoes, redoes, marks, act, run, initial, last?,
  drop_last, take_last, history_limit, update, undo_change, redo_change,
}

module _ {ℓ} {A : Type ℓ} where
  length-take_last-le : (n : ℕ) (xs : List A) → length (take_last n xs) ≤ n
  unfolding take_last
  length-take_last-le n xs = omega (arith, length-drop (length xs - n) xs)

  take_last_all : (n : ℕ) (xs : List A) → length xs ≤ n → take_last n xs ≡ xs
  unfolding take_last
  take_last_all n xs h = let e : length xs - n ≡ 0 = omega arith in rw e

  drop_last-append : (xs : List A) (x : A) → drop_last (xs ++ x ∷ []) ≡ xs
  unfolding drop_last
  drop_last-append [] x = refl
  drop_last-append (y ∷ []) x = refl
  drop_last-append (y ∷ z ∷ xs) x = ap (y ∷◌) (drop_last-append (z ∷ xs) x)

  last?-append : (xs : List A) (x : A) → last? (xs ++ x ∷ []) ≡ some x
  unfolding last?
  last?-append [] x = refl
  last?-append (y ∷ []) x = refl
  last?-append (y ∷ z ∷ xs) x = last?-append (z ∷ xs) x

  drop-append : (k : ℕ) (xs ys : List A) → k ≤ length xs → drop k (xs ++ ys) ≡ drop k xs ++ ys
  drop-append zero xs ys h = refl
  drop-append (suc k) [] ys h = absurd (omega arith)
  drop-append (suc k) (x ∷ xs) ys h = drop-append k xs ys (omega arith)

  -- The last entry is kept, whatever falls off in front.
  take_last-append :
      (n : ℕ) (xs : List A) (x : A)
      → take_last (suc n) (xs ++ x ∷ []) ≡ drop (length xs - n) xs ++ x ∷ []
  unfolding take_last
  take_last-append n xs x =
      let e : length (xs ++ x ∷ []) - suc n ≡ length xs - n =
        omega (arith, length-append xs (x ∷ [])) in
      rw e (drop-append (length xs - n) xs (x ∷ []) (omega arith))

  -- A list with a last entry is the rest and that entry.
  drop_last-last? : (xs : List A) {x : A} → last? xs ≡ some x → xs ≡ drop_last xs ++ x ∷ []
  unfolding drop_last last?
  drop_last-last? [] h = cc
  drop_last-last? (y ∷ []) h = cc
  drop_last-last? (y ∷ z ∷ xs) h = ap (y ∷◌) (drop_last-last? (z ∷ xs) h)

  length-drop_last-le : (xs : List A) → length (drop_last xs) ≤ length xs
  unfolding drop_last
  length-drop_last-le [] = omega arith
  length-drop_last-le (y ∷ []) = omega arith
  length-drop_last-le (y ∷ z ∷ xs) = omega (arith, length-drop_last-le (z ∷ xs))

module _ {D : Type 0} where
  pub record IsBounded (s : EditorState D) : Type 0 where
    pub undo_bound : length s.undo ≤ history_limit
    pub redo_bound : length s.redo ≤ history_limit
    pub clean_undo : s.dirty ≡ false → s.undo ≡ []
    pub clean_redo : s.dirty ≡ false → s.redo ≡ []

  undo_change-IsBounded :
      (s : EditorState D)
      → IsBounded s
      → (p o : Option D) → last? s.undo ≡ p
      → s.document ≡ o
      → IsBounded (undo_change s)
  unfolding undo_change
  undo_change-IsBounded s v none o e f = rw (e, undo_change) v
  undo_change-IsBounded s v (some previous) none e f = ground arith
  undo_change-IsBounded s v (some previous) (some d) e f =
      let moved : undo_change s ≡ record s {
        document = some previous;
        undo = drop_last s.undo;
        redo = take history_limit (d ∷ s.redo);
        dirty = true;
      } =
        cc in
      rw moved (record {
        undo_bound = omega (arith, length-drop_last-le s.undo);
        redo_bound = omega (arith, length-take history_limit (d ∷ s.redo));
        clean_undo = λ h. cc;
        clean_redo = λ h. cc;
      })

  act-IsBounded : (a : Action D) (s : EditorState D) → IsBounded s → IsBounded (act a s)
  unfolding act
  act-IsBounded (sets document id) s v = ground arith
  act-IsBounded (updates change) s v = grind (arith, length-take_last-le)
  act-IsBounded (selects id) s v = ground arith
  act-IsBounded undoes s v = undo_change-IsBounded s v (last? s.undo) s.document refl refl
  act-IsBounded redoes s v = grind (arith, length-take_last-le)
  act-IsBounded (marks id) s v = ground arith

  initial-IsBounded : IsBounded (initial {D = D})
  unfolding initial
  initial-IsBounded = record {
    undo_bound = omega arith;
    redo_bound = omega arith;
    clean_undo = λ _. refl;
    clean_redo = λ _. refl;
  }

  run-IsBounded_from :
      (actions : List (Action D)) (s : EditorState D) → IsBounded s → IsBounded (run actions s)
  unfolding run
  run-IsBounded_from [] s v = v
  run-IsBounded_from (a ∷ rest) s v = run-IsBounded_from rest (act a s) (act-IsBounded a s v)

-- Whatever calls the store receives from its start, neither stack holds more than fifty documents,
-- and a store that is not dirty has nothing to undo and nothing to redo.
pub run-initial-IsBounded :
    {D : Type 0} (actions : List (Action D)) → IsBounded (run actions initial)
run-initial-IsBounded actions = run-IsBounded_from actions initial initial-IsBounded

-- The documents that undo and redo can reach, oldest first, and which of them is shown.
abbrev pub timeline : {D : Type 0} → EditorState D → Option (List D)
timeline s = elim s.document [ none ↦ none | some d ↦ some (s.undo ++ d ∷ s.redo) ]

-- A walk: `true` undoes, `false` redoes.
module _ {D : Type 0} where
  pub walk : List Bool → EditorState D → EditorState D
  walk [] s = s
  walk (true ∷ moves) s = walk moves (undo_change s)
  walk (false ∷ moves) s = walk moves (redo_change s)

module _ {D : Type 0} (s : EditorState D) where
  -- One undo or redo moves along the timeline, and the sum of the stacks' sizes stays.
  undo_change_step :
      (previous d : D)
      → last? s.undo ≡ some previous
      → s.document ≡ some d
      → length s.undo + length s.redo ≤ history_limit
      → (timeline (undo_change s) ≡ timeline s)
        × (length (undo_change s).undo + length (undo_change s).redo
            ≡ length s.undo + length s.redo)
  unfolding undo_change
  undo_change_step previous d e f h =
      let split = drop_last-last? s.undo e in
      let sizes = ap length split ∙ length-append (drop_last s.undo) (previous ∷ []) in
      let kept = take_all history_limit (d ∷ s.redo) (omega arith) in
      let joined = append_assoc (drop_last s.undo) (previous ∷ []) (d ∷ s.redo) in
      ground (arith, split, sizes, kept, joined)

  undo_change_lem :
      length s.undo + length s.redo ≤ history_limit
      → (timeline (undo_change s) ≡ timeline s)
        × (length (undo_change s).undo + length (undo_change s).redo
            ≡ length s.undo + length s.redo)
  unfolding undo_change
  undo_change_lem h = elim (Option-cases (last? s.undo)) [
    | inl e ↦ rw (e, undo_change) (refl, refl)
    | inr (previous, e) ↦ elim (Option-cases s.document) [
      | inl f ↦ ground arith
      | inr (d, f) ↦ undo_change_step previous d e f h
    ]
  ]

  redo_change_step :
      (next d : D) (later : List D)
      → s.redo ≡ next ∷ later
      → s.document ≡ some d
      → length s.undo + length s.redo ≤ history_limit
      → (timeline (redo_change s) ≡ timeline s)
        × (length (redo_change s).undo + length (redo_change s).redo
            ≡ length s.undo + length s.redo)
  unfolding redo_change
  redo_change_step next d later e f h =
      let size = length-append s.undo (d ∷ []) in
      let shorter : length s.undo + 1 ≤ history_limit = omega (arith, ap length e) in
      let kept = take_last_all history_limit (s.undo ++ d ∷ []) (omega (arith, size)) in
      let joined = append_assoc s.undo (d ∷ []) (next ∷ later) in ground (arith, size, kept, joined)

  redo_change_lem :
      length s.undo + length s.redo ≤ history_limit
      → (timeline (redo_change s) ≡ timeline s)
        × (length (redo_change s).undo + length (redo_change s).redo
            ≡ length s.undo + length s.redo)
  unfolding redo_change
  redo_change_lem h = go s.redo s.document refl refl
    where
      go :
          (r : List D) (o : Option D)
          → s.redo ≡ r
          → s.document ≡ o
          → (timeline (redo_change s) ≡ timeline s)
            × (length (redo_change s).undo + length (redo_change s).redo
                ≡ length s.undo + length s.redo)
      go [] o e f = ground arith
      go (next ∷ later) none e f = ground arith
      go (next ∷ later) (some d) e f = redo_change_step next d later e f h

-- If undo and redo together hold at most fifty documents, no sequence of undos and redos loses any: the
-- documents that can be reached, in their order, stay the same.
pub walk-timeline :
    {D : Type 0} (moves : List Bool) (s : EditorState D)
    → length s.undo + length s.redo ≤ history_limit
    → timeline (walk moves s) ≡ timeline s
unfolding walk
walk-timeline [] s h = refl
walk-timeline (true ∷ moves) s h =
    let (e, n) = undo_change_lem s h in walk-timeline moves (undo_change s) (omega arith) ∙ e
walk-timeline (false ∷ moves) s h =
    let (e, n) = redo_change_lem s h in walk-timeline moves (redo_change s) (omega arith) ∙ e

-- In a store with a document, an undo right after a change gives that document back, also where the
-- history is full, and a redo after it gives the changed one.
pub undo_change-update :
    {D : Type 0} (change : D → D) (s : EditorState D) {d : D}
    → s.document ≡ some d
    → ((undo_change (update change s)).document ≡ some d)
      × ((redo_change (undo_change (update change s))).document ≡ some (change d))
unfolding undo_change update redo_change
undo_change-update change s {d} h =
    let kept = take_last-append 49 s.undo d in
    let front = drop (length s.undo - 49) s.undo in ground (arith, kept, last?-append front d)
