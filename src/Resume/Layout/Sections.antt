-- ===== src/Resume/Layout/Sections.antt =====
-- How often each section stands in a document under `move` of ResumeBuilderPage.tsx.
use manifest_cv.Prelude.{
  ℕ, zero, suc, ◌≡◌, ◌≢◌, refl, ap, ◌∙◌, String, List, [], ◌∷◌, ◌++◌, Option, some, none, Bool,
  includes, get_elem?, set, string_eq, ◌==◌, count, count-append, arith, eq_iff, subst, inl, inr,
  Bool-cases,
}
use manifest_cv.Resume.Document.{
  ResumeColumn, Row, ResumeDocument, flat, row_sections, page_sections, placed,
}
use manifest_cv.Resume.Layout.Visit.{
  passed, changed, visit_document, All₂, PageRel, DocumentRel, visit_document-DocumentRel,
}
use manifest_cv.Resume.Layout.Columns.{
  find_index, remove_at, get_elem?-find_index, count-flat-set, count-swap, count-remove_at,
  get_elem?-set_ne,
}
use manifest_cv.Resume.Layout.Moves.{
  Direction, up, down, left, right, beside, with_sections, move_within, move_across, is_vertical,
  move_columns, move_row, move,
}

abbrev ids : ResumeColumn → List String
ids c = c.section_ids

-- Equal counts of one section, row by row, give equal counts in the document.
module _ (a : String) where
  abbrev pub SameCount : Row → Row → Type 0
  SameCount r s = count a (row_sections s) ≡ count a (row_sections r)

  All₂-count {ℓ} :
      {A : Type ℓ} (R : A → A → Type 0) (f : A → List String)
      → ((x y : A) → R x y → count a (f y) ≡ count a (f x))
      → (xs ys : List A) → All₂ R xs ys
      → count a (flat f ys) ≡ count a (flat f xs)
  All₂-count R f keep [] [] h = refl
  All₂-count R f keep [] (y ∷ ys) h = absurd h
  All₂-count R f keep (x ∷ xs) [] h = absurd h
  All₂-count R f keep (x ∷ xs) (y ∷ ys) (p, h) = omega (
    arith,
    count-append a (f x) (flat f xs),
    count-append a (f y) (flat f ys),
    keep x y p,
    All₂-count R f keep xs ys h,
  )

  pub DocumentRel-count :
      (d e : ResumeDocument) → DocumentRel SameCount d e → count a (placed e) ≡ count a (placed d)
  DocumentRel-count d e r =
      All₂-count (PageRel SameCount) page_sections
        (λ p q h. All₂-count SameCount row_sections (λ x y s. s) p.rows q.rows h.1) d.pages e.pages
        r.pages

beside_ne : (direction : Direction) (i : ℕ) {j : ℕ} → beside direction i ≡ some j → i ≢ j
beside_ne up zero h = cc
beside_ne up (suc i) h = ground arith
beside_ne down i h = ground arith
beside_ne left zero h = cc
beside_ne left (suc i) h = ground arith
beside_ne right i h = ground arith

module _ (a : String) (index : ℕ) (column : ResumeColumn) where
  count-move_within :
      (next : Option ℕ)
      → ((j : ℕ) → next ≡ some j → index ≢ j)
      → count a (ids (move_within next index column)) ≡ count a (ids column)
  unfolding move_within
  count-move_within none ne = refl
  count-move_within (some j) ne =
      ground (arith, count-swap a column.section_ids index j (ne j refl))

  count-move_across :
      (block_id : String) (next : Option ℕ) (column_index : ℕ) (columns : List ResumeColumn)
      → ((j : ℕ) → next ≡ some j → column_index ≢ j)
      → get_elem? columns column_index ≡ some column
      → get_elem? column.section_ids index ≡ some block_id
      → count a (flat ids (move_across block_id next column_index index column columns))
        ≡ count a (flat ids columns)
  unfolding move_across
  count-move_across block_id none column_index columns ne at here = refl
  count-move_across block_id (some j) column_index columns ne at here =
      go (get_elem? columns j) refl
    where
      shorter : ResumeColumn
      shorter = with_sections (remove_at column.section_ids index) column

      go :
          (t : Option ResumeColumn)
          → get_elem? columns j ≡ t
          → count a (
              flat ids (elim t [
                | none ↦ columns
                | some target ↦
                    set
                      (set columns column_index shorter)
                      j
                      (with_sections (target.section_ids ++ block_id ∷ []) target)
              ]))
            ≡ count a (flat ids columns)
      go none e = refl
      go (some target) e = omega (
        arith,
        count-flat-set ids a columns column_index shorter at,
        count-flat-set ids a (set columns column_index shorter) j
            (with_sections (target.section_ids ++ block_id ∷ []) target)
            (get_elem?-set_ne columns column_index j shorter (ne j refl) ∙ e),
        count-append a target.section_ids (block_id ∷ []),
        count-remove_at a column.section_ids index here,
      )

  count-move_columns :
      (block_id : String) (direction : Direction) (column_index : ℕ) (columns : List ResumeColumn)
      → get_elem? columns column_index ≡ some column
      → get_elem? column.section_ids index ≡ some block_id
      → count a (flat ids (move_columns block_id direction column_index index column columns))
        ≡ count a (flat ids columns)
  unfolding move_columns
  count-move_columns block_id direction column_index columns at here =
      elim (Bool-cases (is_vertical direction)) [
        | inl v ↦
            rw (v, move_columns)
              (omega (
                arith,
                count-flat-set ids a columns column_index
                    (move_within (beside direction index) index column) at,
                count-move_within (beside direction index) (λ j. beside_ne direction index),
              ))
        | inr v ↦
            rw (v, move_columns)
              (count-move_across block_id (beside direction column_index) column_index columns
                (λ j. beside_ne direction column_index) at here)
      ]

move_row-SameCount :
    (a block_id : String) (direction : Direction) (r r' : Row)
    → move_row block_id direction r ≡ changed r'
    → SameCount a r r'
unfolding move_row
move_row-SameCount a block_id direction r r' e = first (find_index has r.columns) refl e
  where
    has : ResumeColumn → Bool
    has column = includes column.section_ids block_id

    is_block : String → Bool
    is_block id = id == block_id

    third :
        (ci : ℕ) (c : ResumeColumn)
        → get_elem? r.columns ci ≡ some c
        → (o : Option ℕ) → find_index is_block c.section_ids ≡ o
        → (elim o [
          | none ↦ passed
          | some i ↦
              changed (record r { columns = move_columns block_id direction ci i c r.columns })
        ])
          ≡ changed r'
        → SameCount a r r'
    third ci c at none f h = cc
    third ci c at (some i) f h =
        let (x, here, named) = get_elem?-find_index is_block c.section_ids f in
        let is_it : x ≡ block_id = (eq_iff x block_id).0 named in
        let same : record r { columns = move_columns block_id direction ci i c r.columns } ≡ r' =
          cc in
        subst (SameCount a r) same
          (count-move_columns a i c block_id direction ci r.columns at (here ∙ ap some is_it))

    second :
        (ci : ℕ) (o : Option ResumeColumn)
        → get_elem? r.columns ci ≡ o
        → (elim o [
          | none ↦ passed
          | some c ↦ elim (find_index is_block c.section_ids) [
            | none ↦ passed
            | some i ↦
                changed (record r { columns = move_columns block_id direction ci i c r.columns })
          ]
        ])
          ≡ changed r'
        → SameCount a r r'
    second ci none f h = cc
    second ci (some c) f h = third ci c f (find_index is_block c.section_ids) refl h

    first :
        (o : Option ℕ)
        → find_index has r.columns ≡ o
        → (elim o [
          | none ↦ passed
          | some ci ↦ elim (get_elem? r.columns ci) [
            | none ↦ passed
            | some c ↦ elim (find_index is_block c.section_ids) [
              | none ↦ passed
              | some i ↦
                  changed (record r { columns = move_columns block_id direction ci i c r.columns })
            ]
          ]
        ])
          ≡ changed r'
        → SameCount a r r'
    first none f h = cc
    first (some ci) f h = second ci (get_elem? r.columns ci) refl h

-- Moving a section up, down, left or right places every section as often as before: none is lost or
-- doubled.
pub count-move :
    (section block_id : String) (direction : Direction) (d : ResumeDocument)
    → count section (placed (move block_id direction d)) ≡ count section (placed d)
unfolding move
count-move section block_id direction d =
    DocumentRel-count section d (visit_document (move_row block_id direction) d) (
      visit_document-DocumentRel (SameCount section) (λ r. refl) (move_row block_id direction)
        (move_row-SameCount section block_id direction) d)
