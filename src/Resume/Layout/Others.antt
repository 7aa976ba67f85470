-- ===== src/Resume/Layout/Others.antt =====
-- What each edit does to the counts of the sections that it does not name.
use manifest_cv.Prelude.{
  ℕ, suc, ◌+◌, ◌≡◌, ◌≢◌, inl, inr, refl, sym, ◌∙◌, String, List, [], ◌∷◌, ◌++◌, Option, some, none,
  map, string_eq, ◌==◌, count, count-append, count-remove, arith, eqb_ne, Bool-cases,
}
use manifest_cv.Resume.Document.{
  ResumeColumn, Row, Page, ResumeDocument, flat, row_sections, page_sections, placed,
}
use manifest_cv.Resume.Layout.Columns.{find_index, insert_at, count-insert_at}
use manifest_cv.Resume.Layout.Moves.{with_sections}
use manifest_cv.Resume.Layout.Blocks.{
  map_row, map_page, map_columns, push_first_column, push_first_row, push_first, duplicate_in,
}
use manifest_cv.Resume.Layout.Transfer.{
  Slot, same_slot, map_from, slot_row, slot_page, map_slots, source_slot, target_slot,
  transfer_column, transfer_pages, move_to_column,
}

-- Equal counts column by column give equal counts in the pages.
module _ (a : String) where
  count-map {ℓ} :
      {A : Type ℓ} (f : A → List String) (g : A → A)
      → ((x : A) → count a (f (g x)) ≡ count a (f x))
      → (xs : List A) → count a (flat f (map g xs)) ≡ count a (flat f xs)
  count-map f g keep [] = refl
  count-map f g keep (x ∷ xs) = omega (
    arith,
    count-append a (f x) (flat f xs),
    count-append a (f (g x)) (flat f (map g xs)),
    keep x,
    count-map f g keep xs,
  )

  count-map_zero {ℓ} :
      {A : Type ℓ} (f : A → List String) (g : A → A)
      → ((x : A) → count a (f (g x)) ≡ 0)
      → (xs : List A) → count a (flat f (map g xs)) ≡ 0
  unfolding count
  count-map_zero f g keep [] = refl
  count-map_zero f g keep (x ∷ xs) =
      omega
        (arith, count-append a (f (g x)) (flat f (map g xs)), keep x, count-map_zero f g keep xs)

  pub count-map_columns :
      (g : ResumeColumn → ResumeColumn)
      → ((c : ResumeColumn) → count a (g c).section_ids ≡ count a c.section_ids)
      → (pages : List Page)
      → count a (flat page_sections (map_columns g pages)) ≡ count a (flat page_sections pages)
  unfolding map_columns
  count-map_columns g keep = count-map page_sections (map_page g) (λ p.
      count-map row_sections (map_row g) (λ r. count-map (λ c. c.section_ids) g keep r.columns)
        p.rows)

  pub count-map_columns_zero :
      (g : ResumeColumn → ResumeColumn)
      → ((c : ResumeColumn) → count a (g c).section_ids ≡ 0)
      → (pages : List Page) → count a (flat page_sections (map_columns g pages)) ≡ 0
  unfolding map_columns
  count-map_columns_zero g keep = count-map_zero page_sections (map_page g) (λ p.
      count-map_zero row_sections (map_row g)
        (λ r. count-map_zero (λ c. c.section_ids) g keep r.columns) p.rows)

  count-map_from {ℓ} :
      {A : Type ℓ} (f : A → List String) (g : ℕ → A → A)
      → ((i : ℕ) (x : A) → count a (f (g i x)) ≡ count a (f x))
      → (i : ℕ) (xs : List A) → count a (flat f (map_from g i xs)) ≡ count a (flat f xs)
  unfolding map_from
  count-map_from f g keep i [] = refl
  count-map_from f g keep i (x ∷ xs) = omega (
    arith,
    count-append a (f x) (flat f xs),
    count-append a (f (g i x)) (flat f (map_from g (suc i) xs)),
    keep i x,
    count-map_from f g keep (suc i) xs,
  )

  pub count-map_slots :
      (g : Slot → ResumeColumn → ResumeColumn)
      → ((s : Slot) (c : ResumeColumn) → count a (g s c).section_ids ≡ count a c.section_ids)
      → (pages : List Page)
      → count a (flat page_sections (map_slots g pages)) ≡ count a (flat page_sections pages)
  unfolding map_slots
  count-map_slots g keep =
      count-map_from page_sections (slot_page g)
        (λ i p.
          count-map_from row_sections (slot_row g i)
            (λ j r. count-map_from (λ c. c.section_ids) _ (λ k c. keep _ c) 0 r.columns) 0 p.rows)
        0

-- A section other than the one that an edit names stays as often as it stood.
pub count-singleton_ne : (a b : String) → b ≢ a → count a (b ∷ []) ≡ 0
unfolding count
count-singleton_ne a b ne = rw (eqb_ne b a ne) refl

-- Moving a section into a column places every other section as often as before.
pub count-move_to_column :
    (a block_id column_id : String) (d : ResumeDocument)
    → block_id ≢ a
    → count a (placed (move_to_column block_id column_id d)) ≡ count a (placed d)
unfolding move_to_column
count-move_to_column a block_id column_id d ne =
    go (source_slot block_id d.pages) (target_slot column_id d.pages)
  where
    column :
        (s t u : Slot) (c : ResumeColumn)
        → count a (transfer_column block_id s t u c).section_ids ≡ count a c.section_ids
    column s t u c = elim (Bool-cases (same_slot u s)) [
      | inl p ↦
          rw (p, transfer_column)
            (count-remove a block_id c.section_ids ∙ rw (eqb_ne a block_id (λ e. ne (sym e))) refl)
      | inr p ↦ elim (Bool-cases (same_slot u t)) [
        | inl q ↦
            rw (p, transfer_column)
              (rw (q, transfer_column)
                (omega (
                  arith,
                  count-append a c.section_ids (block_id ∷ []),
                  count-singleton_ne a block_id ne,
                )))
        | inr q ↦ rw (p, transfer_column) (rw (q, transfer_column) refl)
      ]
    ]

    go :
        (s t : Option Slot)
        → count a (flat page_sections (transfer_pages block_id s t d.pages)) ≡ count a (placed d)
    go none t = refl
    go (some s) none = refl
    go (some s) (some t) = elim (Bool-cases (same_slot s t)) [
      | inl p ↦ rw (p, transfer_pages) refl
      | inr p ↦
          rw (p, transfer_pages)
            (count-map_slots a (transfer_column block_id s t) (column s t) d.pages)
    ]

count-push_first_column :
    (a id : String) (columns columns' : List ResumeColumn)
    → push_first_column id columns ≡ some columns'
    → count a (flat (λ c. c.section_ids) columns')
      ≡ count a (flat (λ c. c.section_ids) columns) + count a (id ∷ [])
unfolding push_first_column
count-push_first_column a id [] columns' e = cc
count-push_first_column a id (c ∷ columns) columns' e =
    let same : with_sections (c.section_ids ++ id ∷ []) c ∷ columns ≡ columns' = cc in
    rw (← same) (
      omega (
        arith,
        count-append a (c.section_ids ++ id ∷ []) (flat (λ c. c.section_ids) columns),
        count-append a c.section_ids (flat (λ c. c.section_ids) columns),
        count-append a c.section_ids (id ∷ []),
      ))

count-push_first_row :
    (a id : String) (rows rows' : List Row)
    → push_first_row id rows ≡ some rows'
    → count a (flat row_sections rows') ≡ count a (flat row_sections rows) + count a (id ∷ [])
unfolding push_first_row
count-push_first_row a id [] rows' e = cc
count-push_first_row a id (r ∷ rows) rows' e = go (push_first_column id r.columns) refl e
  where
    go :
        (o : Option (List ResumeColumn))
        → push_first_column id r.columns ≡ o
        → (elim o [ none ↦ none | some columns ↦ some (record r { columns = columns } ∷ rows) ])
          ≡ some rows'
        → count a (flat row_sections rows')
          ≡ count a (flat row_sections (r ∷ rows)) + count a (id ∷ [])
    go none f h = cc
    go (some columns) f h =
        let same : record r { columns = columns } ∷ rows ≡ rows' = cc in
        rw (← same) (
          omega (
            arith,
            count-append a (flat (λ c. c.section_ids) columns) (flat row_sections rows),
            count-append a (row_sections r) (flat row_sections rows),
            count-push_first_column a id r.columns columns f,
          ))

-- One new occurrence of the pushed section, and nothing else.
pub count-push_first :
    (a id : String) (pages pages' : List Page)
    → push_first id pages ≡ some pages'
    → count a (flat page_sections pages') ≡ count a (flat page_sections pages) + count a (id ∷ [])
unfolding push_first
count-push_first a id [] pages' e = cc
count-push_first a id (p ∷ pages) pages' e = go (push_first_row id p.rows) refl e
  where
    go :
        (o : Option (List Row))
        → push_first_row id p.rows ≡ o
        → (elim o [ none ↦ none | some rows ↦ some (record p { rows = rows } ∷ pages) ])
          ≡ some pages'
        → count a (flat page_sections pages')
          ≡ count a (flat page_sections (p ∷ pages)) + count a (id ∷ [])
    go none f h = cc
    go (some rows) f h =
        let same : record p { rows = rows } ∷ pages ≡ pages' = cc in
        rw (← same) (
          omega (
            arith,
            count-append a (flat row_sections rows) (flat page_sections pages),
            count-append a (page_sections p) (flat page_sections pages),
            count-push_first_row a id p.rows rows f,
          ))

pub count-duplicate_in :
    (a id copy_id : String) (c : ResumeColumn)
    → copy_id ≢ a
    → count a (duplicate_in id copy_id c).section_ids ≡ count a c.section_ids
unfolding duplicate_in
count-duplicate_in a id copy_id c ne = go (find_index (λ x. x == id) c.section_ids)
  where
    go :
        (o : Option ℕ)
        → count a
            (elim o as (λ x. ResumeColumn) [
              | none ↦ c
              | some index ↦ with_sections (insert_at c.section_ids (suc index) copy_id) c
            ]).section_ids
          ≡ count a c.section_ids
    go none = refl
    go (some index) = omega (
      arith,
      count-insert_at a c.section_ids (suc index) copy_id,
      count-singleton_ne a copy_id ne,
    )
