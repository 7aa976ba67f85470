-- ===== src/Resume/Layout/Widths.antt =====
-- The widths of rows and columns under `resizeColumn` of ResumeBuilderPage.tsx.
use manifest_cv.Prelude.{
  ℕ, zero, suc, ◌+◌, ◌≡◌, ◌≢◌, refl, ap, ◌∙◌, String, List, [], ◌∷◌, ◌++◌, Option, some, none, Bool,
  true, false, ◌||◌, get_elem?, set, length, ltb, arith, Bool-cases, if◌then◌else◌, subst, All, inl,
  inr, string_eq, ◌==◌, count,
}
use manifest_cv.Prelude.Int.{ℤ, pos, ◌+ℤ◌, ◌-ℤ◌, ◌≤ℤ◌, pos_part, neg_part, ltb_ℤ, int_laws}
use manifest_cv.Resume.Document.{ResumeColumn, Row, ResumeDocument, flat, row_sections, placed}
use manifest_cv.Resume.Layout.Visit.{
  passed, stopped, changed, DocumentRel, PageRel, All₂, visit_document-DocumentRel,
}
use manifest_cv.Resume.Layout.Columns.{find_index, get_elem?-set_ne}
use manifest_cv.Resume.Layout.Sections.{DocumentRel-count}
use manifest_cv.Resume.Layout.Resize.{
  with_width, neighbor_index, clamp, resize_pair, resize_row, resize_column,
}

abbrev pub IsInRange : ResumeColumn → Type 0
IsInRange c = (c.min_width ≤ℤ c.width) × (c.width ≤ℤ c.max_width)

abbrev pub total_width : List ResumeColumn → ℤ
total_width [] = pos 0
total_width (c ∷ cs) = c.width +ℤ total_width cs

-- What a resize of a row keeps.
pub record Resized (r s : Row) : Type 0 where
  pub id : s.id ≡ r.id
  pub sections : row_sections s ≡ row_sections r
  pub total : total_width s.columns ≡ total_width r.columns
  pub in_range : All IsInRange r.columns → All IsInRange s.columns

sections-set :
    (cs : List ResumeColumn) (i : ℕ) (c : ResumeColumn) (w : ℤ)
    → get_elem? cs i ≡ some c
    → flat (λ x. x.section_ids) (set cs i (with_width w c)) ≡ flat (λ x. x.section_ids) cs
sections-set [] i c w h = refl
sections-set (x ∷ cs) zero c w h = let same : x ≡ c = cc in rw same refl
sections-set (x ∷ cs) (suc i) c w h = ap (x.section_ids ++◌) (sections-set cs i c w h)

-- `a + b` is `c + d`, by the parts of the four.
abbrev SameSum : ℤ → ℤ → ℤ → ℤ → Type 0
SameSum a b c d =
    pos_part a + pos_part b + neg_part c + neg_part d
    ≡ pos_part c + pos_part d + neg_part a + neg_part b

total_width-set :
    (cs : List ResumeColumn) (i : ℕ) (c : ResumeColumn) (w : ℤ)
    → get_elem? cs i ≡ some c
    → SameSum (total_width (set cs i (with_width w c))) c.width (total_width cs) w
total_width-set [] i c w h = cc
total_width-set (x ∷ cs) zero c w h = let same : x.width ≡ c.width = cc in rw same (omega int_laws)
total_width-set (x ∷ cs) (suc i) c w h =
    let rest = total_width-set cs i c w h in omega (int_laws, rest)

All-set :
    (cs : List ResumeColumn) (i : ℕ) (c : ResumeColumn)
    → All IsInRange cs
    → IsInRange c
    → All IsInRange (set cs i c)
All-set [] i c h k = tt
All-set (x ∷ cs) zero c (p, h) k = (k, h)
All-set (x ∷ cs) (suc i) c (p, h) k = (p, All-set cs i c h k)

All-get :
    (cs : List ResumeColumn) (i : ℕ) {c : ResumeColumn}
    → All IsInRange cs
    → get_elem? cs i ≡ some c
    → IsInRange c
All-get [] i h e = cc
All-get (x ∷ cs) zero {c} (p, h) e = let same : x ≡ c = cc in subst IsInRange same p
All-get (x ∷ cs) (suc i) (p, h) e = All-get cs i h e

clamp_bounds : (c : ResumeColumn) (w : ℤ) → IsInRange c → IsInRange (with_width (clamp c w) c)
unfolding clamp
clamp_bounds c w h = ground arith

neighbor_ne : (i n : ℕ) → ltb n 2 ≡ false → i ≢ neighbor_index i n
neighbor_ne i n h = ground arith

module _ (r : Row) (i j : ℕ) (c n : ResumeColumn) (w : ℤ) where
  resize_pair-Resized :
      (r' : Row)
      → i ≢ j
      → get_elem? r.columns i ≡ some c
      → get_elem? r.columns j ≡ some n
      → resize_pair r i c j n w ≡ changed r'
      → Resized r r'
  unfolding resize_pair
  resize_pair-Resized r' ne at beside e =
      go (ltb_ℤ nw n.min_width) (ltb_ℤ n.max_width nw) refl refl e
    where
      cw : ℤ
      cw = clamp c w

      nw : ℤ
      nw = n.width -ℤ (cw -ℤ c.width)

      first : List ResumeColumn
      first = set r.columns i (with_width cw c)

      beside' : get_elem? first j ≡ some n
      beside' = get_elem?-set_ne r.columns i j (with_width cw c) ne ∙ beside

      go :
          (p q : Bool)
          → ltb_ℤ nw n.min_width ≡ p
          → ltb_ℤ n.max_width nw ≡ q
          → (if p || q
              then stopped
              else changed (record r { columns = set first j (with_width nw n) }))
            ≡ changed r'
          → Resized r r'
      go true q hp hq h = cc
      go false true hp hq h = cc
      go false false hp hq h =
          let same : record r { columns = set first j (with_width nw n) } ≡ r' = cc in
          subst (Resized r) same (record {
            id = refl;
            sections = sections-set first j n nw beside' ∙ sections-set r.columns i c cw at;
            total =
                let one = total_width-set r.columns i c cw at in
                let two = total_width-set first j n nw beside' in omega (int_laws, one, two);
            in_range = λ v.
                All-set first j (with_width nw n)
                  (All-set r.columns i (with_width cw c) v
                    (clamp_bounds c w (All-get r.columns i v at)))
                  (ground arith);
          })

resize_row-Resized :
    (column_id : String) (w : ℤ) (r r' : Row) → resize_row column_id w r ≡ changed r' → Resized r r'
unfolding resize_row
resize_row-Resized column_id w r r' e = first (find_index named r.columns) refl e
  where
    named : ResumeColumn → Bool
    named column = column.id == column_id

    third :
        (i : ℕ) (c : ResumeColumn)
        → ltb (length r.columns) 2 ≡ false
        → get_elem? r.columns i ≡ some c
        → (o : Option ResumeColumn) → get_elem? r.columns (neighbor_index i (length r.columns)) ≡ o
        → (elim o [
          | none ↦ passed
          | some n ↦ resize_pair r i c (neighbor_index i (length r.columns)) n w
        ])
          ≡ changed r'
        → Resized r r'
    third i c wide at none f h = cc
    third i c wide at (some n) f h =
        resize_pair-Resized r i _ c n w r' (neighbor_ne i (length r.columns) wide) at f h

    second :
        (i : ℕ)
        → ltb (length r.columns) 2 ≡ false
        → (o : Option ResumeColumn) → get_elem? r.columns i ≡ o
        → (elim o [
          | none ↦ passed
          | some c ↦ elim (get_elem? r.columns (neighbor_index i (length r.columns))) [
            | none ↦ passed
            | some n ↦ resize_pair r i c (neighbor_index i (length r.columns)) n w
          ]
        ])
          ≡ changed r'
        → Resized r r'
    second i wide none f h = cc
    second i wide (some c) f h =
        third i c wide f (get_elem? r.columns (neighbor_index i (length r.columns))) refl h

    first :
        (o : Option ℕ)
        → find_index named r.columns ≡ o
        → (elim o [
          | none ↦ passed
          | some i ↦ if ltb (length r.columns) 2 then passed else (elim (get_elem? r.columns i) [
            | none ↦ passed
            | some c ↦ elim (get_elem? r.columns (neighbor_index i (length r.columns))) [
              | none ↦ passed
              | some n ↦ resize_pair r i c (neighbor_index i (length r.columns)) n w
            ]
          ])
        ])
          ≡ changed r'
        → Resized r r'
    first none f h = cc
    first (some i) f h = elim (Bool-cases (ltb (length r.columns) 2)) [
      | inl narrow ↦ cc (rw narrow at h)
      | inr wide ↦ second i wide (get_elem? r.columns i) refl (rw wide at h)
    ]

Resized-refl : (r : Row) → Resized r r
Resized-refl r = record { id = refl; sections = refl; total = refl; in_range = λ h. h }

pub resize_column-Resized :
    (column_id : String) (w : ℤ) (d : ResumeDocument)
    → DocumentRel Resized d (resize_column column_id w d)
unfolding resize_column
resize_column-Resized column_id w d =
    visit_document-DocumentRel Resized Resized-refl (resize_row column_id w)
      (resize_row-Resized column_id w) d

-- The row's id and what it holds stay, and so does the sum of its columns' widths.
pub record SameWidths (r s : Row) : Type 0 where
  pub id : s.id ≡ r.id
  pub sections : row_sections s ≡ row_sections r
  pub total : total_width s.columns ≡ total_width r.columns

-- Resizing a column, to whatever width, keeps every page and row with its sections in their order,
-- the sum of the widths in each row, the blocks and the style.
pub resize_column-SameWidths :
    (column_id : String) (w : ℤ) (d : ResumeDocument)
    → DocumentRel SameWidths d (resize_column column_id w d)
unfolding resize_column
resize_column-SameWidths column_id w d =
    visit_document-DocumentRel SameWidths (λ r. record { id = refl; sections = refl; total = refl })
      (resize_row column_id w)
      (λ r s e.
        let same = resize_row-Resized column_id w r s e in
        record { id = same.id; sections = same.sections; total = same.total })
      d

abbrev pub AllInRange : ResumeDocument → Type 0
AllInRange d = All (λ p. All (λ r. All IsInRange r.columns) p.rows) d.pages

All-All₂ {ℓ} :
    {A : Type ℓ} (R : A → A → Type 0) (P : A → Type 0)
    → ((x y : A) → R x y → P x → P y)
    → (xs ys : List A) → All₂ R xs ys
    → All P xs
    → All P ys
All-All₂ R P f [] [] r h = tt
All-All₂ R P f (x ∷ xs) (y ∷ ys) (r, rs) (p, h) = (f x y r p, All-All₂ R P f xs ys rs h)
All-All₂ R P f [] (y ∷ ys) r h = absurd r
All-All₂ R P f (x ∷ xs) [] r h = absurd r

-- If every column's width is between its bounds, it still is after a resize to whatever width.
pub resize_column-AllInRange :
    (column_id : String) (w : ℤ) (d : ResumeDocument)
    → AllInRange d
    → AllInRange (resize_column column_id w d)
resize_column-AllInRange column_id w d h =
    All-All₂ (PageRel Resized) (λ p. All (λ r. All IsInRange r.columns) p.rows)
      (λ p q rel.
        All-All₂ Resized (λ r. All IsInRange r.columns) (λ r s same. same.in_range) p.rows q.rows
          rel.1)
      d.pages (resize_column column_id w d).pages (resize_column-Resized column_id w d).pages h

pub count-resize_column :
    (a column_id : String) (w : ℤ) (d : ResumeDocument)
    → count a (placed (resize_column column_id w d)) ≡ count a (placed d)
unfolding resize_column
count-resize_column a column_id w d = DocumentRel-count a d (resize_column column_id w d) (
    visit_document-DocumentRel (λ r s. count a (row_sections s) ≡ count a (row_sections r))
      (λ r. refl) (resize_row column_id w)
      (λ r s e. ap (count a) (resize_row-Resized column_id w r s e).sections) d)
