-- ===== src/Resume/Layout/Resize.antt =====
-- `resizeColumn`: a column takes the width asked for, within its bounds, and the column beside it
-- gives or takes the difference.
use manifest_cv.Prelude.{
  ℕ, ◌+◌, ◌-◌, String, some, none, ◌||◌, length, get_elem?, set, nat_eqb, ltb, if◌then◌else◌,
  string_eq, ◌==◌,
}
use manifest_cv.Prelude.Int.{ℤ, ◌-ℤ◌, ltb_ℤ, max_ℤ, min_ℤ}
use manifest_cv.Resume.Document.{ResumeColumn, Row, ResumeDocument}
use manifest_cv.Resume.Layout.Visit.{Visit, passed, stopped, changed, visit_document}
use manifest_cv.Resume.Layout.Columns.{find_index}

abbrev pub with_width : ℤ → ResumeColumn → ResumeColumn
with_width width column = record column { width = width }

-- The neighbour is the column behind, and for the last column the one before.
abbrev pub neighbor_index : ℕ → ℕ → ℕ
neighbor_index index count = if nat_eqb index (count - 1) then index - 1 else index + 1

unfoldable pub clamp : ResumeColumn → ℤ → ℤ
unfolding max_ℤ min_ℤ
clamp column width = max_ℤ column.min_width (min_ℤ column.max_width width)

unfoldable pub resize_pair : Row → ℕ → ResumeColumn → ℕ → ResumeColumn → ℤ → Visit Row
unfolding clamp
resize_pair row index column beside neighbor width =
    let next_width = clamp column width in
    let neighbor_width = neighbor.width -ℤ (next_width -ℤ column.width) in
    if ltb_ℤ neighbor_width neighbor.min_width || ltb_ℤ neighbor.max_width neighbor_width
    then stopped
    else changed (record row {
      columns =
          set (set row.columns index (with_width next_width column)) beside
            (with_width neighbor_width neighbor);
    })

-- The loop's body. Both indices lie in the row, so the inner `none` cases are never reached.
unfoldable pub resize_row : String → ℤ → Row → Visit Row
unfolding resize_pair find_index
resize_row column_id width row = elim (find_index (λ column. column.id == column_id) row.columns) [
  | none ↦ passed
  | some index ↦
      if ltb (length row.columns) 2 then passed else (elim (get_elem? row.columns index) [
        | none ↦ passed
        | some column ↦ elim (get_elem? row.columns (neighbor_index index (length row.columns))) [
          | none ↦ passed
          | some neighbor ↦
              resize_pair row index column (neighbor_index index (length row.columns)) neighbor
                width
        ]
      ])
]

unfoldable pub resize_column : String → ℤ → ResumeDocument → ResumeDocument
unfolding resize_row visit_document
resize_column column_id width current = visit_document (resize_row column_id width) current
