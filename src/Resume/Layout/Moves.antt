-- ===== src/Resume/Layout/Moves.antt =====
-- `move`: one section up or down its column, or to the column beside it.
use manifest_cv.Prelude.{
  ℕ, zero, suc, ◌+◌, String, List, [], ◌∷◌, ◌++◌, Option, some, none, Bool, includes, get_elem?,
  set, length, ltb, if◌then◌else◌, string_eq, ◌==◌, true, false,
}
use manifest_cv.Resume.Document.{ResumeColumn, Row, ResumeDocument}
use manifest_cv.Resume.Layout.Visit.{Visit, passed, changed, visit_document}
use manifest_cv.Resume.Layout.Columns.{find_index, remove_at, swap}

pub data Direction : Type 0 where
  up down left right : Direction

-- `index - 1` and `index + 1`; `none` is -1.
abbrev pub before : ℕ → Option ℕ
before zero = none
before (suc i) = some i

abbrev pub beside : Direction → ℕ → Option ℕ
beside up i = before i
beside down i = some (i + 1)
beside left i = before i
beside right i = some (i + 1)

abbrev pub with_sections : List String → ResumeColumn → ResumeColumn
with_sections ids column = record column { section_ids = ids }

-- The swap inside the column; a neighbour outside the column leaves it as it is.
unfoldable pub move_within : Option ℕ → ℕ → ResumeColumn → ResumeColumn
unfolding swap
move_within none index column = column
move_within (some next) index column =
    if ltb next (length column.section_ids)
    then with_sections (swap column.section_ids index next) column
    else column

-- The transfer to a neighbouring column; where there is none, the row stays as it is.
unfoldable pub move_across :
    String → Option ℕ → ℕ → ℕ → ResumeColumn → List ResumeColumn → List ResumeColumn
unfolding remove_at
move_across block_id none column_index index column columns = columns
move_across block_id (some beside_index) column_index index column columns =
    elim (get_elem? columns beside_index) [
      | none ↦ columns
      | some target ↦
          set (set columns column_index (with_sections (remove_at column.section_ids index) column))
            beside_index (with_sections (target.section_ids ++ block_id ∷ []) target)
    ]

abbrev pub is_vertical : Direction → Bool
is_vertical up = true
is_vertical down = true
is_vertical left = false
is_vertical right = false

unfoldable pub move_columns :
    String → Direction → ℕ → ℕ → ResumeColumn → List ResumeColumn → List ResumeColumn
unfolding move_within move_across
move_columns block_id direction column_index index column columns =
    if is_vertical direction
    then set columns column_index (move_within (beside direction index) index column)
    else move_across block_id (beside direction column_index) column_index index column columns

-- The loop's body. The column that `findIndex` gives exists and holds the block, so the two inner
-- `none` cases are never reached.
unfoldable pub move_row : String → Direction → Row → Visit Row
unfolding find_index move_columns
move_row block_id direction row =
    elim (find_index (λ column. includes column.section_ids block_id) row.columns) [
      | none ↦ passed
      | some column_index ↦ elim (get_elem? row.columns column_index) [
        | none ↦ passed
        | some column ↦ elim (find_index (λ id. id == block_id) column.section_ids) [
          | none ↦ passed
          | some index ↦ changed (record row {
            columns = move_columns block_id direction column_index index column row.columns;
          })
        ]
      ]
    ]

unfoldable pub move : String → Direction → ResumeDocument → ResumeDocument
unfolding move_row visit_document
move block_id direction current = visit_document (move_row block_id direction) current
