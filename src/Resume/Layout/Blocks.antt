-- ===== src/Resume/Layout/Blocks.antt =====
-- `addBlock`, `addRow`, `duplicateSelected`, `removeSelected` and `editBlock`. The identifiers that
-- the source makes of `Date.now()` and the label of a block type are arguments.
use Prim.Native.String
use manifest_cv.Prelude.{
  suc, String, List, [], ◌∷◌, ◌++◌, Option, some, none, Bool, true, not, map, filter, remove,
  if◌then◌else◌, string_eq, ◌==◌,
}
use manifest_cv.Prelude.Int.{ℤ}
use manifest_cv.Resume.Document.{
  BlockType, custom_list, divider, Content, text, items, ResumeBlock, ResumeColumn, Row, Page,
  ResumeDocument, insert,
}
use manifest_cv.Resume.Layout.Columns.{find_index, insert_at}
use manifest_cv.Resume.Layout.Moves.{with_sections}

-- Every column of every row of every page.
abbrev pub map_row : (ResumeColumn → ResumeColumn) → Row → Row
map_row f row = record row { columns = map f row.columns }

abbrev pub map_page : (ResumeColumn → ResumeColumn) → Page → Page
map_page f page = record page { rows = map (map_row f) page.rows }

unfoldable pub map_columns : (ResumeColumn → ResumeColumn) → List Page → List Page
map_columns f pages = map (map_page f) pages

abbrev pub empty_content : BlockType → List (String × Content)
empty_content custom_list = ("bullets", items ("" ∷ [])) ∷ []
empty_content divider = []
empty_content _ = ("text", text "") ∷ []

-- `pages[0].rows[0].columns[0].section_ids.push(id)`: where there is no such column the source
-- throws, which is `none`.
unfoldable pub push_first_column : String → List ResumeColumn → Option (List ResumeColumn)
push_first_column id [] = none
push_first_column id (column ∷ columns) =
    some (with_sections (column.section_ids ++ id ∷ []) column ∷ columns)

unfoldable pub push_first_row : String → List Row → Option (List Row)
unfolding push_first_column
push_first_row id [] = none
push_first_row id (row ∷ rows) = elim (push_first_column id row.columns) [
  | none ↦ none
  | some columns ↦ some (record row { columns = columns } ∷ rows)
]

unfoldable pub push_first : String → List Page → Option (List Page)
unfolding push_first_row
push_first id [] = none
push_first id (page ∷ pages) = elim (push_first_row id page.rows) [
  | none ↦ none
  | some rows ↦ some (record page { rows = rows } ∷ pages)
]

unfoldable pub add_block : String → String → BlockType → ResumeDocument → Option ResumeDocument
unfolding push_first
add_block stamp label type current =
    let block_id = String.◌++◌ "custom-" stamp in
    let block : ResumeBlock = record {
      id = block_id;
      type = type;
      title = label;
      visible = true;
      content = empty_content type;
      style = none;
      source_ids = none;
    } in
    elim (push_first block_id current.pages) [
      | none ↦ none
      | some pages ↦ some (record current { blocks = current.blocks ++ block ∷ []; pages = pages })
    ]

-- `pages[0].rows.push(…)`: a row with one empty column of width 1, `unit` in the fixed unit.
unfoldable pub add_row : ℤ → String → ResumeDocument → Option ResumeDocument
add_row unit stamp current =
    let column : ResumeColumn = record {
      id = String.◌++◌ "column-" stamp;
      width = unit;
      min_width = unit;
      max_width = unit;
      section_ids = [];
    } in
    let row : Row = record { id = String.◌++◌ "row-" stamp; columns = column ∷ [] } in
    elim current.pages [
      | [] ↦ none
      | page ∷ pages ↦
          some (record current { pages = record page { rows = page.rows ++ row ∷ [] } ∷ pages })
    ]

-- The copy goes behind the first occurrence of the block in each column that holds it.
unfoldable pub duplicate_in : String → String → ResumeColumn → ResumeColumn
unfolding find_index insert_at
duplicate_in id copy_id column = elim (find_index (λ x. x == id) column.section_ids) [
  | none ↦ column
  | some index ↦ with_sections (insert_at column.section_ids (suc index) copy_id) column
]

unfoldable pub duplicate : ResumeBlock → String → ResumeDocument → ResumeDocument
unfolding duplicate_in map_columns
duplicate selected stamp current =
    let copy_id = String.◌++◌ "copy-" stamp in
    let copy = record selected { id = copy_id; title = String.◌++◌ selected.title " copy" } in
    record current {
      blocks = current.blocks ++ copy ∷ [];
      pages = map_columns (duplicate_in selected.id copy_id) current.pages;
    }

unfoldable pub remove_block : String → ResumeDocument → ResumeDocument
unfolding map_columns
remove_block id current = record current {
  blocks = filter (λ block. not (block.id == id)) current.blocks;
  pages = map_columns (λ column. with_sections (remove id column.section_ids) column) current.pages;
}

-- The patches that the inspector applies.
pub data Patch : Type 0 where
  retitle : String → Patch
  show : Bool → Patch
  write : String → Content → Patch

unfoldable pub patch_block : Patch → ResumeBlock → ResumeBlock
unfolding insert
patch_block (retitle title) block = record block { title = title }
patch_block (show visible) block = record block { visible = visible }
patch_block (write key value) block = record block { content = insert key value block.content }

unfoldable pub edit_block : String → Patch → ResumeDocument → ResumeDocument
unfolding patch_block
edit_block id patch current = record current {
  blocks = map (λ block. if block.id == id then patch_block patch block else block) current.blocks;
}
