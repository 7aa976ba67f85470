-- ===== src/Resume/Layout/Edits.antt =====
-- The edits as one type: what ResumeBuilderPage.tsx can hand to `updateDocument`.
use manifest_cv.Prelude.{String, Option, some, none, Bool, length, leb, if◌then◌else◌}
use manifest_cv.Prelude.Int.{ℤ}
use manifest_cv.Resume.Document.{BlockType, ResumeBlock, Paper, ResumeDocument}
use manifest_cv.Resume.Layout.Moves.{Direction, move}
use manifest_cv.Resume.Layout.Transfer.{move_to_column}
use manifest_cv.Resume.Layout.Resize.{resize_column}
use manifest_cv.Resume.Layout.Blocks.{
  Patch, add_block, add_row, duplicate, remove_block, edit_block,
}

-- The inputs of the card "Style and page", but for the paper.
pub data StyleChange : Type 0 where
  font_family accent_color text_color : String → StyleChange
  spacing : ℤ → StyleChange

unfoldable pub restyle : StyleChange → ResumeDocument → ResumeDocument
restyle (font_family value) current = record current {
  style = record current.style { font_family = value };
}
restyle (accent_color value) current = record current {
  style = record current.style { accent_color = value };
}
restyle (text_color value) current = record current {
  style = record current.style { text_color = value };
}
restyle (spacing value) current = record current {
  style = record current.style { spacing = value };
}

abbrev pub change_paper : Paper → ResumeDocument → ResumeDocument
change_paper value current = record current { paper = value }

-- `removeSelected` keeps the last block.
unfoldable pub remove_selected : String → ResumeDocument → ResumeDocument
unfolding remove_block
remove_selected id current =
    if leb (length current.blocks) 1 then current else remove_block id current

pub data Edit : Type 0 where
  moves : String → Direction → Edit
  transfers : String → String → Edit
  resizes : String → ℤ → Edit
  adds : String → String → BlockType → Edit
  adds_row : ℤ → String → Edit
  duplicates : ResumeBlock → String → Edit
  removes : String → Edit
  patches : String → Patch → Edit
  restyles : StyleChange → Edit
  papers : Paper → Edit

-- An edit that throws leaves the document of the store.
abbrev pub or_unchanged : ResumeDocument → Option ResumeDocument → ResumeDocument
or_unchanged current none = current
or_unchanged current (some changed) = changed

unfoldable pub edit : Edit → ResumeDocument → ResumeDocument
unfolding move move_to_column resize_column add_block add_row duplicate remove_selected edit_block
    restyle
edit (moves id direction) current = move id direction current
edit (transfers id column_id) current = move_to_column id column_id current
edit (resizes column_id width) current = resize_column column_id width current
edit (adds stamp label type) current = or_unchanged current (add_block stamp label type current)
edit (adds_row unit stamp) current = or_unchanged current (add_row unit stamp current)
edit (duplicates block stamp) current = duplicate block stamp current
edit (removes id) current = remove_selected id current
edit (patches id patch) current = edit_block id patch current
edit (restyles change) current = restyle change current
edit (papers value) current = change_paper value current

-- `updateDocument`: an approved workspace is not edited.
unfoldable pub update_document : Bool → Edit → ResumeDocument → ResumeDocument
unfolding edit
update_document approved e current = if approved then current else edit e current
