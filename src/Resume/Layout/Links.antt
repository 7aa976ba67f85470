-- ===== src/Resume/Layout/Links.antt =====
-- The edits of ResumeBuilderPage.tsx on documents whose placed sections are all among their blocks.
use Prim.Native.String
use mathlib.Core.Bool.{false≢true}
use manifest_cv.Prelude.{
  Bool, leb, length, ◌≡◌, inl, inr, refl, sym, ap, ◌∙◌, String, List, [], ◌∷◌, ◌++◌, Option, some,
  none, true, false, not, map, filter, includes, remove, string_eq, ◌==◌, count, count-append,
  count-remove, arith, eq_iff, Bool-cases, if◌then◌else◌,
}
use manifest_cv.Prelude.Int.{ℤ}
use manifest_cv.Resume.Document.{
  BlockType, ResumeBlock, ResumeColumn, Row, Page, ResumeDocument, flat, row_sections,
  page_sections, placed,
}
use manifest_cv.Resume.Layout.Moves.{with_sections, move}
use manifest_cv.Resume.Layout.Resize.{resize_column}
use manifest_cv.Resume.Layout.Sections.{count-move}
use manifest_cv.Resume.Layout.Widths.{resize_column-Resized, count-resize_column}
use manifest_cv.Resume.Layout.Blocks.{
  empty_content, retitle, show, write, push_first, add_block, add_row, duplicate, duplicate_in,
  remove_block, patch_block, Patch, edit_block,
}
use manifest_cv.Resume.Layout.Edits.{
  StyleChange, font_family, accent_color, text_color, spacing, restyle, remove_selected, restyles,
  papers, update_document, Edit, moves, transfers, resizes, adds, adds_row, duplicates, removes,
  patches, edit, or_unchanged,
}
use manifest_cv.Resume.Layout.Others.{
  count-map_columns, count-map_columns_zero, count-push_first, count-duplicate_in,
  count-singleton_ne,
}
use manifest_cv.Resume.Layout.Linked.{
  lacks_of_count, IsLinked, includes_of_count, IsLinked-of, move-blocks, IsLinked-of_same,
  move_to_column-IsLinked, includes_old, includes_new,
}

add_block-IsLinked :
    (stamp label : String) (type : BlockType) (d : ResumeDocument)
    → IsLinked d
    → IsLinked (or_unchanged d (add_block stamp label type d))
unfolding add_block
add_block-IsLinked stamp label type d v = go (push_first block_id d.pages) refl
  where
    block_id : String
    block_id = String.◌++◌ "custom-" stamp

    block : ResumeBlock
    block = record {
      id = block_id;
      type = type;
      title = label;
      visible = true;
      content = empty_content type;
      style = none;
      source_ids = none;
    }

    go :
        (o : Option (List Page))
        → push_first block_id d.pages ≡ o
        → IsLinked (
            or_unchanged d (elim o [
              | none ↦ none
              | some pages ↦ some (record d { blocks = d.blocks ++ block ∷ []; pages = pages })
            ]))
    go none e = v
    go (some pages) e =
        IsLinked-of block_id d (record d { blocks = d.blocks ++ block ∷ []; pages = pages }) v
          (includes_old d.blocks block)
          (λ a ne.
            omega (
              arith,
              count-push_first a block_id d.pages pages e,
              count-singleton_ne a block_id ne,
            ))
          (λ _. includes_new d.blocks block)

count-flat_snoc :
    (a : String) (rows : List Row) (row : Row)
    → row_sections row ≡ []
    → count a (flat row_sections (rows ++ row ∷ [])) ≡ count a (flat row_sections rows)
count-flat_snoc a [] row e = rw e refl
count-flat_snoc a (r ∷ rows) row e = omega (
  arith,
  count-append a (row_sections r) (flat row_sections (rows ++ row ∷ [])),
  count-append a (row_sections r) (flat row_sections rows),
  count-flat_snoc a rows row e,
)

add_row-IsLinked :
    (unit : ℤ) (stamp : String) (d : ResumeDocument)
    → IsLinked d
    → IsLinked (or_unchanged d (add_row unit stamp d))
unfolding add_row
add_row-IsLinked unit stamp d v = go d.pages refl
  where
    row : Row
    row = record {
      id = String.◌++◌ "row-" stamp;
      columns =
          record {
            id = String.◌++◌ "column-" stamp;
            width = unit;
            min_width = unit;
            max_width = unit;
            section_ids = [];
          }
          ∷ [];
    }

    go :
        (pages : List Page)
        → d.pages ≡ pages
        → IsLinked (
            or_unchanged d (elim pages [
              | [] ↦ none
              | p ∷ rest ↦ some (record d { pages = record p { rows = p.rows ++ row ∷ [] } ∷ rest })
            ]))
    go [] e = v
    go (p ∷ rest) e =
        IsLinked-of_same d (record d { pages = record p { rows = p.rows ++ row ∷ [] } ∷ rest }) v
          refl
          (λ a. omega (
            arith,
            count-append a (flat row_sections (p.rows ++ row ∷ [])) (flat page_sections rest),
            count-append a (page_sections p) (flat page_sections rest),
            count-flat_snoc a p.rows row refl,
            ap (λ l. count a (flat page_sections l)) e,
          ))

duplicate-IsLinked :
    (b : ResumeBlock) (stamp : String) (d : ResumeDocument)
    → IsLinked d
    → IsLinked (duplicate b stamp d)
unfolding duplicate
duplicate-IsLinked b stamp d v =
    IsLinked-of copy_id d (duplicate b stamp d) v (includes_old d.blocks copy)
      (λ a ne.
        count-map_columns a (duplicate_in b.id copy_id)
          (λ c. count-duplicate_in a b.id copy_id c ne) d.pages)
      (λ _. includes_new d.blocks copy)
  where
    copy_id : String
    copy_id = String.◌++◌ "copy-" stamp

    copy : ResumeBlock
    copy = record b { id = copy_id; title = String.◌++◌ b.title " copy" }

includes_others :
    (id : String) (blocks : List ResumeBlock) (a : String)
    → (a == id) ≡ false
    → includes (map (λ b. b.id) blocks) a ≡ true
    → includes (map (λ b. b.id) (filter (λ b. not (b.id == id)) blocks)) a ≡ true
unfolding includes
includes_others id [] a ne h = cc
includes_others id (b ∷ blocks) a ne h =
    ground (arith, includes_others id blocks a ne, eq_iff b.id a, eq_iff b.id id, eq_iff a id)

remove_block-IsLinked :
    (id : String) (d : ResumeDocument) → IsLinked d → IsLinked (remove_block id d)
unfolding remove_block
remove_block-IsLinked id d v a h = elim (Bool-cases (a == id)) [
  | inl e ↦
      let gone =
        count-map_columns_zero a kept (λ c. count-remove a id c.section_ids ∙ rw e refl) d.pages in
      absurd (false≢true (sym (lacks_of_count a (placed (remove_block id d)) gone) ∙ h))
  | inr e ↦
      let same =
        count-map_columns a kept (λ c. count-remove a id c.section_ids ∙ rw e refl) d.pages in
      includes_others id d.blocks a e
        (v a (includes_of_count a (placed d) (placed (remove_block id d)) same h))
]
  where
    kept : ResumeColumn → ResumeColumn
    kept column = with_sections (remove id column.section_ids) column

id-patch_block : (patch : Patch) (block : ResumeBlock) → (patch_block patch block).id ≡ block.id
unfolding patch_block
id-patch_block (retitle title) block = refl
id-patch_block (show visible) block = refl
id-patch_block (write key value) block = refl

ids-edit_block :
    (id : String) (patch : Patch) (blocks : List ResumeBlock)
    → map (λ b. b.id) (map (λ b. if b.id == id then patch_block patch b else b) blocks)
      ≡ map (λ b. b.id) blocks
ids-edit_block id patch [] = refl
ids-edit_block id patch (b ∷ blocks) =
    ground (arith, id-patch_block patch b, ids-edit_block id patch blocks)

edit_block-IsLinked :
    (id : String) (patch : Patch) (d : ResumeDocument)
    → IsLinked d
    → IsLinked (edit_block id patch d)
unfolding edit_block
edit_block-IsLinked id patch d v a h = rw (ids-edit_block id patch d.blocks) (v a h)

remove_selected-IsLinked :
    (id : String) (d : ResumeDocument) → IsLinked d → IsLinked (remove_selected id d)
unfolding remove_selected
remove_selected-IsLinked id d v = go (leb (length d.blocks) 1)
  where
    go : (b : Bool) → IsLinked (if b then d else remove_block id d)
    go true = v
    go false = remove_block-IsLinked id d v

restyle-IsLinked :
    (change : StyleChange) (d : ResumeDocument) → IsLinked d → IsLinked (restyle change d)
unfolding restyle
restyle-IsLinked (font_family value) d v = v
restyle-IsLinked (accent_color value) d v = v
restyle-IsLinked (text_color value) d v = v
restyle-IsLinked (spacing value) d v = v

edit-IsLinked : (e : Edit) (d : ResumeDocument) → IsLinked d → IsLinked (edit e d)
unfolding edit
edit-IsLinked (moves id direction) d v =
    IsLinked-of_same d (move id direction d) v (move-blocks id direction d)
      (λ a. count-move a id direction d)
edit-IsLinked (transfers id column_id) d v = move_to_column-IsLinked id column_id d v
edit-IsLinked (resizes column_id width) d v =
    IsLinked-of_same d (resize_column column_id width d) v
      (resize_column-Resized column_id width d).blocks
      (λ a. count-resize_column a column_id width d)
edit-IsLinked (adds stamp label type) d v = add_block-IsLinked stamp label type d v
edit-IsLinked (adds_row unit stamp) d v = add_row-IsLinked unit stamp d v
edit-IsLinked (duplicates block stamp) d v = duplicate-IsLinked block stamp d v
edit-IsLinked (removes id) d v = remove_selected-IsLinked id d v
edit-IsLinked (patches id patch) d v = edit_block-IsLinked id patch d v
edit-IsLinked (restyles change) d v = restyle-IsLinked change d v
edit-IsLinked (papers value) d v = v

-- Whatever `updateDocument` is asked for, be it a move, a resize, a new, copied or removed block, a new
-- row, a change of a block, of the style or of the paper, it leads from a document whose placed sections
-- are all blocks of the document to such a document again, in an approved workspace to the same one.
pub update_document-IsLinked :
    (approved : Bool) (e : Edit) (d : ResumeDocument)
    → IsLinked d
    → IsLinked (update_document approved e d) × (update_document true e d ≡ d)
unfolding update_document
update_document-IsLinked true e d v = (v, refl)
update_document-IsLinked false e d v = (edit-IsLinked e d v, refl)
