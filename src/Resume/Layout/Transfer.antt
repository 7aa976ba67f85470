-- ===== src/Resume/Layout/Transfer.antt =====
-- `moveToColumn`: a section to the column with a given id. Object identity of two columns is the
-- equality of their places in the document.
use manifest_cv.Prelude.{
  ℕ, suc, String, List, [], ◌∷◌, ◌++◌, Option, some, none, Bool, ◌&&◌, filter, find?, includes,
  remove, if◌then◌else◌, string_eq, nat_eqb, ◌==◌,
}
use manifest_cv.Resume.Document.{ResumeColumn, Row, Page, ResumeDocument, flat}
use manifest_cv.Resume.Editor.{last?}
use manifest_cv.Resume.Layout.Moves.{with_sections}

-- A place: the numbers of the page, the row and the column.
pub record Slot : Type 0 where
  pub page : ℕ
  pub row : ℕ
  pub column : ℕ

abbrev pub same_slot : Slot → Slot → Bool
same_slot s t = nat_eqb s.page t.page && (nat_eqb s.row t.row && nat_eqb s.column t.column)

-- `map` that also gives the index, counted from `i`.
unfoldable pub map_from {ℓ κ} : {A : Type ℓ} {B : Type κ} → (ℕ → A → B) → ℕ → List A → List B
map_from f i [] = []
map_from f i (x ∷ xs) = f i x ∷ map_from f (suc i) xs

abbrev pub slot_row : (Slot → ResumeColumn → ResumeColumn) → ℕ → ℕ → Row → Row
slot_row f i j row = record row {
  columns = map_from (λ k. f (record { page = i; row = j; column = k })) 0 row.columns;
}

abbrev pub slot_page : (Slot → ResumeColumn → ResumeColumn) → ℕ → Page → Page
slot_page f i page = record page { rows = map_from (slot_row f i) 0 page.rows }

unfoldable pub map_slots : (Slot → ResumeColumn → ResumeColumn) → List Page → List Page
unfolding map_from
map_slots f pages = map_from (slot_page f) 0 pages

-- The columns with their places, in reading order.
abbrev pub row_slots : ℕ → ℕ → Row → List (Slot × ResumeColumn)
row_slots i j row =
    map_from (λ k column. (record { page = i; row = j; column = k }, column)) 0 row.columns

abbrev pub page_slots : ℕ → Page → List (Slot × ResumeColumn)
page_slots i page = flat (λ x. x) (map_from (row_slots i) 0 page.rows)

unfoldable pub slots : List Page → List (Slot × ResumeColumn)
unfolding map_from
slots pages = flat (λ x. x) (map_from page_slots 0 pages)

abbrev pub place_of : Option (Slot × ResumeColumn) → Option Slot
place_of none = none
place_of (some (slot, _)) = some slot

-- The last column that holds the block, and the first with the id.
unfoldable pub source_slot : String → List Page → Option Slot
unfolding slots last?
source_slot block_id pages =
    place_of (last? (filter (λ c. includes c.1.section_ids block_id) (slots pages)))

unfoldable pub target_slot : String → List Page → Option Slot
unfolding slots
target_slot column_id pages = place_of (find? (λ c. c.1.id == column_id) (slots pages))

unfoldable pub transfer_column : String → Slot → Slot → Slot → ResumeColumn → ResumeColumn
transfer_column block_id source target slot column =
    if same_slot slot source
    then with_sections (remove block_id column.section_ids) column
    else if same_slot slot target
    then with_sections (column.section_ids ++ block_id ∷ []) column
    else column

unfoldable pub transfer_pages : String → Option Slot → Option Slot → List Page → List Page
unfolding transfer_column map_slots
transfer_pages block_id none target pages = pages
transfer_pages block_id (some source) none pages = pages
transfer_pages block_id (some source) (some target) pages =
    if same_slot source target
    then pages
    else map_slots (transfer_column block_id source target) pages

unfoldable pub move_to_column : String → String → ResumeDocument → ResumeDocument
unfolding transfer_pages source_slot target_slot
move_to_column block_id column_id current = record current {
  pages =
      transfer_pages block_id (source_slot block_id current.pages)
        (target_slot column_id current.pages) current.pages;
}
