-- ===== src/Ui/State.antt =====
-- Small pieces of page state: the sort of frontend/src/mystic_auth/ui/hooks/useSortState.ts, the page of
-- usePageResetOn.ts, the status cell of
-- frontend/src/app/applications/ApplicationsPage.tsx, and the text of
-- frontend/src/app/career_knowledge/CareerKnowledgePage.tsx.
use manifest_cv.Prelude.{
  ℕ, ◌≡◌, String, Option, some, none, Bool, true, false, not, ◌&&◌, ◌==◌, string_eq, if◌then◌else◌,
  arith,
}

pub data SortDirection : Type 0 where
  asc desc : SortDirection

pub record SortState : Type 0 where
  pub key : String
  pub direction : SortDirection

abbrev pub flipped : SortDirection → SortDirection
flipped asc = desc
flipped desc = asc

unfoldable pub next_sort_state : SortState → String → SortState
next_sort_state prev key =
    if prev.key == key
    then record { key = key; direction = flipped prev.direction }
    else record { key = key; direction = asc }

pub record PageReset : Type 0 where
  pub page : ℕ
  pub prev_reset_key : String

unfoldable pub reset_page_on : String → PageReset → PageReset
reset_page_on reset_key s =
    if reset_key == s.prev_reset_key then s else record { page = 1; prev_reset_key = reset_key }

-- The cell's own state, and whether its mutation is in flight.
pub record StatusCell : Type 0 where
  pub local_status : String
  pub prev_server_status : String
  pub is_pending : Bool

-- The adjustment during render to the server's status.
unfoldable pub render_cell : String → StatusCell → StatusCell
render_cell status cell =
    if not (status == cell.prev_server_status) && not cell.is_pending
    then record cell { local_status = status; prev_server_status = status }
    else cell

unfoldable pub change_status : String → StatusCell → StatusCell
change_status next cell = record cell { local_status = next; is_pending = true }

-- The mutation's end; a failure puts back the status from before the change.
unfoldable pub change_succeeds : StatusCell → StatusCell
change_succeeds cell = record cell { is_pending = false }

unfoldable pub change_fails : String → StatusCell → StatusCell
change_fails previous cell = record cell { local_status = previous; is_pending = false }

-- A cell that is not waiting, and that has taken the server's status over, shows the server's status
-- after a change fails, whatever status the server has by then.
pub render_cell-change_fails :
    (next before status : String) (cell : StatusCell)
    → cell.is_pending ≡ false
    → cell.local_status ≡ before
    → cell.prev_server_status ≡ before
    → (render_cell status (
        change_fails cell.local_status (render_cell status (change_status next cell)))).local_status
      ≡ status
unfolding render_cell change_fails change_status
render_cell-change_fails next before status cell h k l =
    ground (arith, string_eq.eqb_iff status cell.prev_server_status)

-- The editable text of the knowledge base, and the content that it was last taken from.
pub record KnowledgeForm : Type 0 where
  pub raw_input : String
  pub content : String
  pub prev_knowledge_content : Option String

abbrev pub is_content : String → Option String → Bool
is_content content none = false
is_content content (some previous) = content == previous

unfoldable pub render_knowledge : Option String → KnowledgeForm → KnowledgeForm
render_knowledge none form = form
render_knowledge (some content) form =
    if is_content content form.prev_knowledge_content
    then form
    else record form { content = content; prev_knowledge_content = some content }

unfoldable pub is_knowledge_dirty : Option String → KnowledgeForm → Bool
is_knowledge_dirty none form = not (form.raw_input == "")
is_knowledge_dirty (some content) form = not (form.content == content)
