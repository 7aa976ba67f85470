-- ===== src/Resume/Tests.antt =====
-- The theorems on the resume builder at concrete inputs.
use manifest_cv.Prelude.{
  ℕ, zero, suc, ◌≡◌, ◌≢◌, refl, String, List, [], ◌∷◌, some, none, true, false, arith, eq_iff,
  includes, count, string_eq,
}
use manifest_cv.Prelude.Int.{pos, int_laws}
use manifest_cv.Resume.Editor.{EditorState, sets, updates, undoes, initial, set_document, run}
use manifest_cv.Resume.Editor.History.{
  IsBounded, timeline, walk, run-initial-IsBounded, walk-timeline,
}
use manifest_cv.Resume.Document.{summary, ResumeBlock, ResumeColumn, a4, ResumeDocument, placed}
use manifest_cv.Resume.Layout.Moves.{right, move}
use manifest_cv.Resume.Layout.Resize.{resize_column}
use manifest_cv.Resume.Layout.Edits.{removes, update_document}
use manifest_cv.Resume.Layout.Sections.{count-move}
use manifest_cv.Resume.Layout.Widths.{AllInRange, resize_column-AllInRange}
use manifest_cv.Resume.Layout.Linked.{IsLinked}
use manifest_cv.Resume.Layout.Links.{update_document-IsLinked}
use manifest_cv.Resume.Builder.{
  BuilderPage, settled, save_succeeds, JobStatus, running, succeeded, poll, poll_attempts,
}
use manifest_cv.Resume.Builder.Saving.{settled-save_succeeds}
use manifest_cv.Resume.Builder.Polling.{Explains, poll-Explains}

abbrev block : String → ResumeBlock
block id = record {
  id = id;
  type = summary;
  title = id;
  visible = true;
  content = [];
  style = none;
  source_ids = none;
}

abbrev column : String → ℕ → List String → ResumeColumn
column id width sections = record {
  id = id;
  width = pos width;
  min_width = pos 20;
  max_width = pos 80;
  section_ids = sections;
}

abbrev two_columns : ResumeDocument
two_columns = record {
  paper = a4;
  pages =
      record {
        id = "p";
        rows =
            record {
              id = "r";
              columns =
                  column "left" 40 ("about" ∷ "work" ∷ []) ∷ column "right" 60 ("school" ∷ []) ∷ [];
            }
            ∷ [];
      }
      ∷ [];
  blocks = block "about" ∷ block "work" ∷ block "school" ∷ [];
  style = record {
    font_family = "Inter";
    font_size = pos 10;
    accent_color = "#000000";
    text_color = "#111111";
    margin = pos 36;
    spacing = pos 8;
    density = "normal";
  };
}

two_columns-IsLinked : IsLinked two_columns
unfolding includes
two_columns-IsLinked id h = h

update_document-IsLinked_example :
    IsLinked (update_document false (removes "work") two_columns)
    × (update_document true (removes "work") two_columns ≡ two_columns)
update_document-IsLinked_example =
    update_document-IsLinked false (removes "work") two_columns two_columns-IsLinked

count-move_example :
    count "work" (placed (move "work" right two_columns)) ≡ count "work" (placed two_columns)
count-move_example = count-move "work" "work" right two_columns

two_columns-AllInRange : AllInRange two_columns
two_columns-AllInRange =
    ((((omega int_laws, omega int_laws), ((omega int_laws, omega int_laws), tt)), tt), tt)

resize_column-AllInRange_example : AllInRange (resize_column "left" (pos 50) two_columns)
resize_column-AllInRange_example =
    resize_column-AllInRange "left" (pos 50) two_columns two_columns-AllInRange

about-ne : ◌≢◌ {A = String} "work" "about"
about-ne = ground (arith, eq_iff "work" "about")

abbrev one_back : EditorState ℕ
one_back = record {
  document = some 3;
  selected_id = none;
  saved_revision_id = some 1;
  dirty = true;
  undo = 1 ∷ 2 ∷ [];
  redo = 4 ∷ [];
}

walk-timeline_example : timeline (walk (true ∷ true ∷ false ∷ []) one_back) ≡ timeline one_back
walk-timeline_example = walk-timeline (true ∷ true ∷ false ∷ []) one_back (omega arith)

run-initial-IsBounded_example : IsBounded (run (sets 3 none ∷ updates suc ∷ undoes ∷ []) initial)
run-initial-IsBounded_example = run-initial-IsBounded (sets 3 none ∷ updates suc ∷ undoes ∷ [])

abbrev loaded : BuilderPage ℕ
loaded = record {
  editor = one_back;
  revision = some (record { id = 1; document = 2 });
  approved = false;
}

settled-save_succeeds_example :
    (settled (save_succeeds 2 loaded)).editor ≡ set_document 2 (some 1) one_back
settled-save_succeeds_example =
    settled-save_succeeds loaded (record { id = 1; document = 2 }) 2 refl
      (λ e. absurd (omega arith))

abbrev done_at_second : ℕ → JobStatus
done_at_second zero = running
done_at_second (suc n) = succeeded

poll-Explains_example : Explains done_at_second 0 poll_attempts (poll done_at_second)
poll-Explains_example = poll-Explains done_at_second
