-- ===== src/Resume/Document.antt =====
-- The document that the builder edits, frontend/src/app/resume_builder/resumeDocumentTypes.ts.
-- Widths and sizes are exact numbers here: the source's floats as integers in a fixed small unit.
use manifest_cv.Prelude.{
  String, Bool, List, Option, some, none, [], ◌∷◌, ◌++◌, if◌then◌else◌, string_eq, ◌==◌,
}
use manifest_cv.Prelude.Int.{ℤ}

pub data BlockType : Type 0 where
  profile_header contact social_links summary experience project education skills : BlockType
  certifications awards publications languages custom_text custom_list divider : BlockType

-- A value of `content`: a text, a list of texts, or any other JSON value, kept as its text.
pub data Content : Type 0 where
  text : String → Content
  items : List String → Content
  other : String → Content

pub record ResumeBlock : Type 0 where
  pub id : String
  pub type : BlockType
  pub title : String
  pub visible : Bool
  pub content : List (String × Content)
  pub style : Option (List (String × String))
  pub source_ids : Option (List String)

pub record ResumeColumn : Type 0 where
  pub id : String
  pub width : ℤ
  pub min_width : ℤ
  pub max_width : ℤ
  pub section_ids : List String

pub record Row : Type 0 where
  pub id : String
  pub columns : List ResumeColumn

pub record Page : Type 0 where
  pub id : String
  pub rows : List Row

pub data Paper : Type 0 where
  a4 letter : Paper

pub record Style : Type 0 where
  pub font_family : String
  pub font_size : ℤ
  pub accent_color : String
  pub text_color : String
  pub margin : ℤ
  pub spacing : ℤ
  pub density : String

pub record ResumeDocument : Type 0 where
  pub paper : Paper
  pub pages : List Page
  pub blocks : List ResumeBlock
  pub style : Style

-- `content[key]`, and `{ ...content, [key]: value }`: a key that is there keeps its place.
unfoldable pub lookup : String → List (String × Content) → Option Content
lookup k [] = none
lookup k ((j, v) ∷ m) = if j == k then some v else lookup k m

unfoldable pub insert : String → Content → List (String × Content) → List (String × Content)
insert k v [] = (k, v) ∷ []
insert k v ((j, w) ∷ m) = if j == k then (k, v) ∷ m else (j, w) ∷ insert k v m

abbrev text_or : String → Option Content → String
text_or fallback (some (text value)) = value
text_or fallback _ = fallback

unfoldable pub block_text : ResumeBlock → String → String → String
unfolding lookup
block_text block key fallback = text_or fallback (lookup key block.content)

-- The sections that a row, a page, a document places, in reading order.
abbrev pub flat {ℓ κ} : {A : Type ℓ} {B : Type κ} → (A → List B) → List A → List B
flat f [] = []
flat f (x ∷ xs) = f x ++ flat f xs

abbrev pub row_sections : Row → List String
row_sections row = flat (λ c. c.section_ids) row.columns

abbrev pub page_sections : Page → List String
page_sections page = flat row_sections page.rows

abbrev pub placed : ResumeDocument → List String
placed document = flat page_sections document.pages
