-- ===== src/Resume/Layout/Linked.antt =====
-- Documents whose placed sections are all among their blocks, and the transfer of a section between
-- columns in ResumeBuilderPage.tsx.
use mathlib.Core.Bool.{false≢true}
use native.Mathlib.Decide.{dec_lt}
use manifest_cv.Prelude.{
  ℕ, suc, ◌≡◌, ◌≢◌, inl, inr, refl, sym, ap, ◌∙◌, String, List, [], ◌∷◌, ◌++◌, none, true, false,
  map, filter, includes, string_eq, ◌==◌, count, count-append, includes→count, count→includes,
  arith, eq_iff, eqb_self, Bool-cases, All, All-append,
}
use manifest_cv.Resume.Document.{
  ResumeBlock, ResumeColumn, Row, Page, ResumeDocument, flat, row_sections, page_sections, placed,
}
use manifest_cv.Resume.Editor.{last?}
use manifest_cv.Resume.Layout.Visit.{blocks-visit_document}
use manifest_cv.Resume.Layout.Moves.{Direction, move, move_row}
use manifest_cv.Resume.Layout.Transfer.{
  Slot, map_from, slots, row_slots, page_slots, place_of, source_slot, move_to_column,
}
use manifest_cv.Resume.Layout.Others.{count-move_to_column}

abbrev pub block_ids : ResumeDocument → List String
block_ids d = map (λ b. b.id) d.blocks

abbrev pub IsLinked : ResumeDocument → Type 0
IsLinked d = (id : String) → includes (placed d) id ≡ true → includes (block_ids d) id ≡ true

-- A section that stands as often in `ys` as in `xs` is placed in both.
pub includes_of_count :
    (a : String) (xs ys : List String)
    → count a ys ≡ count a xs
    → includes ys a ≡ true
    → includes xs a ≡ true
includes_of_count a xs ys e h = count→includes a xs (omega (arith, e, includes→count a ys h))

-- Blocks only grow, and but for one block that is there the same sections are placed.
pub IsLinked-of :
    (x : String) (d d' : ResumeDocument)
    → IsLinked d
    → ((a : String) → includes (block_ids d) a ≡ true → includes (block_ids d') a ≡ true)
    → ((a : String) → x ≢ a → count a (placed d') ≡ count a (placed d))
    → (includes (placed d') x ≡ true → includes (block_ids d') x ≡ true)
    → IsLinked d'
IsLinked-of x d d' v grow same own a h = elim (Bool-cases (x == a)) [
  | inl e ↦ let is_x : x ≡ a = (eq_iff x a).0 e in rw is_x at (own (rw is_x h))
  | inr e ↦
      let other : x ≢ a = λ q. cc (ap (λ y. y == a) q, e, eqb_self a) in
      grow a (v a (includes_of_count a (placed d) (placed d') (same a other) h))
]

pub move-blocks :
    (id : String) (direction : Direction) (d : ResumeDocument)
    → (move id direction d).blocks ≡ d.blocks
unfolding move
move-blocks id direction d = blocks-visit_document (move_row id direction) d

-- The same blocks and the same counts.
pub IsLinked-of_same :
    (d d' : ResumeDocument)
    → IsLinked d
    → d'.blocks ≡ d.blocks
    → ((a : String) → count a (placed d') ≡ count a (placed d))
    → IsLinked d'
IsLinked-of_same d d' v e same a h =
    rw e (v a (includes_of_count a (placed d) (placed d') (same a) h))

-- Where a section is placed nowhere, no column holds it.
module _ (b : String) where
  abbrev Lacks : Slot × ResumeColumn → Type 0
  Lacks c = includes c.1.section_ids b ≡ false

  pub lacks_of_count : (xs : List String) → count b xs ≡ 0 → includes xs b ≡ false
  lacks_of_count xs h = elim (Bool-cases (includes xs b)) [
    | inl e ↦ absurd (omega (arith, h, includes→count b xs e))
    | inr e ↦ e
  ]

  row_slots-Lacks :
      (i j k : ℕ) (cs : List ResumeColumn)
      → count b (flat (λ c. c.section_ids) cs) ≡ 0
      → All Lacks (
          map_from
            (λ n column. (let s : Slot = record { page = i; row = j; column = n } in s, column))
            k
            cs)
  unfolding map_from
  row_slots-Lacks i j k [] h = tt
  row_slots-Lacks i j k (c ∷ cs) h =
      let parts = count-append b c.section_ids (flat (λ x. x.section_ids) cs) in
      (
        lacks_of_count c.section_ids (omega (arith, parts, h)),
        row_slots-Lacks i j (suc k) cs (omega (arith, parts, h)),
      )

  page_slots-Lacks :
      (i j : ℕ) (rows : List Row)
      → count b (flat row_sections rows) ≡ 0
      → All Lacks (flat (λ x. x) (map_from (row_slots i) j rows))
  unfolding map_from
  page_slots-Lacks i j [] h = tt
  page_slots-Lacks i j (r ∷ rows) h =
      let parts = count-append b (row_sections r) (flat row_sections rows) in
      All-append Lacks (row_slots i j r) (flat (λ x. x) (map_from (row_slots i) (suc j) rows))
        (row_slots-Lacks i j 0 r.columns (omega (arith, parts, h)))
        (page_slots-Lacks i (suc j) rows (omega (arith, parts, h)))

  slots-Lacks :
      (i : ℕ) (pages : List Page)
      → count b (flat page_sections pages) ≡ 0
      → All Lacks (flat (λ x. x) (map_from page_slots i pages))
  unfolding map_from
  slots-Lacks i [] h = tt
  slots-Lacks i (p ∷ pages) h =
      let parts = count-append b (page_sections p) (flat page_sections pages) in
      All-append Lacks (page_slots i p) (flat (λ x. x) (map_from page_slots (suc i) pages))
        (page_slots-Lacks i 0 p.rows (omega (arith, parts, h)))
        (slots-Lacks (suc i) pages (omega (arith, parts, h)))

  filter_of_Lacks :
      (xs : List (Slot × ResumeColumn))
      → All Lacks xs
      → filter (λ c. includes c.1.section_ids b) xs ≡ []
  filter_of_Lacks [] h = refl
  filter_of_Lacks (x ∷ xs) (p, h) = rw p (filter_of_Lacks xs h)

  -- A section that is placed nowhere has no source column.
  source_slot-none :
      (pages : List Page) → count b (flat page_sections pages) ≡ 0 → source_slot b pages ≡ none
  unfolding source_slot
  source_slot-none pages h =
      ap (λ l. place_of (last? l)) (filter_of_Lacks (slots pages) (slots-Lacks 0 pages h))

pub count_of_lacks : (b : String) (xs : List String) → includes xs b ≡ false → count b xs ≡ 0
count_of_lacks b xs h = elim (dec_lt 0 (count b xs)) [
  | yes p ↦ absurd (false≢true (sym h ∙ count→includes b xs p))
  | no p ↦ omega arith
]

pub move_to_column-IsLinked :
    (b column_id : String) (d : ResumeDocument)
    → IsLinked d
    → IsLinked (move_to_column b column_id d)
unfolding move_to_column
move_to_column-IsLinked b column_id d v =
    IsLinked-of b d (move_to_column b column_id d) v (λ a h. h)
      (λ a ne. count-move_to_column a b column_id d ne) own
  where
    own :
        includes (placed (move_to_column b column_id d)) b ≡ true → includes (block_ids d) b ≡ true
    own h = elim (Bool-cases (includes (placed d) b)) [
      | inl e ↦ v b e
      | inr e ↦
          let nowhere = source_slot-none b d.pages (count_of_lacks b (placed d) e) in
          absurd (false≢true (sym e ∙ rw nowhere at h))
    ]

pub includes_old :
    (blocks : List ResumeBlock) (block : ResumeBlock) (a : String)
    → includes (map (λ b. b.id) blocks) a ≡ true
    → includes (map (λ b. b.id) (blocks ++ block ∷ [])) a ≡ true
unfolding includes
includes_old [] block a h = cc
includes_old (b ∷ blocks) block a h = ground (arith, includes_old blocks block a)

pub includes_new :
    (blocks : List ResumeBlock) (block : ResumeBlock)
    → includes (map (λ b. b.id) (blocks ++ block ∷ [])) block.id ≡ true
unfolding includes
includes_new [] block = ground (arith, eqb_self block.id)
includes_new (b ∷ blocks) block = ground (arith, includes_new blocks block)
