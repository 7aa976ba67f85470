-- ===== src/Ui/Pages.antt =====
-- Page navigation: `buildPageList` of frontend/src/mystic_auth/ui/navigation/Pagination.tsx, the
-- offsets of frontend/src/app/ui/Pager.tsx, and the step back after a deletion of
-- frontend/src/app/applications/ApplicationsPage.tsx.
use manifest_cv.Prelude.{
  ℕ, zero, suc, ◌+◌, ◌-◌, ◌*◌, ◌/◌, ◌≤◌, max, min, ◌≡◌, refl, List, [], ◌∷◌, ◌++◌, Option, some,
  none, Bool, true, false, not, ◌&&◌, ◌||◌, any, nat_eqb, Bool-cases, inl, inr, ltb, leb,
  if◌then◌else◌, arith, ◌∙◌, ap,
}

pub data PageItem : Type 0 where
  number : ℕ → PageItem
  ellipsis : PageItem

-- `for (p = from; …)` with this many rounds.
abbrev pub page_range : ℕ → ℕ → List PageItem
page_range from zero = []
page_range from (suc rounds) = number from ∷ page_range (suc from) rounds

abbrev pub when {ℓ} : {A : Type ℓ} → Bool → A → List A
when true a = a ∷ []
when false a = []

unfoldable pub build_page_list : ℕ → ℕ → ℕ → List PageItem
build_page_list page total siblings =
    let start = max 2 (page - siblings) in
    let last = min (total - 1) (page + siblings) in
    number 1 ∷ when (ltb 2 start) ellipsis
    ++ page_range start (suc last - start)
    ++ when (ltb last (total - 1)) ellipsis
    ++ when (ltb 1 total) (number total)

abbrev pub is_number : ℕ → PageItem → Bool
is_number p (number q) = nat_eqb q p
is_number p ellipsis = false

abbrev pub shows : List PageItem → ℕ → Bool
shows items p = any (is_number p) items

any-append {ℓ} :
    {A : Type ℓ} (p : A → Bool) (xs ys : List A) → any p (xs ++ ys) ≡ (any p xs || any p ys)
any-append p [] ys = refl
any-append p (x ∷ xs) ys = ground (arith, any-append p xs ys)

shows-page_range :
    (p from rounds : ℕ) → shows (page_range from rounds) p ≡ (leb from p && ltb p (from + rounds))
shows-page_range p from zero = ground arith
shows-page_range p from (suc rounds) = ground (arith, shows-page_range p (suc from) rounds)

shows-when : (p q : ℕ) (b : Bool) → shows (when b (number q)) p ≡ (b && nat_eqb q p)
shows-when p q true = ground arith
shows-when p q false = refl

shows-when_ellipsis : (p : ℕ) (b : Bool) → shows (when b ellipsis) p ≡ false
shows-when_ellipsis p true = refl
shows-when_ellipsis p false = refl

parts :
    (p q : ℕ) (xs bs cs ds : List PageItem)
    → shows (number q ∷ xs ++ bs ++ cs ++ ds) p
      ≡ (nat_eqb q p || shows xs p || shows bs p || shows cs p || shows ds p)
parts p q xs bs cs ds =
    any-append (is_number p) (number q ∷ xs ++ bs ++ cs) ds
    ∙ ap (λ b. b || shows ds p)
        (any-append (is_number p) (number q ∷ xs ++ bs) cs
          ∙ ap (λ b. b || shows cs p) (any-append (is_number p) (number q ∷ xs) bs))
    ∙ ground arith

-- Of a list of pages from 1 to the total, the page list has buttons for exactly the first and the last
-- page and the pages at most the given number of siblings from the current one.
pub shows-build_page_list :
    (page total siblings p : ℕ)
    → 1 ≤ total
    → 1 ≤ p
    → p ≤ total
    → shows (build_page_list page total siblings) p
      ≡ (nat_eqb p 1 || nat_eqb p total || (leb page (p + siblings) && leb p (page + siblings)))
unfolding build_page_list
shows-build_page_list page total siblings p h k l =
    parts p 1 (when (ltb 2 start) ellipsis) (page_range start (suc last - start))
      (when (ltb last (total - 1)) ellipsis) (when (ltb 1 total) (number total))
    ∙ rw
        (
          shows-when_ellipsis p (ltb 2 start),
          shows-page_range p start (suc last - start),
          shows-when_ellipsis p (ltb last (total - 1)),
          shows-when p total (ltb 1 total),
        )
        (ground arith)
  where
    start : ℕ
    start = max 2 (page - siblings)

    last : ℕ
    last = min (total - 1) (page + siblings)

-- The pager: none is shown, or one with the page's number and the buttons' targets if they are enabled.
pub record PagerView : Type 0 where
  pub page : ℕ
  pub previous : Option ℕ
  pub next : Option ℕ

abbrev pub has_next_page : ℕ → Option ℕ → Bool
has_next_page limit none = false
has_next_page limit (some rows) = nat_eqb rows limit

unfoldable pub pager : ℕ → ℕ → Option ℕ → Option PagerView
pager offset limit row_count =
    if nat_eqb offset 0 && not (has_next_page limit row_count)
    then none
    else some (record {
      page = offset / limit + 1;
      previous = if ltb 0 offset then some (offset - limit) else none;
      next = if has_next_page limit row_count then some (offset + limit) else none;
    })

-- The offset after a row was deleted: a page back if it was the last row of a later page.
unfoldable pub offset_after_delete : ℕ → ℕ → ℕ → ℕ
offset_after_delete limit row_count offset =
    if nat_eqb row_count 1 && ltb 0 offset then offset - limit else offset

-- What moves the list: the pager's buttons, with the number of rows shown, and a deletion.
pub data Move : Type 0 where
  previous_page next_page deletes : ℕ → Move

abbrev pub target : ℕ → Option ℕ → ℕ
target offset none = offset
target offset (some to) = to

abbrev pub previous_target : Option PagerView → Option ℕ
previous_target none = none
previous_target (some view) = view.previous

abbrev pub next_target : Option PagerView → Option ℕ
next_target none = none
next_target (some view) = view.next

unfoldable pub move_page : ℕ → Move → ℕ → ℕ
unfolding pager offset_after_delete
move_page limit (previous_page rows) offset =
    target offset (previous_target (pager offset limit (some rows)))
move_page limit (next_page rows) offset =
    target offset (next_target (pager offset limit (some rows)))
move_page limit (deletes rows) offset = offset_after_delete limit rows offset

unfoldable pub move_pages : ℕ → List Move → ℕ → ℕ
unfolding move_page
move_pages limit [] offset = offset
move_pages limit (m ∷ rest) offset = move_pages limit rest (move_page limit m offset)

-- A number of whole pages.
abbrev pub IsWhole : ℕ → ℕ → Type 0
IsWhole limit offset = (k : ℕ) × (offset ≡ k * limit)

IsWhole-minus : (limit offset : ℕ) → IsWhole limit offset → IsWhole limit (offset - limit)
IsWhole-minus limit offset (zero, e) = (zero, omega arith)
IsWhole-minus limit offset (suc k, e) = (k, omega arith)

IsWhole-plus : (limit offset : ℕ) → IsWhole limit offset → IsWhole limit (offset + limit)
IsWhole-plus limit offset (k, e) = (suc k, omega arith)

move_page-IsWhole :
    (limit : ℕ) (m : Move) (offset : ℕ)
    → IsWhole limit offset
    → IsWhole limit (move_page limit m offset)
unfolding move_page pager offset_after_delete
move_page-IsWhole limit (previous_page rows) offset h =
    elim (Bool-cases (nat_eqb offset 0 && not (nat_eqb rows limit))) [
      | inl e ↦ rw (e) h
      | inr e ↦ elim (Bool-cases (ltb 0 offset)) [
        | inl f ↦ rw (e, f) (IsWhole-minus limit offset h)
        | inr f ↦ rw (e, f) h
      ]
    ]
move_page-IsWhole limit (next_page rows) offset h =
    elim (Bool-cases (nat_eqb offset 0 && not (nat_eqb rows limit))) [
      | inl e ↦ rw (e) h
      | inr e ↦ elim (Bool-cases (nat_eqb rows limit)) [
        | inl f ↦ rw (e, f) (IsWhole-plus limit offset h)
        | inr f ↦ rw (e, f) h
      ]
    ]
move_page-IsWhole limit (deletes rows) offset h =
    elim (Bool-cases (nat_eqb rows 1 && ltb 0 offset)) [
      | inl e ↦ rw (e) (IsWhole-minus limit offset h)
      | inr e ↦ rw (e) h
    ]

-- From the first page on, whatever pages were turned and rows deleted, the offset is a number of whole
-- pages.
pub move_pages-IsWhole : (limit : ℕ) (moves : List Move) → IsWhole limit (move_pages limit moves 0)
unfolding move_pages
move_pages-IsWhole limit moves = from moves 0 (0, omega arith)
  where
    from :
        (moves : List Move) (offset : ℕ)
        → IsWhole limit offset
        → IsWhole limit (move_pages limit moves offset)
    from [] offset h = h
    from (m ∷ rest) offset h =
        from rest (move_page limit m offset) (move_page-IsWhole limit m offset h)
