-- ===== src/Search/Leads.antt =====
-- The palette leads only where the user may go: the permission checks of
-- frontend/src/mystic_auth/layout/command_palette/CommandPaletteResults.ts.
use Prim.Native.String.{◌++◌ as ◌+++◌}
use manifest_cv.Prelude.{
  ap, All-mono, ◌≡◌, refl, ◌∙◌, String, List, [], ◌∷◌, map, Option, some, none, Bool, true, false,
  not, ◌&&◌, all, filter, take, length, All, All-append, All-take, AllIf, All-filter, All-filter_if,
  AllIf-mono, All-map, ◌==◌, string_eq, eqb_self, if◌then◌else◌, arith, Bool-cases, inl, inr,
}
use manifest_cv.Auth.Can.{one}
use manifest_cv.Auth.Route.Table.{NavItem}
use manifest_cv.Search.Text.{contains}
use manifest_cv.Search.Palette.{
  Result, SearchItem, Platform, Entry, is_shown, page_entry, content_entry, page_index,
  content_index, found, filtered_pages, filtered_content,
}
use manifest_cv.Search.Matches.{
  no_matches, match_row, push_pages, push_items, text_matches, PermissionEntry, permission_row,
  permission_matches, push_permissions, UserRow, PolicyRow, filtered_users, filtered_policies,
  text_match_results_limit, user_result, policy_result, or_none,
}
use manifest_cv.Search.Ranking.{rank_results, length-filter-rank_results}
use manifest_cv.Search.Results.{Answers, candidates, command_palette_results, reaches, leads}
use manifest_cv.Search.Pushes.{push_pages-All, push_items-All, push_permissions-All}

module _ {ℓ} {A : Type ℓ} (shown : A → Bool) (to : A → String) where
  shown-reaches : (xs : List A) → AllIf (λ x. reaches shown to xs (to x) ≡ true) shown xs
  shown-reaches [] = tt
  shown-reaches (x ∷ xs) = (
    (λ h. ground (arith, eqb_self (to x))),
    AllIf-mono (λ y. reaches shown to xs (to y) ≡ true)
        (λ y. reaches shown to (x ∷ xs) (to y) ≡ true) (λ y e. ground arith) shown xs
        (shown-reaches xs),
  )

module _ {ℓ κ} {A : Type ℓ} (P : A → Type κ) (shown : A → Bool) where
  -- Where all are shown, what holds of the shown ones holds of all.
  All-AllIf : (xs : List A) → ((x : A) → shown x ≡ true) → AllIf P shown xs → All P xs
  All-AllIf [] f h = tt
  All-AllIf (x ∷ xs) f (p, h) = (p (f x), All-AllIf xs f h)

module _ (p : Platform) (pages : List NavItem) (items : List SearchItem) (answers : Answers) where
  abbrev Leads : Result → Type 0
  Leads r = leads p pages items answers r ≡ true

  abbrev shown_page : NavItem → Bool
  shown_page item = is_shown p item.permission

  abbrev shown_item : SearchItem → Bool
  shown_item item = is_shown p item.permission

  found-Leads :
      (q : String) (index : List Entry)
      → All (λ entry. Leads entry.result) index
      → All (λ entry. Leads entry.result) (if q == "" then index else found q index)
  found-Leads q index h = go (q == "")
    where
      go : (b : Bool) → All (λ entry. Leads entry.result) (if b then index else found q index)
      go true = h
      go false = All-filter (λ entry. Leads entry.result) (λ e. contains e.haystack q) index h

  filtered_pages-Leads : (q : String) → All Leads (filtered_pages p q pages)
  unfolding leads filtered_pages
  filtered_pages-Leads q =
      All-map Leads (λ entry. entry.result) (if q == "" then index else found q index)
        (found-Leads q index (
          All-map (λ entry. Leads entry.result) (page_entry p) _
            (All-filter_if (λ item. Leads (page_entry p item).result)
              (λ item. is_shown p item.permission) pages
              (shown-reaches (λ item. is_shown p item.permission) (λ item. item.to) pages))))
    where
      index : List Entry
      index = page_index p pages

  filtered_content-Leads : (q : String) → All Leads (filtered_content p q items)
  unfolding leads filtered_content
  filtered_content-Leads q = go (q == "")
    where
      index : List Entry
      index = content_index p items

      go : (b : Bool) → All Leads (if b then [] else map (λ entry. entry.result) (found q index))
      go true = tt
      go false =
          All-map Leads (λ entry. entry.result) (found q index)
            (All-filter (λ entry. Leads entry.result) (λ e. contains e.haystack q) index
              (All-map (λ entry. Leads entry.result) (content_entry p) _
                (All-filter_if (λ item. Leads (content_entry p item).result)
                  (λ item. is_shown p item.permission) items
                  (shown-reaches (λ item. is_shown p item.permission) (λ item. item.to) items))))

  text_matches-Leads : (q : String) → All Leads (text_matches p q pages items)
  unfolding leads text_matches
  text_matches-Leads q = elim (Bool-cases (q == "")) [
    | inl e ↦ rw (e) tt
    | inr e ↦ rw (e) (
        All-take Leads text_match_results_limit
          (push_items p q items (push_pages p q pages no_matches)).results
          (push_items-All Leads p q items (push_pages p q pages no_matches)
            (AllIf-mono (λ item. reaches shown_item (λ i. i.to) items item.to ≡ true)
              (λ item. (sublabel s : String) → Leads (match_row item.to sublabel s))
              (λ item e sublabel s. ground (arith, e)) shown_item items
              (shown-reaches shown_item (λ i. i.to) items))
            (push_pages-All Leads p q pages no_matches
              (AllIf-mono (λ item. reaches shown_page (λ i. i.to) pages item.to ≡ true)
                (λ item. (sublabel s : String) → Leads (match_row item.to sublabel s))
                (λ item e sublabel s. ground (arith, e)) shown_page pages
                (shown-reaches shown_page (λ i. i.to) pages))
              tt)))
  ]

  permission_matches-Leads : (q : String) → All Leads (permission_matches p q answers.catalog)
  unfolding leads permission_matches
  permission_matches-Leads q = found_in answers.catalog refl
    where
      reach : PermissionEntry → Bool
      reach entry = p.can (one "permissions:read")

      target : PermissionEntry → String
      target entry = "/permissions?search=" +++ p.encode entry.action

      go :
          (catalog : List PermissionEntry)
          → or_none answers.catalog ≡ catalog
          → (b c : Bool) → p.can (one "permissions:read") ≡ c
          → All Leads (
              if b
              then []
              else if c
              then take text_match_results_limit (push_permissions p q catalog no_matches).results
              else [])
      go catalog same true c e = tt
      go catalog same false false e = tt
      go catalog same false true e =
          All-take Leads text_match_results_limit (push_permissions p q catalog no_matches).results
            (push_permissions-All Leads p q catalog no_matches
              (All-mono (λ entry. reaches reach target catalog (target entry) ≡ true)
                (λ entry. Leads (permission_row p entry)) (λ entry k. rw (same) (ground (arith, k)))
                catalog
                (All-AllIf (λ entry. reaches reach target catalog (target entry) ≡ true) reach
                  catalog (λ entry. e) (shown-reaches reach target catalog)))
              tt)

      found_in :
          (catalog : Option (List PermissionEntry))
          → answers.catalog ≡ catalog
          → All Leads (permission_matches p q catalog)
      found_in none e = tt
      found_in (some catalog) e =
          go catalog (ap or_none e) (q == "") (p.can (one "permissions:read")) refl

  filtered_users-Leads : (q : String) → All Leads (filtered_users p q answers.users)
  unfolding leads filtered_users
  filtered_users-Leads q =
      All-map Leads (user_result p) _ (go (p.can (one "users:list_all")) refl (not (q == "")))
    where
      reach : UserRow → Bool
      reach row = p.can (one "users:list_all")

      target : UserRow → String
      target row = "/users?search=" +++ p.encode row.email

      rows : List UserRow
      rows = or_none answers.users

      go :
          (b : Bool)
          → p.can (one "users:list_all") ≡ b
          → (c : Bool) → All (λ row. Leads (user_result p row)) (if b && c then rows else [])
      go false e c = tt
      go true e false = tt
      go true e true =
          All-AllIf (λ row. reaches reach target rows (target row) ≡ true) reach rows (λ row. e)
            (shown-reaches reach target rows)

  filtered_policies-Leads : (q : String) → All Leads (filtered_policies p q answers.policies)
  unfolding leads filtered_policies
  filtered_policies-Leads q =
      All-map Leads (policy_result p) _ (go (p.can (one "policies:read")) refl (not (q == "")))
    where
      reach : PolicyRow → Bool
      reach row = p.can (one "policies:read")

      target : PolicyRow → String
      target row = "/policies?search=" +++ p.encode row.name

      rows : List PolicyRow
      rows = or_none answers.policies

      go :
          (b : Bool)
          → p.can (one "policies:read") ≡ b
          → (c : Bool) → All (λ row. Leads (policy_result p row)) (if b && c then rows else [])
      go false e c = tt
      go true e false = tt
      go true e true =
          All-AllIf (λ row. reaches reach target rows (target row) ≡ true) reach rows (λ row. e)
            (shown-reaches reach target rows)

  candidates-Leads :
      (trimmed_query : String) → All Leads (candidates p trimmed_query pages items answers)
  unfolding candidates
  candidates-Leads trimmed_query =
      All-append Leads (filtered_pages p q pages) _ (filtered_pages-Leads q) (
        All-append Leads (filtered_content p q items) _ (filtered_content-Leads q) (
          All-append Leads (text_matches p q pages items) _ (text_matches-Leads q) (
            All-append Leads (permission_matches p q answers.catalog) _ (permission_matches-Leads q)
              (All-append Leads (filtered_policies p trimmed_query answers.policies)
                (filtered_users p trimmed_query answers.users)
                (filtered_policies-Leads trimmed_query) (filtered_users-Leads trimmed_query)))))
    where
      q : String
      q = p.lower trimmed_query

none_hidden :
    (f : Result → Bool) (rs : List Result)
    → All (λ r. f r ≡ true) rs
    → length (filter (λ r. not (f r)) rs) ≡ 0
none_hidden f [] h = refl
none_hidden f (r ∷ rest) (e, h) = ground (arith, e, none_hidden f rest h)

all_shown :
    (f : Result → Bool) (rs : List Result)
    → length (filter (λ r. not (f r)) rs) ≡ 0
    → all f rs ≡ true
all_shown f [] h = refl
all_shown f (r ∷ rest) h = ground (arith, all_shown f rest)

-- Whatever the query and the answers are, each result that is shown leads to a page or a section that
-- the user's permissions show, or, where the user may read them, to the search for an entry of the
-- catalog, for the email of a user or for the name of a policy that the answers hold.
pub command_palette_results-leads :
    (p : Platform) (trimmed_query : String) (pages : List NavItem) (items : List SearchItem)
    (answers : Answers)
    → all
        (leads p pages items answers)
        (command_palette_results p trimmed_query pages items answers)
      ≡ true
unfolding command_palette_results
command_palette_results-leads p trimmed_query pages items answers =
    let found = candidates p trimmed_query pages items answers in
    let hidden =
      none_hidden (leads p pages items answers) found
        (candidates-Leads p pages items answers trimmed_query) in
    all_shown (leads p pages items answers) (rank_results p.lower (p.lower trimmed_query) found) (
      length-filter-rank_results p.lower (p.lower trimmed_query) found
        (λ r. not (leads p pages items answers r))
      ∙ hidden)
