-- ===== src/Search/Results.antt =====
-- All results of the command palette, `useCommandPaletteResults` of
-- frontend/src/mystic_auth/layout/command_palette/CommandPaletteResults.ts, and the keys of
-- CommandPalette.tsx that move through them.
use Prim.Native.String.{◌++◌ as ◌+++◌}
use manifest_cv.Prelude.{
  ℕ, ◌+◌, ◌-◌, ◌%◌, String, List, ◌++◌, Option, Bool, ◌&&◌, ◌||◌, any, ◌==◌, string_eq,
  if◌then◌else◌, nat_eqb,
}
use manifest_cv.Auth.Can.{one}
use manifest_cv.Auth.Route.Table.{NavItem}
use manifest_cv.Search.Palette.{
  Result, page, content, match_text, user, policy, SearchItem, Platform, is_shown, filtered_pages,
  filtered_content,
}
use manifest_cv.Search.Matches.{
  text_matches, PermissionEntry, permission_matches, UserRow, PolicyRow, filtered_users,
  filtered_policies, or_none,
}
use manifest_cv.Search.Ranking.{rank_results}

-- What the queries have answered.
pub record Answers : Type 0 where
  pub catalog : Option (List PermissionEntry)
  pub policies : Option (List PolicyRow)
  pub users : Option (List UserRow)

unfoldable pub candidates :
    Platform → String → List NavItem → List SearchItem → Answers → List Result
unfolding filtered_pages filtered_content text_matches permission_matches filtered_policies
    filtered_users
candidates p trimmed_query pages items answers =
    let q = p.lower trimmed_query in
    filtered_pages p q pages
    ++ (filtered_content p q items
        ++ (text_matches p q pages items
            ++ (permission_matches p q answers.catalog
                ++ (filtered_policies p trimmed_query answers.policies
                    ++ filtered_users p trimmed_query answers.users))))

unfoldable pub command_palette_results :
    Platform → String → List NavItem → List SearchItem → Answers → List Result
unfolding candidates rank_results
command_palette_results p trimmed_query pages items answers =
    rank_results p.lower (p.lower trimmed_query) (candidates p trimmed_query pages items answers)

-- `ArrowDown` and `ArrowUp` on the index of the highlighted result.
unfoldable pub arrow_down : ℕ → ℕ → ℕ
arrow_down count i = if nat_eqb count 0 then 0 else (i + 1) % count

-- `i - 1 + filtered.length`, where `i` and the length are not both 0.
unfoldable pub arrow_up : ℕ → ℕ → ℕ
arrow_up count i = if nat_eqb count 0 then 0 else (i + count - 1) % count

module _ {ℓ} {A : Type ℓ} (shown : A → Bool) (to : A → String) where
  -- Some shown item of the list leads there.
  abbrev pub reaches : List A → String → Bool
  reaches xs target = any (λ x. shown x && to x == target) xs

-- Whether the result leads where it should: to a page or a section that the permissions show, to the
-- catalog's search for an entry of it, to the users' search for the email of a user that was found, or
-- to the policies' search for the name of a policy, each under the page's own permission.
unfoldable pub leads : Platform → List NavItem → List SearchItem → Answers → Result → Bool
leads p pages items answers r =
    let in_pages = reaches (λ item. is_shown p item.permission) (λ item. item.to) pages r.to in
    let in_items = reaches (λ item. is_shown p item.permission) (λ item. item.to) items r.to in
    elim r.kind [
      | page ↦ in_pages
      | content ↦ in_items
      | match_text ↦
          in_pages
          || in_items
          || reaches (λ entry. p.can (one "permissions:read"))
              (λ entry. "/permissions?search=" +++ p.encode entry.action) (or_none answers.catalog)
              r.to
      | user ↦
          reaches (λ row. p.can (one "users:list_all"))
            (λ row. "/users?search=" +++ p.encode row.email) (or_none answers.users) r.to
      | policy ↦
          reaches (λ row. p.can (one "policies:read"))
            (λ row. "/policies?search=" +++ p.encode row.name) (or_none answers.policies) r.to
    ]
