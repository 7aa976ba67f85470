-- ===== src/Search/Tests.antt =====
-- The theorems on the command palette at concrete inputs.
use manifest_cv.Prelude.{
  ◌↔◌, includes, true, false, ◌≡◌, refl, ◌≤◌, String, List, [], ◌∷◌, some, none, true, all, All,
  string_eq,
}
use manifest_cv.Auth.Can.{holds}
use manifest_cv.Auth.Route.Table.{nav_items}
use manifest_cv.Search.Text.{Node, text, object, end, field, contains, scoped_matches}
use manifest_cv.Search.Occurrences.{BelowAny, scoped_matches-Below_iff}
use manifest_cv.Search.Palette.{Result, page, Platform, search_items}
use manifest_cv.Search.Ranking.{relevance, rank_results}
use manifest_cv.Search.Best.{rank_results-best}
use manifest_cv.Search.Results.{Answers, command_palette_results, leads}
use manifest_cv.Search.Leads.{command_palette_results-leads}

abbrev same_case : String → String
same_case s = s

abbrev account_bundle : Node
account_bundle = object (
    field "tabs" (object (field "password" (text "password") end)) (
      field "changePassword"
        (object (
          field "heading" (text "change your password")
            (field "mail" (text "password for {{email}}") end)))
        end))

scoped_matches-Below_iff_example :
    (includes
        (scoped_matches same_case account_bundle (("changePassword" ∷ []) ∷ []) "pass")
        "change your password"
      ≡ true)
    ↔ (BelowAny account_bundle (("changePassword" ∷ []) ∷ []) "change your password"
        × (contains (same_case "change your password") (same_case "pass") ≡ true)
        × (contains "change your password" "{{" ≡ false))
scoped_matches-Below_iff_example =
    scoped_matches-Below_iff same_case account_bundle (("changePassword" ∷ []) ∷ []) "pass"
      "change your password"

abbrev row : String → String → Result
row to label = record { kind = page; to = to; label = label; sublabel = none }

abbrev two_rows : List Result
two_rows = row "/dashboard" "my security" ∷ row "/audit-log" "security" ∷ []

ranked_two :
    rank_results same_case "security" two_rows
    ≡ row "/audit-log" "security" ∷ row "/dashboard" "my security" ∷ []
unfolding rank_results
ranked_two = refl

rank_results-best_example :
    All
      (λ c.
        relevance same_case "security" (row "/audit-log" "security")
        ≤ relevance same_case "security" c)
      two_rows
rank_results-best_example =
    rank_results-best same_case "security" two_rows (row "/audit-log" "security")
      (row "/dashboard" "my security" ∷ []) ranked_two

abbrev platform : Platform
platform = record {
  can = λ permission. holds ("users:list_all" ∷ []) permission;
  resolve_label = same_case;
  bundle = λ namespace. account_bundle;
  lower = same_case;
  encode = same_case;
}

abbrev answers : Answers
answers = record {
  catalog = none;
  policies = none;
  users = some (record { name = "Asha"; email = "asha@example.com" } ∷ []);
}

command_palette_results-leads_example :
    all
      (leads platform nav_items search_items answers)
      (command_palette_results platform "pass" nav_items search_items answers)
    ≡ true
command_palette_results-leads_example =
    command_palette_results-leads platform "pass" nav_items search_items answers
