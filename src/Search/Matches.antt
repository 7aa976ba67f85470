-- ===== src/Search/Matches.antt =====
-- The rows for single texts, for catalog entries, policies and users of
-- frontend/src/mystic_auth/layout/command_palette/CommandPaletteResults.ts.
use Prim.Native.String.{◌++◌ as ◌+++◌}
use manifest_cv.Prelude.{
  String, List, [], ◌∷◌, ◌++◌, map, Option, some, none, not, ◌&&◌, take, includes, ◌==◌, string_eq,
  if◌then◌else◌, ℕ,
}
use manifest_cv.Auth.Can.{one}
use manifest_cv.Auth.Route.Table.{NavItem}
use manifest_cv.Search.Text.{contains, namespace_matches, scoped_matches}
use manifest_cv.Search.Palette.{
  Result, match_text, user, policy, SearchItem, Platform, page_content_namespaces, is_shown,
}

abbrev pub text_match_results_limit : ℕ
text_match_results_limit = 20

-- The keys that were pushed, and the results.
pub record Matches : Type 0 where
  pub seen : List String
  pub results : List Result

abbrev pub no_matches : Matches
no_matches = record { seen = []; results = [] }

-- `pushMatch`, and the same steps for an entry of the catalog.
abbrev pub push : String → Result → Matches → Matches
push key r m =
    if includes m.seen key
    then m
    else record { seen = m.seen ++ key ∷ []; results = m.results ++ r ∷ [] }

abbrev pub match_row : String → String → String → Result
match_row to sublabel s = record { kind = match_text; to = to; label = s; sublabel = some sublabel }

abbrev pub push_matches : String → String → List String → Matches → Matches
push_matches to sublabel [] m = m
push_matches to sublabel (s ∷ rest) m =
    push_matches to sublabel rest (push (to +++ (" " +++ s)) (match_row to sublabel s) m)

abbrev pub push_namespaces : Platform → String → NavItem → List String → Matches → Matches
push_namespaces p q item [] m = m
push_namespaces p q item (ns ∷ rest) m = push_namespaces p q item rest (
    push_matches item.to (p.resolve_label item.label) (namespace_matches p.lower (p.bundle ns) q) m)

abbrev pub push_page : Platform → String → NavItem → Matches → Matches
push_page p q item m =
    if is_shown p item.permission
    then push_namespaces p q item (page_content_namespaces item.to) m
    else m

abbrev pub push_item : Platform → String → SearchItem → Matches → Matches
push_item p q item m =
    if is_shown p item.permission
    then elim item.scope [
      | none ↦ m
      | some scope ↦
          push_matches item.to (p.resolve_label item.group)
            (scoped_matches p.lower (p.bundle scope.namespace) scope.paths q) m
    ]
    else m

abbrev pub push_pages : Platform → String → List NavItem → Matches → Matches
push_pages p q [] m = m
push_pages p q (item ∷ rest) m = push_pages p q rest (push_page p q item m)

abbrev pub push_items : Platform → String → List SearchItem → Matches → Matches
push_items p q [] m = m
push_items p q (item ∷ rest) m = push_items p q rest (push_item p q item m)

unfoldable pub text_matches : Platform → String → List NavItem → List SearchItem → List Result
unfolding includes namespace_matches scoped_matches page_content_namespaces
text_matches p q pages items =
    if q == ""
    then []
    else take text_match_results_limit
        (push_items p q items (push_pages p q pages no_matches)).results

pub record PermissionEntry : Type 0 where
  pub action : String
  pub resource_type : String
  pub description : String

abbrev pub permission_row : Platform → PermissionEntry → Result
permission_row p entry = record {
  kind = match_text;
  to = "/permissions?search=" +++ p.encode entry.action;
  label = entry.action +++ (" · " +++ entry.resource_type);
  sublabel = some (p.resolve_label "layout:nav.permissions");
}

abbrev pub permission_text : PermissionEntry → String
permission_text entry =
    entry.action +++ (" " +++ (entry.resource_type +++ (" " +++ entry.description)))

abbrev pub push_permissions : Platform → String → List PermissionEntry → Matches → Matches
push_permissions p q [] m = m
push_permissions p q (entry ∷ rest) m = push_permissions p q rest (
    if contains (p.lower (permission_text entry)) q
    then push (entry.action +++ (":" +++ entry.resource_type)) (permission_row p entry) m
    else m)

unfoldable pub permission_matches : Platform → String → Option (List PermissionEntry) → List Result
unfolding includes contains
permission_matches p q none = []
permission_matches p q (some catalog) =
    if q == ""
    then []
    else if p.can (one "permissions:read")
    then take text_match_results_limit (push_permissions p q catalog no_matches).results
    else []

pub record UserRow : Type 0 where
  pub name : String
  pub email : String

pub record PolicyRow : Type 0 where
  pub name : String
  pub description : Option String

abbrev pub or_none {ℓ} : {A : Type ℓ} → Option (List A) → List A
or_none none = []
or_none (some xs) = xs

abbrev pub user_result : Platform → UserRow → Result
user_result p u = record {
  kind = user;
  to = "/users?search=" +++ p.encode u.email;
  label = u.name;
  sublabel = some u.email;
}

unfoldable pub filtered_users : Platform → String → Option (List UserRow) → List Result
filtered_users p trimmed_query rows =
    map (user_result p)
      (if p.can (one "users:list_all") && not (trimmed_query == "") then or_none rows else [])

-- `policy.description || policiesPageLabel`.
abbrev pub policy_sublabel : Platform → Option String → String
policy_sublabel p none = p.resolve_label "layout:nav.policies"
policy_sublabel p (some s) = if s == "" then p.resolve_label "layout:nav.policies" else s

abbrev pub policy_result : Platform → PolicyRow → Result
policy_result p row = record {
  kind = policy;
  to = "/policies?search=" +++ p.encode row.name;
  label = row.name;
  sublabel = some (policy_sublabel p row.description);
}

unfoldable pub filtered_policies : Platform → String → Option (List PolicyRow) → List Result
filtered_policies p trimmed_query rows =
    map (policy_result p)
      (if p.can (one "policies:read") && not (trimmed_query == "") then or_none rows else [])
