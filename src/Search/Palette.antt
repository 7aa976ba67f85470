-- ===== src/Search/Palette.antt =====
-- The results of the command palette,
-- frontend/src/mystic_auth/layout/command_palette/CommandPaletteResults.ts, up to their ranking, and the
-- items of searchItems.ts. Icons are left out; the answers of the three queries are arguments.
use Prim.Native.String.{◌++◌ as ◌+++◌}
use manifest_cv.Prelude.{
  String, List, [], ◌∷◌, map, Option, some, none, Bool, true, filter, ◌==◌, string_eq,
  if◌then◌else◌,
}
use manifest_cv.Auth.Can.{Permission, one}
use manifest_cv.Auth.Route.Table.{NavItem}
use manifest_cv.Search.Text.{Node, contains, join_spaces, namespace_search_text, scoped_search_text}

pub data ResultKind : Type 0 where
  page content match_text user policy : ResultKind

pub record Result : Type 0 where
  pub kind : ResultKind
  pub to : String
  pub label : String
  pub sublabel : Option String

pub record Scope : Type 0 where
  pub namespace : String
  pub paths : List (List String)

pub record SearchItem : Type 0 where
  pub label : String
  pub detail : Option String
  pub group : String
  pub match_keys : List String
  pub scope : Option Scope
  pub to : String
  pub permission : Option Permission

-- What the hook takes from elsewhere: the check of a permission, the label's text in the chosen
-- language, the bundle of a namespace, `toLowerCase` and `encodeURIComponent`.
pub record Platform : Type 0 where
  pub can : Permission → Bool
  pub resolve_label : String → String
  pub bundle : String → Node
  pub lower : String → String
  pub encode : String → String

-- The namespaces of a built-in page.
unfoldable pub page_content_namespaces : String → List String
page_content_namespaces to =
    if to == "/dashboard"
    then "dashboard" ∷ []
    else if to == "/users"
    then "users" ∷ []
    else if to == "/policies"
    then "policies" ∷ []
    else if to == "/permissions"
    then "permissions" ∷ []
    else if to == "/rate-limits"
    then "rate_limits" ∷ []
    else if to == "/audit-log"
    then "audit_log" ∷ []
    else if to == "/account-settings"
    then "account_settings" ∷ []
    else []

abbrev account_item : String → Option Scope → SearchItem
account_item tab scope = record {
  label = "account_settings:tabs." +++ tab;
  detail = none;
  group = "account_settings:pageTitle";
  match_keys = [];
  scope = scope;
  to = "/account-settings?tab=" +++ tab;
  permission = none;
}

abbrev scope_of : String → List (List String) → Option Scope
scope_of namespace paths = some (record { namespace = namespace; paths = paths })

abbrev account_tab : String → String → SearchItem
account_tab tab section =
    account_item tab (scope_of "account_settings" (("tabs" ∷ tab ∷ []) ∷ (section ∷ []) ∷ []))

abbrev audit_item : String → String → String → String → String → Option Permission → SearchItem
audit_item tab section category detail scope permission = record {
  label = "audit_log:tabs." +++ tab;
  detail = some ("audit_log:tabs." +++ detail);
  group = "audit_log:page.title";
  match_keys = [];
  scope = scope_of "audit_log" (("tabs" ∷ tab ∷ []) ∷ ("tabs" ∷ detail ∷ []) ∷ (section ∷ []) ∷ []);
  to = "/audit-log?category=" +++ (category +++ ("&scope=" +++ scope));
  permission = permission;
}

abbrev pub search_items : List SearchItem
search_items =
    account_tab "password" "changePassword"
    ∷ account_tab "profile" "profileName"
    ∷ account_tab "status" "accountStatus"
    ∷ account_tab "appearance" "appearance"
    ∷ account_item "legal" none
    ∷ account_tab "danger" "deleteAccount"
    ∷ record {
      label = "dashboard:activeSessionsCard.heading";
      detail = none;
      group = "layout:nav.dashboard";
      match_keys = [];
      scope = scope_of "dashboard" (("activeSessionsCard" ∷ []) ∷ ("parseUserAgent" ∷ []) ∷ []);
      to = "/dashboard";
      permission = none;
    }
    ∷ audit_item "authorizationDecisions" "authorization" "authorization" "myActivity" "mine" none
    ∷ audit_item "authorizationDecisions" "authorization" "authorization" "allUsers" "all"
        (some (one "policies:read"))
    ∷ audit_item "securityEvents" "security" "security" "myActivity" "mine" none
    ∷ audit_item "securityEvents" "security" "security" "allUsers" "all"
        (some (one "security_audit:read"))
    ∷ []

-- `!item.permission || can(item.permission)`.
abbrev pub is_shown : Platform → Option Permission → Bool
is_shown p none = true
is_shown p (some permission) = p.can permission

pub record Entry : Type 0 where
  pub result : Result
  pub haystack : String

abbrev pub page_entry : Platform → NavItem → Entry
page_entry p item = record {
  result = record {
    kind = page;
    to = item.to;
    label = p.resolve_label item.label;
    sublabel = none;
  };
  haystack = p.lower (
      join_spaces (
        p.resolve_label item.label
        ∷ map (λ ns. namespace_search_text p.lower (p.bundle ns))
            (page_content_namespaces item.to)));
}

unfoldable pub page_index : Platform → List NavItem → List Entry
page_index p items = map (page_entry p) (filter (λ item. is_shown p item.permission) items)

abbrev pub found : String → List Entry → List Entry
found q index = filter (λ entry. contains entry.haystack q) index

unfoldable pub filtered_pages : Platform → String → List NavItem → List Result
unfolding page_index
filtered_pages p q items =
    let index = page_index p items in
    map (λ entry. entry.result) (if q == "" then index else found q index)

abbrev pub or_empty : Option String → String
or_empty none = ""
or_empty (some s) = s

abbrev pub content_sublabel : Platform → SearchItem → String
content_sublabel p item = elim item.detail [
  | none ↦ p.resolve_label item.group
  | some detail ↦ p.resolve_label item.group +++ (" · " +++ p.resolve_label detail)
]

abbrev pub resolve_detail : Platform → Option String → Option String
resolve_detail p none = none
resolve_detail p (some detail) = some (p.resolve_label detail)

abbrev pub scope_text : Platform → Option Scope → String
scope_text p none = ""
scope_text p (some scope) = scoped_search_text p.lower (p.bundle scope.namespace) scope.paths

abbrev pub content_entry : Platform → SearchItem → Entry
content_entry p item = record {
  result = record {
    kind = content;
    to = item.to;
    label = p.resolve_label item.label;
    sublabel = some (content_sublabel p item);
  };
  haystack = p.lower (
      join_spaces (
        p.resolve_label item.label
        ∷ or_empty (resolve_detail p item.detail)
        ∷ p.resolve_label item.group
        ∷ scope_text p item.scope
        ∷ map p.resolve_label item.match_keys));
}

unfoldable pub content_index : Platform → List SearchItem → List Entry
content_index p items = map (content_entry p) (filter (λ item. is_shown p item.permission) items)

unfoldable pub filtered_content : Platform → String → List SearchItem → List Result
unfolding content_index
filtered_content p q items =
    if q == "" then [] else map (λ entry. entry.result) (found q (content_index p items))
