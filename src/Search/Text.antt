-- ===== src/Search/Text.antt =====
-- The search in the texts of a page, frontend/src/mystic_auth/translations/searchText.ts. A bundle of
-- translations is a tree; a dot-path is the list of its keys; `toLowerCase` is a parameter.
use Prim.Native.String.{◌++◌ as ◌+++◌, find, len}
use manifest_cv.Prelude.{
  ◌≡◌, String, List, [], ◌∷◌, ◌++◌, Bool, not, ◌&&◌, ◌||◌, leb, includes, includes-add,
  includes-append, add, ◌==◌, string_eq, eq_iff, if◌then◌else◌, arith,
}

mutual
  pub data Node : Type 0 where
    text : String → Node
    object : Fields → Node
    -- `undefined`, `null` and the rest.
    other : Node

  pub data Fields : Type 0 where
    end : Fields
    field : String → Node → Fields → Fields

-- `text.includes(query)`.
unfoldable pub contains : String → String → Bool
contains content query = leb (find content query) (len content)

unfoldable mutual
  pub flatten_values : Node → List String
  flatten_values (text s) = s ∷ []
  flatten_values (object fields) = flatten_fields fields
  flatten_values other = []

  pub flatten_fields : Fields → List String
  flatten_fields end = []
  flatten_fields (field key node rest) = flatten_values node ++ flatten_fields rest

abbrev pub field_at : Fields → String → Node
field_at end key = other
field_at (field k node rest) key = if k == key then node else field_at rest key

abbrev pub child_at : Node → String → Node
child_at (text s) key = other
child_at (object fields) key = field_at fields key
child_at other key = other

unfoldable pub get_path : Node → List String → Node
get_path node [] = node
get_path node (key ∷ path) = get_path (child_at node key) path

abbrev pub join_spaces : List String → String
join_spaces [] = ""
join_spaces (s ∷ []) = s
join_spaces (s ∷ t ∷ rest) = s +++ (" " +++ join_spaces (t ∷ rest))

abbrev pub values_at : Node → List (List String) → List String
values_at bundle [] = []
values_at bundle (path ∷ paths) = flatten_values (get_path bundle path) ++ values_at bundle paths

unfoldable pub namespace_search_text : (String → String) → Node → String
unfolding flatten_values
namespace_search_text lower bundle = lower (join_spaces (flatten_values bundle))

unfoldable pub scoped_search_text : (String → String) → Node → List (List String) → String
unfolding flatten_values get_path
scoped_search_text lower bundle paths = lower (join_spaces (values_at bundle paths))

-- The text contains the query and no unresolved placeholder.
abbrev pub is_match : (String → String) → String → String → Bool
is_match lower lower_query s = contains (lower s) lower_query && not (contains s "{{")

unfoldable mutual
  unfolding add contains

  pub collect_matches : (String → String) → String → Node → List String → List String
  collect_matches lower lower_query (text s) out =
      if is_match lower lower_query s then add s out else out
  collect_matches lower lower_query (object fields) out =
      collect_fields lower lower_query fields out
  collect_matches lower lower_query other out = out

  pub collect_fields : (String → String) → String → Fields → List String → List String
  collect_fields lower lower_query end out = out
  collect_fields lower lower_query (field key node rest) out =
      collect_fields lower lower_query rest (collect_matches lower lower_query node out)

abbrev pub collect_paths :
    (String → String) → String → Node → List (List String) → List String → List String
collect_paths lower lower_query bundle [] out = out
collect_paths lower lower_query bundle (path ∷ paths) out =
    collect_paths lower lower_query bundle paths
      (collect_matches lower lower_query (get_path bundle path) out)

unfoldable pub namespace_matches : (String → String) → Node → String → List String
unfolding collect_matches
namespace_matches lower bundle query = collect_matches lower (lower query) bundle []

unfoldable pub scoped_matches : (String → String) → Node → List (List String) → String → List String
unfolding collect_matches get_path
scoped_matches lower bundle paths query = collect_paths lower (lower query) bundle paths []

module _ (lower : String → String) (q s : String) where
  abbrev seen_in : List String → Bool
  seen_in values = includes values s && is_match lower q s

  mutual
    unfolding collect_matches flatten_values includes

    includes-collect_matches :
        (node : Node) (out : List String)
        → includes (collect_matches lower q node out) s
          ≡ (includes out s || seen_in (flatten_values node))
    includes-collect_matches (text t) out = ground (arith, includes-add t s out, eq_iff t s)
    includes-collect_matches (object fields) out = includes-collect_fields fields out
    includes-collect_matches other out = ground arith

    includes-collect_fields :
        (fields : Fields) (out : List String)
        → includes (collect_fields lower q fields out) s
          ≡ (includes out s || seen_in (flatten_fields fields))
    includes-collect_fields end out = ground arith
    includes-collect_fields (field key node rest) out = ground (
      arith,
      includes-collect_fields rest (collect_matches lower q node out),
      includes-collect_matches node out,
      includes-append (flatten_values node) (flatten_fields rest) s,
    )

  includes-collect_paths :
      (bundle : Node) (paths : List (List String)) (out : List String)
      → includes (collect_paths lower q bundle paths out) s
        ≡ (includes out s || seen_in (values_at bundle paths))
  unfolding includes
  includes-collect_paths bundle [] out = ground arith
  includes-collect_paths bundle (path ∷ paths) out = ground (
    arith,
    includes-collect_paths bundle paths (collect_matches lower q (get_path bundle path) out),
    includes-collect_matches (get_path bundle path) out,
    includes-append (flatten_values (get_path bundle path)) (values_at bundle paths) s,
  )

-- A text is among the matches of some paths exactly if it is a text below one of them that contains
-- the query, in lower case, and no placeholder.
pub includes-scoped_matches :
    (lower : String → String) (bundle : Node) (paths : List (List String)) (query s : String)
    → includes (scoped_matches lower bundle paths query) s
      ≡ (includes (values_at bundle paths) s && is_match lower (lower query) s)
unfolding scoped_matches includes
includes-scoped_matches lower bundle paths query s =
    includes-collect_paths lower (lower query) s bundle paths []
