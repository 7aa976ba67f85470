-- ===== src/Search/Pushes.antt =====
-- What holds of every row that the palette's loops push, on
-- frontend/src/mystic_auth/layout/command_palette/CommandPaletteResults.ts.
use Prim.Native.String.{◌++◌ as ◌+++◌}
use manifest_cv.Prelude.{
  ◌≡◌, refl, String, List, [], ◌∷◌, Option, some, none, Bool, true, false, All, All-append, AllIf,
  includes, string_eq, if◌then◌else◌, Bool-cases, inl, inr,
}
use manifest_cv.Auth.Route.Table.{NavItem}
use manifest_cv.Search.Text.{contains, namespace_matches, scoped_matches}
use manifest_cv.Search.Palette.{
  Result, Scope, SearchItem, Platform, is_shown, page_content_namespaces,
}
use manifest_cv.Search.Matches.{
  Matches, push, match_row, push_matches, push_namespaces, push_page, push_pages, push_item,
  push_items, PermissionEntry, permission_row, push_permissions, permission_text,
}

module _ (P : Result → Type 0) where
  push-All :
      (key : String) (r : Result) (m : Matches)
      → P r
      → All P m.results
      → All P (push key r m).results
  push-All key r m p h = elim (Bool-cases (includes m.seen key)) [
    | inl e ↦ rw (e) h
    | inr e ↦ rw (e) (All-append P m.results (r ∷ []) h (p, tt))
  ]

  push_matches-All :
      (to sublabel : String) (texts : List String) (m : Matches)
      → ((s : String) → P (match_row to sublabel s))
      → All P m.results
      → All P (push_matches to sublabel texts m).results
  push_matches-All to sublabel [] m p h = h
  push_matches-All to sublabel (s ∷ rest) m p h =
      push_matches-All to sublabel rest (push (to +++ (" " +++ s)) (match_row to sublabel s) m) p
        (push-All (to +++ (" " +++ s)) (match_row to sublabel s) m (p s) h)

  push_namespaces-All :
      (f : Platform) (q : String) (item : NavItem) (namespaces : List String) (m : Matches)
      → ((sublabel s : String) → P (match_row item.to sublabel s))
      → All P m.results
      → All P (push_namespaces f q item namespaces m).results
  push_namespaces-All f q item [] m p h = h
  push_namespaces-All f q item (ns ∷ rest) m p h = push_namespaces-All f q item rest _ p (
      push_matches-All item.to (f.resolve_label item.label)
        (namespace_matches f.lower (f.bundle ns) q) m (p (f.resolve_label item.label)) h)

  push_page-All :
      (f : Platform) (q : String) (item : NavItem) (m : Matches)
      → (is_shown f item.permission ≡ true
          → (sublabel s : String) → P (match_row item.to sublabel s))
      → All P m.results
      → All P (push_page f q item m).results
  push_page-All f q item m p h = elim (Bool-cases (is_shown f item.permission)) [
    | inl e ↦ rw (e) (push_namespaces-All f q item (page_content_namespaces item.to) m (p e) h)
    | inr e ↦ rw (e) h
  ]

  pub push_pages-All :
      (f : Platform) (q : String) (items : List NavItem) (m : Matches)
      → AllIf
          (λ item. (sublabel s : String) → P (match_row item.to sublabel s))
          (λ item. is_shown f item.permission)
          items
      → All P m.results
      → All P (push_pages f q items m).results
  push_pages-All f q [] m p h = h
  push_pages-All f q (item ∷ rest) m (p, ps) h =
      push_pages-All f q rest _ ps (push_page-All f q item m p h)

  push_item-All :
      (f : Platform) (q : String) (item : SearchItem) (m : Matches)
      → (is_shown f item.permission ≡ true
          → (sublabel s : String) → P (match_row item.to sublabel s))
      → All P m.results
      → All P (push_item f q item m).results
  push_item-All f q item m p h = go (is_shown f item.permission) refl item.scope
    where
      go :
          (b : Bool)
          → is_shown f item.permission ≡ b
          → (scope : Option Scope)
          → All P
              (if b
                then elim scope [
                  | none ↦ m
                  | some scope ↦
                      push_matches item.to
                        (f.resolve_label item.group)
                        (scoped_matches f.lower (f.bundle scope.namespace) scope.paths q)
                        m
                ]
                else m).results
      go false e scope = h
      go true e none = h
      go true e (some scope) =
          push_matches-All item.to (f.resolve_label item.group)
            (scoped_matches f.lower (f.bundle scope.namespace) scope.paths q) m
            (p e (f.resolve_label item.group)) h

  pub push_items-All :
      (f : Platform) (q : String) (items : List SearchItem) (m : Matches)
      → AllIf
          (λ item. (sublabel s : String) → P (match_row item.to sublabel s))
          (λ item. is_shown f item.permission)
          items
      → All P m.results
      → All P (push_items f q items m).results
  push_items-All f q [] m p h = h
  push_items-All f q (item ∷ rest) m (p, ps) h =
      push_items-All f q rest _ ps (push_item-All f q item m p h)

  pub push_permissions-All :
      (f : Platform) (q : String) (catalog : List PermissionEntry) (m : Matches)
      → All (λ entry. P (permission_row f entry)) catalog
      → All P m.results
      → All P (push_permissions f q catalog m).results
  push_permissions-All f q [] m p h = h
  push_permissions-All f q (entry ∷ rest) m (p, ps) h =
      push_permissions-All f q rest _ ps (go (contains (f.lower (permission_text entry)) q))
    where
      key : String
      key = entry.action +++ (":" +++ entry.resource_type)

      go : (b : Bool) → All P (if b then push key (permission_row f entry) m else m).results
      go true = push-All key (permission_row f entry) m p h
      go false = h
