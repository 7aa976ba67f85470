-- ===== src/Search/Occurrences.antt =====
-- Which texts of a bundle the search of frontend/src/mystic_auth/translations/searchText.ts finds, told
-- without its walks: a text stands below a path if the path's keys lead, each to the first field of its
-- name, to a tree that holds it.
use manifest_cv.Prelude.{
  ◌≡◌, ◌≢◌, ◌↔◌, ◌⊎◌, inl, inr, refl, subst, ◌∙◌, sym, String, List, [], ◌∷◌, ◌++◌, Bool, true,
  false, not, ◌&&◌, ◌||◌, includes, includes-append, Bool-cases, ◌==◌, string_eq, eq_iff, arith,
}
use manifest_cv.Search.Text.{
  Node, text, object, other, Fields, end, field, contains, flatten_values, flatten_fields, field_at,
  get_path, values_at, scoped_matches, includes-scoped_matches,
}

unfoldable mutual
  pub Holds : Node → String → Type 0
  Holds (text t) s = t ≡ s
  Holds (object fields) s = HoldsIn fields s
  Holds other s = ⊥

  pub HoldsIn : Fields → String → Type 0
  HoldsIn end s = ⊥
  HoldsIn (field key node rest) s = Holds node s ⊎ HoldsIn rest s

-- The first field of a name, and below it the property.
abbrev pub AtField : Fields → String → (Node → Type 0) → Type 0
AtField end key P = ⊥
AtField (field k node rest) key P = ((k ≡ key) × P node) ⊎ ((k ≢ key) × AtField rest key P)

unfoldable pub Below : Node → List String → String → Type 0
unfolding Holds
Below node [] s = Holds node s
Below (text t) (key ∷ path) s = ⊥
Below (object fields) (key ∷ path) s = AtField fields key (λ node. Below node path s)
Below other (key ∷ path) s = ⊥

-- Below some path of a list.
unfoldable pub BelowAny : Node → List (List String) → String → Type 0
unfolding Below
BelowAny bundle [] s = ⊥
BelowAny bundle (path ∷ paths) s = Below bundle path s ⊎ BelowAny bundle paths s

or_iff : (a b : Bool) → ((a || b) ≡ true) ↔ ((a ≡ true) ⊎ (b ≡ true))
or_iff true b = (λ h. inl refl, λ h. refl)
or_iff false b = (λ h. inr h, λ h. elim h [ inl e ↦ absurd (cc e) | inr e ↦ e ])

and_both : (a b : Bool) → (a && b) ≡ true → (a ≡ true) × (b ≡ true)
and_both a b h = (ground arith, ground arith)

and_of : {a b : Bool} → a ≡ true → b ≡ true → (a && b) ≡ true
and_of {a} {b} h k = ground (arith, h, k)

false_of_negated : (a : Bool) → not a ≡ true → a ≡ false
false_of_negated a h = ground arith

module _ {P Q : Type 0} (a b : Bool) (f : (a ≡ true) ↔ P) (g : (b ≡ true) ↔ Q) where
  or_either : ((a || b) ≡ true) ↔ (P ⊎ Q)
  or_either = (
    λ h. elim ((or_iff a b).0 h) [ inl e ↦ inl (f.0 e) | inr e ↦ inr (g.0 e) ],
    λ h. (or_iff a b).1 (elim h [ inl p ↦ inl (f.1 p) | inr q ↦ inr (g.1 q) ]),
  )

module _ (s : String) where
  abbrev InValues : List String → Type 0
  InValues values = includes values s ≡ true

  in_append :
      {P Q : Type 0} (xs ys : List String)
      → (InValues xs ↔ P)
      → (InValues ys ↔ Q)
      → InValues (xs ++ ys) ↔ (P ⊎ Q)
  in_append xs ys f g =
      let same = includes-append xs ys s in
      let both = or_either (includes xs s) (includes ys s) f g in
      (λ h. both.0 (sym same ∙ h), λ h. same ∙ both.1 h)

  mutual
    unfolding flatten_values includes Holds

    flatten_values-Holds : (node : Node) → InValues (flatten_values node) ↔ Holds node s
    flatten_values-Holds (text t) = (
      λ h. elim ((or_iff (t == s) false).0 h) [ inl e ↦ (eq_iff t s).0 e | inr e ↦ absurd (cc e) ],
      λ h. (or_iff (t == s) false).1 (inl ((eq_iff t s).1 h)),
    )
    flatten_values-Holds (object fields) = flatten_fields-HoldsIn fields
    flatten_values-Holds other = (λ h. absurd (cc h), λ h. absurd h)

    flatten_fields-HoldsIn : (fields : Fields) → InValues (flatten_fields fields) ↔ HoldsIn fields s
    flatten_fields-HoldsIn end = (λ h. absurd (cc h), λ h. absurd h)
    flatten_fields-HoldsIn (field key node rest) =
        in_append (flatten_values node) (flatten_fields rest) (flatten_values-Holds node)
          (flatten_fields-HoldsIn rest)

  get_path_other : (path : List String) → get_path other path ≡ other
  unfolding get_path
  get_path_other [] = refl
  get_path_other (key ∷ path) = get_path_other path

  nothing_below : (path : List String) → Holds (get_path other path) s → ⊥
  unfolding Holds
  nothing_below path h = subst (λ node. Holds node s) (get_path_other path) h

  get_path-Below :
      (node : Node) (path : List String) → Holds (get_path node path) s ↔ Below node path s
  unfolding get_path Below
  get_path-Below node [] = (λ h. h, λ h. h)
  get_path-Below (text t) (key ∷ path) = (nothing_below path, λ h. absurd h)
  get_path-Below other (key ∷ path) = (nothing_below path, λ h. absurd h)
  get_path-Below (object fields) (key ∷ path) = go (λ n. get_path-Below n path) fields
    where
      go :
          ((n : Node) → Holds (get_path n path) s ↔ Below n path s)
          → (fs : Fields)
          → Holds (get_path (field_at fs key) path) s ↔ AtField fs key (λ n. Below n path s)
      go deep end = (nothing_below path, λ h. absurd h)
      go deep (field k n rest) = elim (Bool-cases (k == key)) [
        | inl e ↦ rw (e) (
          λ h. inl ((eq_iff k key).0 e, (deep n).0 h),
          λ h. elim h [
            | inl (_, b) ↦ (deep n).1 b
            | inr (ne, b) ↦ absurd (ne ((eq_iff k key).0 e))
          ],
        )
        | inr e ↦ rw (e) (
          λ h. inr (λ same. absurd (cc (sym e ∙ (eq_iff k key).1 same)), (go deep rest).0 h),
          λ h. elim h [
            | inl (same, b) ↦ absurd (cc (sym e ∙ (eq_iff k key).1 same))
            | inr (ne, b) ↦ (go deep rest).1 b
          ],
        )
      ]

  values_at-BelowAny :
      (bundle : Node) (paths : List (List String))
      → InValues (values_at bundle paths) ↔ BelowAny bundle paths s
  unfolding BelowAny includes
  values_at-BelowAny bundle [] = (λ h. absurd (cc h), λ h. absurd h)
  values_at-BelowAny bundle (path ∷ paths) =
      let held = flatten_values-Holds (get_path bundle path) in
      let below = get_path-Below bundle path in
      in_append (flatten_values (get_path bundle path)) (values_at bundle paths)
        (λ h. below.0 (held.0 h), λ b. held.1 (below.1 b)) (values_at-BelowAny bundle paths)

-- A text is among the matches of some paths of a bundle exactly if it stands below one of them, its lower
-- case contains the query's, and it holds no unresolved placeholder.
pub scoped_matches-Below_iff :
    (lower : String → String) (bundle : Node) (paths : List (List String)) (query s : String)
    → (includes (scoped_matches lower bundle paths query) s ≡ true) ↔ (
        BelowAny bundle paths s
        × (contains (lower s) (lower query) ≡ true)
        × (contains s "{{" ≡ false))
scoped_matches-Below_iff lower bundle paths query s =
    let same = includes-scoped_matches lower bundle paths query s in
    let below = values_at-BelowAny s bundle paths in
    (
      λ h.
          let (a, b) = and_both (includes (values_at bundle paths) s) _ (sym same ∙ h) in
          let (c, d) = and_both (contains (lower s) (lower query)) _ b in
          (below.0 a, c, false_of_negated (contains s "{{") d),
      λ (b, c, d). same ∙ and_of (below.1 b) (and_of c (ground (arith, d))),
    )
