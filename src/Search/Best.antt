-- ===== src/Search/Best.antt =====
-- Which result the palette shows first, on the memo `filtered` of
-- frontend/src/mystic_auth/layout/command_palette/CommandPaletteResults.ts.
use manifest_cv.Prelude.{
  ◌≡◌, refl, sym, ap, ◌∙◌, ℕ, suc, ◌-◌, ◌≤◌, ◌<◌, String, List, [], ◌∷◌, ◌++◌, map, Bool, true,
  false, length, All, All-append, ◌==◌, string_eq, if◌then◌else◌, arith, sort, sum_by, Sorted,
  sort-Sorted, length-sort, All-mono, subst, length-append, sort-All, All-sort,
}
use manifest_cv.Policies.Grants.{upsert, group_by_resource_type}
use manifest_cv.Search.Palette.{Result}
use manifest_cv.Search.Ranking.{
  relevance, Ranked, ranked_from, groups_by_kind, min_relevance, group_priority, le_pair, group_le,
  item_le, flat_results, rank_results, kind_key, sum_by-rank_results,
}

relevance-le : (lower : String → String) (q : String) (r : Result) → relevance lower q r ≤ 4
unfolding relevance
relevance-le lower q r = ground arith

le_pair_total : (a b c d : ℕ) → le_pair a b c d ≡ false → le_pair c d a b ≡ true
le_pair_total a b c d h = ground arith

le_pair_trans :
    (a b c d e f : ℕ) → le_pair a b c d ≡ true → le_pair c d e f ≡ true → le_pair a b e f ≡ true
le_pair_trans a b c d e f h k = ground arith

le_pair-le : (a b c d : ℕ) → le_pair a b c d ≡ true → a ≤ c
le_pair-le a b c d h = ground arith

module _ (lower : String → String) (q : String) where
  -- The item holds its result's relevance.
  Scored : Ranked → Type 0
  Scored item = item.relevance ≡ relevance lower q item.result

  -- What holds of a group of the map.
  IsGroup : List Ranked → Type 0
  unfolding Scored
  IsGroup group = All Scored group × (0 < length group)

  upsert-IsGroup :
      (key : String) (item : Ranked) (groups : List (String × List Ranked))
      → Scored item
      → All (λ g. IsGroup g.1) groups
      → All (λ g. IsGroup g.1) (upsert key (λ group. group ++ item ∷ []) (item ∷ []) groups)
  unfolding IsGroup
  upsert-IsGroup key item [] s h = (((s, tt), omega arith), tt)
  upsert-IsGroup key item ((k, group) ∷ rest) s (g, h) =
      go (k == key) (upsert-IsGroup key item rest s h)
    where
      longer : 0 < length group → 0 < length (group ++ item ∷ [])
      longer l = omega (arith, length-append group (item ∷ []))

      go :
          (b : Bool)
          → All (λ g. IsGroup g.1) (upsert key (λ group. group ++ item ∷ []) (item ∷ []) rest)
          → All
              (λ g. IsGroup g.1)
              (if b
                then (k, group ++ item ∷ []) ∷ rest
                else (k, group) ∷ upsert key (λ group. group ++ item ∷ []) (item ∷ []) rest)
      go true ih = ((All-append Scored group (item ∷ []) g.0 (s, tt), longer g.1), h)
      go false ih = (g, ih)

  group_by_resource_type-IsGroup :
      (items : List Ranked) (groups : List (String × List Ranked))
      → All Scored items
      → All (λ g. IsGroup g.1) groups
      → All
          (λ g. IsGroup g.1)
          (group_by_resource_type (λ item. kind_key item.result.kind) items groups)
  unfolding group_by_resource_type
  group_by_resource_type-IsGroup [] groups s h = h
  group_by_resource_type-IsGroup (item ∷ rest) groups (s, k) h =
      group_by_resource_type-IsGroup rest _ k
        (upsert-IsGroup (kind_key item.result.kind) item groups s h)

  ranked_from-Scored : (index : ℕ) (rs : List Result) → All Scored (ranked_from lower q index rs)
  unfolding Scored
  ranked_from-Scored index [] = tt
  ranked_from-Scored index (r ∷ rest) = (refl, ranked_from-Scored (suc index) rest)

  -- The least relevance is below every item's, and is reached.
  min_relevance-All :
      (m : ℕ) (items : List Ranked)
      → m ≤ min_relevance items
      → All (λ item. m ≤ item.relevance) items
  min_relevance-All m [] h = tt
  min_relevance-All m (item ∷ rest) h = (omega arith, min_relevance-All m rest (omega arith))

  All-min_relevance :
      (m : ℕ) (items : List Ranked)
      → m ≤ 5
      → All (λ item. m ≤ item.relevance) items
      → m ≤ min_relevance items
  All-min_relevance m [] b h = b
  All-min_relevance m (item ∷ rest) b (k, h) = omega (arith, All-min_relevance m rest b h)

  -- A result is no better than a bound.
  Worse : ℕ → Result → Type 0
  Worse m r = m ≤ relevance lower q r

  results-Worse :
      (m : ℕ) (items : List Ranked)
      → All Scored items
      → All (λ item. m ≤ item.relevance) items
      → All (Worse m) (map (λ item. item.result) items)
  unfolding Worse Scored
  results-Worse m [] s h = tt
  results-Worse m (item ∷ rest) (e, s) (k, h) = (omega (arith, e), results-Worse m rest s h)

  flat_results-Worse :
      (m : ℕ) (groups : List (String × List Ranked))
      → All (λ g. IsGroup g.1) groups
      → All (λ g. m ≤ min_relevance g.1) groups
      → All (Worse m) (flat_results groups)
  unfolding IsGroup
  flat_results-Worse m [] g h = tt
  flat_results-Worse m ((k, group) ∷ rest) (g, gs) (l, ls) =
      All-append (Worse m) (map (λ item. item.result) (sort item_le group)) (flat_results rest)
        (results-Worse m (sort item_le group) (sort-All Scored item_le group g.0)
          (sort-All (λ item. m ≤ item.relevance) item_le group (min_relevance-All m group l)))
        (flat_results-Worse m rest gs ls)

  score_le : (item : Ranked) → Scored item → relevance lower q item.result ≤ 4 → item.relevance ≤ 5
  unfolding Scored
  score_le item e h = omega (arith, e)

  -- The first item of a sorted group is the least of the group.
  below_group :
      (item : Ranked) (more group : List Ranked)
      → sort item_le group ≡ item ∷ more
      → All (λ i. item.relevance ≤ i.relevance) group
  below_group item more group f =
      let sorted : Sorted item_le (item ∷ more) = subst (Sorted item_le) f (
        sort-Sorted item_le (λ x y h. le_pair_total x.relevance x.index y.relevance y.index h)
          (λ x y z h k.
            le_pair_trans x.relevance x.index y.relevance y.index z.relevance z.index h k)
          group) in
      All-sort (λ i. item.relevance ≤ i.relevance) item_le group
        (subst (All (λ i. item.relevance ≤ i.relevance)) (sym f) (
          omega arith,
          All-mono (λ i. item_le item i ≡ true) (λ i. item.relevance ≤ i.relevance)
              (λ i h. le_pair-le item.relevance item.index i.relevance i.index h) more sorted.0,
        ))

  first-Worse :
      (groups : List (String × List Ranked))
      → Sorted group_le groups
      → All (λ g. IsGroup g.1) groups
      → (r : Result) (rest : List Result) → flat_results groups ≡ r ∷ rest
      → All (Worse (relevance lower q r)) (flat_results groups)
  unfolding IsGroup Scored
  first-Worse [] o g r rest e = absurd (cc e)
  first-Worse ((k, group) ∷ others) (o, os) (g, gs) r rest e = go (sort item_le group) refl
    where
      go :
          (items : List Ranked)
          → sort item_le group ≡ items
          → All (Worse (relevance lower q r)) (flat_results ((k, group) ∷ others))
      go [] f = absurd (omega (arith, g.1, length-sort item_le group, ap (λ xs. length xs) f))
      go (item ∷ more) f =
          let below : All (λ i. item.relevance ≤ i.relevance) group =
            below_group item more group f in
          let score : Scored item = (subst (All Scored) f (sort-All Scored item_le group g.0)).0 in
          let bound = relevance-le lower q item.result in
          let least : item.relevance ≤ min_relevance group =
            All-min_relevance item.relevance group (score_le item score bound) below in
          let behind : All (λ h. item.relevance ≤ min_relevance h.1) others =
            All-mono (λ h. group_le (k, group) h ≡ true) (λ h. item.relevance ≤ min_relevance h.1)
              (λ h c. omega (
                arith,
                least,
                le_pair-le (min_relevance group) (group_priority group) (min_relevance h.1)
                    (group_priority h.1) c,
              ))
              others o in
          let worse =
            flat_results-Worse item.relevance ((k, group) ∷ others) (g, gs) (least, behind) in
          let top = subst (λ xs. map (λ i. i.result) xs ++ flat_results others ≡ r ∷ rest) f e in
          let same : item.result ≡ r = cc top in
          subst (λ m. All (Worse m) (flat_results ((k, group) ∷ others)))
            (score ∙ ap (λ x. relevance lower q x) same) worse

-- A sum of zeros.
module _ (f : Result → ℕ) where
  sum_by-zero : (rs : List Result) → sum_by f rs ≡ 0 → All (λ r. f r ≡ 0) rs
  unfolding sum_by
  sum_by-zero [] h = tt
  sum_by-zero (r ∷ rest) h = (omega arith, sum_by-zero rest (omega arith))

  zero-sum_by : (rs : List Result) → All (λ r. f r ≡ 0) rs → sum_by f rs ≡ 0
  unfolding sum_by
  zero-sum_by [] h = refl
  zero-sum_by (r ∷ rest) (k, h) = omega (arith, zero-sum_by rest h)

-- The result that is shown first is at least as relevant as every other candidate: none that matches
-- the query better stands below it, whatever its kind.
pub rank_results-best :
    (lower : String → String) (q : String) (candidates : List Result) (r : Result)
    (rest : List Result)
    → rank_results lower q candidates ≡ r ∷ rest
    → All (λ c. relevance lower q r ≤ relevance lower q c) candidates
unfolding rank_results groups_by_kind Worse IsGroup
rank_results-best lower q candidates r rest e =
    let groups = groups_by_kind (ranked_from lower q 0 candidates) in
    let sorted =
      sort-Sorted group_le
        (λ x y h.
          le_pair_total (min_relevance x.1) (group_priority x.1) (min_relevance y.1)
            (group_priority y.1) h)
        (λ x y z h k.
          le_pair_trans (min_relevance x.1) (group_priority x.1) (min_relevance y.1)
            (group_priority y.1) (min_relevance z.1) (group_priority z.1) h k)
        groups in
    let good =
      sort-All (λ g. IsGroup lower q g.1) group_le groups
        (group_by_resource_type-IsGroup lower q (ranked_from lower q 0 candidates) []
          (ranked_from-Scored lower q 0 candidates) tt) in
    let shown = first-Worse lower q (sort group_le groups) sorted good r rest e in
    let zeros = zero-sum_by better (rank_results lower q candidates) (
      All-mono (λ c. bound ≤ relevance lower q c) (λ c. better c ≡ 0) (λ c h. worse_zero c h)
        (rank_results lower q candidates) shown) in
    All-mono (λ c. better c ≡ 0) (λ c. bound ≤ relevance lower q c) (λ c h. zero_worse c h)
      candidates
      (sum_by-zero better candidates (sym (sum_by-rank_results better lower q candidates) ∙ zeros))
  where
    bound : ℕ
    bound = relevance lower q r

    better : Result → ℕ
    better c = bound - relevance lower q c

    worse_zero : (c : Result) → bound ≤ relevance lower q c → better c ≡ 0
    worse_zero c h = omega arith

    zero_worse : (c : Result) → better c ≡ 0 → bound ≤ relevance lower q c
    zero_worse c h = omega arith
