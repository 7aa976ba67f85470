-- ===== src/Resume/Layout/Visit.antt =====
-- `for (const page of pages) for (const row of page.rows) { … }` with `continue` and `return`.
use manifest_cv.Prelude.{List, [], ◌∷◌, ◌≡◌, refl, subst}
use manifest_cv.Resume.Document.{Row, Page, ResumeDocument}

-- What the loop's body makes of one entry: go on, give up with the old document, or stop with a
-- changed entry.
pub data Visit {ℓ} (A : Type ℓ) : Type ℓ where
  passed stopped : Visit A
  changed : A → Visit A

abbrev pub Visit_map {ℓ κ} : {A : Type ℓ} {B : Type κ} → (A → B) → Visit A → Visit B
Visit_map f passed = passed
Visit_map f stopped = stopped
Visit_map f (changed a) = changed (f a)

unfoldable pub visit {ℓ} : {A : Type ℓ} → (A → Visit A) → List A → Visit (List A)
visit f [] = passed
visit f (x ∷ xs) = elim (f x) [
  | passed ↦ Visit_map (x ∷◌) (visit f xs)
  | stopped ↦ stopped
  | changed y ↦ changed (y ∷ xs)
]

unfoldable pub visit_page : (Row → Visit Row) → Page → Visit Page
unfolding visit
visit_page f page = Visit_map (λ rows. record page { rows = rows }) (visit f page.rows)

-- The document after the loop.
unfoldable pub visit_document : (Row → Visit Row) → ResumeDocument → ResumeDocument
unfolding visit_page visit
visit_document f document = elim (visit (visit_page f) document.pages) [
  | passed ↦ document
  | stopped ↦ document
  | changed pages ↦ record document { pages = pages }
]

-- Two lists are related entry by entry.
module _ {ℓ} {A : Type ℓ} (R : A → A → Type 0) where
  abbrev pub All₂ : List A → List A → Type 0
  All₂ [] [] = Unit
  All₂ (x ∷ xs) (y ∷ ys) = R x y × All₂ xs ys
  All₂ _ _ = ⊥

module _ {ℓ} {A : Type ℓ} (R : A → A → Type 0) (same : (x : A) → R x x) where
  pub All₂-refl : (xs : List A) → All₂ R xs xs
  All₂-refl [] = tt
  All₂-refl (x ∷ xs) = (same x, All₂-refl xs)

  pub visit-All₂ :
      (f : A → Visit A)
      → ((x y : A) → f x ≡ changed y → R x y)
      → (xs ys : List A) → visit f xs ≡ changed ys
      → All₂ R xs ys
  unfolding visit
  visit-All₂ f keep [] ys e = cc
  visit-All₂ f keep (x ∷ xs) ys e = go (f x) (visit f xs) refl (λ zs. visit-All₂ f keep xs zs) e
    where
      go :
          (v : Visit A) (w : Visit (List A))
          → f x ≡ v
          → ((zs : List A) → w ≡ changed zs → All₂ R xs zs)
          → (elim v [
            | passed ↦ Visit_map (x ∷◌) w
            | stopped ↦ stopped
            | changed y ↦ changed (y ∷ xs)
          ])
            ≡ changed ys
          → All₂ R (x ∷ xs) ys
      go passed passed p rest q = cc
      go passed stopped p rest q = cc
      go passed (changed zs) p rest q =
          let same_list : x ∷ zs ≡ ys = cc in
          subst (All₂ R (x ∷ xs)) same_list (same x, rest zs refl)
      go stopped w p rest q = cc
      go (changed y) w p rest q =
          let same_list : y ∷ xs ≡ ys = cc in
          subst (All₂ R (x ∷ xs)) same_list (keep x y p, All₂-refl xs)

-- A relation between rows, lifted to documents that differ in their rows alone.
abbrev pub PageRel : (Row → Row → Type 0) → Page → Page → Type 0
PageRel R p q = (q.id ≡ p.id) × All₂ R p.rows q.rows

pub record DocumentRel (R : Row → Row → Type 0) (d e : ResumeDocument) : Type 0 where
  pub pages : All₂ (PageRel R) d.pages e.pages
  pub blocks : e.blocks ≡ d.blocks
  pub style : e.style ≡ d.style
  pub paper : e.paper ≡ d.paper

module _ (R : Row → Row → Type 0) (same : (r : Row) → R r r) where
  PageRel-refl : (p : Page) → PageRel R p p
  PageRel-refl p = (refl, All₂-refl R same p.rows)

  visit_page-PageRel :
      (f : Row → Visit Row)
      → ((r r' : Row) → f r ≡ changed r' → R r r')
      → (p q : Page) → visit_page f p ≡ changed q
      → PageRel R p q
  unfolding visit_page
  visit_page-PageRel f keep p q e = go (visit f p.rows) refl e
    where
      go :
          (v : Visit (List Row))
          → visit f p.rows ≡ v
          → Visit_map (λ rows. record p { rows = rows }) v ≡ changed q
          → PageRel R p q
      go passed e h = cc
      go stopped e h = cc
      go (changed rows) e h =
          let same_page : record p { rows = rows } ≡ q = cc in
          subst (PageRel R p) same_page (refl, visit-All₂ R same f keep p.rows rows e)

  -- The loop changes nothing but rows, each as its body does.
  pub visit_document-DocumentRel :
      (f : Row → Visit Row)
      → ((r r' : Row) → f r ≡ changed r' → R r r')
      → (d : ResumeDocument) → DocumentRel R d (visit_document f d)
  unfolding visit_document
  visit_document-DocumentRel f keep d = go (visit (visit_page f) d.pages) refl
    where
      unchanged : DocumentRel R d d
      unchanged = record {
        pages = All₂-refl (PageRel R) PageRel-refl d.pages;
        blocks = refl;
        style = refl;
        paper = refl;
      }

      go :
          (v : Visit (List Page))
          → visit (visit_page f) d.pages ≡ v
          → DocumentRel R d
              (elim v [ passed ↦ d | stopped ↦ d | changed pages ↦ record d { pages = pages } ])
      go passed e = unchanged
      go stopped e = unchanged
      go (changed pages) e = record {
        pages =
            visit-All₂ (PageRel R) PageRel-refl (visit_page f) (visit_page-PageRel f keep) d.pages
              pages e;
        blocks = refl;
        style = refl;
        paper = refl;
      }

pub blocks-visit_document :
    (f : Row → Visit Row) (d : ResumeDocument) → (visit_document f d).blocks ≡ d.blocks
blocks-visit_document f d =
    (visit_document-DocumentRel (λ _ _. Unit {0}) (λ _. tt) f (λ _ _ _. tt) d).blocks
