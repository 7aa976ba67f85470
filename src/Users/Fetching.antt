-- ===== src/Users/Fetching.antt =====
-- `fetchAllMatchingUserEmails`, frontend/src/mystic_auth/users/queries/userQueries.ts: the loop that
-- pages through the list of users. What `listUsersApi` answers at an offset is a function.
use manifest_cv.Prelude.{
  ◌≡◌, refl, sym, ap, ◌∙◌, ℕ, zero, suc, ◌+◌, ◌-◌, ◌*◌, ◌≤◌, ◌<◌, min, String, List, [], ◌∷◌, ◌++◌,
  Option, some, none, Bool, Bool-cases, inl, inr, true, false, ltb, leb, length, take, drop,
  length-append, length-take, length-drop, take_all, if◌then◌else◌, arith,
}

abbrev pub select_all_matching_max : ℕ
select_all_matching_max = 2000

abbrev pub page_size : ℕ
page_size = 1000

-- `res.data` as emails, and the `X-Total-Count` header where it is a number.
pub record UserPage : Type 0 where
  pub emails : List String
  pub total : Option ℕ

-- A rejected request has no page.
abbrev pub ListUsers : Type 0
ListUsers = ℕ → Option UserPage

-- `pending` is a loop that has run out of fuel.
pub data Fetch : Type 0 where
  fetched : List String → Fetch
  too_many rejected pending : Fetch

-- `!Number.isFinite(total) || emails.length >= total || res.data.length === 0`.
abbrev pub is_last : UserPage → List String → Bool
is_last page emails = elim page.total [
  | none ↦ true
  | some total ↦ if leb total (length emails) then true else leb (length page.emails) 0
]

unfoldable pub fetch_from : ListUsers → ℕ → ℕ → List String → Fetch
fetch_from list_users zero offset emails = pending
fetch_from list_users (suc fuel) offset emails = elim (list_users offset) [
  | none ↦ rejected
  | some page ↦ elim (ltb select_all_matching_max (length (emails ++ page.emails))) [
    | true ↦ too_many
    | false ↦ elim (is_last page (emails ++ page.emails)) [
      | true ↦ fetched (emails ++ page.emails)
      | false ↦ fetch_from list_users fuel (offset + page_size) (emails ++ page.emails)
    ]
  ]
]

-- Every round but the last adds an email, and there are at most 2000.
unfoldable pub fetch_all_matching_user_emails : ListUsers → Fetch
unfolding fetch_from
fetch_all_matching_user_emails list_users =
    fetch_from list_users (suc (suc select_all_matching_max)) 0 []

-- The loop has ended, and no more emails are selected than may be.
abbrev pub Ends : Fetch → Type 0
Ends (fetched emails) = length emails ≤ select_all_matching_max
Ends too_many = Unit
Ends rejected = Unit
Ends pending = ⊥

-- A page that is not the last one has an email.
is_last-grows :
    (page : UserPage) (emails : List String) (fuel : ℕ)
    → is_last page (emails ++ page.emails) ≡ false
    → select_all_matching_max < length emails + suc fuel
    → select_all_matching_max < length (emails ++ page.emails) + fuel
is_last-grows page emails fuel l h = go page.total (length-append emails page.emails) l
  where
    go :
        (total : Option ℕ)
        → length (emails ++ page.emails) ≡ length emails + length page.emails
        → elim total [
          | none ↦ true
          | some total ↦
              if leb total (length (emails ++ page.emails))
              then true
              else leb (length page.emails) 0
        ]
          ≡ false
        → select_all_matching_max < length (emails ++ page.emails) + fuel
    go none e f = absurd (cc f)
    go (some total) e f = ground arith

-- A further round has a page with an email, so that fewer remain to be added.
fetch_from-Ends :
    (list_users : ListUsers) (fuel offset : ℕ) (emails : List String)
    → select_all_matching_max < length emails + fuel
    → length emails ≤ select_all_matching_max
    → Ends (fetch_from list_users fuel offset emails)
unfolding fetch_from
fetch_from-Ends list_users zero offset emails h k = absurd (omega arith)
fetch_from-Ends list_users (suc fuel) offset emails h k =
    go (λ o xs a b. fetch_from-Ends list_users fuel o xs a b) (list_users offset)
  where
    go :
        ((o : ℕ) (xs : List String)
          → select_all_matching_max < length xs + fuel
          → length xs ≤ select_all_matching_max
          → Ends (fetch_from list_users fuel o xs))
        → (answer : Option UserPage)
        → Ends (elim answer [
          | none ↦ rejected
          | some page ↦ elim (ltb select_all_matching_max (length (emails ++ page.emails))) [
            | true ↦ too_many
            | false ↦ elim (is_last page (emails ++ page.emails)) [
              | true ↦ fetched (emails ++ page.emails)
              | false ↦ fetch_from list_users fuel (offset + page_size) (emails ++ page.emails)
            ]
          ]
        ])
    go again none = tt
    go again (some page) =
        elim (Bool-cases (ltb select_all_matching_max (length (emails ++ page.emails)))) [
          | inl o ↦ rw (o) tt
          | inr o ↦ rw (o) (elim (Bool-cases (is_last page (emails ++ page.emails))) [
            | inl l ↦ rw (l) (ground arith)
            | inr l ↦ rw (l) (
                again (offset + page_size) (emails ++ page.emails)
                  (is_last-grows page emails fuel l h) (ground arith))
          ])
        ]

-- Whatever the server answers, the loop ends, and what it selects is at most 2000 emails.
pub fetch_all_matching_user_emails-Ends :
    (list_users : ListUsers) → Ends (fetch_all_matching_user_emails list_users)
unfolding fetch_all_matching_user_emails
fetch_all_matching_user_emails-Ends list_users =
    fetch_from-Ends list_users (suc (suc select_all_matching_max)) 0 [] (omega arith) (omega arith)

suc_left : (m n : ℕ) → suc (m + n) ≡ suc m + n
suc_left m n = omega arith

take_add : (m n : ℕ) (xs : List String) → take m xs ++ take n (drop m xs) ≡ take (m + n) xs
take_add zero n xs = ap (λ m. take m xs) (omega arith)
take_add (suc m) n [] = empty n ∙ sym (empty (suc m + n))
  where
    empty : (n : ℕ) → take {A = String} n [] ≡ []
    empty zero = refl
    empty (suc n) = refl
take_add (suc m) n (x ∷ xs) = ap (x ∷◌) (take_add m n xs) ∙ ap (λ k. take k (x ∷ xs)) (suc_left m n)

-- The page at an offset of a list that does not change meanwhile.
abbrev pub page_of : List String → ℕ → UserPage
page_of all offset = record { emails = take page_size (drop offset all); total = some (length all) }

-- Whether the list is too long shows in the part of it up to an offset, or in the whole of it.
too_long : (m n all : ℕ) → n ≡ min m all → ltb 2000 n ≡ true → ltb 2000 all ≡ true
too_long m n all e h = ground arith

fits : (m n all : ℕ) → n ≡ min m all → all ≤ m → ltb 2000 n ≡ false → ltb 2000 all ≡ false
fits m n all e l h = ground arith

-- The last page reaches the end of the list.
last_reaches :
    (offset n rest all : ℕ)
    → n ≡ min (offset + 1000) all
    → rest ≡ min 1000 (all - offset)
    → (if leb all n then true else leb rest 0) ≡ true
    → all ≤ offset + 1000
last_reaches offset n rest all e r h = ground arith

goes_on :
    (offset n rest all : ℕ)
    → n ≡ min (offset + 1000) all
    → (if leb all n then true else leb rest 0) ≡ false
    → ltb 2000 n ≡ false
    → offset + 1000 ≤ 2000
goes_on offset n rest all e h l = ground arith

-- The emails before the offset are there.
fetch_from-selects :
    (list_users : ListUsers) (all : List String)
    → ((offset : ℕ) → list_users offset ≡ some (page_of all offset))
    → (fuel offset : ℕ) → offset ≤ select_all_matching_max
    → select_all_matching_max < offset + page_size * fuel
    → fetch_from list_users fuel offset (take offset all)
      ≡ (if ltb select_all_matching_max (length all) then too_many else fetched all)
unfolding fetch_from
fetch_from-selects list_users all h zero offset o k = absurd (omega arith)
fetch_from-selects list_users all h (suc fuel) offset o k =
    rw (h offset, fetch_from)
      (go (λ a. fetch_from-selects list_users all h fuel (offset + page_size) a (omega arith))
        (take offset all ++ take page_size (drop offset all)) (take_add offset page_size all))
  where
    result : Fetch
    result = if ltb select_all_matching_max (length all) then too_many else fetched all

    go :
        (offset + page_size ≤ select_all_matching_max
          → fetch_from list_users fuel (offset + page_size) (take (offset + page_size) all)
            ≡ result)
        → (xs : List String) → xs ≡ take (offset + page_size) all
        → elim (ltb select_all_matching_max (length xs)) [
          | true ↦ too_many
          | false ↦ elim (is_last (page_of all offset) xs) [
            | true ↦ fetched xs
            | false ↦ fetch_from list_users fuel (offset + page_size) xs
          ]
        ]
          ≡ result
    go again xs e =
        let n : length xs ≡ min (offset + page_size) (length all) =
          ap (λ ys. length ys) e ∙ length-take (offset + page_size) all in
        let rest : length (take page_size (drop offset all)) ≡ min page_size (length all - offset) =
          length-take page_size (drop offset all)
          ∙ ap (λ m. min page_size m) (length-drop offset all) in
        elim (Bool-cases (ltb select_all_matching_max (length xs))) [
          | inl t ↦ rw (t, too_long (offset + page_size) (length xs) (length all) n t) refl
          | inr t ↦ rw (t) (elim (Bool-cases (is_last (page_of all offset) xs)) [
            | inl l ↦
                let short = last_reaches offset (length xs) _ (length all) n rest l in
                rw (l, fits (offset + page_size) (length xs) (length all) n short t)
                  (ap fetched (e ∙ take_all (offset + page_size) all short))
            | inr l ↦ rw (l) (
                ap (λ ys. fetch_from list_users fuel (offset + page_size) ys) e
                ∙ again (goes_on offset (length xs) _ (length all) n l t))
          ])
        ]

-- Where each page is the part of one list at the page's offset and the header holds the list's length,
-- exactly the whole list is selected, and none of it if it has more than 2000 emails.
pub fetch_all_matching_user_emails-selects :
    (list_users : ListUsers) (all : List String)
    → ((offset : ℕ) → list_users offset ≡ some (page_of all offset))
    → fetch_all_matching_user_emails list_users
      ≡ (if ltb select_all_matching_max (length all) then too_many else fetched all)
unfolding fetch_all_matching_user_emails
fetch_all_matching_user_emails-selects list_users all h =
    fetch_from-selects list_users all h (suc (suc select_all_matching_max)) 0 (omega arith)
      (omega arith)
