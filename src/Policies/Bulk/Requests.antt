-- ===== src/Policies/Bulk/Requests.antt =====
-- Which requests the bulk loops send, for
-- frontend/src/mystic_auth/policies/queries/bulkAssignmentMutations.ts.
use manifest_cv.Prelude.{
  ◌≡◌, refl, ap, ◌∙◌, ℕ, zero, suc, ◌≤◌, ◌<◌, String, List, [], ◌∷◌, ◌++◌, some, length, take, drop,
  length-take, length-drop, All, arith,
}
use manifest_cv.Policies.Bulk.{
  BulkResponse, merge, BulkRequest, Api, BulkRun, with_sent, chunk, chunk_from, run_chunks,
  run_chunked_bulk, bulk_request_chunk_size, empty_response,
}

module _ {ℓ} {A : Type ℓ} where
  take-drop : (n : ℕ) (xs : List A) → take n xs ++ drop n xs ≡ xs
  take-drop zero xs = refl
  take-drop (suc n) [] = refl
  take-drop (suc n) (x ∷ xs) = ap (x ∷◌) (take-drop n xs)

  abbrev flat : List (List A) → List A
  flat [] = []
  flat (xs ∷ rest) = xs ++ flat rest

  flat-chunk_from :
      (fuel size : ℕ) (items : List A)
      → length items ≤ fuel
      → 0 < size
      → flat (chunk_from fuel size items) ≡ items
  unfolding chunk_from
  flat-chunk_from zero size [] h s = refl
  flat-chunk_from zero size (x ∷ rest) h s = absurd (omega arith)
  flat-chunk_from (suc fuel) size [] h s = refl
  flat-chunk_from (suc fuel) size (x ∷ rest) h s =
      ap (λ ys. take size (x ∷ rest) ++ ys)
        (flat-chunk_from fuel size (drop size (x ∷ rest))
          (omega (arith, length-drop size (x ∷ rest))) s)
      ∙ take-drop size (x ∷ rest)

  -- A chunk is not empty and not too large.
  abbrev IsChunk : ℕ → List A → Type 0
  IsChunk size items = (0 < length items) × (length items ≤ size)

  chunk_from-IsChunk :
      (fuel size : ℕ) (items : List A) → 0 < size → All (IsChunk size) (chunk_from fuel size items)
  unfolding chunk_from
  chunk_from-IsChunk zero size items s = tt
  chunk_from-IsChunk (suc fuel) size [] s = tt
  chunk_from-IsChunk (suc fuel) size (x ∷ rest) s = (
    (omega (arith, length-take size (x ∷ rest)), omega (arith, length-take size (x ∷ rest))),
    chunk_from-IsChunk fuel size (drop size (x ∷ rest)) s,
  )

module _ {A : Type 0} where
  abbrev pub all_emails : List (BulkRequest A) → List String
  all_emails [] = []
  all_emails (request ∷ rest) = request.emails ++ all_emails rest

  abbrev pub Fits : BulkRequest A → Type 0
  Fits request = (0 < length request.emails) × (length request.emails ≤ bulk_request_chunk_size)

  abbrev pub merge_all :
      (BulkRequest A → BulkResponse) → List (BulkRequest A) → BulkResponse → BulkResponse
  merge_all answer [] merged = merged
  merge_all answer (request ∷ rest) merged = merge_all answer rest (merge merged (answer request))

  abbrev requests_for : A → List (List String) → List (BulkRequest A)
  requests_for asked [] = []
  requests_for asked (emails ∷ rest) =
      record { asked = asked; emails = emails } ∷ requests_for asked rest

  all_emails-requests_for :
      (asked : A) (chunks : List (List String))
      → all_emails (requests_for asked chunks) ≡ flat chunks
  all_emails-requests_for asked [] = refl
  all_emails-requests_for asked (emails ∷ rest) =
      ap (λ ys. emails ++ ys) (all_emails-requests_for asked rest)

  requests_for-Fits :
      (asked : A) (chunks : List (List String))
      → All (IsChunk bulk_request_chunk_size) chunks
      → All Fits (requests_for asked chunks)
  requests_for-Fits asked [] h = tt
  requests_for-Fits asked (emails ∷ rest) (c, h) = (c, requests_for-Fits asked rest h)

  -- A server that rejects nothing.
  abbrev pub answers : (BulkRequest A → BulkResponse) → Api A
  answers answer request = some (answer request)

  abbrev full_run :
      (BulkRequest A → BulkResponse) → A → List (List String) → BulkResponse → BulkRun A
  full_run answer asked chunks merged = record {
    sent = requests_for asked chunks;
    response = some (merge_all answer (requests_for asked chunks) merged);
  }

  run_chunks-answers :
      (answer : BulkRequest A → BulkResponse) (asked : A) (chunks : List (List String))
      (merged : BulkResponse)
      → run_chunks (answers answer) asked chunks merged ≡ full_run answer asked chunks merged
  unfolding run_chunks
  run_chunks-answers answer asked [] merged = refl
  run_chunks-answers answer asked (emails ∷ rest) merged =
      ap (λ run. with_sent (record { asked = asked; emails = emails }) run)
        (run_chunks-answers answer asked rest
          (merge merged (answer (record { asked = asked; emails = emails }))))

-- Unless a request is rejected, a bulk change puts every selected user in exactly one request, in the
-- order of the selection; no request is empty or has more than 200 users; and the result merges the
-- answers to all of them.
pub run_chunked_bulk-covers :
    {A : Type 0} (answer : BulkRequest A → BulkResponse) (asked : A) (user_emails : List String)
    → (all_emails (run_chunked_bulk (answers answer) asked user_emails).sent ≡ user_emails)
      × All Fits (run_chunked_bulk (answers answer) asked user_emails).sent
      × ((run_chunked_bulk (answers answer) asked user_emails).response
          ≡ some (
              merge_all answer
                (run_chunked_bulk (answers answer) asked user_emails).sent
                empty_response))
unfolding run_chunked_bulk chunk
run_chunked_bulk-covers answer asked user_emails =
    rw (run_chunks-answers answer asked chunks empty_response) (
      all_emails-requests_for asked chunks
          ∙ flat-chunk_from (length user_emails) bulk_request_chunk_size user_emails (omega arith)
              (omega arith),
      requests_for-Fits asked chunks (
          chunk_from-IsChunk (length user_emails) bulk_request_chunk_size user_emails
            (omega arith)),
      refl,
    )
  where
    chunks : List (List String)
    chunks = chunk user_emails bulk_request_chunk_size
