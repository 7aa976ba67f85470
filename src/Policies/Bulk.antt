-- ===== src/Policies/Bulk.antt =====
-- The bulk mutations, frontend/src/mystic_auth/policies/queries/bulkAssignmentMutations.ts. What the
-- server answers to a request is a function; a rejected request has no answer.
pub mod Requests
use manifest_cv.Prelude.{
  ℕ, zero, suc, ◌+◌, String, List, [], ◌∷◌, ◌++◌, map, Option, some, none, Bool, true, false,
  length, take, drop, includes, add, string_eq, ◌==◌, if◌then◌else◌,
}

pub record BulkResponse : Type 0 where
  -- The emails of `results`.
  pub results : List String
  pub success_count : ℕ
  pub error_count : ℕ

abbrev pub empty_response : BulkResponse
empty_response = record { results = []; success_count = 0; error_count = 0 }

abbrev pub merge : BulkResponse → BulkResponse → BulkResponse
merge merged data_ = record {
  results = merged.results ++ data_.results;
  success_count = merged.success_count + data_.success_count;
  error_count = merged.error_count + data_.error_count;
}

abbrev pub bulk_request_chunk_size : ℕ
bulk_request_chunk_size = 200

-- `i < items.length`, on fuel: a step takes at least one item.
unfoldable pub chunk_from {ℓ} : {A : Type ℓ} → ℕ → ℕ → List A → List (List A)
chunk_from zero size items = []
chunk_from (suc fuel) size [] = []
chunk_from (suc fuel) size (x ∷ rest) =
    take size (x ∷ rest) ∷ chunk_from fuel size (drop size (x ∷ rest))

unfoldable pub chunk {ℓ} : {A : Type ℓ} → List A → ℕ → List (List A)
unfolding chunk_from
chunk items size = chunk_from (length items) size items

-- One request of the loops: what it asks for and for which users.
pub record BulkRequest (A : Type 0) : Type 0 where
  pub asked : A
  pub emails : List String

abbrev pub Api : Type 0 → Type 0
Api A = BulkRequest A → Option BulkResponse

-- The requests that were sent, and the merged response unless one was rejected.
pub record BulkRun (A : Type 0) : Type 0 where
  pub sent : List (BulkRequest A)
  pub response : Option BulkResponse

module _ {A : Type 0} where
  abbrev pub with_sent : BulkRequest A → BulkRun A → BulkRun A
  with_sent request run = record run { sent = request ∷ run.sent }

  unfoldable pub run_chunks : Api A → A → List (List String) → BulkResponse → BulkRun A
  run_chunks api asked [] merged = record { sent = []; response = some merged }
  run_chunks api asked (emails ∷ rest) merged =
      let request : BulkRequest A = record { asked = asked; emails = emails } in
      with_sent request (elim (api request) [
        | none ↦ record { sent = []; response = none }
        | some data_ ↦ run_chunks api asked rest (merge merged data_)
      ])

  unfoldable pub run_chunked_bulk : Api A → A → List String → BulkRun A
  unfolding run_chunks chunk
  run_chunked_bulk api asked user_emails =
      run_chunks api asked (chunk user_emails bulk_request_chunk_size) empty_response

  -- `for (const name of …)`, and the same loop over the actions.
  unfoldable pub run_each : Api A → List A → List String → BulkResponse → BulkRun A
  unfolding run_chunked_bulk
  run_each api [] user_emails merged = record { sent = []; response = some merged }
  run_each api (asked ∷ rest) user_emails merged =
      let run = run_chunked_bulk api asked user_emails in
      elim run.response [
        | none ↦ run
        | some result ↦
            let later = run_each api rest user_emails (merge merged result) in
            record { sent = run.sent ++ later.sent; response = later.response }
      ]

-- `policyNames ?? (policyName ? [policyName] : [])`.
abbrev pub names_asked : Option (List String) → Option String → List String
names_asked (some names) name = names
names_asked none none = []
names_asked none (some name) = if name == "" then [] else name ∷ []

pub data QueryKey : Type 0 where
  permission_catalog_usage my_policies my_permissions current_user users : QueryKey
  user_policies user_permissions : String → QueryKey

-- What `onSuccess` does to the caches and to the guard of the tab's own changes.
pub record Effects : Type 0 where
  pub invalidated : List QueryKey
  pub marks_self : Bool

abbrev pub no_effects : Effects
no_effects = record { invalidated = []; marks_self = false }

abbrev pub add_emails : List String → List String → List String
add_emails [] seen = seen
add_emails (email ∷ rest) seen = add_emails rest (add email seen)

unfoldable pub distinct_emails : BulkResponse → List String
unfolding add
distinct_emails data_ = add_emails data_.results []

abbrev pub or_empty : Option String → String
or_empty none = ""
or_empty (some email) = email

unfoldable pub invalidate_self_if_included : Option String → List String → Bool → Effects
unfolding includes
invalidate_self_if_included own emails marks_permission_change =
    if includes emails (or_empty own)
    then record { invalidated = current_user ∷ []; marks_self = marks_permission_change }
    else no_effects

abbrev pub after : List QueryKey → Effects → Effects
after keys effects = record effects { invalidated = keys ++ effects.invalidated }

-- The four mutations of policies and permissions, by the keys of one user and of the caller.
unfoldable pub grants_changed :
    (String → QueryKey) → QueryKey → Option String → BulkResponse → Effects
unfolding distinct_emails invalidate_self_if_included
grants_changed user_key my_key own data_ =
    let emails = distinct_emails data_ in
    after (permission_catalog_usage ∷ (map user_key emails ++ my_key ∷ []))
      (invalidate_self_if_included own emails true)

unfoldable pub roles_changed : Option String → BulkResponse → Effects
unfolding distinct_emails invalidate_self_if_included
roles_changed own data_ =
    after (users ∷ []) (invalidate_self_if_included own (distinct_emails data_) false)

-- `onSuccess` does not run where a request was rejected.
unfoldable pub settle_bulk : {A : Type 0} → (BulkResponse → Effects) → BulkRun A → Effects
settle_bulk on_success run = elim run.response [ none ↦ no_effects | some data_ ↦ on_success data_ ]
