-- ===== src/Auth/Refresh/Flight.antt =====
-- `refreshSession` of frontend/src/mystic_auth/auth/session_lifecycle/setupAuthInterceptor.ts: requests
-- that are refused at once wait for one refresh. A refresh that settles is an event of its own.
use mathlib.Core.List.{append-nil}
use manifest_cv.Prelude.{
  ◌≡◌, refl, sym, ap, ◌∙◌, ℕ, suc, ◌+◌, List, [], ◌∷◌, ◌++◌, map, Option, some, none, Bool, arith,
}

-- `refreshInFlight` with the requests that await it, by their numbers; the refreshes that were sent and
-- that have settled; and each request's outcome.
pub record Flight : Type 0 where
  pub in_flight : Option (List ℕ)
  pub sent : ℕ
  pub settled : ℕ
  pub outcomes : List (ℕ × Bool)

abbrev pub no_flight : Flight
no_flight = record { in_flight = none; sent = 0; settled = 0; outcomes = [] }

unfoldable pub refresh_session : ℕ → Flight → Flight
refresh_session request f = elim f.in_flight [
  | none ↦ record f { in_flight = some (request ∷ []); sent = suc f.sent }
  | some waiting ↦ record f { in_flight = some (waiting ++ request ∷ []) }
]

abbrev pub with_outcome : Bool → ℕ → ℕ × Bool
with_outcome success request = (request, success)

-- `finally`: the flight ends whether the refresh has succeeded or not.
unfoldable pub refresh_settles : Bool → Flight → Flight
refresh_settles success f = elim f.in_flight [
  | none ↦ f
  | some waiting ↦ record f {
    in_flight = none;
    settled = suc f.settled;
    outcomes = f.outcomes ++ map (with_outcome success) waiting;
  }
]

pub data FlightEvent : Type 0 where
  is_refused : ℕ → FlightEvent
  settles : Bool → FlightEvent

unfoldable pub fly : List FlightEvent → Flight → Flight
unfolding refresh_session refresh_settles
fly [] f = f
fly (is_refused request ∷ rest) f = fly rest (refresh_session request f)
fly (settles success ∷ rest) f = fly rest (refresh_settles success f)

abbrev pub flying : Option (List ℕ) → ℕ
flying none = 0
flying (some waiting) = 1

abbrev pub waiting_for : Option (List ℕ) → List ℕ
waiting_for none = []
waiting_for (some waiting) = waiting

-- What a request that is refused just before the events gets: the first end of a refresh in them.
abbrev pub first_end : List FlightEvent → Option Bool
first_end [] = none
first_end (is_refused request ∷ rest) = first_end rest
first_end (settles success ∷ rest) = some success

-- What each refused request gets, in their order; `none` where it still waits.
abbrev pub expected : List FlightEvent → List (ℕ × Option Bool)
expected [] = []
expected (is_refused request ∷ rest) = (request, first_end rest) ∷ expected rest
expected (settles success ∷ rest) = expected rest

abbrev pub got : ℕ × Bool → ℕ × Option Bool
got outcome = (outcome.0, some (outcome.1))

abbrev pub gets : Option Bool → ℕ → ℕ × Option Bool
gets end request = (request, end)

-- The outcomes there are, and the requests that wait.
abbrev pub outcomes_of : Flight → List (ℕ × Option Bool)
outcomes_of f = map got f.outcomes ++ map (gets none) (waiting_for f.in_flight)

-- The refreshes in flight.
abbrev IsSingle : Flight → Type 0
IsSingle f = f.sent ≡ f.settled + flying f.in_flight

refresh_session-IsSingle :
    (request : ℕ) (f : Flight) → IsSingle f → IsSingle (refresh_session request f)
unfolding refresh_session
refresh_session-IsSingle request f h = go f.in_flight h
  where
    go :
        (o : Option (List ℕ))
        → f.sent ≡ f.settled + flying o
        → IsSingle (elim o [
          | none ↦ record f { in_flight = some (request ∷ []); sent = suc f.sent }
          | some waiting ↦ record f { in_flight = some (waiting ++ request ∷ []) }
        ])
    go none a = omega (arith, a)
    go (some waiting) a = a

refresh_settles-IsSingle :
    (success : Bool) (f : Flight) → IsSingle f → IsSingle (refresh_settles success f)
unfolding refresh_settles
refresh_settles-IsSingle success f h = go f.in_flight h h
  where
    go :
        (o : Option (List ℕ))
        → f.sent ≡ f.settled + flying o
        → IsSingle f
        → IsSingle (elim o [
          | none ↦ f
          | some waiting ↦ record f {
            in_flight = none;
            settled = suc f.settled;
            outcomes = f.outcomes ++ map (with_outcome success) waiting;
          }
        ])
    go none a k = k
    go (some waiting) a k = omega (arith, a)

fly-IsSingle : (events : List FlightEvent) (f : Flight) → IsSingle f → IsSingle (fly events f)
unfolding fly
fly-IsSingle [] f h = h
fly-IsSingle (is_refused request ∷ rest) f h =
    fly-IsSingle rest (refresh_session request f) (refresh_session-IsSingle request f h)
fly-IsSingle (settles success ∷ rest) f h =
    fly-IsSingle rest (refresh_settles success f) (refresh_settles-IsSingle success f h)

-- The outcomes of a flight to which the events are still to come.
abbrev prospect : List FlightEvent → Flight → List (ℕ × Option Bool)
prospect events f =
    map got f.outcomes
    ++ (map (gets (first_end events)) (waiting_for f.in_flight) ++ expected events)

snoc-map :
    (f : ℕ → ℕ × Option Bool) (request : ℕ) (after : List (ℕ × Option Bool)) (waiting : List ℕ)
    → map f (waiting ++ request ∷ []) ++ after ≡ map f waiting ++ (f request ∷ after)
snoc-map f request after [] = refl
snoc-map f request after (w ∷ waiting) = ap (λ l. f w ∷ l) (snoc-map f request after waiting)

got-map :
    (success : Bool) (after : List (ℕ × Option Bool)) (waiting : List ℕ)
    (outcomes : List (ℕ × Bool))
    → map got (outcomes ++ map (with_outcome success) waiting) ++ after
      ≡ map got outcomes ++ (map (gets (some success)) waiting ++ after)
got-map success after [] [] = refl
got-map success after (w ∷ waiting) [] =
    ap (λ l. (w, some success) ∷ l) (got-map success after waiting [])
got-map success after waiting (o ∷ outcomes) =
    ap (λ l. got o ∷ l) (got-map success after waiting outcomes)

refresh_session-prospect :
    (request : ℕ) (rest : List FlightEvent) (f : Flight)
    → prospect rest (refresh_session request f) ≡ prospect (is_refused request ∷ rest) f
unfolding refresh_session
refresh_session-prospect request rest f = go f.in_flight
  where
    go :
        (o : Option (List ℕ))
        → prospect rest (elim o [
          | none ↦ record f { in_flight = some (request ∷ []); sent = suc f.sent }
          | some waiting ↦ record f { in_flight = some (waiting ++ request ∷ []) }
        ])
          ≡ (map got f.outcomes
              ++ (map (gets (first_end rest)) (waiting_for o)
                  ++ ((request, first_end rest) ∷ expected rest)))
    go none = refl
    go (some waiting) =
        ap (λ l. map got f.outcomes ++ l)
          (snoc-map (gets (first_end rest)) request (expected rest) waiting)

refresh_settles-prospect :
    (success : Bool) (rest : List FlightEvent) (f : Flight)
    → prospect rest (refresh_settles success f) ≡ prospect (settles success ∷ rest) f
unfolding refresh_settles
refresh_settles-prospect success rest f = go f.in_flight refl
  where
    go :
        (o : Option (List ℕ))
        → f.in_flight ≡ o
        → prospect rest (elim o [
          | none ↦ f
          | some waiting ↦ record f {
            in_flight = none;
            settled = suc f.settled;
            outcomes = f.outcomes ++ map (with_outcome success) waiting;
          }
        ])
          ≡ (map got f.outcomes ++ (map (gets (some success)) (waiting_for o) ++ expected rest))
    go none e = rw (e) refl
    go (some waiting) e = got-map success (expected rest) waiting f.outcomes

fly-prospect :
    (events : List FlightEvent) (f : Flight) → outcomes_of (fly events f) ≡ prospect events f
unfolding fly
fly-prospect [] f =
    ap (λ l. map got f.outcomes ++ l) (sym (append-nil (map (gets none) (waiting_for f.in_flight))))
fly-prospect (is_refused request ∷ rest) f =
    fly-prospect rest (refresh_session request f) ∙ refresh_session-prospect request rest f
fly-prospect (settles success ∷ rest) f =
    fly-prospect rest (refresh_settles success f) ∙ refresh_settles-prospect success rest f

-- However refused requests and ends of refreshes alternate, at most one refresh is in flight: as many
-- were sent as have settled, and one more while one is in flight; and the requests that were refused
-- get, each once and in their order, the result of the first refresh that ends after them, or wait for
-- the one in flight.
pub fly-outcomes :
    (events : List FlightEvent)
    → ((fly events no_flight).sent
        ≡ (fly events no_flight).settled + flying (fly events no_flight).in_flight)
      × (outcomes_of (fly events no_flight) ≡ expected events)
fly-outcomes events = (fly-IsSingle events no_flight (omega arith), fly-prospect events no_flight)
