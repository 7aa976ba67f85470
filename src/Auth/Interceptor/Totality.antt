-- ===== src/Auth/Interceptor/Totality.antt =====
-- How many rounds of the interceptor, setupAuthInterceptor.ts, a request can take.
use manifest_cv.Prelude.{
  ℕ, zero, suc, ◌+◌, ◌<◌, ◌≡◌, refl, Bool, true, false, not, ◌&&◌, if◌then◌else◌, arith,
}
use manifest_cv.Auth.Interceptor.{
  Response, success, unauthorized, unreachable, status, RotationState, idle, pending, recent, Flags,
  no_flags, Client, Reply, resolved, rejected, exhausted, next_response, next_rotation, after_send,
  after_check, dispatch, send, give_up, settle, try_again, retry_after_rotation, after_retry,
  after_refresh, is_unauthorized, handle, request,
}

-- The flags are only ever set.
abbrev Above : Flags → Flags → Type 0
Above f g = (f.refresh ≡ true → g.refresh ≡ true) × (f.rotation ≡ true → g.rotation ≡ true)

abbrev Ends : Flags → Reply → Type 0
Ends f (resolved g _) = Above f g
Ends f (rejected _ g _) = Above f g
Ends f exhausted = ⊥

-- How many retries are left.
abbrev left : Bool → Flags → ℕ
left eligible f = (if eligible && not f.refresh then 2 else 0) + (if f.rotation then 0 else 1)

left-small : (eligible : Bool) → left eligible no_flags < 4
left-small true = omega arith
left-small false = omega arith

Ends-mono : (f g : Flags) (p : Reply) → Above f g → Ends g p → Ends f p
Ends-mono f g (resolved h _) a e = (λ x. e.0 (a.0 x), λ x. e.1 (a.1 x))
Ends-mono f g (rejected _ h _) a e = (λ x. e.0 (a.0 x), λ x. e.1 (a.1 x))
Ends-mono f g exhausted a e = e

send-Ends :
    (handler : Response → Flags → Client → Reply) (f : Flags)
    → ((r : Response) (c : Client) → Ends f (handler r f c))
    → (c : Client) → Ends f (send handler f c)
unfolding send
send-Ends handler f h c = go (next_response c.responses)
  where
    go : (r : Response) → Ends f (dispatch handler r f (after_send c))
    go success = (λ x. x, λ x. x)
    go unauthorized = h unauthorized (after_send c)
    go unreachable = h unreachable (after_send c)
    go (status code) = h (status code) (after_send c)

module _ (again : Flags → Client → Reply) (error : Response) where
  settle-Ends : (f g : Flags) (p : Reply) → Above f g → Ends f p → Ends f (settle error g p)
  settle-Ends f g (resolved _ d) a h = h
  settle-Ends f g (rejected _ _ d) a h = a
  settle-Ends f g exhausted a h = h

  retry_after_rotation-Ends :
      (f : Flags) (c : Client)
      → (f.rotation ≡ false
          → (d : Client)
          → Ends (record f { rotation = true }) (again (record f { rotation = true }) d))
      → Ends f (retry_after_rotation again error f c)
  unfolding retry_after_rotation
  retry_after_rotation-Ends f c h = checked f.rotation refl
    where
      marked : Flags
      marked = record f { rotation = true }

      go :
          f.rotation ≡ false
          → (s : RotationState) → Ends f (try_again again s error f (after_check c))
      go e idle = (λ x. x, λ x. x)
      go e pending =
          settle-Ends f marked (again marked (after_check c)) (λ x. x, λ x. refl)
            (Ends-mono f marked (again marked (after_check c)) (λ x. x, λ x. refl)
              (h e (after_check c)))
      go e recent =
          settle-Ends f marked (again marked (after_check c)) (λ x. x, λ x. refl)
            (Ends-mono f marked (again marked (after_check c)) (λ x. x, λ x. refl)
              (h e (after_check c)))

      checked :
          (b : Bool)
          → f.rotation ≡ b
          → Ends f (
              if b
              then give_up error f c
              else try_again again (next_rotation c.rotations) error f (after_check c))
      checked true e = (λ x. x, λ x. x)
      checked false e = go e (next_rotation c.rotations)

handle-Ends :
    (fuel : ℕ) (eligible : Bool) (error : Response) (f : Flags) (c : Client)
    → left eligible f < fuel
    → Ends f (handle fuel eligible error f c)
unfolding handle after_refresh
handle-Ends zero eligible error f c h = absurd (omega arith)
handle-Ends (suc fuel) eligible error f c h =
    go (λ g r d k. handle-Ends fuel eligible r g d k)
      (λ r d k. handle-Ends fuel false r no_flags d k) (is_unauthorized error)
      (eligible && not f.refresh) refl
  where
    again : Flags → Client → Reply
    again = send (handle fuel eligible)

    refreshed : Reply
    refreshed = send (handle fuel false) no_flags c

    go :
        ((g : Flags) (r : Response) (d : Client)
          → left eligible g < fuel
          → Ends g (handle fuel eligible r g d))
        → ((r : Response) (d : Client)
            → left false no_flags < fuel
            → Ends no_flags (handle fuel false r no_flags d))
        → (p q : Bool) → (eligible && not f.refresh) ≡ q
        → Ends f (
            if p
            then if q
              then after_refresh again error f refreshed
              else retry_after_rotation again error f c
            else rejected error f c)
    go deep ask false q e = (λ x. x, λ x. x)
    go deep ask true false e = retry_after_rotation-Ends again error f c (λ off d.
        send-Ends (handle fuel eligible) _
          (λ r d'. deep (record f { rotation = true }) r d' (ground arith)) d)
    go deep ask true true e =
        after refreshed (send-Ends (handle fuel false) no_flags (λ r d. ask r d (ground arith)) c)
      where
        fresh : Flags
        fresh = record f { refresh = true }

        again-Ends : (g : Flags) (d : Client) → left eligible g < fuel → Ends g (again g d)
        again-Ends g d k = send-Ends (handle fuel eligible) g (λ r d'. deep g r d' k) d

        retry : (p : Reply) → Ends fresh p → Ends f (after_retry again error fresh p)
        retry (resolved g d) k = (λ x. k.0 refl, k.1)
        retry (rejected _ _ d) k =
            Ends-mono f fresh (retry_after_rotation again error fresh d) (λ x. refl, λ x. x)
              (retry_after_rotation-Ends again error fresh d
                (λ off d'. again-Ends (record fresh { rotation = true }) d' (ground arith)))
        retry exhausted k = k

        after : (p : Reply) → Ends no_flags p → Ends f (after_refresh again error f p)
        after (resolved g d) k = retry (again fresh d) (again-Ends fresh d (ground arith))
        after (rejected _ g d) k =
            retry_after_rotation-Ends again error f d
              (λ off d'. again-Ends (record f { rotation = true }) d' (ground arith))
        after exhausted k = k

abbrev pub Returns : Reply → Type 0
Returns (resolved _ d) = Unit
Returns (rejected _ _ d) = Unit
Returns exhausted = ⊥

Returns-Ends : (f : Flags) (p : Reply) → Ends f p → Returns p
Returns-Ends f (resolved _ d) h = tt
Returns-Ends f (rejected _ _ d) h = tt
Returns-Ends f exhausted h = h

-- A request always comes to an end, within the four rounds, whatever the server answers and
-- whichever rotations the checks find.
pub request-Returns : (eligible : Bool) (c : Client) → Returns (request eligible c)
unfolding request
request-Returns eligible c = Returns-Ends no_flags (request eligible c) (
    send-Ends (handle 4 eligible) no_flags
      (λ r d. handle-Ends 4 eligible r no_flags d (left-small eligible)) c)
