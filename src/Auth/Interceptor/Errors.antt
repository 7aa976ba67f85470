-- ===== src/Auth/Interceptor/Errors.antt =====
-- The errors of setupAuthInterceptor.ts: what a failing request passes on, and to which state it leads.
use manifest_cv.Prelude.{
  ℕ, zero, suc, ◌+◌, ◌≡◌, refl, sym, List, [], ◌∷◌, Bool, true, false, not, ◌&&◌, if◌then◌else◌,
}
use manifest_cv.Auth.Interceptor.{
  Response, success, unauthorized, unreachable, status, RotationState, idle, pending, recent, Flags,
  no_flags, Client, Reply, resolved, rejected, exhausted, is_live, log_out, next_response,
  next_rotation, after_send, after_check, dispatch, send, give_up, settle, try_again,
  retry_after_rotation, after_retry, after_refresh, is_unauthorized, handle, request,
}

log_out_dead : (c : Client) → is_live (log_out c) ≡ false
unfolding log_out
log_out_dead c = refl

-- A reply that is an error is this one, and the session is over.
abbrev Over : Response → Reply → Type 0
Over error (resolved _ d) = Unit
Over error (rejected x _ d) = (x ≡ error) × (is_live d ≡ false)
Over error exhausted = Unit

settle-Over : (error : Response) (own : Flags) (p : Reply) → Over error (settle error own p)
settle-Over error own (resolved _ d) = tt
settle-Over error own (rejected _ _ d) = (refl, log_out_dead d)
settle-Over error own exhausted = tt

module _ (again : Flags → Client → Reply) (error : Response) where
  retry_after_rotation-Over :
      (fl : Flags) (c : Client) → Over error (retry_after_rotation again error fl c)
  unfolding retry_after_rotation
  retry_after_rotation-Over fl c = checked fl.rotation
    where
      go : (s : RotationState) → Over error (try_again again s error fl (after_check c))
      go idle = (refl, log_out_dead (after_check c))
      go pending = settle-Over error _ _
      go recent = settle-Over error _ _

      checked :
          (b : Bool)
          → Over error (
              if b
              then give_up error fl c
              else try_again again (next_rotation c.rotations) error fl (after_check c))
      checked true = (refl, log_out_dead c)
      checked false = go (next_rotation c.rotations)

  after_retry-Over : (own : Flags) (p : Reply) → Over error (after_retry again error own p)
  unfolding after_retry
  after_retry-Over own (resolved _ d) = tt
  after_retry-Over own (rejected _ _ d) = retry_after_rotation-Over own d
  after_retry-Over own exhausted = tt

  after_refresh-Over : (fl : Flags) (p : Reply) → Over error (after_refresh again error fl p)
  unfolding after_refresh
  after_refresh-Over fl (resolved _ d) = after_retry-Over _ (again (record fl { refresh = true }) d)
  after_refresh-Over fl (rejected _ _ d) = retry_after_rotation-Over fl d
  after_refresh-Over fl exhausted = tt

-- What a request that fails leaves behind.
abbrev pub Fails : Client → Reply → Type 0
Fails c (resolved _ d) = Unit
Fails c (rejected error _ d) =
    (error ≡ next_response c.responses)
    × (if is_unauthorized error then is_live d ≡ false else d ≡ after_send c)
Fails c exhausted = Unit

Fails-Over :
    (c : Client) (p : Reply)
    → next_response c.responses ≡ unauthorized
    → Over unauthorized p
    → Fails c p
Fails-Over c (resolved _ d) e h = tt
Fails-Over c (rejected x _ d) e (same, dead) = (cc, rw (same) dead)
Fails-Over c exhausted e h = tt

handle_unauthorized-Over :
    (fuel : ℕ) (eligible : Bool) (fl : Flags) (c : Client)
    → Over unauthorized (handle fuel eligible unauthorized fl c)
unfolding handle
handle_unauthorized-Over zero eligible fl c = tt
handle_unauthorized-Over (suc fuel) eligible fl c = go (eligible && not fl.refresh)
  where
    again : Flags → Client → Reply
    again = send (handle fuel eligible)

    go :
        (q : Bool)
        → Over unauthorized (
            if q
            then after_refresh again unauthorized fl (send (handle fuel false) no_flags c)
            else retry_after_rotation again unauthorized fl c)
    go true = after_refresh-Over again unauthorized fl (send (handle fuel false) no_flags c)
    go false = retry_after_rotation-Over again unauthorized fl c

-- A request that fails passes on the error of its own first response; if that was a 401, the session is
-- over, and if not, the client is as it was but for that one request.
pub request-Fails : (eligible : Bool) (c : Client) → Fails c (request eligible c)
unfolding request handle
request-Fails eligible c = go (next_response c.responses) refl
  where
    go :
        (r : Response)
        → next_response c.responses ≡ r
        → Fails c (dispatch (handle 4 eligible) r no_flags (after_send c))
    go success e = tt
    go unauthorized e =
        Fails-Over c (handle 4 eligible unauthorized no_flags (after_send c)) e
          (handle_unauthorized-Over 4 eligible no_flags (after_send c))
    go unreachable e = (sym e, refl)
    go (status code) e = (sym e, refl)

-- A request that gets a 401, is refreshed well, and then gets any other error status ends the session
-- and passes the first 401 on, where no rotation is under way.
pub request_after_refresh :
    (c : Client) (code : ℕ) (rest : List Response)
    → request true
        (record c { responses = unauthorized ∷ success ∷ status code ∷ rest; rotations = [] })
      ≡ rejected unauthorized
          (record { refresh = true; rotation = false })
          (log_out (record c { sent = c.sent + 1 + 1 + 1; responses = rest; rotations = [] }))
unfolding request handle
request_after_refresh c code rest = refl
