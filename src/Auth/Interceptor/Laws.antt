-- ===== src/Auth/Interceptor/Laws.antt =====
-- What a request through setupAuthInterceptor.ts does to the session.
use manifest_cv.Prelude.{ℕ, zero, suc, ◌+◌, ◌≤◌, Bool, true, false, not, ◌&&◌, if◌then◌else◌, arith}
use manifest_cv.Auth.Interceptor.{
  Response, success, unauthorized, unreachable, status, RotationState, idle, pending, recent, Flags,
  no_flags, Client, Reply, resolved, rejected, exhausted, is_live, log_out, next_response,
  next_rotation, after_send, after_check, dispatch, send, give_up, settle, try_again,
  retry_after_rotation, after_retry, after_refresh, is_unauthorized, handle, request,
}

-- A relation between the client before and after, kept by each primitive step, is kept by a request.
module _ (R : Client → Client → Type 0) (same : (c : Client) → R c c)
    (join : (a b c : Client) → R a b → R b c → R a c) (sends : (c : Client) → R c (after_send c))
    (checks : (c : Client) → R c (after_check c)) (ends : (c : Client) → R c (log_out c)) where
  abbrev Leads : Client → Reply → Type 0
  Leads c (resolved _ d) = R c d
  Leads c (rejected _ _ d) = R c d
  Leads c exhausted = Unit

  Leads-join : (a b : Client) (p : Reply) → R a b → Leads b p → Leads a p
  Leads-join a b (resolved _ d) h k = join a b d h k
  Leads-join a b (rejected _ _ d) h k = join a b d h k
  Leads-join a b exhausted h k = tt

  send-Leads :
      (handler : Response → Flags → Client → Reply)
      → ((r : Response) (fl : Flags) (c : Client) → Leads c (handler r fl c))
      → (fl : Flags) (c : Client) → Leads c (send handler fl c)
  unfolding send
  send-Leads handler h fl c =
      Leads-join c (after_send c) _ (sends c) (go (next_response c.responses))
    where
      go : (r : Response) → Leads (after_send c) (dispatch handler r fl (after_send c))
      go success = same (after_send c)
      go unauthorized = h unauthorized fl (after_send c)
      go unreachable = h unreachable fl (after_send c)
      go (status code) = h (status code) fl (after_send c)

  module _ (again : Flags → Client → Reply)
      (h : (fl : Flags) (c : Client) → Leads c (again fl c)) where
    settle-Leads :
        (c : Client) (error : Response) (own : Flags) (p : Reply)
        → Leads c p
        → Leads c (settle error own p)
    settle-Leads c error own (resolved _ d) k = k
    settle-Leads c error own (rejected _ _ d) k = join c d (log_out d) k (ends d)
    settle-Leads c error own exhausted k = tt

    retry_after_rotation-Leads :
        (error : Response) (fl : Flags) (c : Client)
        → Leads c (retry_after_rotation again error fl c)
    unfolding retry_after_rotation
    retry_after_rotation-Leads error fl c = checked fl.rotation
      where
        go :
            (s : RotationState) → Leads (after_check c) (try_again again s error fl (after_check c))
        go idle = ends (after_check c)
        go pending = settle-Leads (after_check c) error _ _ (h _ (after_check c))
        go recent = settle-Leads (after_check c) error _ _ (h _ (after_check c))

        checked :
            (b : Bool)
            → Leads c (
                if b
                then give_up error fl c
                else try_again again (next_rotation c.rotations) error fl (after_check c))
        checked true = ends c
        checked false = Leads-join c (after_check c) _ (checks c) (go (next_rotation c.rotations))

    after_retry-Leads :
        (error : Response) (own : Flags) (c : Client) (p : Reply)
        → Leads c p
        → Leads c (after_retry again error own p)
    unfolding after_retry
    after_retry-Leads error own c (resolved _ d) k = k
    after_retry-Leads error own c (rejected _ _ d) k =
        Leads-join c d _ k (retry_after_rotation-Leads error own d)
    after_retry-Leads error own c exhausted k = tt

    after_refresh-Leads :
        (error : Response) (fl : Flags) (c : Client) (p : Reply)
        → Leads c p
        → Leads c (after_refresh again error fl p)
    unfolding after_refresh
    after_refresh-Leads error fl c (resolved _ d) k =
        Leads-join c d _ k (after_retry-Leads error _ d _ (h _ d))
    after_refresh-Leads error fl c (rejected _ _ d) k =
        Leads-join c d _ k (retry_after_rotation-Leads error fl d)
    after_refresh-Leads error fl c exhausted k = tt

  handle-Leads :
      (fuel : ℕ) (eligible : Bool) (error : Response) (fl : Flags) (c : Client)
      → Leads c (handle fuel eligible error fl c)
  unfolding handle
  handle-Leads zero eligible error fl c = tt
  handle-Leads (suc fuel) eligible error fl c =
      go (send-Leads (handle fuel eligible) (handle-Leads fuel eligible))
        (send-Leads (handle fuel false) (handle-Leads fuel false) no_flags c)
        (is_unauthorized error) (eligible && not fl.refresh)
    where
      again : Flags → Client → Reply
      again = send (handle fuel eligible)

      go :
          ((g : Flags) (d : Client) → Leads d (again g d))
          → Leads c (send (handle fuel false) no_flags c)
          → (p q : Bool)
          → Leads c (
              if p
              then if q
                then after_refresh again error fl (send (handle fuel false) no_flags c)
                else retry_after_rotation again error fl c
              else rejected error fl c)
      go h k true true = after_refresh-Leads again h error fl c _ k
      go h k true false = retry_after_rotation-Leads again h error fl c
      go h k false q = same c

  pub request-Leads : (eligible : Bool) (c : Client) → Leads c (request eligible c)
  unfolding request
  request-Leads eligible c = send-Leads (handle 4 eligible) (handle-Leads 4 eligible) no_flags c

-- The toasts that a client has shown, and the one that it may still show.
abbrev pub budget : Client → ℕ
budget c = c.toasts + (if is_live c then 1 else 0)

log_out-budget : (c : Client) → budget (log_out c) ≤ budget c
unfolding log_out
log_out-budget c = ground arith

abbrev pub Shows : Client → Reply → Type 0
Shows c (resolved _ d) = budget d ≤ budget c
Shows c (rejected _ _ d) = budget d ≤ budget c
Shows c exhausted = Unit

abbrev NoMore : Client → Client → Type 0
NoMore a b = budget b ≤ budget a

-- A request shows at most one toast, and only if it ends a live session: the toasts shown, with one more
-- for a session that is still live, never grow, whatever is answered and retried.
pub request-Shows : (eligible : Bool) (c : Client) → Shows c (request eligible c)
request-Shows eligible c = go (request eligible c) (
    request-Leads NoMore (λ a. omega arith) (λ a b d h k. omega arith) (λ a. omega arith)
      (λ a. omega arith) log_out-budget eligible c)
  where
    go :
        (p : Reply)
        → Leads NoMore
            (λ a. omega arith)
            (λ a b d h k. omega arith)
            (λ a. omega arith)
            (λ a. omega arith)
            log_out-budget
            c
            p
        → Shows c p
    go (resolved _ d) h = h
    go (rejected _ _ d) h = h
    go exhausted h = tt
