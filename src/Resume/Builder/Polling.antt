-- ===== src/Resume/Builder/Polling.antt =====
-- When the loop that polls a job ends, and with what.
use manifest_cv.Prelude.{
  Bool-cases, nat_eqb, nat_eqb_iff, subst, ap, ℕ, zero, suc, ◌+◌, ◌≤◌, ◌<◌, ◌≡◌, inl, inr, refl,
  Bool, true, false, arith,
}
use manifest_cv.Resume.Builder.{
  JobStatus, queued, running, succeeded, failed, cancelled, unreachable, Outcome, delivered,
  refused, timed_out, poll_attempts, poll_from, poll,
}

-- A job that the loop goes on to wait for.
abbrev pub is_waiting : JobStatus → Bool
is_waiting queued = true
is_waiting running = true
is_waiting succeeded = false
is_waiting failed = false
is_waiting cancelled = false
is_waiting unreachable = false

-- An outcome and why: the job waits at every attempt before it.
abbrev pub Explains : (ℕ → JobStatus) → ℕ → ℕ → Outcome → Type 0
Explains job from left (delivered n) =
    (from ≤ n)
    × (n < from + left)
    × (job n ≡ succeeded)
    × ((m : ℕ) → from ≤ m → m < n → is_waiting (job m) ≡ true)
Explains job from left (refused n) =
    (from ≤ n)
    × (n < from + left)
    × (is_waiting (job n) ≡ false)
    × ¬ (job n ≡ succeeded)
    × ((m : ℕ) → from ≤ m → m < n → is_waiting (job m) ≡ true)
Explains job from left timed_out = (m : ℕ) → from ≤ m → m < from + left → is_waiting (job m) ≡ true

waiting_from :
    (job : ℕ → JobStatus) (from m : ℕ)
    → is_waiting (job from) ≡ true
    → from ≤ m
    → (suc from ≤ m → is_waiting (job m) ≡ true)
    → is_waiting (job m) ≡ true
waiting_from job from m w x k = elim (Bool-cases (nat_eqb from m)) [
  | inl same ↦ subst (λ n. is_waiting (job n) ≡ true) ((nat_eqb_iff from m).0 same) w
  | inr differ ↦ k (ground arith)
]

later-Explains :
    (job : ℕ → JobStatus) (from left : ℕ) (o : Outcome)
    → is_waiting (job from) ≡ true
    → Explains job (suc from) left o
    → Explains job from (suc left) o
later-Explains job from left (delivered n) w (a, b, c, d) =
    (omega arith, omega arith, c, λ m x y. waiting_from job from m w x (λ z. d m z y))
later-Explains job from left (refused n) w (a, b, c, e, d) =
    (omega arith, omega arith, c, e, λ m x y. waiting_from job from m w x (λ z. d m z y))
later-Explains job from left timed_out w d =
    λ m x y. waiting_from job from m w x (λ z. d m z (omega arith))

poll_from-Explains :
    (job : ℕ → JobStatus) (from left : ℕ) → Explains job from left (poll_from job from left)
unfolding poll_from
poll_from-Explains job from zero = λ m x y. absurd (omega arith)
poll_from-Explains job from (suc left) = go (job from) refl (poll_from-Explains job (suc from) left)
  where
    later : Outcome
    later = poll_from job (suc from) left

    none_before : (m : ℕ) → from ≤ m → m < from → is_waiting (job m) ≡ true
    none_before m x y = absurd (omega arith)

    go :
        (status : JobStatus)
        → job from ≡ status
        → Explains job (suc from) left later
        → Explains job from (suc left) (elim status [
          | queued ↦ later
          | running ↦ later
          | succeeded ↦ delivered from
          | failed ↦ refused from
          | cancelled ↦ refused from
          | unreachable ↦ refused from
        ])
    go queued e h = later-Explains job from left later (ap is_waiting e) h
    go running e h = later-Explains job from left later (ap is_waiting e) h
    go succeeded e h = (omega arith, omega arith, e, none_before)
    go failed e h = (omega arith, omega arith, ap is_waiting e, (λ k. cc), none_before)
    go cancelled e h = (omega arith, omega arith, ap is_waiting e, (λ k. cc), none_before)
    go unreachable e h = (omega arith, omega arith, ap is_waiting e, (λ k. cc), none_before)

-- Polling delivers only at one of the sixty attempts, one at which the job has succeeded after waiting
-- at each earlier one; it is refused only at an attempt at which the job has ended otherwise or the
-- request failed, again the first that is not waiting; and it times out only if the job waits at all
-- sixty attempts.
pub poll-Explains : (job : ℕ → JobStatus) → Explains job 0 poll_attempts (poll job)
unfolding poll
poll-Explains job = poll_from-Explains job 0 poll_attempts
