-- ===== src/Ui/Cooldown.antt =====
-- The countdown of the resend forms, useCooldown.ts under frontend/src/mystic_auth: the intervals that
-- run are the list of their ids, and an interval's tick is a call.
use manifest_cv.Prelude.{
  ℕ, zero, suc, ◌+◌, ◌-◌, ◌≡◌, refl, List, [], ◌∷◌, Option, some, none, false, leb, remove, nat_eq,
  nat_eqb_iff, if◌then◌else◌, arith,
}

pub record Cooldown : Type 0 where
  pub cooldown : ℕ
  pub interval_ref : Option ℕ
  pub intervals : List ℕ
  pub next_interval : ℕ

unfoldable pub start_cooldown : ℕ → Cooldown → Cooldown
start_cooldown seconds c = record {
  cooldown = seconds;
  interval_ref = some c.next_interval;
  intervals = c.next_interval ∷ c.intervals;
  next_interval = c.next_interval + 1;
}

-- `clearInterval` of the ref's interval, if there is one.
unfoldable pub clear_ref : Cooldown → Cooldown
unfolding remove
clear_ref c = elim c.interval_ref [
  | none ↦ c
  | some id ↦ record c { interval_ref = none; intervals = remove id c.intervals }
]

unfoldable pub tick : Cooldown → Cooldown
unfolding clear_ref
tick c =
    if leb c.cooldown 1
    then record (clear_ref c) { cooldown = 0 }
    else record c { cooldown = c.cooldown - 1 }

-- One interval's ticks.
unfoldable pub ticks : ℕ → Cooldown → Cooldown
unfolding tick
ticks zero c = c
ticks (suc n) c = ticks n (tick c)

above : (n : ℕ) → leb (suc (suc n)) 1 ≡ false
above n = ground arith

less : (n : ℕ) → suc (suc n) - 1 ≡ suc n
less n = omega arith

ticks_lem :
    (n id next : ℕ)
    → ticks (suc n) (record {
      cooldown = suc n;
      interval_ref = some id;
      intervals = id ∷ [];
      next_interval = next;
    })
      ≡ record { cooldown = 0; interval_ref = none; intervals = []; next_interval = next }
unfolding ticks tick clear_ref remove
ticks_lem zero id next = rw ((nat_eqb_iff id id).1 refl) refl
ticks_lem (suc n) id next = rw (above n, less n) (ticks_lem n id next)

-- With no interval running, a countdown of some positive number of seconds reaches zero after as many
-- ticks, and its interval has then been cleared.
pub ticks-start_cooldown :
    (n next : ℕ)
    → ticks (suc n) (
        start_cooldown
          (suc n)
          (record { cooldown = 0; interval_ref = none; intervals = []; next_interval = next }))
      ≡ record { cooldown = 0; interval_ref = none; intervals = []; next_interval = next + 1 }
unfolding start_cooldown
ticks-start_cooldown n next = ticks_lem n next (next + 1)
