-- ===== src/Search/Arrows.antt =====
-- The highlighted index of frontend/src/mystic_auth/layout/command_palette/CommandPalette.tsx.
use native.Mathlib.Nat.{mod-eq_of_lt, mod_self, mod-eq-sub-mod}
use manifest_cv.Prelude.{
  ◌≡◌, ap, ◌∙◌, ℕ, ◌+◌, ◌-◌, ◌%◌, ◌<◌, ◌≤◌, nat_eqb, if◌then◌else◌, arith, Bool-cases, inl, inr,
}
use manifest_cv.Search.Results.{arrow_down, arrow_up}

-- One step forward, with the wrap-around.
down-eq :
    (count i : ℕ) → i < count → arrow_down count i ≡ (if nat_eqb (i + 1) count then 0 else i + 1)
unfolding arrow_down
down-eq count i h = elim (Bool-cases (nat_eqb (i + 1) count)) [
  | inl e ↦
      let same : i + 1 ≡ count = ground arith in
      rw (e) (ground (arith, ap (λ n. n % count) same ∙ mod_self count))
  | inr e ↦ rw (e) (ground (arith, mod-eq_of_lt {n = i + 1} {m = count} (ground arith)))
]

up-eq : (count i : ℕ) → i < count → arrow_up count i ≡ (if nat_eqb i 0 then count - 1 else i - 1)
unfolding arrow_up
up-eq count i h = elim (Bool-cases (nat_eqb i 0)) [
  | inl e ↦ rw (e) (ground (arith, mod-eq_of_lt {n = i + count - 1} {m = count} (ground arith)))
  | inr e ↦
      let fits : count ≤ i + count - 1 = ground arith in
      let less : (i + count - 1) - count < count = omega arith in
      rw (e) (ground (arith, mod-eq-sub-mod fits, mod-eq_of_lt less))
]

-- Each arrow keeps a highlighted result among the results, and the two arrows undo each other, also
-- across the ends of the list.
pub arrow_up-arrow_down :
    (count i : ℕ)
    → i < count
    → (arrow_down count i < count)
      × (arrow_up count i < count)
      × (arrow_up count (arrow_down count i) ≡ i)
      × (arrow_down count (arrow_up count i) ≡ i)
arrow_up-arrow_down count i h =
    let down : arrow_down count i < count = ground (arith, down-eq count i h) in
    let up : arrow_up count i < count = ground (arith, up-eq count i h) in
    (
      down,
      up,
      ground (arith, down-eq count i h, up-eq count (arrow_down count i) down),
      ground (arith, up-eq count i h, down-eq count (arrow_up count i) up),
    )
