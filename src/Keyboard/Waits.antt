-- ===== src/Keyboard/Waits.antt =====
-- device/keyboard.c and include/keyboard.h: the waits for the keyboard controller. What port 0x64
-- gives is a function from the number of the reading to the value read. A wait goes on behind at most
-- 0xFFFF readings whatever they show, and its result is the number of the next reading.
use ghittle.Base.{
  ℕ, zero, suc, ◌+◌, ◌<◌, ◌≤◌, ◌≡◌, Bool, true, false, ◌==◌, bit_and, leb, inl, inr, Bool-cases,
  if◌then◌else◌, arith,
}

-- From a value of port 0x64.
unfoldable is_obuffer_full : ℕ → ℕ
is_obuffer_full value = if bit_and value 0x01 == 0 then 0 else 1

unfoldable is_ibuffer_full : ℕ → ℕ
is_ibuffer_full value = if bit_and value 0x02 == 0 then 0 else 1

-- The loop of each wait, with the rounds that are left and the next reading.
unfoldable wait_controller : (ℕ → Bool) → ℕ → ℕ → ℕ
wait_controller done zero i = i
wait_controller done (suc rounds) i =
    let rest = wait_controller done rounds (i + 1) in if done i then i + 1 else rest

module _ (status : ℕ → ℕ) where
  -- From reading `i` on.
  unfoldable wait_ibuffer_empty : ℕ → ℕ
  wait_ibuffer_empty i = wait_controller (λ j. is_ibuffer_full (status j) == 0) 0xFFFF i

  unfoldable wait_ibuffer_full : ℕ → ℕ
  wait_ibuffer_full i = wait_controller (λ j. is_ibuffer_full (status j) == 1) 0xFFFF i

  -- It tests the input buffer.
  unfoldable wait_obuffer_full : ℕ → ℕ
  wait_obuffer_full i = wait_controller (λ j. is_ibuffer_full (status j) == 1) 0xFFFF i

  unfoldable wait_obuffer_empty : ℕ → ℕ
  wait_obuffer_empty i = wait_controller (λ j. is_obuffer_full (status j) == 0) 0xFFFF i

-- A wait ends behind the first reading that shows what it waits for, if that comes in time.
wait_controller-first :
    (done : ℕ → Bool) (p rounds i : ℕ)
    → i ≤ p
    → p < i + rounds
    → ((j : ℕ) → i ≤ j → j < p → done j ≡ false)
    → done p ≡ true
    → wait_controller done rounds i ≡ p + 1
unfolding wait_controller
wait_controller-first done p zero i from few before now = omega arith
wait_controller-first done p (suc rounds) i from few before now = elim (Bool-cases (leb p i)) [
  | inl e ↦ ground (arith, e, now)
  | inr e ↦ rw (before i (omega arith) (ground (arith, e))) (
      wait_controller-first done p rounds (i + 1) (ground (arith, e)) (omega arith)
        (λ j a b. before j (omega arith) b) now)
]

-- And so much later at the most.
wait_controller_bound :
    (done : ℕ → Bool) (rounds i : ℕ) → wait_controller done rounds i ≤ i + rounds
unfolding wait_controller
wait_controller_bound done zero i = omega arith
wait_controller_bound done (suc rounds) i =
    ground (arith, wait_controller_bound done rounds (i + 1))
