-- ===== src/Timer/Wait.antt =====
-- The busy waits of device/timer.c and core/kernel64/pit.c end, and not too early.
use mathlib.Core.Path.{subst}
use ghittle.Base.{
  ℕ, zero, suc, ◌+◌, ◌-◌, ◌%◌, ◌^◌, ◌<◌, ◌≤◌, ◌≡◌, ◌∙◌, refl, Bool, true, false, Option, some, ltb,
  leb, ◌==◌, arith, Bool-cases, inl, inr,
}
use ghittle.Timer.{mdelay, mdelay_from, wait_pit, wait_pit_from, read_counter0}

-- The first index from i on at which a test holds, if there is one among the next.
FirstFrom : (ℕ → Bool) → ℕ → ℕ → Type 0
FirstFrom test i j = (i ≤ j) × (test j ≡ true) × ((n : ℕ) → i ≤ n → n < j → test n ≡ false)

same_index : (i n : ℕ) → (n == i) ≡ true → i ≡ n
same_index i n e = ground arith

-- A loop that ends at the first index where a test holds.
module _ (test : ℕ → Bool) (loop : ℕ → ℕ → Option ℕ)
    (loop_done : (fuel i : ℕ) → test i ≡ true → loop (suc fuel) i ≡ some i)
    (loop_next : (fuel i : ℕ) → test i ≡ false → loop (suc fuel) i ≡ loop fuel (i + 1)) where
  loop_first :
      (fuel i k : ℕ)
      → k < fuel
      → test (i + k) ≡ true
      → (j : ℕ) × (loop fuel i ≡ some j) × (j ≤ i + k) × FirstFrom test i j
  unfolding FirstFrom
  loop_first zero i k less there = ground arith
  loop_first (suc fuel) i zero less there =
      let e : test i ≡ true = subst (λ n. test n ≡ true) (omega arith) there in
      (i, loop_done fuel i e, omega arith, (omega arith, e, λ n low high. ground arith))
  loop_first (suc fuel) i (suc k) less there = elim (Bool-cases (test i)) [
    | inl e ↦ (i, loop_done fuel i e, omega arith, (omega arith, e, λ n low high. ground arith))
    | inr e ↦
        let (j, ends, bound, (low, holds, before)) =
          loop_first fuel (i + 1) k (omega arith)
            (subst (λ n. test n ≡ true) (omega arith) there) in
        (
          j,
          loop_next fuel i e ∙ ends,
          omega arith,
          (
            omega arith,
            holds,
            λ n from to. elim (Bool-cases (n == i)) [
              | inl same ↦ subst (λ k. test k ≡ false) (same_index i n same) e
              | inr other ↦ before n (ground arith) to
            ],
          ),
        )
  ]

-- `mdelay` returns, and not too early: if some later reading of `tick` is more than `msec` ahead of
-- the first, and the clock neither falls behind its first value nor overflows until then, then with fuel for the readings up to it the loop ends at a reading that is, not later
-- than that one, and no reading before it was.
pub mdelay_lem :
    (tick : ℕ → ℕ) (msec k fuel : ℕ)
    → ((i : ℕ) → i ≤ 1 + k → tick 0 ≤ tick i)
    → ((i : ℕ) → i ≤ 1 + k → tick i < 2 ^ 64)
    → tick 0 + msec < tick (1 + k)
    → k < fuel
    → (j : ℕ) × (mdelay tick fuel msec ≡ some j)
      × (j ≤ 1 + k)
      × (tick 0 + msec < tick j)
      × ((n : ℕ) → 1 ≤ n → n < j → tick n ≤ tick 0 + msec)
unfolding mdelay FirstFrom
mdelay_lem tick msec k fuel later small ahead enough =
    let (j, ends, bound, (low, holds, before)) =
      loop_first (λ i. ltb msec ((tick i + 2 ^ 64 - tick 0) % 2 ^ 64))
        (λ f i. mdelay_from tick (tick 0) msec f i) (λ f i e. rw (e, mdelay_from) refl)
        (λ f i e. rw (e, mdelay_from) refl) fuel 1 k enough
        (ground (arith, later (1 + k) (omega arith), small (1 + k) (omega arith))) in
    (
      j,
      ends,
      bound,
      ground (arith, later j bound, small j bound, holds),
      λ n from to. ground (arith, later n (omega arith), small n (omega arith), before n from to),
    )

not_less : (a b : ℕ) → leb b a ≡ true → ltb a b ≡ false
not_less a b e = ground arith

is_less : (a b : ℕ) → leb b a ≡ false → ltb a b ≡ true
is_less a b e = ground arith

-- `wait_pit` likewise: if some later reading of the counter is at least `count` below the first,
-- modulo 2 ^ 16, then the loop ends at the first reading that is.
pub wait_pit_lem :
    (counter : ℕ → ℕ × ℕ) (count k fuel : ℕ)
    → let gone =
        λ (i : ℕ). (read_counter0 (counter 0) + 2 ^ 16 - read_counter0 (counter i)) % 2 ^ 16 in
      count ≤ gone (1 + k)
      → k < fuel
      → (j : ℕ) × (wait_pit counter fuel count ≡ some j)
        × (j ≤ 1 + k)
        × (count ≤ gone j)
        × ((n : ℕ) → 1 ≤ n → n < j → gone n < count)
unfolding wait_pit FirstFrom
wait_pit_lem counter count k fuel gone enough =
    let start = read_counter0 (counter 0) in
    let (j, ends, bound, (low, holds, before)) =
      loop_first (λ i. leb count ((start + 2 ^ 16 - read_counter0 (counter i)) % 2 ^ 16))
        (λ f i. wait_pit_from counter start count f i)
        (λ f i e. rw (not_less _ count e, wait_pit_from) refl)
        (λ f i e. rw (is_less _ count e, wait_pit_from) refl) fuel 1 k enough (ground arith) in
    (j, ends, bound, ground arith, λ n from to. ground (arith, before n from to))
