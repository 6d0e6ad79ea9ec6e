-- ===== src/Hdd/Waits.antt =====
-- The waits of device/hdd.c end: time passes with each round, and they give up after 500 ticks.
use mathlib.Core.Path.{subst}
use mathlib.Core.Bool.{true≢false}
use ghittle.Base.{
  ℕ, zero, suc, ◌+◌, ◌-◌, ◌%◌, ◌^◌, ◌<◌, ◌≤◌, ◌≡◌, ◌∙◌, ap, refl, sym, bit_and, Bool, true, false,
  not, ◌==◌, leb, arith, Bool-cases, inl, inr, ◌⊎◌,
}
use ghittle.Hdd.{Board, Sys, wait_stat, wait_hdd_ready, read_hdd_stat, pause, deliver, port_of}

module _ (board : Board)
    (tick_in : (s : Board.State board) (p : ℕ)
      → (Board.tick board s ≤ Board.tick board (Board.in_b board s p).1)
        × (Board.tick board (Board.in_b board s p).1 ≤ Board.tick board s + 2 ^ 32))
    (tick_delay : (s : Board.State board)
      → (Board.tick board s < Board.tick board (Board.delay board s))
        × (Board.tick board (Board.delay board s) ≤ Board.tick board s + 2 ^ 32)) where
  open board use {State, in_b, delay, tick}

  tick_stat :
      (primary : Bool) (x : Sys board)
      → (tick x.1 ≤ tick (read_hdd_stat board primary x).1.1)
        × (tick (read_hdd_stat board primary x).1.1 ≤ tick x.1 + 2 ^ 32)
  unfolding read_hdd_stat deliver
  tick_stat primary (h, s) = tick_in s (port_of primary + 7)

  tick_pause :
      (x : Sys board)
      → (tick x.1 < tick (pause board x).1) × (tick (pause board x).1 ≤ tick x.1 + 2 ^ 32)
  unfolding pause deliver
  tick_pause (h, s) = tick_delay s

  -- What is left of the time, and the fuel for it.
  Enough : ℕ → ℕ → Sys board → Type 0
  Enough fuel start x =
      (start ≤ tick x.1) × (tick x.1 ≤ start + 2 ^ 40) × (start + 501 ≤ tick x.1 + fuel)

  -- Inside the loop a round takes one from the fuel, and at least a tick from the time.
  Enough-round :
      (fuel start : ℕ) (x : Sys board) (x' : Sys board)
      → Enough (suc fuel) start x
      → leb ((tick x.1 + 2 ^ 64 - start) % 2 ^ 64) 500 ≡ true
      → tick x.1 ≤ tick x'.1
      → tick x'.1 ≤ tick x.1 + 2 ^ 32
      → Enough fuel start (pause board x')
  unfolding Enough
  Enough-round fuel start x x' (from, to, enough) e later near =
      let (passed, bound) = tick_pause x' in (omega arith, ground arith, omega arith)

  -- Without fuel the time is over.
  Enough-over :
      (start : ℕ) (x : Sys board)
      → Enough zero start x
      → leb ((tick x.1 + 2 ^ 64 - start) % 2 ^ 64) 500 ≡ false
  unfolding Enough
  Enough-over start x (from, to, enough) = ground arith

  module _ (good : ℕ → Bool) (primary : Bool) (start : ℕ) where
    rest : ℕ → Sys board → Bool × Sys board
    rest fuel x =
        wait_stat board good primary fuel start (pause board (read_hdd_stat board primary x).1)

    in_time : Sys board → Bool
    in_time x = leb ((tick x.1 + 2 ^ 64 - start) % 2 ^ 64) 500

    -- The three ways on from the head of the loop.
    wait_stat-over :
        (fuel : ℕ) (x : Sys board)
        → in_time x ≡ false
        → wait_stat board good primary (suc fuel) start x ≡ (false, x)
    unfolding wait_stat in_time
    wait_stat-over fuel x e = rw (e, wait_stat) refl

    wait_stat-good :
        (fuel : ℕ) (x : Sys board)
        → in_time x ≡ true
        → good (read_hdd_stat board primary x).0 ≡ true
        → wait_stat board good primary (suc fuel) start x
          ≡ (true, (read_hdd_stat board primary x).1)
    unfolding wait_stat in_time
    wait_stat-good fuel x e e' = rw (e, wait_stat) (rw (e') refl)

    wait_stat-again :
        (fuel : ℕ) (x : Sys board)
        → in_time x ≡ true
        → good (read_hdd_stat board primary x).0 ≡ false
        → wait_stat board good primary (suc fuel) start x ≡ rest fuel x
    unfolding wait_stat in_time rest
    wait_stat-again fuel x e e' = rw (e, wait_stat) (rw (e') refl)

    round_in_time :
        (fuel : ℕ) (x : Sys board)
        → Enough (suc fuel) start x
        → in_time x ≡ true
        → Enough fuel start (pause board (read_hdd_stat board primary x).1)
    unfolding in_time
    round_in_time fuel x h e =
        let (later, near) = tick_stat primary x in
        Enough-round fuel start x (read_hdd_stat board primary x).1 h e later near

    wait_stat_same :
        (fuel fuel' : ℕ) (x : Sys board)
        → Enough fuel start x
        → Enough fuel' start x
        → wait_stat board good primary fuel start x ≡ wait_stat board good primary fuel' start x
    unfolding wait_stat rest in_time
    wait_stat_same zero zero x h h' = refl
    wait_stat_same zero (suc fuel') x h h' = sym (wait_stat-over fuel' x (Enough-over start x h))
    wait_stat_same (suc fuel) zero x h h' = wait_stat-over fuel x (Enough-over start x h')
    wait_stat_same (suc fuel) (suc fuel') x h h' = elim (Bool-cases (in_time x)) [
      | inr e ↦ wait_stat-over fuel x e ∙ sym (wait_stat-over fuel' x e)
      | inl e ↦ elim (Bool-cases (good (read_hdd_stat board primary x).0)) [
        | inl e' ↦ wait_stat-good fuel x e e' ∙ sym (wait_stat-good fuel' x e e')
        | inr e' ↦
            wait_stat-again fuel x e e'
            ∙ wait_stat_same fuel fuel' (pause board (read_hdd_stat board primary x).1)
                (round_in_time fuel x h e) (round_in_time fuel' x h' e)
            ∙ sym (wait_stat-again fuel' x e e')
      ]
    ]

    -- A wait that gives up ends late.
    wait_stat_late :
        (fuel : ℕ) (x : Sys board)
        → Enough fuel start x
        → (wait_stat board good primary fuel start x).0 ≡ false
        → start + 500 < tick (wait_stat board good primary fuel start x).1.1
    unfolding wait_stat Enough rest in_time
    wait_stat_late zero x h late = ground (arith, h)
    wait_stat_late (suc fuel) x h late = elim (Bool-cases (in_time x)) [
      | inr e ↦
          subst (λ r. start + 500 < tick r.1.1) (sym (wait_stat-over fuel x e)) (ground (arith, h))
      | inl e ↦ elim (Bool-cases (good (read_hdd_stat board primary x).0)) [
        | inl e' ↦ absurd (true≢false (sym (ap (λ r. r.0) (wait_stat-good fuel x e e')) ∙ late))
        | inr e' ↦
            let again = wait_stat-again fuel x e e' in
            subst (λ r. start + 500 < tick r.1.1) (sym again)
              (wait_stat_late fuel (pause board (read_hdd_stat board primary x).1)
                (round_in_time fuel x h e) (sym (ap (λ r. r.0) again) ∙ late))
      ]
    ]

  start_time : (fuel : ℕ) (x : Sys board) → 502 ≤ fuel → Enough fuel (tick x.1) x
  unfolding Enough
  start_time fuel x more = (omega arith, omega arith, omega arith)

  -- On a board where a port takes no time back and each `mdelay(1)` takes at least a tick,
  -- `wait_hdd_ready` returns: the rounds that it is given here are enough, and more change nothing.
  -- And it gives up only after more than 500 ticks.
  pub wait_hdd_ready_lem :
      (primary : Bool) (fuel : ℕ) (x : Sys board)
      → 502 ≤ fuel
      → (wait_stat board (λ stat. not (bit_and stat 0x40 == 0)) primary fuel (tick x.1) x
          ≡ wait_hdd_ready board primary x)
        × (((wait_hdd_ready board primary x).0 ≡ true)
            ⊎ (tick x.1 + 500 < tick (wait_hdd_ready board primary x).1.1))
  unfolding wait_hdd_ready
  wait_hdd_ready_lem primary fuel x more =
      let good = λ (stat : ℕ). not (bit_and stat 0x40 == 0) in
      let enough = start_time 502 x (omega arith) in
      (
        wait_stat_same good primary (tick x.1) fuel 502 x (start_time fuel x more) enough,
        elim (Bool-cases (wait_stat board good primary 502 (tick x.1) x).0) [
          | inl e ↦ inl e
          | inr e ↦ inr (wait_stat_late good primary (tick x.1) 502 x enough e)
        ],
      )
