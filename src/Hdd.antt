-- ===== src/Hdd.antt =====
-- device/hdd.c: the driver of the ATA disk. The disk, the other interrupts and the time that passes
-- are a parameter, `Board`. `mdelay(1)` (device/timer.c) is its step `delay`.
use ghittle.Base.{
  ℕ, zero, suc, ◌+◌, ◌-◌, ◌*◌, ◌/◌, ◌%◌, ◌^◌, bit_and, bit_or, Bool, true, false, ◌&&◌, ◌||◌, not,
  Option, none, some, List, [], ◌∷◌, ◌==◌, leb, ltb, if◌then◌else◌,
}
use ghittle.Base.Int.{ℤ, pos, negsuc, is_zero}
use ghittle.Base.Text.{codes}
use ghittle.Mem.{Mem, store, load32, memcmp}
use ghittle.Sync.{Mutex, init_mutex, lock, unlock}
pub mod Waits
pub mod Sector
pub mod Keeps
pub mod Data
pub mod Transfer
pub mod Refuse

-- The ports as the processor sees them. `arrived` says whether the interrupts 14 and 15 came during
-- the step that led to a state; their handler (core/kernel64/interrupt.c) sets the flags then.
pub record Board : Type 1 where
  pub State : Type 0
  pub in_b : State → ℕ → ℕ × State
  pub in_w : State → ℕ → ℕ × State
  pub out_b : State → ℕ → ℕ → State
  pub out_w : State → ℕ → ℕ → State
  pub delay : State → State
  pub tick : State → ℕ
  pub arrived : State → Bool × Bool

-- `hdd`; the bytes of `hdd_info` have their own addresses, from 0.
pub record Hdd : Type 0 where
  pub detected : ℕ
  pub writable : ℕ
  pub int_primary : ℕ
  pub int_secondary : ℕ
  pub mutex : Mutex
  pub hdd_info : Mem

-- The fields of `struct hdd_info` that the driver uses: `serial` and `model` are at 20 and 54.
abbrev pub total_sector : Mem → ℕ
total_sector info = load32 info 120

abbrev pub hdd_waittime : ℕ
hdd_waittime = 500

-- `port`, as every operation finds it.
abbrev pub port_of : Bool → ℕ
port_of primary = if primary then 0x1F0 else 0x170

unfoldable pub set_hdd_interrupt_state : Hdd → Bool → ℕ → Hdd
set_hdd_interrupt_state h primary state =
    if primary then record h { int_primary = state } else record h { int_secondary = state }

module _ (board : Board) where
  open board use {State, in_b, in_w, out_b, out_w, delay, tick, arrived}

  abbrev pub Sys : Type 0
  Sys = Hdd × State

  -- The interrupts of a step are handled before the next one.
  unfoldable pub deliver : Hdd → State → Sys
  deliver h s = (
    record h {
      int_primary = if (arrived s).0 then 1 else h.int_primary;
      int_secondary = if (arrived s).1 then 1 else h.int_secondary;
    },
    s,
  )

  unfoldable pub out : ℕ → ℕ → Sys → Sys
  unfolding deliver
  out port v (h, s) = deliver h (out_b s port v)

  unfoldable pub set_flag : Bool → ℕ → Sys → Sys
  unfolding set_hdd_interrupt_state
  set_flag primary state (h, s) = (set_hdd_interrupt_state h primary state, s)

  unfoldable pub read_hdd_stat : Bool → Sys → ℕ × Sys
  unfolding deliver
  read_hdd_stat primary (h, s) =
      let (stat, s') = in_b s (port_of primary + 7) in (stat, deliver h s')

  unfoldable pub pause : Sys → Sys
  unfolding deliver
  pause (h, s) = deliver h (delay s)

  -- The loop of `wait_hdd_nobusy` and `wait_hdd_ready`, with the test of the status and fuel.
  unfoldable pub wait_stat : (ℕ → Bool) → Bool → ℕ → ℕ → Sys → Bool × Sys
  unfolding read_hdd_stat pause
  wait_stat good primary zero tick_start x = (false, x)
  wait_stat good primary (suc fuel) tick_start x =
      elim (leb ((tick x.1 + 2 ^ 64 - tick_start) % 2 ^ 64) hdd_waittime) [
        | false ↦ (false, x)
        | true ↦
            let (stat, x') = read_hdd_stat primary x in
            elim (good stat) [
              | true ↦ (true, x')
              | false ↦ wait_stat good primary fuel tick_start (pause x')
            ]
      ]

  -- Every delay lets at least one tick pass, so that the loops end after 501 rounds.
  abbrev pub wait_rounds : ℕ
  wait_rounds = 502

  unfoldable pub wait_hdd_nobusy : Bool → Sys → Bool × Sys
  unfolding wait_stat
  wait_hdd_nobusy primary x =
      wait_stat (λ stat. bit_and stat 0x80 == 0) primary wait_rounds (tick x.1) x

  unfoldable pub wait_hdd_ready : Bool → Sys → Bool × Sys
  unfolding wait_stat
  wait_hdd_ready primary x =
      wait_stat (λ stat. not (bit_and stat 0x40 == 0)) primary wait_rounds (tick x.1) x

  -- The flag that `wait_hdd_interrupt` waits for.
  abbrev pub interrupted : Bool → Hdd → Bool
  interrupted primary h = not ((if primary then h.int_primary else h.int_secondary) == 0)

  unfoldable pub wait_interrupt_from : Bool → ℕ → ℕ → Sys → Bool × Sys
  unfolding pause
  wait_interrupt_from primary zero tick_start x = (false, x)
  wait_interrupt_from primary (suc fuel) tick_start x =
      elim (leb ((tick x.1 + 2 ^ 64 - tick_start) % 2 ^ 64) hdd_waittime) [
        | false ↦ (false, x)
        | true ↦ elim (interrupted primary x.0) [
          | true ↦ (true, x)
          | false ↦ wait_interrupt_from primary fuel tick_start (pause x)
        ]
      ]

  unfoldable pub wait_hdd_interrupt : Bool → Sys → Bool × Sys
  unfolding wait_interrupt_from
  wait_hdd_interrupt primary x = wait_interrupt_from primary wait_rounds (tick x.1) x
