-- ===== src/Interrupt.antt =====
-- core/kernel64/interrupt.c: the handlers that the interrupt service routines call. The parts of the
-- kernel that they change are in a record; `num` is the number of the vector.
use ghittle.Base.{
  ℕ, ◌+◌, ◌-◌, ◌%◌, ◌^◌, Bool, true, false, not, Option, none, some, List, [], ◌∷◌, ◌++◌, bit_and,
  ◌==◌, if◌then◌else◌,
}
use ghittle.Base.Text.{codes}
use ghittle.Timer.{Writes, eoi_pic, pic_irq_start_vector}
use ghittle.Console.{Console, print_string_xy}
use ghittle.Keyboard.{Keyboard, put_scan_code, change_led}
use ghittle.Keyboard.Controller.{get_keycode}
use ghittle.Hdd.{Hdd, set_hdd_interrupt_state}
use ghittle.Sched.{Kernel, timer_tick}
pub mod Handlers

-- `ports` is what is written to the interrupt controllers.
pub record Machine : Type 0 where
  pub console : Console
  pub keyboard : Keyboard
  pub hdd : Hdd
  pub kernel : Kernel
  pub tick : ℕ
  pub ports : Writes

abbrev pub end_of_interrupt : ℕ → Machine → Machine
end_of_interrupt num k = record k { ports = k.ports ++ eoi_pic (num - pic_irq_start_vector) }

unfoldable pub interrupt_handler : ℕ → Machine → Machine
interrupt_handler num k =
    end_of_interrupt num
      (record k { console = print_string_xy k.console 40 24 (codes "Interrupt") })

-- `full` is `is_obuffer_full()`, and `fuel` that of `change_led`. The code is kept in a `char` and
-- read as the same byte.
unfoldable pub keyboard_handler : ℕ → Bool → ℕ → Machine → Machine
unfolding get_keycode
keyboard_handler fuel full num k =
    let shown = print_string_xy k.console 30 24 (codes "Keyboard") in
    let (code, keyboard) = get_keycode k.keyboard in
    let read = if full then (put_scan_code (change_led fuel) keyboard code).1 else k.keyboard in
    end_of_interrupt num (record k { console = shown; keyboard = read })

-- None is a scheduler that has to wait for its lock.
unfoldable pub timer_handler : ℕ → Machine → Option Machine
unfolding timer_tick
timer_handler num k =
    let k₁ = end_of_interrupt num k in
    elim (timer_tick k₁.kernel) [
      | none ↦ none
      | some kernel ↦ some (record k₁ { tick = (k₁.tick + 1) % 2 ^ 64; kernel = kernel })
    ]

unfoldable pub hdd_handler : ℕ → Machine → Machine
unfolding set_hdd_interrupt_state
hdd_handler num k =
    end_of_interrupt num
      (record k { hdd = set_hdd_interrupt_state k.hdd (num - pic_irq_start_vector == 14) 1 })

-- The result is the flag before, and the second one the flag after.
unfoldable pub set_interrupt_flag : Bool → Bool → Bool × Bool
set_interrupt_flag before enable_interrupt = (before, enable_interrupt)
