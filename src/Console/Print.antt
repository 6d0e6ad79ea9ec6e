-- ===== src/Console/Print.antt =====
-- device/console.c: `printk` and `getch`, on top of the strings and the keyboard.
use ghittle.Base.{ℕ, zero, suc, ◌/◌, ◌%◌, ◌+◌, true, false, Option, none, some, List, bit_and, ◌==◌}
use ghittle.Str.Format.{Arg, vsprintf}
use ghittle.Console.{Console, console_width, set_cursor, console_print_string}
use ghittle.Keyboard.{Keyboard, get_key_data, key_flags_down}

-- None is a format that `vsprintf` cannot follow. `vc_buf` has 1024 bytes.
unfoldable pub printk : Console → List ℕ → List Arg → Option Console
unfolding vsprintf console_print_string set_cursor
printk k fstring args = elim (vsprintf fstring args) [
  | none ↦ none
  | some (n, vc_buf) ↦
      let (next_offset, k') = console_print_string k vc_buf in
      some (set_cursor k' (next_offset % console_width) (next_offset / console_width))
]

-- The loop of `getch` over the keys that are in the queue; none is the wait for the next one, for
-- which `getch` calls `schedule`. `data` is the address of the local.
unfoldable pub getch : ℕ → Keyboard → ℕ → Option (ℕ × Keyboard)
unfolding get_key_data
getch zero k key = none
getch (suc fuel) k key =
    let (got, k') = get_key_data k key in
    elim (got == 0) [
      | true ↦ none
      | false ↦ elim (bit_and (k'.mem (key + 2)) key_flags_down == 0) [
        | true ↦ getch fuel k' key
        | false ↦ some (k'.mem (key + 1), k')
      ]
    ]
