-- ===== src/Console.antt =====
-- device/console.c: text on the screen. Positions are not negative.
use ghittle.Base.{
  ℕ, zero, suc, ◌+◌, ◌-◌, ◌*◌, ◌/◌, ◌%◌, List, [], ◌∷◌, ◌++◌, leb, ◌==◌, if◌then◌else◌,
}
use ghittle.Mem.{Mem, store, memcpy}
pub mod Screen
pub mod Print

abbrev pub console_width : ℕ
console_width = 80

abbrev pub console_height : ℕ
console_height = 25

abbrev pub console_tab_size : ℕ
console_tab_size = 8

abbrev pub video_mem_start : ℕ
video_mem_start = 0xB8000

-- `console`, the memory, and what is written to the ports.
pub record Console : Type 0 where
  pub current_offset : ℕ
  pub mem : Mem
  pub output : List (ℕ × ℕ)

-- The address of `cb[i].ch`.
abbrev pub cell : ℕ → ℕ
cell i = video_mem_start + 2 * i

unfoldable pub set_cursor : Console → ℕ → ℕ → Console
set_cursor k x y =
    let offset = y * console_width + x in
    record k {
      current_offset = offset;
      output =
          k.output
          ++ ((0x3D4, 0x0E)
              ∷ (0x3D5, offset / 256 % 256)
              ∷ (0x3D4, 0x0F)
              ∷ (0x3D5, offset % 256)
              ∷ []);
    }

unfoldable pub get_cursor : Console → ℕ × ℕ
get_cursor k = (k.current_offset % console_width, k.current_offset / console_width)

unfoldable pub init_console : Console → ℕ → ℕ → Console
unfolding set_cursor
init_console k x y = set_cursor (record k { current_offset = 0 }) x y

-- Spaces in `n` cells from `j` on.
unfoldable pub blank_cells : ℕ → ℕ → Mem → Mem
blank_cells j zero m = m
blank_cells j (suc n) m = blank_cells (j + 1) n (store m (cell j) b' ')

-- The lines move up by one.
unfoldable pub scroll : Mem → Mem
scroll m =
    let size = (console_height - 1) * console_width in
    blank_cells size console_width
      (memcpy m video_mem_start (video_mem_start + console_width * 2) (size * 2))

-- One round of the loop of `console_print_string`: the new offset and the memory.
unfoldable pub print_char : ℕ → ℕ → Mem → ℕ × Mem
print_char c offset m =
    let out =
      if c == 10
      then (offset + (console_width - offset % console_width), m)
      else (if c == 9
          then (offset + (console_tab_size - offset % console_tab_size), m)
          else (offset + 1, store m (cell offset) c)) in
    if leb (console_height * console_width) out.0
    then ((console_height - 1) * console_width, scroll out.1)
    else out

unfoldable pub print_from : List ℕ → ℕ → Mem → ℕ × Mem
print_from [] offset m = (offset, m)
print_from (c ∷ cs) offset m =
    let rest = print_from cs (print_char c offset m).0 (print_char c offset m).1 in
    if c == 0 then (offset, m) else rest

-- The result is the new offset, which the caller makes the current one.
unfoldable pub console_print_string : Console → List ℕ → ℕ × Console
unfolding print_from
console_print_string k buf =
    let (offset, m) = print_from buf k.current_offset k.mem in (offset, record k { mem = m })

unfoldable pub clear_screen : Console → Console
unfolding set_cursor
clear_screen k =
    set_cursor (record k { mem = blank_cells 0 (console_width * console_height) k.mem }) 0 0

-- The loop of `print_string_xy` from cell `i` on.
unfoldable pub print_cells : List ℕ → ℕ → Mem → Mem
print_cells [] i m = m
print_cells (c ∷ cs) i m =
    let rest = print_cells cs (i + 1) (store m (cell i) c) in if c == 0 then m else rest

unfoldable pub print_string_xy : Console → ℕ → ℕ → List ℕ → Console
unfolding print_cells
print_string_xy k x y str = record k { mem = print_cells str (y * console_width + x) k.mem }
