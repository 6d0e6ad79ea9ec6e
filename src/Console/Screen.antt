-- ===== src/Console/Screen.antt =====
-- Printing stays on the screen.
use ghittle.Base.{
  ℕ, zero, suc, ◌+◌, ◌*◌, ◌/◌, ◌%◌, ◌≤◌, ◌<◌, ◌≡◌, ◌⊎◌, ◌∙◌, refl, inl, List, [], ◌∷◌, arith,
}
use ghittle.Mem.{Mem, store, memcpy}
use ghittle.Mem.Laws.{memcpy_lem}
use ghittle.Console.{
  Console, video_mem_start, console_width, console_height, cell, set_cursor, get_cursor,
  blank_cells, scroll, print_char, print_from, console_print_string,
}

-- An address outside the video memory.
abbrev pub OffScreen : ℕ → Type 0
OffScreen a = (a < video_mem_start) ⊎ (video_mem_start + 2 * (console_height * console_width) ≤ a)

-- What `set_cursor` sets `get_cursor` gives back, for a column on the screen.
pub get_cursor-set_cursor :
    (k : Console) (x y : ℕ) → x < console_width → get_cursor (set_cursor k x y) ≡ (x, y)
unfolding get_cursor set_cursor
get_cursor-set_cursor k x y h =
    let column : (y * 80 + x) % 80 ≡ x = omega arith in
    let row : (y * 80 + x) / 80 ≡ y = omega arith in rw (column, row)

blank_cells_off :
    (n j a : ℕ) (m : Mem)
    → j + n ≤ console_height * console_width
    → OffScreen a
    → blank_cells j n m a ≡ m a
unfolding blank_cells
blank_cells_off zero j a m h off = refl
blank_cells_off (suc n) j a m h off =
    ground (arith, blank_cells_off n (j + 1) a (store m (cell j) b' '))

scroll_off : (a : ℕ) (m : Mem) → OffScreen a → scroll m a ≡ m a
unfolding scroll
scroll_off a m off =
    blank_cells_off 80 1920 a (memcpy m video_mem_start (video_mem_start + 160) 3840) (omega arith)
      off
    ∙ ground
        (arith, memcpy_lem m video_mem_start (video_mem_start + 160) 3840 a (inl (omega arith)))

print_char_off :
    (c offset a : ℕ) (m : Mem)
    → offset < console_height * console_width
    → OffScreen a
    → ((print_char c offset m).0 < console_height * console_width)
      × ((print_char c offset m).1 a ≡ m a)
unfolding print_char
print_char_off c offset a m h off =
    ground (arith, scroll_off a m off, scroll_off a (store m (cell offset) c) off)

print_from_off :
    (cs : List ℕ) (offset a : ℕ) (m : Mem)
    → offset < console_height * console_width
    → OffScreen a
    → ((print_from cs offset m).0 < console_height * console_width)
      × ((print_from cs offset m).1 a ≡ m a)
unfolding print_from
print_from_off [] offset a m h off = (h, refl)
print_from_off (c ∷ cs) offset a m h off = ground (
  arith,
  print_char_off c offset a m h off,
  print_from_off cs (print_char c offset m).0 a (print_char c offset m).1,
)

-- From an offset on the screen, `console_print_string` gives an offset on the screen, whatever the
-- string is, and it writes nothing outside the video memory.
pub console_print_string_lem :
    (k : Console) (buf : List ℕ) (a : ℕ)
    → k.current_offset < console_height * console_width
    → OffScreen a
    → ((console_print_string k buf).0 < console_height * console_width)
      × ((console_print_string k buf).1.mem a ≡ k.mem a)
unfolding console_print_string
console_print_string_lem k buf a h off = print_from_off buf k.current_offset a k.mem h off
