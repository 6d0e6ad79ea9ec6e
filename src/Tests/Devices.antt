-- ===== src/Tests/Devices.antt =====
-- The keyboard and the console on concrete data.
use ghittle.Base.{◌<◌, ◌≡◌, refl, inl, Bool, true, false, [], ◌∷◌, arith}
use ghittle.Queue.{init_queue}
use ghittle.Keyboard.{Keyboard, is_alphabet, code_to_ascii}
use ghittle.Keyboard.Chars.{code_to_ascii-letter}
use ghittle.Console.{Console, console_print_string}
use ghittle.Console.Screen.{console_print_string_lem}

-- Shift is down.
abbrev pub keys : Keyboard
keys = record {
  shift_down = 1;
  caps_on = 0;
  num_on = 0;
  scroll_on = 0;
  ext_code = 0;
  skip_count = 0;
  key_queue = init_queue 4096 100 3;
  mem = λ a. 0;
  input = λ i. 0xFA;
  output = [];
  key_data = 64;
  unset_combined = 0;
  unset_led_changed = 0;
  past_table = λ code. (0, 0);
}

-- A controller that acknowledges nothing.
abbrev no_led : Keyboard → Bool × Keyboard
no_led k = (false, k)

a_is_letter : is_alphabet keys 30 ≡ true
unfolding is_alphabet
a_is_letter = refl

code_to_ascii-letter_example :
    ((code_to_ascii no_led keys 30).0 ≡ true) × ((code_to_ascii no_led keys 30).1 ≡ b'A')
code_to_ascii-letter_example = code_to_ascii-letter no_led keys 30 (omega arith) a_is_letter refl

abbrev pub screen : Console
screen = record { current_offset = 1999; mem = λ a. 7; output = [] }

console_print_string_lem_example :
    ((console_print_string screen (b'h' ∷ b'i' ∷ [])).0 < 2000)
    × ((console_print_string screen (b'h' ∷ b'i' ∷ [])).1.mem 100 ≡ 7)
console_print_string_lem_example =
    console_print_string_lem screen (b'h' ∷ b'i' ∷ []) 100 (omega arith) (inl (omega arith))
