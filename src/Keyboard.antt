-- ===== src/Keyboard.antt =====
-- device/keyboard.c: scan codes become characters in a queue. Waiting for the controller reads its
-- status only: see Keyboard.Waits. Interrupts are disabled for a while and then as before. The
-- variables `combined` and `LED_changed` may be read before they are set, and the table is read behind
-- its end for the codes 89 to 127: what is found there is part of the state.
use ghittle.Base.{
  ℕ, zero, suc, ◌+◌, ◌-◌, ◌*◌, ◌%◌, Bool, true, false, ◌&&◌, ◌||◌, not, xor, List, [], ◌∷◌, ◌++◌,
  get_or, length, ltb, leb, bit_and, bit_or, ◌==◌, if◌then◌else◌,
}
use ghittle.Mem.{Mem, store}
use ghittle.Queue.{Queue, put_queue, get_queue, is_queue_empty}
pub mod Table
pub mod Chars
pub mod Controller
pub mod Waits
use ghittle.Keyboard.Table.{key_map_entry}

abbrev pub key_skipcount_for_pause : ℕ
key_skipcount_for_pause = 2

abbrev pub key_flags_down : ℕ
key_flags_down = 1

abbrev pub key_flags_extendedkey : ℕ
key_flags_extendedkey = 2

abbrev pub key_pause : ℕ
key_pause = 0xA0

abbrev pub key_mapping_table_count : ℕ
key_mapping_table_count = 89

-- `key_manager` with the queue, the memory, the bytes that the port 0x60 will give, those written
-- to the ports, the address of the local `data`, and what unset variables hold.
pub record Keyboard : Type 0 where
  pub shift_down : ℕ
  pub caps_on : ℕ
  pub num_on : ℕ
  pub scroll_on : ℕ
  pub ext_code : ℕ
  pub skip_count : ℕ
  pub key_queue : Queue
  pub mem : Mem
  pub input : ℕ → ℕ
  pub output : List (ℕ × ℕ)
  pub key_data : ℕ
  pub unset_combined : ℕ
  pub unset_led_changed : ℕ
  pub past_table : ℕ → ℕ × ℕ

abbrev pub entry : Keyboard → ℕ → ℕ × ℕ
entry k code =
    if ltb code key_mapping_table_count then get_or key_map_entry code (0, 0) else k.past_table code

unfoldable pub is_alphabet : Keyboard → ℕ → Bool
is_alphabet k code = leb b'a' (entry k code).0 && leb (entry k code).0 b'z'

unfoldable pub is_number_or_symbol : Keyboard → ℕ → Bool
unfolding is_alphabet
is_number_or_symbol k code = not (is_alphabet k code) && (leb 2 code && leb code 53)

unfoldable pub is_numpad : ℕ → Bool
is_numpad code = leb 71 code && leb code 83

unfoldable pub is_tobe_combined : Keyboard → ℕ → ℕ
unfolding is_alphabet is_number_or_symbol is_numpad
is_tobe_combined k scan_code =
    let code = bit_and scan_code 0x7F in
    if is_alphabet k code
    then (if k.shift_down == k.caps_on then 0 else 1)
    else (if is_number_or_symbol k code
        then (if k.shift_down == 0 then 0 else 1)
        else (if is_numpad code then (if k.num_on == 0 then 0 else 1) else k.unset_combined))

abbrev pub out_b : Keyboard → ℕ → ℕ → Keyboard
out_b k port value = record k { output = k.output ++ ((port, value) ∷ []) }

-- `x ^= 1`
abbrev pub flip : ℕ → ℕ
flip x = if x % 2 == 0 then x + 1 else x - 1

-- `update_keystate` up to the test of `LED_changed`, which is the first result.
unfoldable pub key_state : Keyboard → ℕ → ℕ × Keyboard
key_state k scan_code =
    let down = bit_and scan_code 0x80 == 0 in
    let code = bit_and scan_code 0x7F in
    if code == 42 || code == 54
    then (k.unset_led_changed, record k { shift_down = if down then 1 else 0 })
    else (if code == 58 && down
        then (1, record k { caps_on = flip k.caps_on })
        else (if code == 69 && down
            then (1, record k { num_on = flip k.num_on })
            else (if code == 70 && down
                then (1, record k { scroll_on = flip k.scroll_on })
                else (k.unset_led_changed, k))))

-- The argument `led` is `change_led` with the three flags of the state.
module _ (led : Keyboard → Bool × Keyboard) where
  unfoldable pub update_keystate : Keyboard → ℕ → Keyboard
  unfolding key_state
  update_keystate k code =
      if (key_state k code).0 == 0 then (key_state k code).1 else (led (key_state k code).1).1

  -- Whether there is a character, the character and its flags.
  unfoldable pub code_to_ascii : Keyboard → ℕ → Bool × ℕ × ℕ × Keyboard
  unfolding is_tobe_combined update_keystate
  code_to_ascii k code =
      if ltb 0 k.skip_count
      then (false, 0, 0, record k { skip_count = k.skip_count - 1 })
      else (if code == 0xE1
          then (true, key_pause, key_flags_down, record k { skip_count = key_skipcount_for_pause })
          else (if code == 0xE0
              then (false, 0, 0, record k { ext_code = 1 })
              else (let e = entry k (bit_and code 0x7F) in
                  let ascii = if is_tobe_combined k code == 0 then e.0 else e.1 in
                  let extended = if k.ext_code == 0 then 0 else key_flags_extendedkey in
                  let flags =
                    if bit_and code 0x80 == 0 then bit_or extended key_flags_down else extended in
                  (true, ascii, flags, update_keystate (record k { ext_code = 0 }) code))))

  -- The three bytes of `struct key_data`.
  abbrev pub write_data : Mem → ℕ → ℕ → ℕ → ℕ → Mem
  write_data m at scan_code ascii flags =
      store (store (store m at scan_code) (at + 1) ascii) (at + 2) flags

  unfoldable pub put_scan_code : Keyboard → ℕ → ℕ × Keyboard
  unfolding code_to_ascii
  put_scan_code k scan_code =
      let (found, ascii, flags, k1) = code_to_ascii k scan_code in
      if not found
      then (0, record k1 { mem = store k1.mem k1.key_data scan_code })
      else (let out =
            put_queue k1.key_queue (write_data k1.mem k1.key_data scan_code ascii flags)
              k1.key_data in
          (out.0, record k1 { key_queue = out.1; mem = out.2 }))

  -- The loop of `wait_for_ack` with the rounds left.
  unfoldable pub ack_loop : ℕ → Keyboard → Bool × Keyboard
  unfolding put_scan_code
  ack_loop zero k = (false, k)
  ack_loop (suc n) k =
      let code = k.input 0 in
      let k1 = record k { input = λ i. k.input (i + 1) } in
      let rest = ack_loop n (put_scan_code k1 code).1 in if code == 0xFA then (true, k1) else rest

  unfoldable pub wait_for_ack : Keyboard → Bool × Keyboard
  unfolding ack_loop
  wait_for_ack k = ack_loop 100 k

-- `change_led` with its flags from the state, and fuel for its calls from `update_keystate`.
unfoldable pub change_led : ℕ → Keyboard → Bool × Keyboard
change_led zero k = (false, k)
change_led (suc n) k =
    let leds = bit_or (bit_or (k.caps_on * 4) (k.num_on * 2)) k.scroll_on in
    let (acked, k1) = wait_for_ack (change_led n) (out_b k 0x60 0xED) in
    if acked then wait_for_ack (change_led n) (out_b k1 0x60 leds) else (false, k1)

-- The result is the returned byte; the key is written to `dst`.
unfoldable pub get_key_data : Keyboard → ℕ → ℕ × Keyboard
get_key_data k dst =
    if is_queue_empty k.key_queue
    then (0, k)
    else (let out = get_queue k.key_queue k.mem dst in
        (out.0, record k { key_queue = out.1; mem = out.2 }))
