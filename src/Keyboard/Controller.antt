-- ===== src/Keyboard/Controller.antt =====
-- device/keyboard.c: starting the keyboard and programming its controller. Waiting for the
-- controller only reads its status: see Keyboard.Waits.
use ghittle.Base.{ℕ, ◌+◌, Bool, false, bit_or, if◌then◌else◌}
use ghittle.Queue.{init_queue}
use ghittle.Keyboard.{Keyboard, out_b, wait_for_ack, change_led}

abbrev pub key_max_queue_cnt : ℕ
key_max_queue_cnt = 100

-- `change_led(0, 0, 0)`; `again` is what a key that comes meanwhile can call.
abbrev leds_off : (Keyboard → Bool × Keyboard) → Keyboard → Bool × Keyboard
leds_off again k =
    let (acked, k₁) = wait_for_ack again (out_b k 0x60 0xED) in
    if acked then wait_for_ack again (out_b k₁ 0x60 0) else (false, k₁)

-- The result is that of the first `wait_for_ack`. `key_buffer` is an address, and `fuel` that of
-- `change_led`.
unfoldable pub init_keyboard : ℕ → ℕ → Keyboard → Bool × Keyboard
init_keyboard fuel key_buffer k =
    let k₁ = record k { key_queue = init_queue key_buffer key_max_queue_cnt 3 } in
    let (res, k₂) = wait_for_ack (change_led fuel) (out_b (out_b k₁ 0x64 0xAE) 0x60 0xF4) in
    (res, (leds_off (change_led fuel) k₂).1)

-- The next byte, for which `get_keycode` waits.
unfoldable pub get_keycode : Keyboard → ℕ × Keyboard
get_keycode k = (k.input 0, record k { input = λ i. k.input (i + 1) })

unfoldable pub enable_a20gate : Keyboard → Keyboard
unfolding get_keycode
enable_a20gate k =
    let (code, k₁) = get_keycode (out_b k 0x64 0xD0) in
    out_b (out_b k₁ 0x64 0xD1) 0x60 (bit_or code 0x01)

-- Up to the endless loop.
unfoldable pub reboot : Keyboard → Keyboard
reboot k = out_b (out_b k 0x64 0xD1) 0x60 0x0
