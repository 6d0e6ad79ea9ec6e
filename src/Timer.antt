-- ===== src/Timer.antt =====
-- device/timer.c, core/kernel64/pic.c and core/kernel64/pit.c. What is written to the ports is a list
-- of pairs of a port and a byte, in order. Time passes outside the kernel: a variable or a counter
-- that an interrupt or a chip changes is a function from the number of the reading to the value read.
use ghittle.Base.{
  ℕ, zero, suc, ◌+◌, ◌-◌, ◌*◌, ◌/◌, ◌%◌, ◌^◌, Bool, Option, none, some, List, [], ◌∷◌, ltb, leb,
  if◌then◌else◌,
}
pub mod Wait

abbrev pub Writes : Type 0
Writes = List (ℕ × ℕ)

abbrev pub pic_irq_start_vector : ℕ
pic_irq_start_vector = 0x20

-- PIC_MASTER_PORT1 and 2 are 0x20 and 0x21, PIC_SLAVE_PORT1 and 2 are 0xA0 and 0xA1.
unfoldable pub init_pic : Writes
init_pic =
    (0x20, 0x11)
    ∷ (0x21, pic_irq_start_vector)
    ∷ (0x21, 0x04)
    ∷ (0x21, 0x01)
    ∷ (0xA0, 0x11)
    ∷ (0xA1, pic_irq_start_vector + 8)
    ∷ (0xA1, 0x02)
    ∷ (0xA1, 0x01)
    ∷ []

unfoldable pub mask_pic : ℕ → Writes
mask_pic mask = (0x21, mask % 256) ∷ (0xA1, mask / 256 % 256) ∷ []

unfoldable pub eoi_pic : ℕ → Writes
eoi_pic num = (0x20, 0x20) ∷ (if leb 8 num then (0xA0, 0x20) ∷ [] else [])

-- PIT_COUNTER0_ONCE, PIT_COUNTER0_PERIODIC and PIT_COUNTER0_LATCH are 0x30, 0x34 and 0x00.
unfoldable pub init_pit : ℕ → Bool → Writes
init_pit count periodic =
    (0x43, 0x30)
    ∷ (if periodic
        then (0x43, 0x34) ∷ (0x40, count % 256) ∷ (0x40, count / 256 % 256) ∷ []
        else (0x40, count % 256) ∷ (0x40, count / 256 % 256) ∷ [])

-- The value from the two bytes that the counter gives after the latch command, the low one first.
unfoldable pub read_counter0 : ℕ × ℕ → ℕ
read_counter0 (low, high) = high % 256 * 256 + low % 256

-- The loop of `wait_pit` from reading `i` on, with fuel. The result is the number of the reading that
-- ends it.
unfoldable pub wait_pit_from : (ℕ → ℕ × ℕ) → ℕ → ℕ → ℕ → ℕ → Option ℕ
unfolding read_counter0
wait_pit_from counter last_count count zero i = none
wait_pit_from counter last_count count (suc fuel) i =
    let rest = wait_pit_from counter last_count count fuel (i + 1) in
    if ltb ((last_count + 2 ^ 16 - read_counter0 (counter i)) % 2 ^ 16) count then rest else some i

unfoldable pub wait_pit : (ℕ → ℕ × ℕ) → ℕ → ℕ → Option ℕ
unfolding wait_pit_from
wait_pit counter fuel count = wait_pit_from counter (read_counter0 (counter 0)) count fuel 1

-- The loop of `mdelay`, likewise.
unfoldable pub mdelay_from : (ℕ → ℕ) → ℕ → ℕ → ℕ → ℕ → Option ℕ
mdelay_from tick start_tick msec zero i = none
mdelay_from tick start_tick msec (suc fuel) i =
    let rest = mdelay_from tick start_tick msec fuel (i + 1) in
    if ltb msec ((tick i + 2 ^ 64 - start_tick) % 2 ^ 64) then some i else rest

unfoldable pub mdelay : (ℕ → ℕ) → ℕ → ℕ → Option ℕ
unfolding mdelay_from
mdelay tick fuel msec = mdelay_from tick (tick 0) msec fuel 1
