-- ===== src/Bitmap.antt =====
-- utils/bitmap.c: a bitmap over a memory of bytes. A `char` is its bit pattern below 256, and the
-- shifted value of a test is read as a signed number. Indices and counts are those that the callers
-- pass, which are not negative.
use ghittle.Base.{
  ℕ, zero, suc, ◌+◌, ◌-◌, ◌/◌, ◌%◌, ◌^◌, Bool, true, false, ◌&&◌, not, bit_or, bit_and, ◌==◌,
  if◌then◌else◌,
}
use ghittle.Base.Int.{ℤ, pos, negsuc, is_zero, is_neg, signed_char, shift_right, rem}
use ghittle.Mem.{Mem, store, memset}
pub mod Bits
pub mod Update
pub mod Search

abbrev pub bits_per_byte : ℕ
bits_per_byte = 8

abbrev pub bitmap_set_mode : ℕ
bitmap_set_mode = 1

abbrev pub bitmap_clear_mode : ℕ
bitmap_clear_mode = 0

pub record Bitmap : Type 0 where
  pub nr_entry : ℕ
  pub map : ℕ

-- `nr_entry` is not 0 at any call.
unfoldable pub init_bitmap : Mem → ℕ → ℕ → Bitmap × Mem
init_bitmap m nr_entry map =
    (record { nr_entry = nr_entry; map = map }, memset m map 0 ((nr_entry - 1) / bits_per_byte + 1))

-- `val | (char)1 << k` and `val & ~((char)1 << k)`, cut to a byte.
abbrev pub with_bit : ℕ → ℕ → ℕ
with_bit val k = bit_or val (2 ^ k) % 256

abbrev pub without_bit : ℕ → ℕ → ℕ
without_bit val k = bit_and val (255 - 2 ^ k)

-- The loop of `bitmap_set` and `bitmap_clear` with `to - from` rounds left, and the store behind
-- it. `change` is the assignment to `val`; `at` is the C variable `pos`.
unfoldable pub update_bits : (ℕ → ℕ → ℕ) → ℕ → ℕ → ℕ → ℕ → Mem → Mem
update_bits change zero start at val m = store m at val
update_bits change (suc n) start at val m =
    let val' = change val (start % bits_per_byte) in
    let m' = store m at val' in
    elim ((start + 1) % bits_per_byte == 0) [
      | true ↦ update_bits change n (start + 1) (at + 1) (m' (at + 1)) m'
      | false ↦ update_bits change n (start + 1) at val' m
    ]

unfoldable pub bitmap_set : Mem → Bitmap → ℕ → ℕ → Mem
unfolding update_bits
bitmap_set m bm loc num =
    let at = bm.map + loc / bits_per_byte in update_bits with_bit num loc at (m at) m

unfoldable pub bitmap_clear : Mem → Bitmap → ℕ → ℕ → Mem
unfolding update_bits
bitmap_clear m bm loc num =
    let at = bm.map + loc / bits_per_byte in update_bits without_bit num loc at (m at) m

-- `(val >> k) % 1`, as a truth value.
abbrev pub tested : ℕ → ℕ → Bool
tested val k = not (is_zero (rem (shift_right (signed_char val) k) 1))

-- The loop of `bitmap_test` with `to - from` rounds left.
unfoldable pub test_bits : ℕ → ℕ → ℕ → ℕ → Mem → ℕ → ℤ
test_bits zero start at val m set = pos 0
test_bits (suc n) start at val m set =
    let wrapped = test_bits n (start + 1) (at + 1) (m at) m set in
    let inside = test_bits n (start + 1) at val m set in
    let rest : ℤ = if (start + 1) % bits_per_byte == 0 then wrapped else inside in
    let hit = tested val (start % bits_per_byte) in
    if not (set == 0) && not hit then negsuc 0 else (if set == 0 && hit then negsuc 0 else rest)

unfoldable pub bitmap_test : Mem → Bitmap → ℕ → ℕ → ℕ → ℤ
unfolding test_bits
bitmap_test m bm loc num set =
    let at = bm.map + loc / bits_per_byte in test_bits num loc at (m at) m set

-- The loop of `bitmap_find_free` with `nr_entry - to` rounds left.
unfoldable pub find_from : ℕ → Mem → Bitmap → ℕ → ℕ → ℤ × Mem
find_from zero m bm start num = (negsuc 0, m)
find_from (suc n) m bm start num = elim (is_neg (bitmap_test m bm start num bitmap_clear_mode)) [
  | true ↦ find_from n m bm (start + 1) num
  | false ↦ (pos start, bitmap_set m bm start num)
]

unfoldable pub bitmap_find_free : Mem → Bitmap → ℕ → ℤ × Mem
unfolding find_from
bitmap_find_free m bm num = find_from (bm.nr_entry - num) m bm 0 num
