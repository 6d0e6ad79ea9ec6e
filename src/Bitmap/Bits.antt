-- ===== src/Bitmap/Bits.antt =====
-- The bits of a byte under the two updates of utils/bitmap.c, checked value by value.
use ghittle.Base.Finite.{passes, passes_at}
use ghittle.Base.{
  ℕ, ◌+◌, ◌*◌, ◌/◌, ◌%◌, ◌^◌, ◌<◌, ◌≡◌, refl, Bool, true, ◌&&◌, ◌==◌, ltb, if◌then◌else◌, arith,
}
use ghittle.Bitmap.{with_bit, without_bit}

-- Bit `k` of a byte.
unfoldable pub bit : ℕ → ℕ → ℕ
bit v k = v / 2 ^ k % 2

-- `v`, `k` and `j` in one number.
abbrev changes : (ℕ → ℕ → ℕ) → ℕ → ℕ → Bool
changes change b x =
    let v = x / 64 in
    let k = x / 8 % 8 in
    let j = x % 8 in bit (change v k) j == (if j == k then b else bit v j) && ltb (change v k) 256

set_table : passes (changes with_bit 1) 16384 ≡ true
unfolding passes bit
set_table = refl

clear_table : passes (changes without_bit 0) 16384 ≡ true
unfolding passes bit
clear_table = refl

-- What a change of bit `k` does to a byte: that bit becomes `b`, and no other bit changes.
abbrev pub Changes : (ℕ → ℕ → ℕ) → ℕ → Type 0
Changes change b =
    (v k j : ℕ)
    → v < 256
    → k < 8
    → j < 8
    → (bit (change v k) j ≡ (if j == k then b else bit v j)) × (change v k < 256)

changes_sound :
    (change : ℕ → ℕ → ℕ) (b : ℕ) → passes (changes change b) 16384 ≡ true → Changes change b
changes_sound change b table v k j hv hk hj =
    let x = v * 64 + k * 8 + j in
    let e1 : x / 64 ≡ v = omega arith in
    let e2 : x / 8 % 8 ≡ k = omega arith in
    let e3 : x % 8 ≡ j = omega arith in
    let h = passes_at (changes change b) 16384 x (omega arith) table in
    ground (arith, rw (e1, e2, e3) at h)

pub with_bit-Changes : Changes with_bit 1
with_bit-Changes = changes_sound with_bit 1 set_table

pub without_bit-Changes : Changes without_bit 0
without_bit-Changes = changes_sound without_bit 0 clear_table
