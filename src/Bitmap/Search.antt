-- ===== src/Bitmap/Search.antt =====
-- What the search of utils/bitmap.c finds.
use ghittle.Base.{
  ℕ, zero, suc, ◌+◌, ◌-◌, ◌/◌, ◌%◌, ◌≡◌, refl, false, ◌==◌, ltb, if◌then◌else◌, arith,
}
use ghittle.Base.Int.{pos, negsuc}
use ghittle.Mem.{Mem}
use ghittle.Bitmap.{Bitmap, tested, test_bits, bitmap_test, bitmap_set, find_from, bitmap_find_free}

tested-false : (val k : ℕ) → tested val k ≡ false
tested-false val k = ground arith

test_bits-clear : (n start at val : ℕ) (m : Mem) → test_bits n start at val m 0 ≡ pos 0
unfolding test_bits
test_bits-clear zero start at val m = refl
test_bits-clear (suc n) start at val m = ground (
  arith,
  tested-false val (start % 8),
  test_bits-clear n (start + 1) (at + 1) (m at) m,
  test_bits-clear n (start + 1) at val m,
)

-- `bitmap_test` does not read the map: with `set` 0 it always reports a clear range, and otherwise
-- it reports failure for every range that is not empty.
pub bitmap_test_lem :
    (m : Mem) (bm : Bitmap) (loc num set : ℕ)
    → bitmap_test m bm loc num set
      ≡ (if set == 0 then pos 0 else (if num == 0 then pos 0 else negsuc 0))
unfolding bitmap_test test_bits
bitmap_test_lem m bm loc num zero =
    test_bits-clear num loc (bm.map + loc / 8) (m (bm.map + loc / 8)) m
bitmap_test_lem m bm loc zero (suc set) = ground arith
bitmap_test_lem m bm loc (suc num) (suc set) =
    ground (arith, tested-false (m (bm.map + loc / 8)) (loc % 8))

find_from-first :
    (n num : ℕ) (m : Mem) (bm : Bitmap)
    → n ≡ bm.nr_entry - num
    → find_from n m bm 0 num
      ≡ (if ltb num bm.nr_entry then (pos 0, bitmap_set m bm 0 num) else (negsuc 0, m))
unfolding find_from
find_from-first zero num m bm e = ground arith
find_from-first (suc n) num m bm e = ground (arith, bitmap_test_lem m bm 0 num 0)

-- `bitmap_find_free` gives location 0 and sets the first `num` bits whenever `num` is below
-- `nr_entry`, whatever the map holds; otherwise it fails and changes nothing.
pub bitmap_find_free_lem :
    (m : Mem) (bm : Bitmap) (num : ℕ)
    → bitmap_find_free m bm num
      ≡ (if ltb num bm.nr_entry then (pos 0, bitmap_set m bm 0 num) else (negsuc 0, m))
unfolding bitmap_find_free
bitmap_find_free_lem m bm num = find_from-first (bm.nr_entry - num) num m bm refl
