-- ===== src/Bitmap/Update.antt =====
-- `bitmap_set` and `bitmap_clear`, bit by bit.
use ghittle.Base.{
  ℕ, zero, suc, ◌+◌, ◌-◌, ◌/◌, ◌%◌, ◌≤◌, ◌<◌, ◌≡◌, ◌∙◌, ap, refl, inl, inr, Bool-cases, ◌&&◌, leb,
  ltb, ◌==◌, if◌then◌else◌, arith,
}
use ghittle.Mem.{Mem, store}
use ghittle.Mem.Laws.{memset_lem}
use ghittle.Bitmap.{
  Bitmap, with_bit, without_bit, init_bitmap, update_bits, bitmap_set, bitmap_clear,
}
use ghittle.Bitmap.Bits.{bit, Changes, with_bit-Changes, without_bit-Changes}

-- Every address holds a byte.
abbrev pub AllBytes : Mem → Type 0
AllBytes m = (a : ℕ) → m a < 256

-- Bit `i` of the map at an address.
abbrev pub map_bit : Mem → ℕ → ℕ → ℕ
map_bit m map i = bit (m (map + i / 8)) (i % 8)

abbrev pub Within : ℕ → ℕ → ℕ → Type 0
Within i start n = (start ≤ i) × (i < start + n)

module _ (change : ℕ → ℕ → ℕ) (b : ℕ) (law : Changes change b) (map : ℕ) where
  update_bits-map_bit :
      (n start at val i : ℕ) (m : Mem)
      → AllBytes m
      → val < 256
      → at ≡ map + start / 8
      → map_bit (update_bits change n start at val m) map i
        ≡ (if leb start i && ltb i (start + n) then b else map_bit (store m at val) map i)
  unfolding update_bits
  update_bits-map_bit zero start at val i m hm hv e = ground arith
  update_bits-map_bit (suc n) start at val i m hm hv e =
      let val' = change val (start % 8) in
      let m' = store m at val' in
      let step = law val (start % 8) (i % 8) hv (omega arith) (omega arith) in
      let hm' : AllBytes m' = λ a. ground (arith, hm a, step) in
      elim (Bool-cases ((start + 1) % 8 == 0)) [
        | inl wrap ↦
            rw (wrap, update_bits)
              (ground (
                arith,
                step,
                update_bits-map_bit n (start + 1) (at + 1) (m' (at + 1)) i m' hm' (hm' (at + 1))
                    (ground arith),
              ))
        | inr stay ↦
            rw (stay, update_bits)
              (ground (
                arith,
                step,
                update_bits-map_bit n (start + 1) at val' i m hm (step.1) (ground arith),
              ))
      ]

module _ (change : ℕ → ℕ → ℕ) (b : ℕ) (law : Changes change b) where
  update_bits-AllBytes :
      (n start at val : ℕ) (m : Mem)
      → AllBytes m
      → val < 256
      → AllBytes (update_bits change n start at val m)
  unfolding update_bits
  update_bits-AllBytes zero start at val m hm hv = λ a. ground (arith, hm a)
  update_bits-AllBytes (suc n) start at val m hm hv =
      let val' = change val (start % 8) in
      let m' = store m at val' in
      let small : val' < 256 = (law val (start % 8) 0 hv (omega arith) (omega arith)).1 in
      let hm' : AllBytes m' = λ a. ground (arith, hm a) in
      elim (Bool-cases ((start + 1) % 8 == 0)) [
        | inl wrap ↦
            rw (wrap, update_bits)
              (update_bits-AllBytes n (start + 1) (at + 1) (m' (at + 1)) m' hm' (hm' (at + 1)))
        | inr stay ↦ rw (stay, update_bits) (update_bits-AllBytes n (start + 1) at val' m hm small)
      ]

  -- Addresses below the byte at which the loop starts are not written.
  update_bits-below :
      (n start at val a : ℕ) (m : Mem) → a < at → update_bits change n start at val m a ≡ m a
  unfolding update_bits
  update_bits-below zero start at val a m h = ground arith
  update_bits-below (suc n) start at val a m h =
      let val' = change val (start % 8) in
      let m' = store m at val' in
      elim (Bool-cases ((start + 1) % 8 == 0)) [
        | inl wrap ↦
            rw (wrap, update_bits)
              (ground (arith, update_bits-below n (start + 1) (at + 1) (m' (at + 1)) a m'))
        | inr stay ↦ rw (stay, update_bits) (update_bits-below n (start + 1) at val' a m h)
      ]

store_self : (m : Mem) (a b : ℕ) → store m a (m a) b ≡ m b
store_self m a b = ground arith

-- In a memory of bytes, `bitmap_set` sets exactly the `num` bits from `loc` on: every other bit
-- of the map stays as it was, and so does every byte below the first one that the range touches.
pub bitmap_set_lem :
    (m : Mem) (bm : Bitmap) (loc num : ℕ)
    → AllBytes m
    → ((i : ℕ)
        → map_bit (bitmap_set m bm loc num) bm.map i
          ≡ (if leb loc i && ltb i (loc + num) then 1 else map_bit m bm.map i))
      × ((a : ℕ) → a < bm.map + loc / 8 → bitmap_set m bm loc num a ≡ m a)
unfolding bitmap_set
bitmap_set_lem m bm loc num hm =
    let at = bm.map + loc / 8 in
    (
      λ i. ground (
        arith,
        update_bits-map_bit with_bit 1 with_bit-Changes bm.map num loc at (m at) i m hm (hm at)
            refl,
        ap (λ v. bit v (i % 8)) (store_self m at (bm.map + i / 8)),
      ),
      λ a h. update_bits-below with_bit 1 with_bit-Changes num loc at (m at) a m h,
    )

-- In a memory of bytes, `bitmap_clear` clears exactly the `num` bits from `loc` on: every other
-- bit of the map stays as it was, and so does every byte below the first one that the range
-- touches.
pub bitmap_clear_lem :
    (m : Mem) (bm : Bitmap) (loc num : ℕ)
    → AllBytes m
    → ((i : ℕ)
        → map_bit (bitmap_clear m bm loc num) bm.map i
          ≡ (if leb loc i && ltb i (loc + num) then 0 else map_bit m bm.map i))
      × ((a : ℕ) → a < bm.map + loc / 8 → bitmap_clear m bm loc num a ≡ m a)
unfolding bitmap_clear
bitmap_clear_lem m bm loc num hm =
    let at = bm.map + loc / 8 in
    (
      λ i. ground (
        arith,
        update_bits-map_bit without_bit 0 without_bit-Changes bm.map num loc at (m at) i m hm
            (hm at) refl,
        ap (λ v. bit v (i % 8)) (store_self m at (bm.map + i / 8)),
      ),
      λ a h. update_bits-below without_bit 0 without_bit-Changes num loc at (m at) a m h,
    )

pub bitmap_set-AllBytes :
    (m : Mem) (bm : Bitmap) (loc num : ℕ) → AllBytes m → AllBytes (bitmap_set m bm loc num)
unfolding bitmap_set
bitmap_set-AllBytes m bm loc num hm =
    update_bits-AllBytes with_bit 1 with_bit-Changes num loc (bm.map + loc / 8)
      (m (bm.map + loc / 8)) m hm (hm (bm.map + loc / 8))

-- In a memory of bytes, clearing a range that was set by `bitmap_set`, and was clear before,
-- gives back every bit of the map.
pub bitmap_clear-bitmap_set :
    (m : Mem) (bm : Bitmap) (loc num : ℕ)
    → AllBytes m
    → ((i : ℕ) → Within i loc num → map_bit m bm.map i ≡ 0)
    → (i : ℕ)
    → map_bit (bitmap_clear (bitmap_set m bm loc num) bm loc num) bm.map i ≡ map_bit m bm.map i
bitmap_clear-bitmap_set m bm loc num hm free i = ground (
  arith,
  (bitmap_clear_lem (bitmap_set m bm loc num) bm loc num (bitmap_set-AllBytes m bm loc num hm)).0 i,
  (bitmap_set_lem m bm loc num hm).0 i,
  free i,
)

bit-zero : (k : ℕ) → bit 0 k ≡ 0
unfolding bit
bit-zero k = ground arith

-- `init_bitmap` clears every bit of a map with `nr_entry` entries.
pub init_bitmap-map_bit :
    (m : Mem) (nr_entry map i : ℕ) → i < nr_entry → map_bit (init_bitmap m nr_entry map).1 map i ≡ 0
unfolding init_bitmap
init_bitmap-map_bit m nr_entry map i h =
    ap (λ v. bit v (i % 8))
      (ground (arith, memset_lem m map 0 ((nr_entry - 1) / 8 + 1) (map + i / 8)))
    ∙ bit-zero (i % 8)
