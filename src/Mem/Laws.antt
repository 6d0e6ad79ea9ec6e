-- ===== src/Mem/Laws.antt =====
-- What the loops of utils/mem_utils.c do, byte by byte.
use ghittle.Base.{
  ℕ, zero, suc, ◌+◌, ◌-◌, ◌^◌, ◌≤◌, ◌<◌, ◌≡◌, ◌⊎◌, inl, inr, ◌&&◌, ltb, leb, if◌then◌else◌, arith,
}
use ghittle.Mem.{
  Mem, store, memset_from, memset, memcpy_from, memcpy, copy_from, copy, load32, store32,
}

memset_from_lem :
    (i n : ℕ) (m : Mem) (dst v a : ℕ)
    → memset_from i n m dst v a ≡ (if leb (dst + i) a && ltb a (dst + i + n) then v else m a)
unfolding memset_from
memset_from_lem i zero m dst v a = ground arith
memset_from_lem i (suc n) m dst v a =
    ground (arith, memset_from_lem (i + 1) n (store m (dst + i) v) dst v a)

-- `memset` writes the given byte to exactly the `size` bytes from `dst` on.
pub memset_lem :
    (m : Mem) (dst v size a : ℕ)
    → memset m dst v size a ≡ (if leb dst a && ltb a (dst + size) then v else m a)
unfolding memset
memset_lem m dst v size a = ground (arith, memset_from_lem 0 size m dst v a)

memcpy_from_lem :
    (i n : ℕ) (m : Mem) (dst src a : ℕ)
    → (dst ≤ src) ⊎ (src + i + n ≤ dst + i)
    → memcpy_from i n m dst src a
      ≡ (if leb (dst + i) a && ltb a (dst + i + n) then m (src + (a - dst)) else m a)
unfolding memcpy_from
memcpy_from_lem i zero m dst src a h = ground arith
memcpy_from_lem i (suc n) m dst src a h =
    ground (arith, memcpy_from_lem (i + 1) n (store m (dst + i) (m (src + i))) dst src a)

-- If the destination does not begin inside the source, `memcpy` copies exactly the `size` bytes as
-- they were before the call, and changes no other byte.
pub memcpy_lem :
    (m : Mem) (dst src size a : ℕ)
    → (dst ≤ src) ⊎ (src + size ≤ dst)
    → memcpy m dst src size a
      ≡ (if leb dst a && ltb a (dst + size) then m (src + (a - dst)) else m a)
unfolding memcpy
memcpy_lem m dst src size a h = ground (arith, memcpy_from_lem 0 size m dst src a)

copy_from_lem :
    (i n : ℕ) (m : Mem) (dst : ℕ) (m' : Mem) (src a : ℕ)
    → copy_from i n m dst m' src a
      ≡ (if leb (dst + i) a && ltb a (dst + i + n) then m' (src + (a - dst)) else m a)
unfolding copy_from
copy_from_lem i zero m dst m' src a = ground arith
copy_from_lem i (suc n) m dst m' src a =
    ground (arith, copy_from_lem (i + 1) n (store m (dst + i) (m' (src + i))) dst m' src a)

-- `memcpy` between two objects copies exactly the `size` bytes.
pub copy_lem :
    (m : Mem) (dst : ℕ) (m' : Mem) (src size a : ℕ)
    → copy m dst m' src size a
      ≡ (if leb dst a && ltb a (dst + size) then m' (src + (a - dst)) else m a)
unfolding copy
copy_lem m dst m' src size a = ground (arith, copy_from_lem 0 size m dst m' src a)

pub load32-store32_self : (m : Mem) (a v : ℕ) → v < 2 ^ 32 → load32 (store32 m a v) a ≡ v
load32-store32_self m a v h = ground arith

pub load32-store32_ne :
    (m : Mem) (a b v : ℕ) → (a + 4 ≤ b) ⊎ (b + 4 ≤ a) → load32 (store32 m a v) b ≡ load32 m b
load32-store32_ne m a b v (inl h) = ground arith
load32-store32_ne m a b v (inr h) = ground arith
