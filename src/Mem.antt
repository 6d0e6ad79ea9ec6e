-- ===== src/Mem.antt =====
-- utils/mem_utils.c over a memory of bytes, and the words that the kernel keeps in it.
-- The kernel runs with one flat address space, so memory is a function from addresses to bytes.
use ghittle.Base.{ℕ, zero, suc, ◌+◌, ◌-◌, ◌*◌, ◌/◌, ◌%◌, ◌==◌, if◌then◌else◌}
use ghittle.Base.Int.{ℤ, pos, signed_char, is_zero}
pub mod Laws

abbrev pub Mem : Type 0
Mem = ℕ → ℕ

abbrev pub store : Mem → ℕ → ℕ → Mem
store m a v b = if b == a then v else m b

-- The loop of `memset` with `i` and the rounds left.
unfoldable pub memset_from : ℕ → ℕ → Mem → ℕ → ℕ → Mem
memset_from i zero m dst v = m
memset_from i (suc n) m dst v = memset_from (i + 1) n (store m (dst + i) v) dst v

unfoldable pub memset : Mem → ℕ → ℕ → ℕ → Mem
unfolding memset_from
memset m dst v size = memset_from 0 size m dst v

-- The loop of `memcpy`: each byte is read from the memory as it then is.
unfoldable pub memcpy_from : ℕ → ℕ → Mem → ℕ → ℕ → Mem
memcpy_from i zero m dst src = m
memcpy_from i (suc n) m dst src = memcpy_from (i + 1) n (store m (dst + i) (m (src + i))) dst src

unfoldable pub memcpy : Mem → ℕ → ℕ → ℕ → Mem
unfolding memcpy_from
memcpy m dst src size = memcpy_from 0 size m dst src

-- `memcpy` from one object into another, each with its own addresses.
unfoldable pub copy_from : ℕ → ℕ → Mem → ℕ → Mem → ℕ → Mem
copy_from i zero m dst m' src = m
copy_from i (suc n) m dst m' src = copy_from (i + 1) n (store m (dst + i) (m' (src + i))) dst m' src

unfoldable pub copy : Mem → ℕ → Mem → ℕ → ℕ → Mem
unfolding copy_from
copy m dst m' src size = copy_from 0 size m dst m' src

-- `tmp` is a `char`: the difference wraps, and is read as a signed byte.
unfoldable pub memcmp_from : ℕ → ℕ → Mem → ℕ → ℕ → ℤ
memcmp_from i zero m dst src = pos 0
memcmp_from i (suc n) m dst src =
    let tmp = (m (dst + i) + (256 - m (src + i) % 256)) % 256 in
    let rest = memcmp_from (i + 1) n m dst src in if tmp == 0 then rest else signed_char tmp

unfoldable pub memcmp : Mem → ℕ → ℕ → ℕ → ℤ
unfolding memcmp_from
memcmp m dst src size = memcmp_from 0 size m dst src

-- An `unsigned int` at an address, low byte first.
abbrev pub load32 : Mem → ℕ → ℕ
load32 m a = m a + 256 * m (a + 1) + 65536 * m (a + 2) + 16777216 * m (a + 3)

abbrev pub store32 : Mem → ℕ → ℕ → Mem
store32 m a v =
    store (store (store (store m a (v % 256)) (a + 1) (v / 256 % 256)) (a + 2) (v / 65536 % 256))
      (a + 3) (v / 16777216 % 256)
