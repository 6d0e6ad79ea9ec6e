-- ===== src/Kmem/Free.antt =====
-- What the frees of memory/kmem.c give back.
use ghittle.Base.{ℕ, ◌+◌, ◌-◌, ◌/◌, ◌%◌, ◌^◌, ◌<◌, ◌≡◌, refl, ap, ◌∙◌, ltb, if◌then◌else◌, arith}
use ghittle.Bitmap.{bitmap_set}
use ghittle.Bitmap.Update.{AllBytes, map_bit, bitmap_set_lem, bitmap_clear_lem, bitmap_set-AllBytes}
use ghittle.Kmem.{Kmem, kmalloc, kfree_sized, kfree, num_shards, kmem_shard_size}
use ghittle.Kmem.Alloc.{kmalloc-room}

-- Bit `i` of the shard map.
abbrev pub shard_bit : Kmem → ℕ → ℕ
shard_bit k = map_bit k.mem k.shard_bitmap.map

kmalloc-shard_bit :
    (k : Kmem) (size i : ℕ)
    → AllBytes k.mem
    → num_shards size < k.shard_bitmap.nr_entry
    → shard_bit (kmalloc k size).1 i ≡ (if ltb i (num_shards size) then 1 else shard_bit k i)
kmalloc-shard_bit k size i hm h =
    let n = num_shards size in
    let m1 = bitmap_set k.mem k.shard_bitmap 0 n in
    let twice : map_bit (bitmap_set m1 k.shard_bitmap 0 n) k.shard_bitmap.map i
        ≡ (if ltb i n then 1 else shard_bit k i) =
      ground (
        arith,
        (bitmap_set_lem k.mem k.shard_bitmap 0 n hm).0 i,
        (bitmap_set_lem m1 k.shard_bitmap 0 n (bitmap_set-AllBytes k.mem k.shard_bitmap 0 n hm)).0
            i,
      ) in
    ap (λ (o : ℕ × Kmem). shard_bit o.1 i) (kmalloc-room k size h) ∙ twice

kmalloc-AllBytes :
    (k : Kmem) (size : ℕ)
    → AllBytes k.mem
    → num_shards size < k.shard_bitmap.nr_entry
    → AllBytes (kmalloc k size).1.mem
kmalloc-AllBytes k size hm h =
    let n = num_shards size in
    let m1 = bitmap_set k.mem k.shard_bitmap 0 n in
    rw (kmalloc-room k size h)
      (bitmap_set-AllBytes m1 k.shard_bitmap 0 n (bitmap_set-AllBytes k.mem k.shard_bitmap 0 n hm))

kfree_sized-shard_bit :
    (k : Kmem) (size i : ℕ)
    → AllBytes k.mem
    → shard_bit (kfree_sized k k.shard_pool size) i
      ≡ (if ltb i (num_shards size) then 0 else shard_bit k i)
unfolding kfree_sized
kfree_sized-shard_bit k size i hm =
    let e : (k.shard_pool + 2 ^ 64 - k.shard_pool) % 2 ^ 64 / 16 % 2 ^ 32 ≡ 0 = omega arith in
    rw e (ground (arith, (bitmap_clear_lem k.mem k.shard_bitmap 0 (num_shards size) hm).0 i))

kmalloc-kfree_sized-shard_bit :
    (k : Kmem) (size freed i : ℕ)
    → AllBytes k.mem
    → num_shards size < k.shard_bitmap.nr_entry
    → let (addr, k') = kmalloc k size in
      shard_bit (kfree_sized k' addr freed) i
      ≡ (if ltb i (num_shards freed) then 0 else shard_bit k' i)
kmalloc-kfree_sized-shard_bit k size freed i hm h =
    let k' = (kmalloc k size).1 in
    let e : (kmalloc k size).0 ≡ k'.shard_pool = rw (kmalloc-room k size h) refl in
    ap (λ a. shard_bit (kfree_sized k' a freed) i) e
    ∙ kfree_sized-shard_bit k' freed i (kmalloc-AllBytes k size hm h)

-- In a memory of bytes, if a request needs fewer shards than the pool has and they are free,
-- `__kfree` of what `kmalloc` gave, with the size that was asked for, restores every bit of the
-- shard map.
pub kfree_sized-kmalloc :
    (k : Kmem) (size : ℕ)
    → AllBytes k.mem
    → num_shards size < k.shard_bitmap.nr_entry
    → ((i : ℕ) → i < num_shards size → shard_bit k i ≡ 0)
    → (i : ℕ)
    → let (addr, k') = kmalloc k size in shard_bit (kfree_sized k' addr size) i ≡ shard_bit k i
kfree_sized-kmalloc k size hm h free i = ground (
  arith,
  kmalloc-kfree_sized-shard_bit k size size i hm h,
  kmalloc-shard_bit k size i hm h,
  free i,
)

-- In a memory of bytes, if a request of more than 16 bytes needs fewer shards than the pool has,
-- the macro `kfree` gives back the first shard of what `kmalloc` gave, and the second one stays
-- taken.
pub kfree_leaks :
    (k : Kmem) (size : ℕ)
    → AllBytes k.mem
    → num_shards size < k.shard_bitmap.nr_entry
    → kmem_shard_size < size
    → let (addr, k') = kmalloc k size in
      (shard_bit (kfree k' addr) 0 ≡ 0) × (shard_bit (kfree k' addr) 1 ≡ 1)
unfolding kfree
kfree_leaks k size hm h big =
    let after = λ (i : ℕ). kmalloc-kfree_sized-shard_bit k size 8 i hm h in
    let before = λ (i : ℕ). kmalloc-shard_bit k size i hm h in
    (ground (arith, after 0, before 0), ground (arith, after 1, before 1))
