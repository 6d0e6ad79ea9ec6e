-- ===== src/Kmem.antt =====
-- memory/kmem.c, and the page allocator of memory/page.c, over the bitmaps of utils/bitmap.c.
-- The addresses of the static arrays are the linker's, and are arguments. Sizes are not negative.
-- The `printk` of `page_alloc_phys` stands behind a test of an unsigned number that never holds.
use ghittle.Base.{ℕ, ◌+◌, ◌-◌, ◌*◌, ◌/◌, ◌%◌, ◌^◌, ltb, if◌then◌else◌}
use ghittle.Base.Int.{ℤ, pos, negsuc}
use ghittle.Mem.{Mem}
use ghittle.Bitmap.{Bitmap, init_bitmap, bitmap_set, bitmap_clear, bitmap_find_free}
pub mod Alloc
pub mod Free

abbrev pub kmem_addr : ℕ
kmem_addr = 0x1000000

abbrev pub kmem_page_size : ℕ
kmem_page_size = 0x1000

-- KMEM_SIZE / KMEM_PAGE_SIZE
abbrev pub kmem_num_pages : ℕ
kmem_num_pages = 0x1000000 / 0x1000

abbrev pub kmem_shard_size : ℕ
kmem_shard_size = 16

abbrev pub kmem_shard_pages : ℕ
kmem_shard_pages = 8

abbrev pub kmem_num_shard : ℕ
kmem_num_shard = kmem_shard_pages * kmem_page_size / kmem_shard_size

-- The lengths with which `kmem_map` and `kmem_shard_map` are declared.
abbrev pub kmem_map_length : ℕ
kmem_map_length = (kmem_num_pages - 1) / 8

abbrev pub kmem_shard_map_length : ℕ
kmem_shard_map_length = (kmem_num_shard - 1) / 8

pub record Kmem : Type 0 where
  pub bitmap : Bitmap
  pub shard_bitmap : Bitmap
  pub shard_pool : ℕ
  pub mem : Mem

-- What `kpage_alloc` does with the result of the search.
unfoldable pub take_pages : Kmem → ℕ → ℤ × Mem → ℕ × Kmem
take_pages k num (pos loc, m) =
    (kmem_addr + kmem_page_size * loc, record k { mem = bitmap_set m k.bitmap loc num })
take_pages k num (negsuc _, m) = (0, record k { mem = m })

-- The result is the address, 0 if there is no room.
unfoldable pub kpage_alloc : Kmem → ℕ → ℕ × Kmem
unfolding take_pages
kpage_alloc k num = take_pages k num (bitmap_find_free k.mem k.bitmap num)

unfoldable pub kpage_free : Kmem → ℕ → ℕ → Kmem
kpage_free k addr num =
    let loc = (addr + 2 ^ 64 - kmem_addr) % 2 ^ 64 / kmem_page_size % 2 ^ 32 in
    record k { mem = bitmap_clear k.mem k.bitmap loc num }

unfoldable pub init_kmem : Mem → ℕ → ℕ → Kmem
init_kmem m map shard_map =
    let (bitmap, m1) = init_bitmap m kmem_num_pages map in
    let (shard_bitmap, m2) = init_bitmap m1 kmem_num_shard shard_map in
    let (pool, k) =
      kpage_alloc
        (record { bitmap = bitmap; shard_bitmap = shard_bitmap; shard_pool = 0; mem = m2 })
        kmem_shard_pages in
    record k { shard_pool = pool }

-- How many shards hold `size` bytes.
abbrev pub num_shards : ℕ → ℕ
num_shards size = (size + kmem_shard_size - 1) / kmem_shard_size

-- What `kmalloc` does with the result of the search.
unfoldable pub take_shards : Kmem → ℕ → ℤ × Mem → ℕ × Kmem
take_shards k num (pos loc, m) =
    (k.shard_pool + kmem_shard_size * loc, record k { mem = bitmap_set m k.shard_bitmap loc num })
take_shards k num (negsuc _, m) = (0, record k { mem = m })

unfoldable pub kmalloc : Kmem → ℕ → ℕ × Kmem
unfolding take_shards
kmalloc k size =
    let num = num_shards size in take_shards k num (bitmap_find_free k.mem k.shard_bitmap num)

-- `__kfree`, for sizes up to 2^32 - 16, above which the number of shards would wrap round.
unfoldable pub kfree_sized : Kmem → ℕ → ℕ → Kmem
kfree_sized k addr size =
    let loc = (addr + 2 ^ 64 - k.shard_pool) % 2 ^ 64 / kmem_shard_size % 2 ^ 32 in
    record k { mem = bitmap_clear k.mem k.shard_bitmap loc (num_shards size) }

-- The macro `kfree`: `sizeof(typeof(addr))` is the size of a pointer.
unfoldable pub kfree : Kmem → ℕ → Kmem
unfolding kfree_sized
kfree k addr = kfree_sized k addr 8

abbrev pub page_phys_addr : ℕ
page_phys_addr = 0x2000000

abbrev pub dpage_size : ℕ
dpage_size = 0x1000

-- PAGE_PHYS_SIZE / DPAGE_SIZE
abbrev pub num_phys_pages : ℕ
num_phys_pages = 0xE000000 / 0x1000

unfoldable pub init_page_pool : Mem → ℕ → Bitmap × Mem
init_page_pool m map = init_bitmap m num_phys_pages map

-- The conversion of an `int` to `u64`.
abbrev pub to_u64 : ℤ → ℕ
to_u64 (pos n) = n % 2 ^ 64
to_u64 (negsuc n) = 2 ^ 64 - 1 - n

unfoldable pub page_alloc_phys : Mem → Bitmap → ℕ → ℕ × Mem
page_alloc_phys m bm num =
    let (found, m') = bitmap_find_free m bm num in
    let loc = to_u64 found in
    if ltb loc 0 then (0, m') else ((page_phys_addr + dpage_size * loc) % 2 ^ 64, m')
