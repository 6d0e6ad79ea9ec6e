-- ===== src/Kmem/Alloc.antt =====
-- The addresses that the allocators of memory/kmem.c and memory/page.c give.
use ghittle.Base.{
  ℕ, ◌+◌, ◌-◌, ◌/◌, ◌≤◌, ◌<◌, ◌≡◌, refl, ap, ltb, Bool-cases, inl, inr, lt→ltb, ◌∙◌, if◌then◌else◌,
  arith,
}
use ghittle.Mem.{Mem}
use ghittle.Mem.Laws.{memset_lem}
use ghittle.Bitmap.{Bitmap, init_bitmap, bitmap_set}
use ghittle.Bitmap.Search.{bitmap_find_free_lem}
use ghittle.Kmem.{
  Kmem, kmem_addr, num_shards, take_pages, take_shards, kpage_alloc, kmalloc, page_phys_addr,
  page_alloc_phys, init_page_pool, num_phys_pages,
}

-- `kmalloc` gives the first address of the pool whenever the request is smaller than the pool,
-- and sets the bits of the first shards; otherwise it gives 0 and changes nothing.
pub kmalloc_lem :
    (k : Kmem) (size : ℕ)
    → let num = num_shards size in
      kmalloc k size ≡ (
        if ltb num k.shard_bitmap.nr_entry
        then (
          k.shard_pool,
          record k {
            mem = bitmap_set (bitmap_set k.mem k.shard_bitmap 0 num) k.shard_bitmap 0 num;
          },
        )
        else (0, k))
unfolding kmalloc
kmalloc_lem k size =
    let num = num_shards size in
    ap (take_shards k num) (bitmap_find_free_lem k.mem k.shard_bitmap num)
    ∙ elim (Bool-cases (ltb num k.shard_bitmap.nr_entry)) [
      | inl e ↦ rw e (ground arith)
      | inr e ↦ rw e refl
    ]

pub kmalloc-room :
    (k : Kmem) (size : ℕ)
    → num_shards size < k.shard_bitmap.nr_entry
    → kmalloc k size ≡ (
      k.shard_pool,
      record k {
        mem =
            bitmap_set
              (bitmap_set k.mem k.shard_bitmap 0 (num_shards size))
              k.shard_bitmap
              0
              (num_shards size);
      },
    )
kmalloc-room k size h = kmalloc_lem k size ∙ rw (lt→ltb _ _ h)

-- If each of two requests needs fewer shards than the pool has, the second call of `kmalloc`
-- gives the address that the first one gave, with nothing freed between them.
pub kmalloc_repeats :
    (k : Kmem) (a b : ℕ)
    → num_shards a < k.shard_bitmap.nr_entry
    → num_shards b < k.shard_bitmap.nr_entry
    → (kmalloc (kmalloc k a).1 b).0 ≡ (kmalloc k a).0
kmalloc_repeats k a b ha hb = ground (arith, kmalloc_lem k a, kmalloc_lem (kmalloc k a).1 b)

-- `kpage_alloc` gives the first page of the kernel pool whenever fewer than all pages are asked
-- for, and otherwise gives 0 and changes nothing.
pub kpage_alloc_lem :
    (k : Kmem) (num : ℕ)
    → kpage_alloc k num ≡ (
        if ltb num k.bitmap.nr_entry
        then (
          kmem_addr,
          record k { mem = bitmap_set (bitmap_set k.mem k.bitmap 0 num) k.bitmap 0 num },
        )
        else (0, k))
unfolding kpage_alloc
kpage_alloc_lem k num =
    ap (take_pages k num) (bitmap_find_free_lem k.mem k.bitmap num)
    ∙ elim (Bool-cases (ltb num k.bitmap.nr_entry)) [
      | inl e ↦ rw e (ground arith)
      | inr e ↦ rw e refl
    ]

-- If at least as many pages are asked for as there are, `page_alloc_phys` does not return 0: its
-- result is the address of the page below the pool, and nothing changes.
pub page_alloc_phys-none :
    (m : Mem) (bm : Bitmap) (num : ℕ)
    → bm.nr_entry ≤ num
    → page_alloc_phys m bm num ≡ (page_phys_addr - 0x1000, m)
unfolding page_alloc_phys
page_alloc_phys-none m bm num h = ground (arith, bitmap_find_free_lem m bm num)

-- The initial `memset` of the page map clears one byte past the end of the array `map` of
-- `(NUM_PHYS_PAGES-1)/8` bytes.
pub init_page_pool-past_end :
    (m : Mem) (map : ℕ) → (init_page_pool m map).1 (map + (num_phys_pages - 1) / 8) ≡ 0
unfolding init_page_pool init_bitmap
init_page_pool-past_end m map =
    ground
      (arith, memset_lem m map 0 ((num_phys_pages - 1) / 8 + 1) (map + (num_phys_pages - 1) / 8))
