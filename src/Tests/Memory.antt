-- ===== src/Tests/Memory.antt =====
-- Memory, bitmaps, the allocator, strings and queues on concrete data.
use ghittle.Base.{ℕ, ◌<◌, ◌≡◌, refl, inl, [], ◌∷◌, ◌==◌, if◌then◌else◌, arith}
use ghittle.Base.Int.{pos}
use ghittle.Mem.{Mem}
use ghittle.Queue.{Queue, put_queue, get_queue}
use ghittle.Queue.Laws.{IsValid, contents, bytes}
use ghittle.Queue.Put.{put_queue-append}
use ghittle.Queue.Get.{get_queue-first}
use ghittle.Bitmap.{Bitmap, bitmap_set, bitmap_clear, bitmap_find_free}
use ghittle.Bitmap.Bits.{bit}
use ghittle.Bitmap.Update.{Within, bitmap_clear-bitmap_set, map_bit}
use ghittle.Bitmap.Search.{bitmap_find_free_lem}
use ghittle.Kmem.{Kmem, kmalloc, kfree_sized, num_shards}
use ghittle.Kmem.Alloc.{kmalloc_repeats}
use ghittle.Kmem.Free.{shard_bit, kfree_sized-kmalloc}
use ghittle.Str.{strcmp}

-- Every byte is 7.
abbrev sevens : Mem
sevens a = 7

abbrev zeros : Mem
zeros a = 0

-- Two slots of three bytes at 100; one is used.
abbrev one_item : Queue
one_item = record { data_size = 3; max_count = 2; array = 100; put = 1; get = 0; last_op = 1 }

abbrev two_items : Queue
two_items = record { data_size = 3; max_count = 2; array = 100; put = 0; get = 0; last_op = 1 }

one_item-IsValid : IsValid one_item
one_item-IsValid = ground arith

two_items-IsValid : IsValid two_items
two_items-IsValid = ground arith

put_queue-append_example :
    let (r, q, m) = put_queue one_item sevens 50 in
    (r ≡ 1) × (contents q m ≡ (7 ∷ 7 ∷ 7 ∷ []) ∷ (7 ∷ 7 ∷ 7 ∷ []) ∷ [])
put_queue-append_example =
    put_queue-append one_item sevens 50 one_item-IsValid (omega arith) (inl (omega arith))

get_queue-first_example :
    let (r, q, m) = get_queue one_item sevens 50 in
    (r ≡ 1) × ((7 ∷ 7 ∷ 7 ∷ []) ∷ [] ≡ bytes m 50 3 ∷ contents q m)
get_queue-first_example =
    get_queue-first one_item sevens 50 one_item-IsValid (omega arith) (inl (omega arith))

-- A map of 32 bits at 40.
abbrev small_map : Bitmap
small_map = record { nr_entry = 32; map = 40 }

bitmap_find_free_lem_example :
    bitmap_find_free sevens small_map 2 ≡ (pos 0, bitmap_set sevens small_map 0 2)
bitmap_find_free_lem_example = bitmap_find_free_lem sevens small_map 2

-- A pool with 32 shards at 4096.
abbrev small_pool : Kmem
small_pool = record {
  bitmap = record { nr_entry = 16; map = 80 };
  shard_bitmap = small_map;
  shard_pool = 4096;
  mem = zeros;
}

no_shard : (i : ℕ) → i < num_shards 40 → shard_bit small_pool i ≡ 0
unfolding bit
no_shard i h = ground arith

kmalloc_repeats_example : (kmalloc (kmalloc small_pool 40).1 24).0 ≡ (kmalloc small_pool 40).0
kmalloc_repeats_example = kmalloc_repeats small_pool 40 24 (omega arith) (omega arith)

kfree_sized-kmalloc_example :
    let (addr, k) = kmalloc small_pool 40 in
    shard_bit (kfree_sized k addr 40) 2 ≡ shard_bit small_pool 2
kfree_sized-kmalloc_example =
    kfree_sized-kmalloc small_pool 40 (λ a. omega arith) (omega arith) no_shard 2

-- "hi" at address 0.
abbrev hi : Mem
hi a = if a == 0 then 104 else (if a == 1 then 105 else 0)

hi-bytes : (a : ℕ) → hi a < 256
hi-bytes a = ground arith

hi_equal : strcmp hi 0 (104 ∷ 105 ∷ []) ≡ pos 0
unfolding strcmp
hi_equal = refl

zeros_clear : (i : ℕ) → Within i 6 5 → map_bit zeros 40 i ≡ 0
unfolding bit
zeros_clear i h = ground arith

bitmap_clear-bitmap_set_example :
    map_bit (bitmap_clear (bitmap_set zeros small_map 6 5) small_map 6 5) 40 7 ≡ map_bit zeros 40 7
bitmap_clear-bitmap_set_example =
    bitmap_clear-bitmap_set zeros small_map 6 5 (λ a. omega arith) zeros_clear 7
