-- ===== src/Queue/Get.antt =====
-- `get_queue` takes the oldest item.
use mathlib.Core.Path.{ap₂}
use ghittle.Base.{
  ℕ, zero, suc, ◌+◌, ◌*◌, ◌%◌, ◌≤◌, ◌<◌, ◌≡◌, refl, sym, ap, ◌∙◌, ◌⊎◌, inl, inr, ◌∷◌, arith,
}
use ghittle.Mem.{Mem, memcpy}
use ghittle.Mem.Laws.{memcpy_lem}
use ghittle.Queue.{Queue, get_queue}
use ghittle.Queue.Laws.{
  IsValid, bytes, count, Apart, items, contents, bytes-ext, mul_mono, slot_in, next_cases,
}

count-get :
    (q : Queue) (m : Mem) (dst : ℕ)
    → IsValid q
    → 0 < count q
    → suc (count (get_queue q m dst).1) ≡ count q
unfolding get_queue
count-get q m dst v some_left = ground (arith, next_cases q.get q.max_count)

clear_of_slot :
    (q : Queue) (a i : ℕ)
    → i < q.max_count
    → Apart q a
    → (a ≤ q.array + q.data_size * i) ⊎ (q.array + q.data_size * i + q.data_size ≤ a)
clear_of_slot q a i h (inl low) = inl (omega arith)
clear_of_slot q a i h (inr high) =
    inr (omega (arith, mul_mono q.data_size (i + 1) q.max_count (omega arith)))

-- Copying an item out of the array to a place apart from it.
module _ (q : Queue) (m : Mem) (dst i : ℕ) (inside : i < q.max_count) (apart : Apart q dst) where
  abbrev fetched : Mem
  fetched = memcpy m dst (q.array + q.data_size * i) q.data_size

  fetched_item : bytes fetched dst q.data_size ≡ bytes m (q.array + q.data_size * i) q.data_size
  fetched_item = bytes-ext m fetched (q.array + q.data_size * i) dst q.data_size λ k lt. ground (
    arith,
    memcpy_lem m dst (q.array + q.data_size * i) q.data_size (dst + k)
        (clear_of_slot q dst i inside apart),
  )

  fetched_slot :
      (j : ℕ)
      → j < q.max_count
      → bytes fetched (q.array + q.data_size * j) q.data_size
        ≡ bytes m (q.array + q.data_size * j) q.data_size
  fetched_slot j h =
      bytes-ext m fetched (q.array + q.data_size * j) (q.array + q.data_size * j) q.data_size
        λ k lt. ground (
          arith,
          memcpy_lem m dst (q.array + q.data_size * i) q.data_size (q.array + q.data_size * j + k)
              (clear_of_slot q dst i inside apart),
          slot_in q.data_size j q.max_count k h lt,
        )

  slots-fetched : (n h : ℕ) → h < q.max_count → items q fetched h n ≡ items q m h n
  slots-fetched zero h hh = refl
  slots-fetched (suc n) h hh =
      ap₂ ◌∷◌ (fetched_slot h hh) (slots-fetched n ((h + 1) % q.max_count) (omega arith))

get_queue-some :
    (q : Queue) (m : Mem) (dst : ℕ)
    → IsValid q
    → 0 < count q
    → get_queue q m dst ≡ (
      1,
      record q { get = (q.get + 1) % q.max_count; last_op = 0 },
      memcpy m dst (q.array + q.data_size * q.get) q.data_size,
    )
unfolding get_queue
get_queue-some q m dst v left = ground arith

-- If a valid queue holds an item, and the destination lies outside its array, `get_queue` returns
-- 1, copies the oldest item to the destination, and leaves the other items in their order.
pub get_queue-first :
    (q : Queue) (m : Mem) (dst : ℕ)
    → IsValid q
    → 0 < count q
    → Apart q dst
    → let (r, q', m') = get_queue q m dst in
      (r ≡ 1) × (contents q m ≡ bytes m' dst q.data_size ∷ contents q' m')
get_queue-first q m dst v left apart =
    let out = get_queue q m dst in
    let rest : items out.1 out.2 out.1.get (count out.1)
        ≡ items q m ((q.get + 1) % q.max_count) (count out.1) =
      ap (λ (o : ℕ × Queue × Mem). items o.1 o.2 o.1.get (count out.1))
        (get_queue-some q m dst v left)
      ∙ slots-fetched q m dst q.get v.get_in apart (count out.1) ((q.get + 1) % q.max_count)
          (omega arith) in
    let first : bytes out.2 dst q.data_size ≡ bytes m (q.array + q.data_size * q.get) q.data_size =
      rw (get_queue-some q m dst v left) (fetched_item q m dst q.get v.get_in apart) in
    (
      rw (get_queue-some q m dst v left),
      ap (λ n. items q m q.get n) (sym (count-get q m dst v left)) ∙ ap₂ ◌∷◌ (sym first) (sym rest),
    )
