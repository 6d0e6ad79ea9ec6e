-- ===== src/Queue/Put.antt =====
-- `put_queue` adds an item behind the others.
use native.Mathlib.Nat.{mod-add-mod, mod-eq_of_lt, mod-eq-sub-mod, add-zero}
use native.Mathlib.Decide.{dec_lt}
use mathlib.Core.Path.{ap₂}
use ghittle.Base.{
  ℕ, zero, suc, ◌+◌, ◌-◌, ◌*◌, ◌%◌, ◌<◌, ◌≡◌, refl, sym, ap, ◌∙◌, ◌≢◌, [], ◌∷◌, ◌++◌, arith,
}
use ghittle.Mem.{Mem, memcpy}
use ghittle.Mem.Laws.{memcpy_lem}
use ghittle.Queue.{Queue, put_queue}
use ghittle.Queue.Laws.{
  IsValid, bytes, count, Apart, items, contents, bytes-ext, slots_apart, walk_ne, Apart-slot,
  next_cases,
}

-- The memory after the copy of an item into slot `i`, at a byte of slot `j`.
module _ (q : Queue) (m : Mem) (src i : ℕ) where
  abbrev filled : Mem
  filled = memcpy m (q.array + q.data_size * i) src q.data_size

  filled_same :
      i < q.max_count
      → Apart q src
      → bytes filled (q.array + q.data_size * i) q.data_size ≡ bytes m src q.data_size
  filled_same h apart = bytes-ext m filled src (q.array + q.data_size * i) q.data_size λ k lt.
      ground (
        arith,
        memcpy_lem m (q.array + q.data_size * i) src q.data_size (q.array + q.data_size * i + k)
            (Apart-slot q src i h apart),
      )

  filled_other :
      (j : ℕ)
      → i < q.max_count
      → Apart q src
      → j ≢ i
      → bytes filled (q.array + q.data_size * j) q.data_size
        ≡ bytes m (q.array + q.data_size * j) q.data_size
  filled_other j h apart ne =
      bytes-ext m filled (q.array + q.data_size * j) (q.array + q.data_size * j) q.data_size λ k lt.
        ground (
          arith,
          memcpy_lem m (q.array + q.data_size * i) src q.data_size (q.array + q.data_size * j + k)
              (Apart-slot q src i h apart),
          slots_apart q.data_size j i k ne lt,
        )

  -- Filling the slot behind `n` items adds the new item at the end.
  items-filled :
      (n h : ℕ)
      → h < q.max_count
      → n < q.max_count
      → i ≡ (h + n) % q.max_count
      → Apart q src
      → items q filled h (suc n) ≡ items q m h n ++ (bytes m src q.data_size ∷ [])
  items-filled zero h hh hn e apart =
      let e' : h ≡ i = sym (e ∙ rw (add-zero, mod-eq_of_lt hh) refl) in
      rw e' (ap (λ x. x ∷ []) (filled_same (rw e' at hh) apart))
  items-filled (suc n) h hh hn e apart =
      ap₂ ◌∷◌ (filled_other h (omega arith) apart λ p. walk_ne h n q.max_count hh hn (omega arith))
        (items-filled n ((h + 1) % q.max_count) (omega arith) (omega arith) (e ∙ shift) apart)
    where
      shift : (h + suc n) % q.max_count ≡ ((h + 1) % q.max_count + n) % q.max_count
      shift = rw mod-add-mod (ap (λ k. k % q.max_count) (omega arith))

count-put :
    (q : Queue) (m : Mem) (src : ℕ)
    → IsValid q
    → count q < q.max_count
    → count (put_queue q m src).1 ≡ suc (count q)
unfolding put_queue
count-put q m src v room = ground (arith, next_cases q.put q.max_count)

put-eq-end :
    (q : Queue) → IsValid q → count q < q.max_count → q.put ≡ (q.get + count q) % q.max_count
put-eq-end q v room = elim (dec_lt (q.get + count q) q.max_count) [
  | yes p ↦ rw (mod-eq_of_lt p) (ground arith)
  | no p ↦ ground (
    arith,
    mod-eq-sub-mod {n = q.get + count q} {m = q.max_count} (omega arith),
    mod-eq_of_lt {n = q.get + count q - q.max_count} {m = q.max_count},
  )
]

put_queue-room :
    (q : Queue) (m : Mem) (src : ℕ)
    → IsValid q
    → count q < q.max_count
    → put_queue q m src ≡ (
      1,
      record q { put = (q.put + 1) % q.max_count; last_op = 1 },
      memcpy m (q.array + q.data_size * q.put) src q.data_size,
    )
unfolding put_queue
put_queue-room q m src v room = ground arith

-- If a valid queue has room, and the item lies outside its array, `put_queue` returns 1 and adds
-- the bytes of the item behind those that the queue holds.
pub put_queue-append :
    (q : Queue) (m : Mem) (src : ℕ)
    → IsValid q
    → count q < q.max_count
    → Apart q src
    → let (r, q', m') = put_queue q m src in
      (r ≡ 1) × (contents q' m' ≡ contents q m ++ (bytes m src q.data_size ∷ []))
put_queue-append q m src v room apart =
    let out = put_queue q m src in
    let step : items out.1 out.2 out.1.get (suc (count q))
        ≡ contents q m ++ (bytes m src q.data_size ∷ []) =
      ap (λ (o : ℕ × Queue × Mem). items o.1 o.2 o.1.get (suc (count q)))
        (put_queue-room q m src v room)
      ∙ items-filled q m src q.put (count q) q.get v.get_in room (put-eq-end q v room) apart in
    (
      rw (put_queue-room q m src v room),
      ap (λ n. items out.1 out.2 out.1.get n) (count-put q m src v room) ∙ step,
    )
