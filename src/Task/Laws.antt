-- ===== src/Task/Laws.antt =====
-- The slots of the pool of tasks.
use ghittle.Base.{
  ℕ, zero, suc, ◌+◌, ◌≤◌, ◌<◌, ◌≡◌, ◌≢◌, refl, sym, ap, ◌∙◌, inl, inr, Bool-cases, ltb→lt, false,
  some, ltb, ==_ne, ==_refl, lt→ltb, arith,
}
use ghittle.Base.Int.{pos}
use ghittle.Ring.{increment}
use ghittle.Task.{Pool, pointer, task_max, free_slot, is_pool_full, alloc_task, free_task}

-- `i` is the first slot from `from` on whose task is not enabled.
pub record FirstFree (p : Pool) (from i : ℕ) : Type 0 where
  pub above : from ≤ i
  pub free : (p.task (pointer i)).enabled ≡ 0
  pub used : (j : ℕ) → from ≤ j → j < i → (p.task (pointer j)).enabled ≢ 0

pub free_slot_lem :
    (p : Pool) (n from i : ℕ)
    → from ≤ i
    → i < from + n
    → (p.task (pointer i)).enabled ≡ 0
    → ((j : ℕ) → from ≤ j → j < i → (p.task (pointer j)).enabled ≢ 0)
    → free_slot p from n ≡ some i
unfolding free_slot
free_slot_lem p zero from i a b free used = ground arith
free_slot_lem p (suc n) from i a b free used = elim (Bool-cases (ltb from i)) [
  | inl h ↦
      let lt = ltb→lt from i h in
      rw (==_ne (p.task (pointer from)).enabled 0 (used from (omega arith) lt)) (
        free_slot_lem p n (from + 1) i (omega (arith, lt)) (omega arith) free
          (λ j a'. used j (omega arith)))
  | inr h ↦
      let same : i ≡ from = ground arith in
      rw (ap (λ q. (p.task (pointer q)).enabled) (sym same) ∙ free, same)
]

not_full : (p : Pool) (n : ℕ) → p.num_task ≡ pos n → n < task_max → is_pool_full p.num_task ≡ false
unfolding is_pool_full
not_full p n counted room = rw (counted, lt→ltb n task_max room)

increment_pos : (n : ℕ) → increment (pos n) ≡ pos (n + 1)
increment_pos n = ground arith

-- If the pool is not full by its counter and slot `i` is the first free one, `alloc_task` gives
-- this slot, with the index as the id of the task, which is then enabled, and counts it; no other
-- task changes.
pub alloc_task_lem :
    (p : Pool) (n i : ℕ)
    → p.num_task ≡ pos n
    → n < task_max
    → i < task_max
    → FirstFree p 0 i
    → ((alloc_task p).0 ≡ pointer i)
      × (((alloc_task p).1.task (pointer i)).id ≡ i)
      × (((alloc_task p).1.task (pointer i)).enabled ≡ 1)
      × ((q : ℕ) → q ≢ pointer i → (alloc_task p).1.task q ≡ p.task q)
      × ((alloc_task p).1.num_task ≡ pos (n + 1))
unfolding alloc_task
alloc_task_lem p n i counted room inside first =
    rw
      (
        not_full p n counted room,
        free_slot_lem p task_max 0 i first.above inside first.free first.used,
      )
      (rw (==_refl (i + 1))
        (refl, refl, refl, λ q ne. rw (==_ne q (i + 1) ne), ap increment counted ∙ increment_pos n))

-- If the pool counts at least one task and at most its size, and all slots below `i` are in use,
-- `alloc_task` gives slot `i` again right after `free_task` of `i`.
pub alloc_task-free_task :
    (p : Pool) (n i : ℕ)
    → p.num_task ≡ pos (suc n)
    → n < task_max
    → i < task_max
    → ((j : ℕ) → j < i → (p.task (pointer j)).enabled ≢ 0)
    → (alloc_task (free_task p i)).0 ≡ pointer i
unfolding free_task
alloc_task-free_task p n i counted room inside used =
    (alloc_task_lem (free_task p i) n i (rw counted (ground arith)) room inside (record {
      above = omega arith;
      free = rw (==_refl (i + 1));
      used = λ j a h. rw (==_ne (j + 1) (i + 1) (omega arith)) (used j h);
    })).0
