-- ===== src/Sched/Switch.antt =====
-- A switch of tasks by the scheduler: round robin over the ready list.
use ghittle.Base.{
  ℕ, suc, ◌+◌, ◌-◌, ◌%◌, ◌^◌, ◌≡◌, ◌≢◌, ◌∙◌, refl, true, false, some, bit_and, List, [], ◌∷◌, ◌++◌,
  length, ◌==◌, ==_ne, ==_refl, if◌then◌else◌, arith,
}
use ghittle.Sync.{init_mutex, lock, unlock}
use ghittle.Ring.{list_pop, list_add_tail}
use ghittle.Ring.Laws.{has, Holds, list_empty-Holds, list_add_tail-Holds}
use ghittle.Ring.Remove.{list_pop-Holds}
use ghittle.Task.{put_task}
use ghittle.Sched.{
  Kernel, task_at, has_flag, task_flags_endtask, task_flags_idle, sched_cputime, pop_ready,
  push_ready, get_next_task, add_task_to_readylist, schedule_in_interrupt, dec_cputime,
  is_cputime_expired,
}

-- The ready list is `xs`, in order.
abbrev pub Ready : Kernel → List ℕ → Type 0
Ready k xs = Holds k.pool.links k.readylist xs

pub get_next_task-first :
    (k : Kernel) (x : ℕ) (xs : List ℕ)
    → Ready k (x ∷ xs)
    → k.lock ≡ init_mutex
    → get_next_task k ≡ some (x, (pop_ready k).1)
unfolding get_next_task lock unlock pop_ready
get_next_task-first k x xs h free =
    let popped : (list_pop k.pool.links k.readylist).0 ≡ x =
      (list_pop-Holds k.pool.links k.readylist x xs h).0 in
    rw
      (list_empty-Holds k.pool.links k.readylist (x ∷ xs) h, free, ==_refl (task_at k k.running).id)
      (rw (==_ne (suc (length xs)) 0 (omega arith), popped))

pub pop_ready-Ready :
    (k : Kernel) (x : ℕ) (xs : List ℕ) → Ready k (x ∷ xs) → Ready (pop_ready k).1 xs
unfolding pop_ready
pop_ready-Ready k x xs h = (list_pop-Holds k.pool.links k.readylist x xs h).1

pub add_task_to_readylist-done :
    (k : Kernel) (t : ℕ) → k.lock ≡ init_mutex → add_task_to_readylist k t ≡ some (push_ready k t)
unfolding add_task_to_readylist lock unlock push_ready
add_task_to_readylist-done k t free = rw (free, ==_refl (task_at k k.running).id)

pub push_ready-Ready :
    (k : Kernel) (t : ℕ) (xs : List ℕ)
    → Ready k xs
    → has t (k.readylist.head ∷ xs) ≡ false
    → Ready (push_ready k t) (xs ++ (t ∷ []))
unfolding push_ready
push_ready-Ready k t xs h new = list_add_tail-Holds k.pool.links k.readylist xs t h new

pop_ready-lock : (k : Kernel) → (pop_ready k).1.lock ≡ k.lock
unfolding pop_ready
pop_ready-lock k = refl

-- The state in which `schedule_in_interrupt` puts the old task on the ready list.
module _ (k : Kernel) (x : ℕ) where
  abbrev popped_kernel : Kernel
  popped_kernel = (pop_ready (record k { interrupt = false })).1

  abbrev idle_gone : ℕ
  idle_gone =
      if bit_and (task_at popped_kernel popped_kernel.running).flags task_flags_idle
        == task_flags_idle
      then sched_cputime
      else 0

  abbrev turned : Kernel
  turned = record popped_kernel {
    running = x;
    idle_time = (popped_kernel.idle_time + idle_gone) % 2 ^ 64;
    pool =
        put_task popped_kernel.pool popped_kernel.running
          (record (task_at popped_kernel popped_kernel.running) { context = popped_kernel.stored });
  }

  schedule_in_interrupt-switch :
      (xs : List ℕ)
      → Ready k (x ∷ xs)
      → k.lock ≡ init_mutex
      → x ≢ 0
      → has_flag (task_at popped_kernel popped_kernel.running) task_flags_endtask ≡ false
      → schedule_in_interrupt k
        ≡ some (
          true,
          let k3 = push_ready turned popped_kernel.running in
              record k3 {
                interrupt = k.interrupt;
                stored = (task_at k3 x).context;
                cputime = sched_cputime;
              },
        )
  unfolding schedule_in_interrupt
  schedule_in_interrupt-switch xs h free ne alive =
      rw (get_next_task-first (record k { interrupt = false }) x xs h free, ==_ne x 0 ne, alive)
        (rw (
          add_task_to_readylist-done turned popped_kernel.running
            (pop_ready-lock (record k { interrupt = false }) ∙ free)))

-- What a switch in the timer interrupt does: the first ready task runs, the old one stands last
-- in the ready list with the context that the interrupt stored, and the context of the new one is
-- what the interrupt returns to. The other tasks stay as they are, and no task's flags change.
pub record Switched (k k' : Kernel) (x : ℕ) (xs : List ℕ) : Type 0 where
  pub runs : k'.running ≡ x
  pub ready : Ready k' (xs ++ (k.running ∷ []))
  pub saved : (task_at k' k.running).context ≡ k.stored
  pub loaded : k'.stored ≡ (task_at k x).context
  pub time : k'.cputime ≡ sched_cputime
  pub unlocked : k'.lock ≡ init_mutex
  pub flag : k'.interrupt ≡ k.interrupt
  pub head : k'.readylist.head ≡ k.readylist.head
  pub kept : (t : ℕ) → t ≢ k.running → task_at k' t ≡ task_at k t
  pub flags : (t : ℕ) → (task_at k' t).flags ≡ (task_at k t).flags

-- If a task is ready, whose pointer is not null, the scheduler is not locked, and the running
-- task is neither on the ready list nor ended, `schedule_in_interrupt` returns 0 and switches to
-- the first ready task.
pub schedule_in_interrupt_lem :
    (k : Kernel) (x : ℕ) (xs : List ℕ)
    → Ready k (x ∷ xs)
    → has k.running (k.readylist.head ∷ x ∷ xs) ≡ false
    → k.lock ≡ init_mutex
    → x ≢ 0
    → has_flag (task_at k k.running) task_flags_endtask ≡ false
    → (k' : Kernel) × (schedule_in_interrupt k ≡ some (true, k')) × Switched k k' x xs
unfolding pop_ready push_ready list_pop list_add_tail
schedule_in_interrupt_lem k x xs h new free ne alive =
    let k0 = record k { interrupt = false } in
    let k3 = push_ready (turned k x) k.running in
    (
      record k3 {
        interrupt = k.interrupt;
        stored = (task_at k3 x).context;
        cputime = sched_cputime;
      },
      schedule_in_interrupt-switch k x xs h free ne alive,
      record {
        runs = refl;
        ready =
            push_ready-Ready (turned k x) k.running xs (pop_ready-Ready k0 x xs h) (ground arith);
        saved = rw (==_refl k.running);
        loaded = rw (==_ne x k.running (λ e. apart e (ground arith)));
        time = refl;
        unlocked = free;
        flag = refl;
        head = refl;
        kept = λ t ne. rw (==_ne t k.running ne);
        flags = λ t. ground arith;
      },
    )
  where
    apart : x ≡ k.running → (k.running == x) ≡ false → ⊥
    apart e h = ground arith

pub dec_cputime-eq : (k : Kernel) → dec_cputime k ≡ record k { cputime = k.cputime - 1 }
unfolding dec_cputime
dec_cputime-eq k = ground arith

pub expired_eq : (k : Kernel) → is_cputime_expired k ≡ (k.cputime == 0)
unfolding is_cputime_expired
expired_eq k = ground arith
