-- ===== src/Sched.antt =====
-- task/sched.c: the scheduler on one processor, with the pool of tasks and the lists of ready and
-- ended tasks. A call gives `none` where it would wait for a mutex that another task holds.
-- `context_switch` (task/task_ll.asm) saves the registers of the processor in the context of the
-- old task, if there is one, and loads those of the new task.
use ghittle.Base.{
  ℕ, zero, suc, ◌+◌, ◌-◌, ◌*◌, ◌/◌, ◌%◌, ◌^◌, Bool, true, false, Option, none, some, ltb, leb,
  bit_and, bit_or, ◌==◌, not, if◌then◌else◌,
}
use ghittle.Sync.{Mutex, init_mutex, lock, unlock}
use ghittle.Ring.{Links, Header, init_list_header, list_empty, list_pop, list_add_tail, list_remove}
use ghittle.Task.{
  Task, Pool, Context, put_task, init_taskpool, alloc_task, free_task, setup_task, pointer,
  task_max, stack_pool_addr, stack_size,
}
pub mod Switch
pub mod Faults
pub mod Fair
pub mod Rounds
pub mod Rotation
pub mod Idle
pub mod Reap

abbrev pub sched_cputime : ℕ
sched_cputime = 5

abbrev pub task_flags_endtask : ℕ
task_flags_endtask = 0x8000000000000000

abbrev pub task_flags_idle : ℕ
task_flags_idle = 0x0800000000000000

-- The scheduler, the pool, the registers of the processor, the context that an interrupt has
-- stored in its stack, and the interrupt flag.
pub record Kernel : Type 0 where
  pub pool : Pool
  pub running : ℕ
  pub cputime : ℕ
  pub readylist : Header
  pub waitlist : Header
  pub cpu_load : ℕ
  pub idle_time : ℕ
  pub lock : Mutex
  pub cpu : Context
  pub stored : Context
  pub interrupt : Bool

abbrev pub task_at : Kernel → ℕ → Task
task_at k t = k.pool.task t

abbrev pub set_links : Kernel → Links → Kernel
set_links k s = record k { pool = record (k.pool) { links = s } }

-- `init_scheduler` with the addresses of the two list headers.
unfoldable pub init_scheduler : Kernel → ℕ → ℕ → Kernel
init_scheduler k ready wait =
    let (l1, s1) = init_list_header init_taskpool.links ready in
    let (l2, s2) = init_list_header s1 wait in
    let (t, pool) = alloc_task (record init_taskpool { links = s2 }) in
    record k {
      pool = pool;
      lock = init_mutex;
      readylist = l1;
      waitlist = l2;
      running = t;
      idle_time = 0;
      cpu_load = 0;
    }

-- `lock(&scheduler.lock)` and `unlock(&scheduler.lock)` by the running task.
abbrev pub lock_scheduler : Kernel → Option Kernel
lock_scheduler k = elim (lock (task_at k k.running).id k.lock) [
  | none ↦ none
  | some m ↦ some (record k { lock = m })
]

abbrev pub unlock_scheduler : Kernel → Kernel
unlock_scheduler k = record k { lock = unlock (task_at k k.running).id k.lock }

infixl 5 ◌>>=◌
abbrev pub ◌>>=◌ : {A B : Type 0} → Option A → (A → Option B) → Option B
◌>>=◌ m f = elim m [ none ↦ none | some a ↦ f a ]

unfoldable pub set_running_task : Kernel → ℕ → Option Kernel
set_running_task k t = do k1 ← lock_scheduler k; some (unlock_scheduler (record k1 { running = t }))

-- Taking the first ready task, between `lock` and `unlock`.
unfoldable pub pop_ready : Kernel → ℕ × Kernel
pop_ready k =
    let (t, l, s) = list_pop k.pool.links k.readylist in
    (t, record (set_links k s) { readylist = l })

unfoldable pub push_ready : Kernel → ℕ → Kernel
push_ready k t =
    let (l, s) = list_add_tail k.pool.links k.readylist t in
    record (set_links k s) { readylist = l }

unfoldable pub push_wait : Kernel → ℕ → Kernel
push_wait k t =
    let (l, s) = list_add_tail k.pool.links k.waitlist t in record (set_links k s) { waitlist = l }

unfoldable pub get_next_task : Kernel → Option (ℕ × Kernel)
unfolding pop_ready
get_next_task k =
    if list_empty k.readylist
    then some (k.running, k)
    else do k1 ← lock_scheduler k; some ((pop_ready k1).0, unlock_scheduler (pop_ready k1).1)

unfoldable pub add_task_to_readylist : Kernel → ℕ → Option Kernel
unfolding push_ready
add_task_to_readylist k t = do k1 ← lock_scheduler k; some (unlock_scheduler (push_ready k1 t))

-- The result is the pointer of the task, 0 for an id out of range.
unfoldable pub remove_task_from_readylist : Kernel → ℕ → Option (ℕ × Kernel)
remove_task_from_readylist k id = if leb task_max id then some (0, k) else do
  k1 ← lock_scheduler k
  let out = list_remove k1.pool.links k1.readylist (pointer id)
  some (pointer id, unlock_scheduler (record (set_links k1 out.1) { readylist = out.0 }))

abbrev pub has_flag : Task → ℕ → Bool
has_flag t flag = not (bit_and t.flags flag == 0)

-- `context_switch`
unfoldable pub context_switch : Kernel → ℕ → ℕ → Kernel
context_switch k prev next =
    let saved =
      if prev == 0
      then k.pool
      else put_task k.pool prev (record (task_at k prev) { context = k.cpu }) in
    record k { pool = saved; cpu = (saved.task next).context }

-- `schedule` up to and with the switch. The old task runs `after_switch` when it is chosen again.
unfoldable pub schedule : Kernel → Option Kernel
schedule k0 = do
  (next, k1) ← get_next_task (record k0 { interrupt = false })
  if next == 0 then some (record k1 { interrupt = k0.interrupt }) else do
    let running = k1.running
    let idle = bit_and (task_at k1 running).flags task_flags_idle == task_flags_idle
    let gone = if idle then sched_cputime + 2 ^ 64 - k1.cputime else 0
    let k2 = record k1 { running = next; idle_time = (k1.idle_time + gone) % 2 ^ 64 }
    if has_flag (task_at k2 running) task_flags_endtask
        then some (context_switch (push_wait k2 running) 0 next)
        else (do k3 ← add_task_to_readylist k2 running; some (context_switch k3 running next))

unfoldable pub after_switch : Bool → Kernel → Kernel
after_switch prev_flag k = record k { cputime = sched_cputime; interrupt = prev_flag }

-- The truth value is "returns 0".
unfoldable pub schedule_in_interrupt : Kernel → Option (Bool × Kernel)
schedule_in_interrupt k0 = do
  (next, k1) ← get_next_task (record k0 { interrupt = false })
  if next == 0 then some (false, record k1 { interrupt = k0.interrupt }) else do
    let running = k1.running
    let idle = bit_and (task_at k1 running).flags task_flags_idle == task_flags_idle
    let gone = if idle then sched_cputime else 0
    let k2 = record k1 { running = next; idle_time = (k1.idle_time + gone) % 2 ^ 64 }
    k3 ←
        (if has_flag (task_at k2 running) task_flags_endtask
          then some (push_wait k2 running)
          else add_task_to_readylist
              (record k2 {
                pool =
                    put_task k2.pool running (record (task_at k2 running) { context = k2.stored });
              })
              running)
    some (
      true,
      record k3 {
        interrupt = k0.interrupt;
        stored = (task_at k3 next).context;
        cputime = sched_cputime;
      },
    )

unfoldable pub dec_cputime : Kernel → Kernel
dec_cputime k = if ltb 0 k.cputime then record k { cputime = k.cputime - 1 } else k

unfoldable pub is_cputime_expired : Kernel → Bool
is_cputime_expired k = leb k.cputime 0

-- The scheduler's part of `timer_handler` (core/kernel64/interrupt.c).
unfoldable pub timer_tick : Kernel → Option Kernel
timer_tick k =
    let k1 = dec_cputime k in
    if not (is_cputime_expired k1) then some k1 else do (_, k2) ← schedule_in_interrupt k1; some k2

-- `stop_tasks` moves one task.
unfoldable pub stop_tasks : Kernel → Kernel
unfolding pop_ready push_wait
stop_tasks k = if list_empty k.readylist then k else push_wait (pop_ready k).1 (pop_ready k).0

-- The loop of `resume_tasks`, with fuel.
unfoldable pub resume_loop : ℕ → Kernel → Kernel
unfolding push_ready
resume_loop zero k = k
resume_loop (suc n) k = elim (list_empty k.waitlist) [
  | true ↦ k
  | false ↦
      let out = list_pop k.pool.links k.waitlist in
      resume_loop n (push_ready (record (set_links k out.2) { waitlist = out.1 }) out.0)
]

unfoldable pub resume_tasks : ℕ → Kernel → Option Kernel
unfolding resume_loop schedule
resume_tasks fuel k = schedule (resume_loop fuel k)

abbrev pub add_flag : Kernel → ℕ → ℕ → Kernel
add_flag k t flag = record k {
  pool = put_task k.pool t (record (task_at k t) { flags = bit_or (task_at k t).flags flag });
}

-- The running task does not come back from the first branch. In the second one the interrupt flag
-- stays cleared. A null pointer is written through for an id out of range.
unfoldable pub end_task : Kernel → ℕ → Option Kernel
unfolding schedule remove_task_from_readylist push_wait
end_task k id =
    if (task_at k k.running).id == id
    then schedule (add_flag k k.running task_flags_endtask)
    else do
      (t, k1) ← remove_task_from_readylist (record k { interrupt = false }) id
      some (push_wait (add_flag k1 t task_flags_endtask) t)

unfoldable pub exit_task : Kernel → Option Kernel
unfolding end_task
exit_task k = end_task k (task_at k k.running).id

-- The pointer of the new task, 0 if there is none.
unfoldable pub create_task : Kernel → ℕ → ℕ → Option (ℕ × Kernel)
unfolding add_task_to_readylist
create_task k flags entry = do
  let me = (task_at k k.running).id
  m ← lock me k.pool.lock
  let out = alloc_task (record (k.pool) { lock = m })
  let me' = (out.1.task k.running).id
  let k1 = record k { pool = record (out.1) { lock = unlock me' out.1.lock } }
  if out.0 == 0 then some (0, k1) else do
    let t = task_at k1 out.0
    let stack = stack_pool_addr + stack_size * t.id
    let k2 = record k1 { pool = put_task k1.pool out.0 (setup_task t flags entry stack stack_size) }
    k3 ← lock_scheduler k2
    k4 ← add_task_to_readylist k3 out.0
    some (out.0, unlock_scheduler k4)
