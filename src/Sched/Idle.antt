-- ===== src/Sched/Idle.antt =====
-- The idle task of task/sched.c: the load of the processor, and the end of tasks.
use ghittle.Base.{
  ℕ, zero, suc, ◌+◌, ◌-◌, ◌*◌, ◌/◌, ◌%◌, ◌^◌, true, false, Option, some, ltb, ◌==◌, if◌then◌else◌,
}
use ghittle.Base.Int.{is_neg}
use ghittle.Ring.{list_empty, list_pop}
use ghittle.Task.{free_task}
use ghittle.Sched.{Kernel, task_at, set_links, schedule, ◌>>=◌}

-- The load that `idle_task` computes from the ticks since its last round.
unfoldable pub idle_load : ℕ → ℕ → ℕ
idle_load idle_ticks ticks =
    if ticks == 0 then 0 else (100 + 2 ^ 64 - idle_ticks * 100 % 2 ^ 64 / ticks) % 2 ^ 64

-- The loop of `idle_task` that frees the ended tasks, with fuel.
unfoldable pub reap : ℕ → Kernel → Kernel
reap zero k = k
reap (suc n) k = elim (list_empty k.waitlist) [
  | true ↦ k
  | false ↦
      let out = list_pop k.pool.links k.waitlist in
      let k1 = record (set_links k out.2) { waitlist = out.1 } in
      reap n (record k1 { pool = free_task k1.pool (task_at k1 out.0).id })
]

-- How often `halt` stops the processor.
unfoldable pub halt_count : ℕ → ℕ
halt_count cpu_load =
    if ltb cpu_load 40
    then 3
    else (if ltb cpu_load 80 then 2 else (if ltb cpu_load 95 then 1 else 0))

-- `get_cpu_load` and `get_running_task`
unfoldable pub get_cpu_load : Kernel → ℕ
get_cpu_load k = k.cpu_load

unfoldable pub get_running_task : Kernel → ℕ
get_running_task k = k.running

-- The idle task with its two locals.
pub record Idle : Type 0 where
  pub kernel : Kernel
  pub last_tick : ℕ
  pub last_idle_tick : ℕ

-- The locals before the loop.
unfoldable pub idle_start : ℕ → Kernel → Idle
idle_start tick k = record { kernel = k; last_tick = tick; last_idle_tick = k.idle_time }

-- One round of the loop of `idle_task`, at the given tick. `halted` is what the interrupts do while
-- the processor is stopped so many times, and `fuel` that of `reap`.
unfoldable pub idle_round : (ℕ → Kernel → Kernel) → ℕ → ℕ → Idle → Option Idle
unfolding idle_load reap halt_count
idle_round halted fuel tick i = do
  let k = i.kernel
  let idle_ticks = (k.idle_time + 2 ^ 64 - i.last_idle_tick) % 2 ^ 64
  let ticks = (tick + 2 ^ 64 - i.last_tick) % 2 ^ 64
  let k1 = record k { cpu_load = idle_load idle_ticks ticks }
  let k2 = halted (halt_count k1.cpu_load) k1
  let k3 = if is_neg k2.waitlist.items then k2 else reap fuel k2
  k4 ← schedule k3
  some (record { kernel = k4; last_tick = tick; last_idle_tick = k.idle_time })
