-- ===== src/Sched/Faults.antt =====
-- Paths of the scheduler that leave it in a bad state.
use ghittle.Base.{
  ℕ, ◌+◌, ◌-◌, ◌%◌, ◌^◌, bit_and, ◌≡◌, ◌≢◌, ◌∙◌, refl, false, some, List, [], ◌∷◌, ◌==◌, ==_ne,
  if◌then◌else◌, arith,
}
use ghittle.Sync.{init_mutex}
use ghittle.Ring.Laws.{list_empty-Holds}
use ghittle.Sched.{
  Kernel, task_at, has_flag, task_flags_endtask, get_next_task, schedule, push_wait, context_switch,
  push_ready, task_flags_idle, sched_cputime, remove_task_from_readylist, end_task,
}
use ghittle.Sched.Switch.{Ready, add_task_to_readylist-done, push_ready-Ready}

get_next_task-none : (k : Kernel) → Ready k [] → get_next_task k ≡ some (k.running, k)
unfolding get_next_task
get_next_task-none k h = rw (list_empty-Holds k.pool.links k.readylist [] h)

abbrev idle_gone : Kernel → ℕ
idle_gone k =
    if bit_and (task_at k k.running).flags task_flags_idle == task_flags_idle
    then sched_cputime + 2 ^ 64 - k.cputime
    else 0

context_switch-running : (k : Kernel) (a b : ℕ) → (context_switch k a b).running ≡ k.running
unfolding context_switch
context_switch-running k a b = refl

push_ready-running : (k : Kernel) (t : ℕ) → (push_ready k t).running ≡ k.running
unfolding push_ready
push_ready-running k t = refl

context_switch-Ready :
    (k : Kernel) (a b : ℕ) (xs : List ℕ) → a ≢ 0 → Ready k xs → Ready (context_switch k a b) xs
unfolding context_switch
context_switch-Ready k a b xs ne h = rw (==_ne a 0 ne) h

-- If no task is ready, the scheduler is not locked, and the running task is not null, not the
-- head of the list and not ended, `schedule` puts the running task on the ready list and lets it
-- run on, so that the task is at both places.
pub schedule-alone :
    (k : Kernel)
    → Ready k []
    → k.lock ≡ init_mutex
    → k.running ≢ 0
    → k.running ≢ k.readylist.head
    → has_flag (task_at k k.running) task_flags_endtask ≡ false
    → (k' : Kernel) × (schedule k ≡ some k') × (k'.running ≡ k.running) × Ready k' (k.running ∷ [])
unfolding schedule
schedule-alone k h free ne apart alive =
    let k1 = record k { interrupt = false } in
    let k2 = record k1 { idle_time = (k1.idle_time + idle_gone k1) % 2 ^ 64 } in
    (
      context_switch (push_ready k2 k.running) k.running k.running,
      rw (get_next_task-none k1 h, ==_ne k.running 0 ne, alive)
          (rw (add_task_to_readylist-done k2 k.running free)),
      context_switch-running (push_ready k2 k.running) k.running k.running
          ∙ push_ready-running k2 k.running,
      context_switch-Ready (push_ready k2 k.running) k.running k.running (k.running ∷ []) ne
          (push_ready-Ready k2 k.running [] h (ground arith)),
    )

-- `end_task` for another task than the running one returns, if it does, with interrupts disabled,
-- whatever the flag was.
pub end_task-interrupt :
    (k : Kernel) (id : ℕ) (k' : Kernel)
    → (task_at k k.running).id ≢ id
    → end_task k id ≡ some k'
    → k'.interrupt ≡ false
unfolding end_task remove_task_from_readylist push_wait
end_task-interrupt k id k' other e = ground arith
