-- ===== src/Tests/Tasks.antt =====
-- Tasks and the scheduler on concrete data.
use ghittle.Base.{ℕ, List, ◌≡◌, refl, true, false, [], ◌∷◌, none, some, arith, ◌==◌, if◌then◌else◌}
use ghittle.Base.Int.{pos}
use ghittle.Sync.{Mutex, init_mutex, lock}
use ghittle.Ring.{Links, Header, init_list_header, list_add_tail}
use ghittle.Ring.Laws.{has, init_list_header-Holds, list_add_tail-Holds}
use ghittle.Task.{Context, Task, Pool, blank}
use ghittle.Sched.{Kernel, schedule, schedule_in_interrupt, end_task}
use ghittle.Sched.Idle.{reap}
use ghittle.Sched.Reap.{Reaped, reap-Reaped}
use ghittle.Sched.Switch.{Ready, Switched, schedule_in_interrupt_lem}
use ghittle.Sched.Fair.{run, Turns}
use ghittle.Sched.Rounds.{Served, run-Turns, run-resumes}
use ghittle.Sched.Rotation.{Circle, run-Circle}
use ghittle.Sched.Faults.{schedule-alone}

-- Slots 0 and 1 are used.
abbrev two_tasks : ℕ → Task
two_tasks p =
    if p == 1
    then record blank { id = 0; enabled = 1 }
    else (if p == 2 then record blank { id = 1; enabled = 1 } else blank)

abbrev ready_links : Header × Links
ready_links = init_list_header (record { next = λ a. 0; prev = λ a. 0 }) 5000

abbrev ready_two : Header × Links
ready_two = list_add_tail ready_links.1 ready_links.0 2

abbrev pool_of : Links → Pool
pool_of s = record { task = two_tasks; links = s; num_task = pos 2; lock = init_mutex }

-- Task 0 runs, and the list `l` is the ready list.
abbrev kernel : Header → Links → ℕ → Mutex → Kernel
kernel l s cputime mutex = record {
  pool = pool_of s;
  running = 1;
  cputime = cputime;
  readylist = l;
  waitlist = record { items = pos 0; head = 6000 };
  cpu_load = 0;
  idle_time = 0;
  lock = mutex;
  cpu = λ r. 4;
  stored = λ r. 9;
  interrupt = true;
}

abbrev pub alone : Kernel
alone = kernel ready_links.0 ready_links.1 5 init_mutex

abbrev two_ready : Kernel
two_ready = kernel ready_two.0 ready_two.1 0 init_mutex

-- Task 1 holds the lock of the scheduler.
abbrev locked : Kernel
locked = kernel ready_two.0 ready_two.1 0 (record { tid = 1; count = 1; flag = 1 })

heads : (ready_links.0.head ≡ 5000) × (ready_two.0.head ≡ 5000)
unfolding init_list_header list_add_tail
heads = (refl, refl)

alone-Ready : Ready alone []
alone-Ready = init_list_header-Holds (record { next = λ a. 0; prev = λ a. 0 }) 5000

two_ready-Ready : Ready two_ready (2 ∷ [])
two_ready-Ready = list_add_tail-Holds ready_links.1 ready_links.0 [] 2 alone-Ready (rw (heads.0))

not_ready : has 1 (ready_two.0.head ∷ 2 ∷ []) ≡ false
not_ready = rw (heads.1)

schedule_in_interrupt_lem_example :
    (k : Kernel) × (schedule_in_interrupt two_ready ≡ some (true, k)) × Switched two_ready k 2 []
schedule_in_interrupt_lem_example =
    schedule_in_interrupt_lem two_ready 2 [] two_ready-Ready not_ready refl (omega arith) refl

two_ready-Turns : Turns two_ready (2 ∷ [])
two_ready-Turns = record {
  ready = two_ready-Ready;
  apart = not_ready;
  present = refl;
  unlocked = refl;
  alive = λ t. ground arith;
}

-- The registers when the task is interrupted, all with one value.
abbrev registers : ℕ → Context
registers v r = v

abbrev five : List Context
five = registers 1 ∷ registers 2 ∷ registers 3 ∷ registers 4 ∷ registers 5 ∷ []

run-Turns_example : Served two_ready (registers 7 ∷ []) 2 (1 ∷ [])
run-Turns_example = run-Turns [] two_ready 2 [] (registers 7 ∷ []) two_ready-Turns refl

run-resumes_example :
    (k : Kernel) × (run (registers 7 ∷ five) two_ready ≡ some k)
    × Turns k (2 ∷ [])
    × (k.running ≡ 1)
    × (k.stored ≡ registers 7)
run-resumes_example =
    run-resumes two_ready 2 [] (registers 7) five two_ready-Turns (omega arith) refl

run-Circle_example : Circle (1 ∷ 2 ∷ []) five two_ready
run-Circle_example = run-Circle five two_ready 2 [] two_ready-Turns

schedule-alone_example :
    (k : Kernel) × (schedule alone ≡ some k) × (k.running ≡ 1) × Ready k (1 ∷ [])
schedule-alone_example =
    schedule-alone alone alone-Ready refl (omega arith) (rw (heads.0) (omega arith)) refl

-- What `end_task` leaves when task 0 ends task 1.
abbrev ended : Kernel
ended = elim (end_task two_ready 1) [ none ↦ two_ready | some k ↦ k ]

ended_done : end_task two_ready 1 ≡ some ended
unfolding end_task lock
ended_done = refl

-- Task 1 has ended.
abbrev one_ended : Kernel
one_ended = record two_ready { waitlist = ready_two.0 }

reap-Reaped_example : Reaped one_ended (2 ∷ []) (reap 3 one_ended)
reap-Reaped_example = reap-Reaped 3 one_ended (2 ∷ []) two_ready-Ready (refl, tt) (omega arith)
