-- ===== src/Sched/Fair.antt =====
-- Runs of the timer interrupt: round robin over the running task and the ready list.
use ghittle.Base.{
  ℕ, suc, ◌+◌, ◌-◌, ◌≤◌, ◌<◌, ◌≡◌, ◌≢◌, ◌∙◌, inl, inr, Bool-cases, leb, ap, Bool, true, false,
  Option, some, List, [], ◌∷◌, ◌++◌, ◌||◌, length, ◌==◌, ==_ne, arith,
}
use ghittle.Sync.{init_mutex}
use ghittle.Ring.Laws.{has}
use ghittle.Ring.Remove.{has-append}
use ghittle.Task.{Context}
use ghittle.Sched.{
  Kernel, task_at, has_flag, task_flags_endtask, sched_cputime, timer_tick, ◌>>=◌,
  schedule_in_interrupt,
}
use ghittle.Sched.Switch.{Ready, Switched, schedule_in_interrupt_lem, dec_cputime-eq, expired_eq}

-- Interrupts of the timer, one after the other. Each finds in its stack the context in which it
-- interrupted the running task.
unfoldable pub run : List Context → Kernel → Option Kernel
run [] k = some k
run (c ∷ cs) k = do k1 ← timer_tick (record k { stored = c }); run cs k1

-- The tasks `xs` wait in this order behind the running one. They have pointers that are not null,
-- nobody holds the lock of the scheduler, and no task has ended.
pub record Turns (k : Kernel) (xs : List ℕ) : Type 0 where
  pub ready : Ready k xs
  pub apart : has k.running (k.readylist.head ∷ xs) ≡ false
  pub present : has 0 (k.running ∷ xs) ≡ false
  pub unlocked : k.lock ≡ init_mutex
  pub alive : (t : ℕ) → has_flag (task_at k t) task_flags_endtask ≡ false

-- A tick that leaves time only counts.
pub tick-counts :
    (k : Kernel) → 1 < k.cputime → timer_tick k ≡ some (record k { cputime = k.cputime - 1 })
unfolding timer_tick
tick-counts k h = rw (dec_cputime-eq k, expired_eq, ==_ne (k.cputime - 1) 0 (omega arith))

-- The tick at which the time is over.
tick-switches :
    (k k' : Kernel)
    → k.cputime ≤ 1
    → schedule_in_interrupt (record k { cputime = 0 }) ≡ some (true, k')
    → timer_tick k ≡ some k'
unfolding timer_tick
tick-switches k k' h e =
    let zero_left : k.cputime - 1 ≡ 0 = omega arith in
    rw (dec_cputime-eq k, expired_eq, zero_left, e)

-- The kernel `k'` at the end of the time slice that `k` is in: the task `x` runs, and the old one
-- has the context `c`.
pub record Turned (k : Kernel) (c : Context) (k' : Kernel) (x : ℕ) (xs : List ℕ) : Type 0 where
  pub turns : Turns k' (xs ++ (k.running ∷ []))
  pub runs : k'.running ≡ x
  pub time : k'.cputime ≡ sched_cputime
  pub saved : (task_at k' k.running).context ≡ c
  pub loaded : k'.stored ≡ (task_at k x).context
  pub kept : (t : ℕ) → t ≢ k.running → task_at k' t ≡ task_at k t

pub has-next : (c r : ℕ) (xs : List ℕ) → has c (r ∷ xs) ≡ false → has c (xs ++ (r ∷ [])) ≡ false
has-next c r xs h = ground (arith, has-append c xs (r ∷ []))

or_false : (a b : Bool) → a ≡ false → b ≡ false → (a || b) ≡ false
or_false a b e e' = rw (e, e')

Turned-switch :
    (k k' : Kernel) (c : Context) (x : ℕ) (xs : List ℕ)
    → Turns k (x ∷ xs)
    → Switched (record k { stored = c; cputime = 0 }) k' x xs
    → Turned k c k' x xs
Turned-switch k k' c x xs t s = record {
  turns = record {
    ready = s.ready;
    apart =
        ap (λ v. has v (k'.readylist.head ∷ (xs ++ (k.running ∷ [])))) s.runs
        ∙ rw (s.head) (
            or_false _ _ (ground (arith, t.ready.distinct))
              (has-next x k.running xs (ground (arith, t.ready.distinct))));
    present = rw (s.runs) (or_false _ _ (ground arith) (has-next 0 k.running xs (ground arith)));
    unlocked = s.unlocked;
    alive = λ a. rw (s.flags a) (t.alive a);
  };
  runs = s.runs;
  time = s.time;
  saved = s.saved;
  loaded = s.loaded;
  kept = s.kept;
}

-- The tick at the end of a slice.
pub tick-Turned :
    (k : Kernel) (c : Context) (x : ℕ) (xs : List ℕ)
    → Turns k (x ∷ xs)
    → k.cputime ≤ 1
    → (k' : Kernel) × (timer_tick (record k { stored = c }) ≡ some k') × Turned k c k' x xs
tick-Turned k c x xs t h =
    let k0 = record k { stored = c; cputime = 0 } in
    let (k', e, s) =
      schedule_in_interrupt_lem k0 x xs t.ready t.apart t.unlocked
        (λ e. absurd_zero e (ground arith)) (t.alive k.running) in
    (k', tick-switches (record k { stored = c }) k' h e, Turned-switch k k' c x xs t s)
  where
    absurd_zero : x ≡ 0 → (0 == x) ≡ false → ⊥
    absurd_zero e h = ground arith

pub Turns-count :
    (k : Kernel) (c : Context) (n : ℕ) (xs : List ℕ)
    → Turns k xs
    → Turns (record k { stored = c; cputime = n }) xs
Turns-count k c n xs t = record {
  ready = t.ready;
  apart = t.apart;
  present = t.present;
  unlocked = t.unlocked;
  alive = t.alive;
}

-- The rest of a slice: ticks that count, and the last one, with the contexts behind it.
pub record Slice (k : Kernel) (cs : List Context) (m : ℕ) (x : ℕ) (xs : List ℕ) : Type 0 where
  pub after : Kernel
  pub last : Context
  pub rest : List Context
  pub rest_length : length rest ≡ m
  pub runs_on : run cs k ≡ run rest after
  pub turned : Turned k last after x xs

pub run-Slice :
    (cs : List Context) (k : Kernel) (m x : ℕ) (xs : List ℕ)
    → Turns k (x ∷ xs)
    → length cs ≡ suc (k.cputime - 1) + m
    → Slice k cs m x xs
unfolding run
run-Slice [] k m x xs t h = absurd (omega (arith, h))
run-Slice (c ∷ cs) k m x xs t h = elim (Bool-cases (leb k.cputime 1)) [
  | inl over ↦
      let (k', e, turned) = tick-Turned k c x xs t (ground arith) in
      record {
        after = k';
        last = c;
        rest = cs;
        rest_length = ground arith;
        runs_on = rw e;
        turned = turned;
      }
  | inr more ↦
      let k1 = record k { stored = c; cputime = k.cputime - 1 } in
      let s = run-Slice cs k1 m x xs (Turns-count k c (k.cputime - 1) (x ∷ xs) t) (ground arith) in
      record {
        after = s.after;
        last = s.last;
        rest = s.rest;
        rest_length = s.rest_length;
        runs_on = rw (tick-counts (record k { stored = c }) (ground arith)) (s.runs_on);
        turned = record {
          turns = s.turned.turns;
          runs = s.turned.runs;
          time = s.turned.time;
          saved = s.turned.saved;
          loaded = s.turned.loaded;
          kept = s.turned.kept;
        };
      }
]
