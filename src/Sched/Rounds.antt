-- ===== src/Sched/Rounds.antt =====
-- Round robin: what runs of the timer interrupt do to the tasks of task/sched.c.
use mathlib.Core.Path.{subst}
use ghittle.Base.{
  ℕ, suc, ◌+◌, ◌-◌, ◌*◌, ◌≤◌, ◌≡◌, ◌≢◌, ◌∙◌, refl, ap, false, some, List, [], ◌∷◌, ◌++◌,
  append_assoc, length, arith,
}
use ghittle.Ring.Laws.{has}
use ghittle.Task.{Context}
use ghittle.Sched.{Kernel, task_at, sched_cputime, timer_tick}
use ghittle.Sched.Fair.{run, Turns, Turned, tick-Turned, Slice, run-Slice}

run-nil : (cs : List Context) (k : Kernel) → length cs ≡ 0 → run cs k ≡ some k
unfolding run
run-nil [] k h = refl
run-nil (c ∷ cs) k h = absurd (ground arith)

-- `t` is not the running task if it is ready.
waiting-ne :
    (k : Kernel) (ys : List ℕ) (t : ℕ) (zs : List ℕ) → Turns k (ys ++ (t ∷ zs)) → t ≢ k.running
waiting-ne k ys t zs h = no_member k.running ys zs (ground (arith, h.apart))
  where
    no_member : (r : ℕ) (ys zs : List ℕ) → has r (ys ++ (t ∷ zs)) ≡ false → t ≢ r
    no_member r [] zs h e = ground arith
    no_member r (y ∷ ys) zs h e = no_member r ys zs (ground arith) e

-- After the ticks `cs` the task `t` runs, with the context it had, at the begin of its slice, and
-- the tasks `xs` are ready.
pub record Served (k : Kernel) (cs : List Context) (t : ℕ) (xs : List ℕ) : Type 0 where
  pub after : Kernel
  pub done : run cs k ≡ some after
  pub turns : Turns after xs
  pub runs : after.running ≡ t
  pub time : after.cputime ≡ sched_cputime
  pub loaded : after.stored ≡ (task_at k t).context

Served-first :
    (k : Kernel) (cs : List Context) (t : ℕ) (zs : List ℕ)
    → Slice k cs 0 t zs
    → Served k cs t (zs ++ (k.running ∷ []))
Served-first k cs t zs s = record {
  after = s.after;
  done = s.runs_on ∙ run-nil s.rest s.after s.rest_length;
  turns = s.turned.turns;
  runs = s.turned.runs;
  time = s.turned.time;
  loaded = s.turned.loaded;
}

module _ (k : Kernel) (cs : List Context) (m y : ℕ) (ys : List ℕ) (t : ℕ) (zs : List ℕ) where
  Turns-regroup :
      (s : Slice k cs m y (ys ++ (t ∷ zs))) → Turns s.after (ys ++ (t ∷ (zs ++ (k.running ∷ []))))
  Turns-regroup s =
      subst (λ us. Turns s.after us) (append_assoc ys (t ∷ zs) (k.running ∷ [])) s.turned.turns

  Served-later :
      Turns k (y ∷ (ys ++ (t ∷ zs)))
      → (s : Slice k cs m y (ys ++ (t ∷ zs)))
      → Served s.after s.rest t ((zs ++ (k.running ∷ [])) ++ (s.after.running ∷ ys))
      → Served k cs t (zs ++ (k.running ∷ y ∷ ys))
  Served-later h s v = record {
    after = v.after;
    done = s.runs_on ∙ v.done;
    turns =
        subst (λ us. Turns v.after us)
          (append_assoc zs (k.running ∷ []) (s.after.running ∷ ys)
            ∙ ap (λ u. zs ++ (k.running ∷ u ∷ ys)) s.turned.runs)
          v.turns;
    runs = v.runs;
    time = v.time;
    loaded = v.loaded ∙ ap (λ u. u.context) (s.turned.kept t (waiting-ne k (y ∷ ys) t zs h));
  }

-- While the running tasks only compute, the ready task `t` behind the tasks `ys` runs once the
-- slice of the running task and those of `ys` are over, with the context it had. The tasks
-- that ran before it stand in their order at the end of the ready list.
pub run-Turns :
    (ys : List ℕ) (k : Kernel) (t : ℕ) (zs : List ℕ) (cs : List Context)
    → Turns k (ys ++ (t ∷ zs))
    → length cs ≡ suc (k.cputime - 1) + sched_cputime * length ys
    → Served k cs t (zs ++ (k.running ∷ ys))
run-Turns [] k t zs cs h n = Served-first k cs t zs (run-Slice cs k 0 t zs h (omega (arith, n)))
run-Turns (y ∷ ys) k t zs cs h n =
    let m = sched_cputime * suc (length ys) in
    let s = run-Slice cs k m y (ys ++ (t ∷ zs)) h (omega (arith, n)) in
    let ticks = rest_ticks s.after.cputime (length s.rest) s.turned.time s.rest_length in
    let v =
      run-Turns ys s.after t (zs ++ (k.running ∷ [])) s.rest (Turns-regroup k cs m y ys t zs s)
        ticks in
    Served-later k cs m y ys t zs h s v
  where
    rest_ticks :
        (time n : ℕ)
        → time ≡ sched_cputime
        → n ≡ sched_cputime * suc (length ys)
        → n ≡ suc (time - 1) + sched_cputime * length ys
    rest_ticks time n e e' = omega arith

Served-resumes :
    (k k1 : Kernel) (c : Context) (cs : List Context) (x : ℕ) (xs : List ℕ)
    → timer_tick (record k { stored = c }) ≡ some k1
    → Turned k c k1 x xs
    → Served k1 cs k.running (k1.running ∷ xs)
    → (k' : Kernel) × (run (c ∷ cs) k ≡ some k')
      × Turns k' (x ∷ xs)
      × (k'.running ≡ k.running)
      × (k'.stored ≡ c)
unfolding run
Served-resumes k k1 c cs x xs e turned s = (
  s.after,
  rw e (s.done),
  subst (λ u. Turns s.after (u ∷ xs)) turned.runs s.turns,
  s.runs,
  s.loaded ∙ turned.saved,
)

-- If tasks are ready and the slice of the running task ends with the next tick, which interrupts
-- it in the context `c`, and all tasks only compute, then after one slice of each ready task the
-- interrupted task runs again in the context `c`, and the others are ready in the same order.
pub run-resumes :
    (k : Kernel) (x : ℕ) (xs : List ℕ) (c : Context) (cs : List Context)
    → Turns k (x ∷ xs)
    → k.cputime ≤ 1
    → length cs ≡ sched_cputime * length (x ∷ xs)
    → (k' : Kernel) × (run (c ∷ cs) k ≡ some k')
      × Turns k' (x ∷ xs)
      × (k'.running ≡ k.running)
      × (k'.stored ≡ c)
run-resumes k x xs c cs h last n =
    let (k1, e, turned) = tick-Turned k c x xs h last in
    let ticks = first_ticks k1.cputime turned.time in
    Served-resumes k k1 c cs x xs e turned (run-Turns xs k1 k.running [] cs turned.turns ticks)
  where
    first_ticks :
        (time : ℕ) → time ≡ sched_cputime → length cs ≡ suc (time - 1) + sched_cputime * length xs
    first_ticks time e = omega (arith, n)
