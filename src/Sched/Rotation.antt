-- ===== src/Sched/Rotation.antt =====
-- The invariant of runs of the timer interrupt: the tasks of task/sched.c stay in one circle.
use mathlib.Core.Path.{subst}
use ghittle.Base.{
  ℕ, ◌-◌, ◌≡◌, ◌∙◌, inl, inr, refl, sym, ap, some, List, [], ◌∷◌, ◌++◌, leb, Bool-cases, arith,
}
use ghittle.Task.{Context}
use ghittle.Sched.{Kernel, timer_tick}
use ghittle.Sched.Fair.{run, Turns, tick-Turned, tick-counts, Turns-count}

-- One list is the other, turned some places.
pub data Rotation : List ℕ → List ℕ → Type 0 where
  here : {xs : List ℕ} → Rotation xs xs
  turn : {x : ℕ} {xs ys : List ℕ} → Rotation (xs ++ (x ∷ [])) ys → Rotation (x ∷ xs) ys

-- The kernel after a run, with at least one ready task behind the running one.
pub record Circle (tasks : List ℕ) (cs : List Context) (k : Kernel) : Type 0 where
  pub after : Kernel
  pub next : ℕ
  pub others : List ℕ
  pub done : run cs k ≡ some after
  pub turns : Turns after (next ∷ others)
  pub rotated : Rotation tasks (after.running ∷ next ∷ others)

record Snoc (xs : List ℕ) (r : ℕ) : Type 0 where
  first : ℕ
  rest : List ℕ
  same : xs ++ (r ∷ []) ≡ first ∷ rest

snoc : (xs : List ℕ) (r : ℕ) → Snoc xs r
snoc [] r = record { first = r; rest = []; same = refl }
snoc (x ∷ xs) r = record { first = x; rest = xs ++ (r ∷ []); same = refl }

Circle-tick :
    (k k1 : Kernel) (c : Context) (cs : List Context) (tasks tasks' : List ℕ)
    → timer_tick (record k { stored = c }) ≡ some k1
    → ((ys : List ℕ) → Rotation tasks' ys → Rotation tasks ys)
    → Circle tasks' cs k1
    → Circle tasks (c ∷ cs) k
unfolding run
Circle-tick k k1 c cs tasks tasks' e more s = record {
  after = s.after;
  next = s.next;
  others = s.others;
  done = rw e (s.done);
  turns = s.turns;
  rotated = more _ s.rotated;
}

-- While tasks only compute, the timer interrupt never waits for the lock of the scheduler and
-- loses or doubles no task: with a task ready, after any number of interrupts the running task and
-- the ready list are the old ones, turned some places.
pub run-Circle :
    (cs : List Context) (k : Kernel) (x : ℕ) (xs : List ℕ)
    → Turns k (x ∷ xs)
    → Circle (k.running ∷ x ∷ xs) cs k
unfolding run
run-Circle [] k x xs h = record {
  after = k;
  next = x;
  others = xs;
  done = refl;
  turns = h;
  rotated = here;
}
run-Circle (c ∷ cs) k x xs h = elim (Bool-cases (leb k.cputime 1)) [
  | inl over ↦
      let (k1, e, turned) = tick-Turned k c x xs h (ground arith) in
      let s = snoc xs k.running in
      let rest = run-Circle cs k1 s.first s.rest (subst (λ us. Turns k1 us) s.same turned.turns) in
      Circle-tick k k1 c cs (k.running ∷ x ∷ xs) (k1.running ∷ s.first ∷ s.rest) e
        (λ ys r. turn (
          subst (λ us. Rotation us ys)
            (ap (λ u. u ∷ (s.first ∷ s.rest)) turned.runs ∙ ap (λ us. x ∷ us) (sym s.same)) r))
        rest
  | inr more ↦
      let k1 = record k { stored = c; cputime = k.cputime - 1 } in
      Circle-tick k k1 c cs (k.running ∷ x ∷ xs) (k.running ∷ x ∷ xs)
        (tick-counts (record k { stored = c }) (ground arith)) (λ ys r. r)
        (run-Circle cs k1 x xs (Turns-count k c (k.cputime - 1) (x ∷ xs) h))
]
