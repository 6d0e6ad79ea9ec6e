-- ===== src/Sched/Reap.antt =====
-- The idle task frees the ended tasks.
use mathlib.Core.Path.{subst}
use ghittle.Base.{
  ℕ, zero, suc, ◌≤◌, ◌≡◌, ◌∙◌, refl, sym, Bool, true, false, List, [], ◌∷◌, ◌||◌, length, ◌==◌,
  ==_ne, if◌then◌else◌, arith,
}
use ghittle.Ring.{Links, Header, list_empty, list_pop, set_next, set_prev, decrement}
use ghittle.Ring.Laws.{has, Distinct, Holds, Seg-frame, list_empty-Holds, mem_ne}
use ghittle.Ring.Remove.{list_pop-Holds}
use ghittle.Task.{Task, blank, pointer, free_task}
use ghittle.Sched.{Kernel, task_at}
use ghittle.Sched.Idle.{reap}

-- The ids of the tasks are those of their places in the pool.
abbrev pub AllNamed : (ℕ → Task) → List ℕ → Type 0
AllNamed task [] = Unit
AllNamed task (x ∷ xs) = (pointer (task x).id ≡ x) × AllNamed task xs

-- The node of a task that is not in a list does not matter to the list.
Holds-clear :
    (s : Links) (l : Header) (xs : List ℕ) (x : ℕ)
    → Holds s l xs
    → has x (l.head ∷ xs) ≡ false
    → Holds (set_next (set_prev s x 0) x 0) l xs
Holds-clear s l xs x h new = record {
  links =
      Seg-frame s (set_next (set_prev s x 0) x 0) l.head xs l.head (λ c m. other c m)
        (λ c m. other' c m) h.links;
  distinct = h.distinct;
  counted = h.counted;
}
  where
    other : (c : ℕ) → has c (l.head ∷ xs) ≡ true → (set_next (set_prev s x 0) x 0).next c ≡ s.next c
    other c m = let ne = mem_ne x c (l.head ∷ xs) new m in ground arith

    other' :
        (c : ℕ) → has c (l.head ∷ xs) ≡ true → (set_next (set_prev s x 0) x 0).prev c ≡ s.prev c
    other' c m = let ne = mem_ne x c (l.head ∷ xs) new m in ground arith

abbrev cleared : (ℕ → Task) → ℕ → ℕ → Task
cleared task x q = if q == x then blank else task q

AllNamed-cleared :
    (task : ℕ → Task) (x : ℕ) (xs : List ℕ)
    → has x xs ≡ false
    → AllNamed task xs
    → AllNamed (cleared task x) xs
AllNamed-cleared task x [] new named = tt
AllNamed-cleared task x (y ∷ ys) new named =
    let apart : (y == x) ≡ false = ground arith in
    (rw apart (named.0), AllNamed-cleared task x ys (ground arith) named.1)

-- The kernel behind the end of the first task of the wait list.
abbrev reaped : Kernel → ℕ → Kernel
reaped k x =
    let (t, l, s) = list_pop k.pool.links k.waitlist in
    record k {
      waitlist = l;
      pool = record (k.pool) {
        task = cleared k.pool.task x;
        links = set_next (set_prev s x 0) x 0;
        num_task = decrement k.pool.num_task;
      };
    }

reap-suc :
    (n : ℕ) (k : Kernel) (x : ℕ) (xs : List ℕ)
    → Holds k.pool.links k.waitlist (x ∷ xs)
    → pointer (task_at k x).id ≡ x
    → reap (suc n) k ≡ reap n (reaped k x)
unfolding reap free_task
reap-suc n k x xs h named =
    let some_task : list_empty k.waitlist ≡ false =
      list_empty-Holds k.pool.links k.waitlist (x ∷ xs) h
      ∙ ==_ne (suc (length xs)) 0 (omega arith) in
    let first = (list_pop-Holds k.pool.links k.waitlist x xs h).0 in
    rw (some_task, reap) (rw (first, free_task) (rw (named, free_task) refl))

behind_head : (head x : ℕ) (xs : List ℕ) → Distinct (head ∷ x ∷ xs) → has x (head ∷ xs) ≡ false
behind_head head x xs d = ground arith

merged :
    (a b : Bool) (v : Task)
    → (if b then blank else (if a then blank else v)) ≡ (if a || b then blank else v)
merged true true v = refl
merged true false v = refl
merged false true v = refl
merged false false v = refl

reaped-Holds :
    (k : Kernel) (x : ℕ) (xs : List ℕ)
    → Holds k.pool.links k.waitlist (x ∷ xs)
    → Holds (reaped k x).pool.links (reaped k x).waitlist xs
unfolding list_pop
reaped-Holds k x xs h =
    let (t, l, s) = list_pop k.pool.links k.waitlist in
    Holds-clear s l xs x (list_pop-Holds k.pool.links k.waitlist x xs h).1
      (behind_head k.waitlist.head x xs h.distinct)

-- What `reap` leaves: the wait list is empty, its tasks are blank and the others as they were.
pub record Reaped (k : Kernel) (xs : List ℕ) (k' : Kernel) : Type 0 where
  pub empty : Holds k'.pool.links k'.waitlist []
  pub tasks : (t : ℕ) → task_at k' t ≡ (if has t xs then blank else task_at k t)
  pub ready : k'.readylist ≡ k.readylist
  pub running : k'.running ≡ k.running

-- With as much fuel as tasks have ended, the loop of `idle_task` empties the wait list and frees
-- exactly the tasks on it.
pub reap-Reaped :
    (n : ℕ) (k : Kernel) (xs : List ℕ)
    → Holds k.pool.links k.waitlist xs
    → AllNamed k.pool.task xs
    → length xs ≤ n
    → Reaped k xs (reap n k)
unfolding reap
reap-Reaped zero k [] h named enough = record {
  empty = h;
  tasks = λ t. refl;
  ready = refl;
  running = refl;
}
reap-Reaped zero k (x ∷ xs) h named enough = absurd (omega arith)
reap-Reaped (suc n) k [] h named enough =
    rw (list_empty-Holds k.pool.links k.waitlist [] h, reap)
      (record { empty = h; tasks = λ t. refl; ready = refl; running = refl })
reap-Reaped (suc n) k (x ∷ xs) h named enough =
    let fresh : has x xs ≡ false = ground (arith, h.distinct) in
    let r =
      reap-Reaped n (reaped k x) xs (reaped-Holds k x xs h)
        (AllNamed-cleared k.pool.task x xs fresh named.1) (omega arith) in
    subst (Reaped k (x ∷ xs)) (sym (reap-suc n k x xs h named.0)) (record {
      empty = r.empty;
      tasks = λ t. r.tasks t ∙ merged (t == x) (has t xs) (task_at k t);
      ready = r.ready;
      running = r.running;
    })
