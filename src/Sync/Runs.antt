-- ===== src/Sync/Runs.antt =====
-- All interleavings of tasks that lock and unlock one mutex of utils/sync.c.
use ghittle.Base.{
  ℕ, ◌+◌, ◌-◌, ◌^◌, ◌<◌, ◌≤◌, ◌≡◌, ◌≢◌, refl, sym, none, some, ◌==◌, if◌then◌else◌, arith,
}
use ghittle.Sync.{Mutex, init_mutex, lock, unlock}
use ghittle.Sync.Laws.{IsValid, depth, lock-waits, unlock-stranger}

-- How often each task has locked without unlocking.
abbrev pub Held : Type 0
Held = ℕ → ℕ

abbrev pub changed : Held → ℕ → ℕ → Held
changed held t n s = if s == t then n else held s

-- Runs of a number of steps. A task locks when `lock` lets it, and unlocks at any time.
pub data Run : ℕ → Mutex → Held → Type 0 where
  begin : Run 0 init_mutex (λ t. 0)
  locks :
      (n t : ℕ) (m m' : Mutex) (held : Held)
      → Run n m held
      → lock t m ≡ some m'
      → Run (n + 1) m' (changed held t (held t + 1))
  unlocks :
      (n t : ℕ) (m : Mutex) (held : Held)
      → Run n m held
      → Run (n + 1) (unlock t m) (changed held t (held t - 1))

lock-depth :
    (t s : ℕ) (m m' : Mutex)
    → IsValid m
    → depth m t + 1 < 2 ^ 32
    → lock t m ≡ some m'
    → IsValid m' × (depth m' s ≡ (if s == t then depth m t + 1 else depth m s))
unfolding lock
lock-depth t s m m' v small e = (ground arith, ground arith)

unlock-depth :
    (t s : ℕ) (m : Mutex)
    → IsValid m
    → IsValid (unlock t m) × (depth (unlock t m) s ≡ (if s == t then depth m t - 1 else depth m s))
unfolding unlock
unlock-depth t s m v = (ground arith, ground arith)

Invariant : ℕ → Mutex → Held → Type 0
Invariant n m held = IsValid m × ((t : ℕ) → depth m t ≡ held t) × ((t : ℕ) → held t ≤ n)

Run-Invariant : (n : ℕ) (m : Mutex) (held : Held) → Run n m held → n < 2 ^ 32 → Invariant n m held
unfolding Invariant
Run-Invariant _ _ _ begin small = (ground arith, λ t. refl, λ t. ground arith)
Run-Invariant _ _ _ (locks n t m m' held run e) small =
    let (v, same, bound) = Run-Invariant n m held run (omega arith) in
    (
      (lock-depth t t m m' v (ground (arith, same t, bound t)) e).0,
      λ s.
          ground
            (arith, same t, same s, (lock-depth t s m m' v (ground (arith, same t, bound t)) e).1),
      λ s. ground (arith, bound t, bound s),
    )
Run-Invariant _ _ _ (unlocks n t m held run) small =
    let (v, same, bound) = Run-Invariant n m held run (omega arith) in
    (
      (unlock-depth t t m v).0,
      λ s. ground (arith, same t, same s, (unlock-depth t s m v).1),
      λ s. ground (arith, bound t, bound s),
    )

-- In every run of fewer than 2 ^ 32 steps from the initial mutex, whatever the order in which the
-- tasks lock and unlock: if a task has locked more often than unlocked, it is inside that often, no
-- other task is inside, the `lock` of any other task has to wait, and its `unlock` changes nothing.
pub mutual_exclusion :
    (n : ℕ) (m : Mutex) (held : Held) (s t : ℕ)
    → Run n m held
    → n < 2 ^ 32
    → 0 < held s
    → t ≢ s
    → (depth m s ≡ held s) × (held t ≡ 0) × (lock t m ≡ none) × (unlock t m ≡ m)
unfolding Invariant
mutual_exclusion n m held s t run small inside other =
    let (v, same, bound) = Run-Invariant n m held run small in
    (
      same s,
      ground (arith, same s, same t),
      (lock-waits t s m v (ground (arith, same s))).0 (λ e. other (sym e)),
      unlock-stranger t m v (ground (arith, same s, same t)),
    )
