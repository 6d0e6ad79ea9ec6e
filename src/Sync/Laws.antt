-- ===== src/Sync/Laws.antt =====
-- Mutual exclusion and nesting of the mutex of utils/sync.c.
use ghittle.Base.{ℕ, ◌+◌, ◌<◌, ◌^◌, ◌≡◌, ◌≢◌, none, some, ◌==◌, if◌then◌else◌, arith, ◌⊎◌}
use ghittle.Sync.{Mutex, init_mutex, lock, unlock}

-- A mutex is as `init_mutex` leaves it, or some task holds it.
abbrev pub IsValid : Mutex → Type 0
IsValid m = (m ≡ init_mutex) ⊎ (0 < m.count) × (m.count < 2 ^ 32) × (m.flag ≡ 1)

-- How often the task `t` holds the mutex.
abbrev pub depth : Mutex → ℕ → ℕ
depth m t = if m.flag == 0 then 0 else (if m.tid == t then m.count else 0)

-- If a task gets a valid mutex, and its nesting stays below the range of the counter, the task
-- holds the mutex once more than before, no other task holds it, the mutex is valid, and
-- unlocking gives it back as it was.
pub unlock-lock :
    (me : ℕ) (m m' : Mutex)
    → IsValid m
    → depth m me + 1 < 2 ^ 32
    → lock me m ≡ some m'
    → (depth m' me ≡ depth m me + 1)
      × ((t : ℕ) → t ≢ me → depth m' t ≡ 0)
      × IsValid m'
      × (unlock me m' ≡ m)
unfolding lock unlock
unlock-lock me m m' v small e = (ground arith, λ t ne. ground arith, ground arith, ground arith)

-- A task waits exactly if some other task holds the mutex: `lock` gives `none` if the owner is
-- another task, and the mutex if there is no owner or the task owns it itself.
pub lock-waits :
    (me t : ℕ) (m : Mutex)
    → IsValid m
    → 0 < depth m t
    → (t ≢ me → lock me m ≡ none) × (t ≡ me → lock me m ≢ none)
unfolding lock
lock-waits me t m v holds = (λ ne. ground arith, λ e. ground arith)

-- No two tasks hold a mutex.
pub depth_exclusive : (m : Mutex) (s t : ℕ) → 0 < depth m s → 0 < depth m t → s ≡ t
depth_exclusive m s t hs ht = ground arith

-- `unlock` by a task that does not hold the mutex changes nothing.
pub unlock-stranger : (me : ℕ) (m : Mutex) → IsValid m → depth m me ≡ 0 → unlock me m ≡ m
unfolding unlock
unlock-stranger me m v none_held = ground arith

-- `unlock` keeps a mutex valid.
pub unlock-IsValid : (me : ℕ) (m : Mutex) → IsValid m → IsValid (unlock me m)
unfolding unlock
unlock-IsValid me m v = ground arith
