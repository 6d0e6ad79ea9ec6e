-- ===== src/Sync.antt =====
-- utils/sync.c: the recursive mutex. `test_set` (utils/sync_ll.asm) compares and stores in one
-- instruction. Until it has stored its own id, the task that wins it is not yet the owner that
-- others compare with, and nobody else writes the mutex: so a call is one step here. A task that
-- has to wait runs other tasks (`schedule`) and tries again: its try gives `none`.
use ghittle.Base.{
  ℕ, ◌+◌, ◌-◌, ◌%◌, ◌^◌, Bool, ◌||◌, not, Option, none, some, ltb, ◌==◌, if◌then◌else◌,
}
pub mod Laws
pub mod Runs

abbrev pub task_invalid_id : ℕ
task_invalid_id = 0xFFFFFFFFFFFFFFFF

pub record Mutex : Type 0 where
  pub tid : ℕ
  pub count : ℕ
  pub flag : ℕ

abbrev pub init_mutex : Mutex
init_mutex = record { tid = task_invalid_id; count = 0; flag = 0 }

-- `lock` by the task `me`, up to the first wait.
unfoldable pub lock : ℕ → Mutex → Option Mutex
lock me m =
    if m.flag == 0
    then some (record { tid = me; count = 1; flag = 1 })
    else (if m.tid == me then some (record m { count = (m.count + 1) % 2 ^ 32 }) else none)

unfoldable pub unlock : ℕ → Mutex → Mutex
unlock me m =
    if m.flag == 0 || not (m.tid == me)
    then m
    else (if ltb 1 m.count then record m { count = m.count - 1 } else init_mutex)
