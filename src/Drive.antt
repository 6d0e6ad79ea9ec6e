-- ===== src/Drive.antt =====
-- What the file system asks of device/hdd.c: sectors of 512 bytes that are read and written.
-- The section parameter `d` of the file system is such a drive.
use mathlib.Core.Path.{ap₂}
use ghittle.Base.{
  ℕ, ◌+◌, ◌-◌, ◌*◌, ◌/◌, ◌%◌, ◌≤◌, ◌<◌, ◌≡◌, ◌∙◌, arith, ◌⊎◌, Bool, true, Option, some,
}
use ghittle.Mem.{Mem}

-- `read s lba n` is `read_hdd_sector`: the buffer that it fills, or `none` for -1. `write` is
-- `write_hdd_sector`, with the truth value of "returns 0". `info` is `read_hdd_info`: the
-- `total_sector` that the drive names. `sector` is what the drive holds, sector by sector.
pub record Drive : Type 1 where
  pub State : Type 0
  pub read : State → ℕ → ℕ → Option Mem × State
  pub write : State → ℕ → ℕ → Mem → Bool × State
  pub info : State → Option ℕ × State
  pub sector : State → ℕ → Mem
  pub read_some :
      (s : State) (lba n o : ℕ) (m : Mem)
      → (read s lba n).0 ≡ some m
      → o < 512 * n
      → m o ≡ sector s (lba + o / 512) (o % 512)
  pub read_keeps : (s : State) (lba n k o : ℕ) → sector (read s lba n).1 k o ≡ sector s k o
  pub info_keeps : (s : State) (k o : ℕ) → sector (info s).1 k o ≡ sector s k o
  pub write_done :
      (s : State) (lba n : ℕ) (m : Mem) (k o : ℕ)
      → (write s lba n m).0 ≡ true
      → lba ≤ k
      → k < lba + n
      → o < 512
      → sector (write s lba n m).1 k o ≡ m (512 * (k - lba) + o)
  pub write_other :
      (s : State) (lba n : ℕ) (m : Mem) (k o : ℕ)
      → (k < lba) ⊎ (lba + n ≤ k)
      → sector (write s lba n m).1 k o ≡ sector s k o

module _ (d : Drive) where
  open d use {State, read, sector, read_some}

  -- A read of one sector.
  pub read_one :
      (s : State) (lba o : ℕ) (m : Mem) → (read s lba 1).0 ≡ some m → o < 512 → m o ≡ sector s lba o
  read_one s lba o m e h =
      read_some s lba 1 o m e (omega arith) ∙ ap₂ (sector s) (omega arith) (omega arith)
