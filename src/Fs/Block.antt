-- ===== src/Fs/Block.antt =====
-- device/block.c: blocks of eight sectors behind `block_base`.
use ghittle.Base.{ℕ, ◌*◌, ◌%◌, ◌^◌, Bool, Option}
use ghittle.Mem.{Mem}
use ghittle.Drive.{Drive}
use ghittle.Fs.{Fs, fs_sectors_per_block, add_u32}

abbrev pub fs_block_size : ℕ
fs_block_size = 4096

module _ (d : Drive) where
  open d use {State, read, write}

  -- The first sector of a block.
  abbrev pub block_sector : Fs State → ℕ → ℕ
  block_sector st offset = add_u32 (offset * fs_sectors_per_block % 2 ^ 32) st.block_base

  unfoldable pub block_read : Fs State → ℕ → Option Mem × Fs State
  block_read st offset =
      let (r, s) = read st.drive (block_sector st offset) fs_sectors_per_block in
      (r, record st { drive = s })

  unfoldable pub block_write : Fs State → ℕ → Mem → Bool × Fs State
  block_write st offset buf =
      let (r, s) = write st.drive (block_sector st offset) fs_sectors_per_block buf in
      (r, record st { drive = s })

  unfoldable pub block_write_zero : Fs State → ℕ → Bool × Fs State
  block_write_zero st offset =
      let (r, s) = write st.drive (block_sector st offset) fs_sectors_per_block (λ _. 0) in
      (r, record st { drive = s })
