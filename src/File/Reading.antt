-- ===== src/File/Reading.antt =====
-- `file_read` of filesys/file.c.
use ghittle.Base.{
  ℕ, zero, suc, ◌+◌, ◌-◌, ◌%◌, min, Bool, true, false, ◌||◌, not, none, some, ltb, leb, ◌==◌,
  if◌then◌else◌,
}
use ghittle.Mem.{Mem, copy}
use ghittle.Drive.{Drive}
use ghittle.Fs.{fs_last_block, add_u32}
use ghittle.Fs.Block.{fs_block_size, block_read}
use ghittle.File.{cross_block, Cmd, pure, ◌>>=◌, do_fs, load_file, store_file, rounds, fs_type_file}

module _ (d : Drive) where
  open d use {State}

  -- A round of the loop: whether it goes on, the number of bytes read, and the caller's buffer.
  unfoldable pub read_round : ℕ → ℕ → Mem → ℕ → Cmd State (Bool × ℕ × Mem)
  read_round total p buf read_bytes = do
    f ← load_file p
    r ← do_fs (λ st. block_read d st f.curr_block_index)
    elim r [
      | none ↦ pure (false, read_bytes, buf)
      | some rbuf ↦ do
        let offset = f.curr_offset % fs_block_size
        let copy_size = min (fs_block_size - offset) (total - read_bytes)
        _ ← store_file p (record f { curr_offset = add_u32 f.curr_offset copy_size })
        on ← cross_block d p
        pure (on, read_bytes + copy_size, copy buf read_bytes rbuf offset copy_size)
    ]

  -- The loop of `file_read` with fuel: the number of bytes read, and the caller's buffer.
  unfoldable pub read_loop : ℕ → ℕ → ℕ → Mem → ℕ → Cmd State (ℕ × Mem)
  unfolding read_round
  read_loop zero total p buf read_bytes = pure (read_bytes, buf)
  read_loop (suc n) total p buf read_bytes = elim (ltb read_bytes total) [
    | false ↦ pure (read_bytes, buf)
    | true ↦ do
      (on, read_bytes', buf') ← read_round total p buf read_bytes
      elim on [ false ↦ pure (read_bytes', buf') | true ↦ read_loop n total p buf' read_bytes' ]
  ]

  unfoldable pub file_read : Mem → ℕ → ℕ → Cmd State (ℕ × Mem)
  unfolding read_loop
  file_read buf size p = do
    f ← load_file p
    let total = min size (f.size - f.curr_offset)
    if p == 0 || not (f.type == fs_type_file)
        then pure (0, buf)
        else (if leb f.size f.curr_offset || f.curr_block_index == fs_last_block
            then pure (0, buf)
            else read_loop (rounds total) total p buf 0)
