-- ===== src/File/Writing.antt =====
-- `file_write` and `file_fill_zero` of filesys/file.c.
use ghittle.Base.{
  ℕ, zero, suc, ◌+◌, ◌-◌, ◌%◌, ◌^◌, min, Bool, true, false, ◌||◌, not, Option, none, some, ltb,
  ◌==◌, if◌then◌else◌,
}
use ghittle.Base.Int.{pos}
use ghittle.Mem.{Mem, store32, copy, memset}
use ghittle.Drive.{Drive}
use ghittle.Fs.{fs_last_block, add_u32, filesys_alloc_block}
use ghittle.Fs.Block.{fs_block_size, block_read, block_write}
use ghittle.Fs.Dir.{de_size, set_de, get_de}
use ghittle.File.{
  cross_block, Cmd, pure, ◌>>=◌, on_fs, do_fs, load_file, store_file, rounds, fs_type_file,
}

module _ (d : Drive) where
  open d use {State}

  -- The block that the next round of `file_write` fills, and the content that it starts from;
  -- `none` ends the loop. A whole block is not read before it is written.
  unfoldable pub prepare_block : ℕ → ℕ → ℕ → Mem → Cmd State (Option Mem)
  prepare_block total written p write_buf = do
    f ← load_file p
    let partial = not (f.curr_offset % fs_block_size == 0) || ltb (total - written) fs_block_size
    let old =
        if partial then do_fs (λ st. block_read d st f.curr_block_index) else pure (some write_buf)
    if not (f.curr_block_index == fs_last_block) then old else do
      new_block ← on_fs (filesys_alloc_block d f.curr_block_index)
      if new_block == fs_last_block then pure none else do
        _ ← store_file p (record f { curr_block_index = new_block })
        pure (some (memset write_buf 0 0 fs_block_size))

  -- A round of the loop: whether it goes on, the number of bytes written, and `write_buf`.
  unfoldable pub write_round : ℕ → ℕ → Mem → Mem → ℕ → Cmd State (Bool × ℕ × Mem)
  unfolding prepare_block
  write_round total p buf write_buf written = do
    prepared ← prepare_block total written p write_buf
    elim prepared [
      | none ↦ pure (false, written, write_buf)
      | some old ↦ do
        f ← load_file p
        let offset = f.curr_offset % fs_block_size
        let copy_size = min (fs_block_size - offset) (total - written)
        let content = copy old offset buf written copy_size
        done ← do_fs (λ st. block_write d st f.curr_block_index content)
        if not done then pure (false, written, content) else do
          _ ← store_file p (record f { curr_offset = add_u32 f.curr_offset copy_size })
          on ← cross_block d p
          pure (on, written + copy_size, content)
    ]

  -- The loop of `file_write` with fuel: the number of bytes written.
  unfoldable pub write_loop : ℕ → ℕ → ℕ → Mem → Mem → ℕ → Cmd State ℕ
  unfolding write_round
  write_loop zero total p buf write_buf written = pure written
  write_loop (suc n) total p buf write_buf written = elim (ltb written total) [
    | false ↦ pure written
    | true ↦ do
      (on, written', content) ← write_round total p buf write_buf written
      elim on [ false ↦ pure written' | true ↦ write_loop n total p buf content written' ]
  ]

  -- The part of `file_write` behind the loop: a file that grew has its entry updated.
  unfoldable pub update_size : ℕ → ℕ → Cmd State ℕ
  update_size p written = do
    f ← load_file p
    if not (ltb f.size f.curr_offset) then pure written else do
      entry ← do_fs (λ st. get_de d st (pos f.dentry_offset))
      elim entry [
        | none ↦ pure 0
        | some dentry ↦ do
          done ←
              do_fs (λ st. set_de d st (pos f.dentry_offset) (store32 dentry de_size f.curr_offset))
          if not done
              then pure 0
              else do _ ← store_file p (record f { size = f.curr_offset }); pure written
      ]

  -- `garbage` is what the uninitialised `write_buf` holds.
  unfoldable pub file_write : Mem → Mem → ℕ → ℕ → Cmd State ℕ
  unfolding write_loop update_size
  file_write garbage buf size p = do
    f ← load_file p
    if p == 0 || not (f.type == fs_type_file)
        then pure 0
        else do written ← write_loop (rounds size) size p buf garbage 0; update_size p written

  -- The loop of `file_fill_zero` with fuel: the bytes written, or 0 after a short write.
  unfoldable pub fill_loop : ℕ → Mem → ℕ → ℕ → ℕ → Cmd State ℕ
  unfolding file_write
  fill_loop zero garbage p total written = pure written
  fill_loop (suc n) garbage p total written = elim (ltb written total) [
    | false ↦ pure written
    | true ↦ do
      f ← load_file p
      let to_copy = fs_block_size - f.curr_offset % fs_block_size
      done ← file_write garbage (λ _. 0) to_copy p
      elim (done == to_copy) [
        | true ↦ fill_loop n garbage p total (written + to_copy)
        | false ↦ pure 0
      ]
  ]

  unfoldable pub file_fill_zero : Mem → ℕ → ℕ → ℕ → Cmd State ℕ
  unfolding fill_loop
  file_fill_zero garbage p start to =
      let total = (to + 2 ^ 32 - start) % 2 ^ 32 in
      if p == 0 then pure 0 else fill_loop (rounds total) garbage p total 0
