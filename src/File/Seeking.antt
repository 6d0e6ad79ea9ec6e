-- ===== src/File/Seeking.antt =====
-- `file_seek` of filesys/file.c.
use ghittle.Base.{
  ℕ, zero, suc, ◌+◌, ◌-◌, ◌/◌, ◌%◌, ◌^◌, Bool, true, false, ◌||◌, not, Option, none, some, ltb, leb,
  ◌==◌, if◌then◌else◌,
}
use ghittle.Base.Int.{ℤ, pos, negsuc}
use ghittle.Mem.{Mem}
use ghittle.Drive.{Drive}
use ghittle.Fs.{add_u32, get_mte}
use ghittle.Fs.Block.{fs_block_size}
use ghittle.File.{
  File, Origin, seek_set, seek_cur, seek_end, Cmd, pure, ◌>>=◌, ◌>>◌, do_fs, load_file, store_file,
  fs_type_file,
}
use ghittle.File.Writing.{file_fill_zero}

module _ (d : Drive) where
  open d use {State}

  -- Adding a signed offset to an `unsigned int`, as `file_seek` does for SEEK_CUR and SEEK_END.
  unfoldable pub move_offset : ℕ → ℤ → ℕ
  move_offset start (pos n) = add_u32 start n
  move_offset start (negsuc n) = if leb start (n + 1) then 0 else start - (n + 1)

  unfoldable pub new_position : File → ℤ → Origin → ℕ
  unfolding move_offset
  new_position f (pos n) seek_set = n
  new_position f (negsuc n) seek_set = 0
  new_position f offset seek_cur = move_offset f.curr_offset offset
  new_position f offset seek_end = move_offset f.size offset

  -- How many links `file_seek` follows, and from which block.
  unfoldable pub seek_plan : File → ℕ → ℕ × ℕ
  seek_plan f new_offset =
      let last = f.size / fs_block_size in
      let new = new_offset / fs_block_size in
      let curr = f.curr_offset / fs_block_size in
      if ltb last new
      then ((last + 2 ^ 32 - curr) % 2 ^ 32, f.curr_block_index)
      else (if leb curr new then (new - curr, f.curr_block_index) else (new, f.block_index))

  -- The loop over the links: the previous and the current block, with the rounds left.
  unfoldable pub follow : ℕ → ℕ → ℕ → Cmd State (Option (ℕ × ℕ))
  follow zero prev curr = pure (some (prev, curr))
  follow (suc n) prev curr = do
    next ← do_fs (λ st. get_mte d st curr)
    elim next [ none ↦ pure none | some block ↦ follow n curr block ]

  -- The fields of the file behind the loop.
  unfoldable pub land : File → ℕ → ℕ → ℕ → ℕ → File
  land f moves start prev curr =
      if ltb 0 moves
      then record f { prev_block_index = prev; curr_block_index = curr }
      else (if start == f.block_index
          then record f { prev_block_index = f.block_index; curr_block_index = f.block_index }
          else f)

  -- The end of `file_seek`: a position behind the last block is reached by writing zeros.
  unfoldable pub finish_seek : Mem → ℕ → ℕ → Cmd State Bool
  unfolding file_fill_zero
  finish_seek garbage p new_offset = do
    f ← load_file p
    let past = ltb (f.size / fs_block_size) (new_offset / fs_block_size)
    if not past then store_file p (record f { curr_offset = new_offset }) >> pure true else do
      _ ← store_file p (record f { curr_offset = f.size })
      filled ← file_fill_zero d garbage p f.size new_offset
      if leb (2 ^ 31) filled then pure false else do
        g ← load_file p
        _ ← store_file p (record g { curr_offset = new_offset })
        pure true

  unfoldable pub file_seek : Mem → ℕ → ℤ → Origin → Cmd State Bool
  unfolding new_position seek_plan follow land finish_seek
  file_seek garbage p offset origin = do
    f ← load_file p
    let new_offset = new_position f offset origin
    let moves = (seek_plan f new_offset).0
    let start = (seek_plan f new_offset).1
    if p == 0 || not (f.type == fs_type_file) then pure false else do
      found ← follow moves start start
      elim found [
        | none ↦ pure false
        | some (prev, curr) ↦
            store_file p (land f moves start prev curr) >> finish_seek garbage p new_offset
      ]
