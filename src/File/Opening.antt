-- ===== src/File/Opening.antt =====
-- Creating, opening, closing and removing files of filesys/file.c.
use ghittle.Base.{ℕ, Bool, true, false, ◌||◌, not, Option, none, some, List, ◌==◌, if◌then◌else◌}
use ghittle.Base.Int.{pos, negsuc}
use ghittle.Mem.{Mem, load32, store32}
use ghittle.Str.{strcpy}
use ghittle.Drive.{Drive}
use ghittle.Fs.{fs_last_block, fs_free_block, set_mte, get_mte, filesys_alloc_block}
use ghittle.Kmem.{kfree}
use ghittle.Fs.Dir.{de_size, de_block_index, find_free_dentry, set_de, find_dentry}
use ghittle.File.{
  File, seek_end, Cmd, pure, ◌>>=◌, ◌>>◌, on_fs, do_fs, store_file, alloc_file, is_bad_name,
  free_chain, fs_type_file,
}
use ghittle.File.Seeking.{file_seek}

module _ (d : Drive) where
  open d use {State}

  -- The entry that `file_create` fills, in a buffer of unknown content.
  abbrev pub new_dentry : Mem → List ℕ → ℕ → Mem
  new_dentry dentry name block =
      store32 (store32 (strcpy dentry 0 name) de_block_index block) de_size 0

  -- The index and the entry; `none` is -1.
  unfoldable pub file_create : List ℕ → Mem → Cmd State (Option (ℕ × Mem))
  file_create name dentry = do
    block ← on_fs (filesys_alloc_block d fs_last_block)
    if block == fs_last_block then pure none else do
      index ← do_fs (find_free_dentry d)
      elim index [
        | negsuc _ ↦ do _ ← do_fs (λ st. set_mte d st block fs_free_block); pure none
        | pos i ↦ do
          done ← do_fs (λ st. set_de d st (pos i) (new_dentry dentry name block))
          if done
              then pure (some (i, new_dentry dentry name block))
              else do _ ← do_fs (λ st. set_mte d st block fs_free_block); pure none
      ]

  -- What mode 'w' does to a file that exists: all its blocks but the first are freed.
  unfoldable pub cut_file : ℕ → Mem → Cmd State (Option (ℕ × Mem))
  cut_file index dentry = do
    let block = load32 dentry de_block_index
    let empty = store32 dentry de_size 0
    second ← do_fs (λ st. get_mte d st block)
    elim second [
      | none ↦ pure none
      | some second_block ↦ do
        ended ← do_fs (λ st. set_mte d st block fs_last_block)
        if not ended then pure none else do
          freed ← free_chain d second_block
          if not freed then pure none else do
            done ← do_fs (λ st. set_de d st (pos index) empty)
            if done then pure (some (index, empty)) else pure none
    ]

  -- The entry that `file_open` works on. `mode` is the first character of the mode.
  unfoldable pub open_entry : List ℕ → ℕ → Mem → Cmd State (Option (ℕ × Mem))
  unfolding file_create cut_file
  open_entry name mode garbage = do
    found ← do_fs (λ st. find_dentry d st name)
    elim found [
      | none ↦ if mode == b'r' then pure none else file_create name garbage
      | some (index, dentry) ↦
          if mode == b'w' then cut_file index dentry else pure (some (index, dentry))
    ]

  -- The file that `file_open` sets up for an entry.
  abbrev pub opened : ℕ → Mem → File
  opened index dentry = record {
    type = fs_type_file;
    dentry_offset = index;
    size = load32 dentry de_size;
    block_index = load32 dentry de_block_index;
    curr_block_index = load32 dentry de_block_index;
    prev_block_index = load32 dentry de_block_index;
    curr_offset = 0;
  }

  -- The result is the address of the file, 0 for failure. The address that `kmalloc` gives is not
  -- checked. `garbage` and `garbage'` are what uninitialised buffers hold.
  unfoldable pub file_open : List ℕ → ℕ → Mem → Mem → Cmd State ℕ
  unfolding open_entry file_seek
  file_open name mode garbage garbage' = if is_bad_name name then pure 0 else do
    entry ← open_entry name mode garbage
    elim entry [
      | none ↦ pure 0
      | some (index, dentry) ↦ do
        p ← alloc_file
        _ ← store_file p (opened index dentry)
        if mode == b'a' then file_seek d garbage' p (pos 0) seek_end >> pure p else pure p
    ]

  unfoldable pub file_close : ℕ → Cmd State Bool
  file_close p os =
      if p == 0 || not ((os.file p).type == fs_type_file)
      then some (false, os)
      else some (true, record os { kmem = kfree os.kmem p })

  unfoldable pub file_is_open : Mem → Bool
  file_is_open dentry = true

  unfoldable pub file_remove : List ℕ → Cmd State Bool
  file_remove name = if is_bad_name name then pure false else do
    found ← do_fs (λ st. find_dentry d st name)
    elim found [
      | none ↦ pure false
      | some (index, dentry) ↦ do
        freed ← free_chain d (load32 dentry de_block_index)
        if not freed then pure false else do_fs (λ st. set_de d st (pos index) (λ _. 0))
    ]
