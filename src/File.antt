-- ===== src/File.antt =====
-- filesys/file.c: open files over the directory, the table and the blocks. A `struct file` lives at
-- the address that `kmalloc` gave; 0 is the null pointer. A call gives `none` where it would wait
-- for the mutex of the file system. The messages of `printk` are not modelled.
pub mod Reading
pub mod Contents
pub mod Round
pub mod Read
pub mod Whole
pub mod Writing
pub mod Seeking
pub mod Opening
pub mod Listing
pub mod Seek
use ghittle.Base.{
  ℕ, zero, suc, ◌+◌, ◌-◌, ◌*◌, ◌/◌, ◌%◌, ◌^◌, min, Bool, true, false, ◌&&◌, ◌||◌, not, Option, none,
  some, List, get_or, ltb, leb, ◌==◌, if◌then◌else◌,
}
use ghittle.Base.Int.{ℤ, pos, negsuc}
use ghittle.Mem.{Mem, load32, store32, copy, memset}
use ghittle.Str.{strlen, strcpy}
use ghittle.Kmem.{Kmem, kmalloc, kfree}
use ghittle.Drive.{Drive}
use ghittle.Fs.{
  Fs, fs_last_block, fs_free_block, add_u32, set_mte, get_mte, filesys_alloc_block, free_blocks_all,
}
use ghittle.Fs.Block.{fs_block_size, block_read, block_write}
use ghittle.Fs.Dir.{de_size, de_block_index, find_free_dentry, set_de, get_de, find_dentry}

abbrev pub fs_type_file : ℕ
fs_type_file = 1

abbrev pub fs_max_filename_length : ℕ
fs_max_filename_length = 24

pub record File : Type 0 where
  pub type : ℕ
  pub dentry_offset : ℕ
  pub size : ℕ
  pub block_index : ℕ
  pub curr_block_index : ℕ
  pub prev_block_index : ℕ
  pub curr_offset : ℕ

-- sizeof(struct file)
abbrev pub file_struct_size : ℕ
file_struct_size = 28

-- The file system, the heap, the open files by their addresses, and the fuel for walks of chains.
pub record Os (S : Type 0) : Type 0 where
  pub fs : Fs S
  pub kmem : Kmem
  pub file : ℕ → File
  pub fuel : ℕ

-- FS_SEEK_SET, FS_SEEK_CUR and FS_SEEK_END.
pub data Origin : Type 0 where
  seek_set seek_cur seek_end : Origin

abbrev pub Cmd : Type 0 → Type 0 → Type 0
Cmd S A = Os S → Option (A × Os S)

abbrev pub pure : {S A : Type 0} → A → Cmd S A
pure a os = some (a, os)

infixl 5 ◌>>=◌ ◌>>◌
abbrev pub ◌>>=◌ : {S A B : Type 0} → Cmd S A → (A → Cmd S B) → Cmd S B
◌>>=◌ m k os = elim (m os) [ none ↦ none | some (a, os') ↦ k a os' ]

abbrev pub ◌>>◌ : {S A B : Type 0} → Cmd S A → Cmd S B → Cmd S B
m >> k = m >>= λ _. k

-- A call of the file system that may wait, and one that does not.
abbrev pub on_fs : {S A : Type 0} → (Fs S → Option (A × Fs S)) → Cmd S A
on_fs f os = elim (f os.fs) [ none ↦ none | some (a, fs) ↦ some (a, record os { fs = fs }) ]

abbrev pub do_fs : {S A : Type 0} → (Fs S → A × Fs S) → Cmd S A
do_fs f os = let (a, fs) = f os.fs in some (a, record os { fs = fs })

abbrev pub load_file : {S : Type 0} → ℕ → Cmd S File
load_file p os = some (os.file p, os)

abbrev pub store_file : {S : Type 0} → ℕ → File → Cmd S (Unit {0})
store_file p f os = some (tt, record os { file = λ q. if q == p then f else os.file q })

abbrev pub alloc_file : {S : Type 0} → Cmd S ℕ
alloc_file os = let (p, k) = kmalloc os.kmem file_struct_size in some (p, record os { kmem = k })

-- The name with its NUL has to fit.
abbrev pub is_bad_name : List ℕ → Bool
is_bad_name name = ltb (fs_max_filename_length - 1) (strlen name) || strlen name == 0

-- Every round but the first and the last copies a whole block.
abbrev pub rounds : ℕ → ℕ
rounds total = total / fs_block_size + 2

module _ (d : Drive) where
  open d use {State}

  -- `free_blocks_all` with the fuel of the state; running out of it counts as waiting.
  abbrev pub free_chain : ℕ → Cmd State Bool
  free_chain block os =
      let (r, fs) = free_blocks_all d os.fuel block os.fs in
      elim r [ none ↦ none | some done ↦ some (done, record os { fs = fs }) ]

  -- The end of a round of `file_read` and `file_write`: at the end of a block, the file moves to
  -- the next one. The truth value is false if the table cannot be read.
  unfoldable pub cross_block : ℕ → Cmd State Bool
  cross_block p = do
    f ← load_file p
    if not (f.curr_offset % fs_block_size == 0) then pure true else do
      next ← do_fs (λ st. get_mte d st f.curr_block_index)
      elim next [
        | none ↦ pure false
        | some next_block ↦ do
          _ ←
              store_file p
                (record f { prev_block_index = f.curr_block_index; curr_block_index = next_block })
          pure true
      ]
