-- ===== src/Fs/Dir.antt =====
-- filesys/dir.c: the root directory, block 0, with 128 entries of 32 bytes. A `struct dentry` is
-- its 32 bytes, from address 0 on: the name at 0, the size at 24, the first block at 28.
pub mod Laws
use ghittle.Base.{
  ℕ, zero, suc, ◌+◌, ◌*◌, Bool, true, false, ◌||◌, Option, none, some, List, leb, ◌==◌,
  if◌then◌else◌,
}
use ghittle.Base.Int.{ℤ, pos, negsuc, is_zero}
use ghittle.Mem.{Mem, load32, copy}
use ghittle.Str.{strcmp}
use ghittle.Drive.{Drive}
use ghittle.Fs.{Fs}
use ghittle.Fs.Block.{block_read, block_write}

abbrev pub dentry_size : ℕ
dentry_size = 32

-- FS_DE_PER_BLOCK
abbrev pub fs_de_per_block : ℕ
fs_de_per_block = 128

abbrev pub de_size : ℕ
de_size = 24

abbrev pub de_block_index : ℕ
de_block_index = 28

abbrev pub dir_free : ℕ
dir_free = 0

-- The loop of `find_free_dentry` with `i` and the rounds left.
unfoldable pub free_from : ℕ → ℕ → Mem → ℤ
free_from i zero buf = negsuc 0
free_from i (suc n) buf =
    let rest = free_from (i + 1) n buf in
    if load32 buf (dentry_size * i + de_block_index) == dir_free then pos i else rest

-- The loop of `find_dentry` with `i` and the rounds left: the index and the entry.
unfoldable pub named_from : ℕ → ℕ → List ℕ → Mem → Option (ℕ × Mem)
named_from i zero name buf = none
named_from i (suc n) name buf =
    let rest = named_from (i + 1) n name buf in
    if is_zero (strcmp buf (dentry_size * i) name)
    then some (i, copy (λ _. 0) 0 buf (dentry_size * i) dentry_size)
    else rest

module _ (d : Drive) where
  open d use {State}

  unfoldable pub find_free_dentry : Fs State → ℤ × Fs State
  unfolding free_from
  find_free_dentry st =
      let (r, st') = block_read d st 0 in
      elim r [ none ↦ (negsuc 0, st') | some buf ↦ (free_from 0 fs_de_per_block buf, st') ]

  unfoldable pub set_de_at : Fs State → ℕ → Mem → Bool × Fs State
  set_de_at st index dentry =
      let (r, st') = block_read d st 0 in
      elim r [
        | none ↦ (false, st')
        | some buf ↦ block_write d st' 0 (copy buf (dentry_size * index) dentry 0 dentry_size)
      ]

  unfoldable pub set_de : Fs State → ℤ → Mem → Bool × Fs State
  unfolding set_de_at
  set_de st (negsuc n) dentry = (false, st)
  set_de st (pos index) dentry =
      if leb fs_de_per_block index then (false, st) else set_de_at st index dentry

  unfoldable pub get_de_at : Fs State → ℕ → Option Mem × Fs State
  get_de_at st index =
      let (r, st') = block_read d st 0 in
      elim r [
        | none ↦ (none, st')
        | some buf ↦ (some (copy (λ _. 0) 0 buf (dentry_size * index) dentry_size), st')
      ]

  -- The entry is the one copied to `*dentry`.
  unfoldable pub get_de : Fs State → ℤ → Option Mem × Fs State
  unfolding get_de_at
  get_de st (negsuc n) = (none, st)
  get_de st (pos index) = if leb fs_de_per_block index then (none, st) else get_de_at st index

  -- The index and the entry; `none` is -1.
  unfoldable pub find_dentry : Fs State → List ℕ → Option (ℕ × Mem) × Fs State
  unfolding named_from
  find_dentry st name =
      let (r, st') = block_read d st 0 in
      elim r [ none ↦ (none, st') | some buf ↦ (named_from 0 fs_de_per_block name buf, st') ]
