-- ===== src/MkFilesys.antt =====
-- mkimage/mkfilesys.c: the host program that puts files into an image of a formatted disk. Its work
-- on the table of blocks, on the root directory and on the data is modelled for reads and writes of
-- the image that succeed; opening the files is left to the system.
use ghittle.Base.{
  ℕ, zero, suc, ◌+◌, ◌-◌, ◌*◌, ◌/◌, ◌%◌, ◌^◌, Bool, true, false, not, Option, none, some, List, [],
  ◌∷◌, length, get_or, ◌==◌, leb, ltb, if◌then◌else◌,
}
use ghittle.Base.Int.{ℤ, pos, negsuc}
use ghittle.Mem.{Mem, store, load32, store32}
pub mod Alloc
pub mod Store
pub mod Enough
pub mod Files

-- The table that `metadata` points to, entry by entry.
abbrev pub Table : Type 0
Table = ℕ → ℕ

abbrev pub set_entry : Table → ℕ → ℕ → Table
set_entry t i v j = if j == i then v else t j

-- The loop of `alloc_block` with `i` and the rounds left. The result is the index or -1.
unfoldable pub alloc_from : ℕ → ℕ → ℕ → Table → ℤ × Table
alloc_from i zero prev t = (negsuc 0, t)
alloc_from i (suc n) prev t =
    let rest = alloc_from (i + 1) n prev t in
    if t i == 0
    then (pos i, set_entry (if prev == 0 then t else set_entry t prev i) i 0xFFFFFFFF)
    else rest

-- `size` is in bytes.
unfoldable pub alloc_block : Table → ℕ → ℕ → ℤ × Table
unfolding alloc_from
alloc_block t size prev = alloc_from 0 (size / 4) prev t

-- The name behind the last `/`.
unfoldable pub base_name : List ℕ → List ℕ → List ℕ
base_name name [] = name
base_name name (c ∷ cs) = if c == b'/' then base_name cs cs else base_name name cs

-- `strcpy` of the C library: the bytes and the NUL, however many they are.
abbrev pub copy_string : Mem → ℕ → List ℕ → Mem
copy_string m dst [] = store m dst 0
copy_string m dst (c ∷ cs) = copy_string (store m dst c) (dst + 1) cs

-- The entries are 32 bytes: `name`, `size` at 24 and `block_index` at 28. The loop with the address
-- of the entry and the rounds left; the truth value is "returns 0".
unfoldable pub update_from : ℕ → ℕ → Mem → List ℕ → ℕ → ℕ → Bool × Mem
update_from entry zero m name size block_index = (false, m)
update_from entry (suc n) m name size block_index =
    let rest = update_from (entry + 32) n m name size block_index in
    if load32 m (entry + 28) == 0
    then (
      true,
      store32 (store32 (copy_string m entry name) (entry + 24) size) (entry + 28) block_index,
    )
    else rest

unfoldable pub update_dentry : Mem → List ℕ → ℕ → ℕ → Bool × Mem
unfolding base_name update_from
update_dentry m name size block_index =
    update_from 0 (4096 / 32) m (base_name name name) size block_index

-- The table, the root directory and the data area of the image, from `pos_data` on.
pub record Image : Type 0 where
  pub metadata : Table
  pub dentry_buf : Mem
  pub data_area : Mem

-- `write` of a piece at a place of the data area.
abbrev pub write_piece : Mem → ℕ → List ℕ → Mem
write_piece m a [] = m
write_piece m a (c ∷ cs) = write_piece (store m a c) (a + 1) cs

-- A `long` in an `unsigned int`: the test for less than 0 behind it never holds.
abbrev pub to_u32 : ℤ → ℕ
to_u32 (pos n) = n % 2 ^ 32
to_u32 (negsuc n) = 2 ^ 32 - 1 - n % 2 ^ 32

-- The loop of `main` over the blocks of one file: the pieces of at most 4096 bytes that are left.
-- `first` says that nothing is written yet. None is the error exit.
unfoldable pub put_pieces : ℕ → List ℕ → ℕ → Bool → ℕ → List (List ℕ) → Image → Option Image
put_pieces size name total first block_index [] img = some img
put_pieces size name total first block_index (piece ∷ pieces) img =
    let (found, t) = alloc_block img.metadata size block_index in
    let block = to_u32 found in
    let (room, dentries) =
      if first then update_dentry img.dentry_buf name total block else (true, img.dentry_buf) in
    elim room [
      | false ↦ none
      | true ↦ put_pieces size name total false block pieces (record {
        metadata = t;
        dentry_buf = dentries;
        data_area = write_piece img.data_area (block * 4096 % 2 ^ 32) piece;
      })
    ]
