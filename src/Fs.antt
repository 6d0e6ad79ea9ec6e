-- ===== src/Fs.antt =====
-- filesys/filesys.c: the metadata table that links the blocks of files into chains.
-- `true` is the return value 0 and `false` is -1. Sectors are read into buffers whose addresses
-- begin at 0. The functions run without other tasks in between, as they do under their lock.
pub mod Table
pub mod Sound
pub mod Scan
pub mod Alloc
pub mod Chain
pub mod Mount
pub mod Format
pub mod Block
pub mod Dir
use ghittle.Base.{
  ℕ, zero, suc, ◌+◌, ◌-◌, ◌*◌, ◌/◌, ◌%◌, ◌^◌, Bool, true, false, Option, none, some, ltb, ◌==◌,
  if◌then◌else◌,
}
use ghittle.Mem.{Mem, load32, store32, memset}
use ghittle.Sync.{Mutex, lock, unlock}
use ghittle.Drive.{Drive}

abbrev pub fs_sectors_per_block : ℕ
fs_sectors_per_block = 8

abbrev pub fs_last_block : ℕ
fs_last_block = 0xFFFFFFFF

abbrev pub fs_free_block : ℕ
fs_free_block = 0

abbrev pub hdd_sector_size : ℕ
hdd_sector_size = 512

abbrev pub fs_mte_per_sector : ℕ
fs_mte_per_sector = hdd_sector_size / 4

-- An `unsigned int` sum.
abbrev pub add_u32 : ℕ → ℕ → ℕ
add_u32 a b = (a + b) % 2 ^ 32

pub record Filesys : Type 0 where
  pub mounted : Bool
  pub reserved_sectors : ℕ
  pub metadata_addr : ℕ
  pub metadata_sectors : ℕ
  pub data_addr : ℕ
  pub total_blocks : ℕ
  pub last_allocated_index : ℕ
  pub mutex : Mutex

-- The file system with `block_base` (include/block.h), the drive, and the id of the running task.
pub record Fs (S : Type 0) : Type 0 where
  pub filesys : Filesys
  pub block_base : ℕ
  pub drive : S
  pub tid : ℕ

abbrev pub set_mutex : {S : Type 0} → Fs S → Mutex → Fs S
set_mutex st m = record st { filesys = record (st.filesys) { mutex = m } }

-- `lock`, the body, `unlock`. `none`: another task holds the mutex, and the call waits.
abbrev pub with_lock : {S A : Type 0} → (Fs S → Option (A × Fs S)) → Fs S → Option (A × Fs S)
with_lock body st = elim (lock st.tid st.filesys.mutex) [
  | none ↦ none
  | some m ↦ elim (body (set_mutex st m)) [
    | none ↦ none
    | some (r, st') ↦ some (r, set_mutex st' (unlock st'.tid st'.filesys.mutex))
  ]
]

-- The first free entry of a sector of the table, from entry `j` on, with the rounds left.
unfoldable pub find_entry : Mem → ℕ → ℕ → Option ℕ
find_entry buf j zero = none
find_entry buf j (suc n) =
    let rest = find_entry buf (j + 1) n in
    if load32 buf (4 * j) == fs_free_block then some j else rest

module _ (d : Drive) where
  open d use {State, read, write, info}

  unfoldable pub read_metadata_sector : Fs State → ℕ → Option Mem × Fs State
  read_metadata_sector st offset =
      let (r, s) = read st.drive (add_u32 offset st.filesys.metadata_addr) 1 in
      (r, record st { drive = s })

  unfoldable pub write_metadata_sector : Fs State → ℕ → Mem → Bool × Fs State
  write_metadata_sector st offset buf =
      let (r, s) = write st.drive (add_u32 offset st.filesys.metadata_addr) 1 buf in
      (r, record st { drive = s })

  -- The rest of `set_mte` behind the read of the sector.
  unfoldable pub put_entry : ℕ → ℕ → Option Mem × Fs State → Bool × Fs State
  unfolding write_metadata_sector
  put_entry block_index value (none, st) = (false, st)
  put_entry block_index value (some buf, st) =
      write_metadata_sector st (block_index / fs_mte_per_sector)
        (store32 buf (4 * (block_index % fs_mte_per_sector)) value)

  unfoldable pub set_mte : Fs State → ℕ → ℕ → Bool × Fs State
  unfolding put_entry read_metadata_sector
  set_mte st block_index value =
      put_entry block_index value (read_metadata_sector st (block_index / fs_mte_per_sector))

  -- The rest of `get_mte` behind the read of the sector.
  unfoldable pub take_entry : ℕ → Option Mem × Fs State → Option ℕ × Fs State
  take_entry block_index (none, st) = (none, st)
  take_entry block_index (some buf, st) =
      (some (load32 buf (4 * (block_index % fs_mte_per_sector))), st)

  -- `*data` is the value in the option; `none` is -1.
  unfoldable pub get_mte : Fs State → ℕ → Option ℕ × Fs State
  unfolding take_entry read_metadata_sector
  get_mte st block_index =
      let sector_offset = block_index / fs_mte_per_sector in
      if ltb st.filesys.metadata_sectors sector_offset
      then (none, st)
      else take_entry block_index (read_metadata_sector st sector_offset)

  -- A free entry is found: it ends the chain of `prev_index`. The results of `set_mte` are ignored.
  unfoldable pub take_block : Fs State → ℕ → ℕ → ℕ × Fs State
  unfolding set_mte
  take_block st index prev_index =
      let st1 = record st { filesys = record (st.filesys) { last_allocated_index = index } } in
      let st2 = (set_mte st1 index fs_last_block).1 in
      let st3 = if prev_index == fs_last_block then st2 else (set_mte st2 prev_index index).1 in
      (index, st3)

  -- The loop over the sectors of the table, with the rounds left.
  unfoldable pub scan : ℕ → ℕ → ℕ → Fs State → ℕ × Fs State
  unfolding take_block find_entry read_metadata_sector
  scan zero prev_index current st = (fs_last_block, st)
  scan (suc n) prev_index current st =
      let (r, st') = read_metadata_sector st current in
      let rest = scan n prev_index ((current + 1) % st.filesys.metadata_sectors) st' in
      elim r [
        | none ↦ (fs_last_block, st')
        | some buf ↦ elim (find_entry buf 0 fs_mte_per_sector) [
          | some j ↦ take_block st' (add_u32 (current * fs_mte_per_sector) j) prev_index
          | none ↦ rest
        ]
      ]

  -- The part of `filesys_alloc_block` between `lock` and `unlock`. With no blocks at all the code
  -- divides by 0 here.
  unfoldable pub alloc_locked : ℕ → Fs State → ℕ × Fs State
  unfolding scan
  alloc_locked prev_index st =
      let last_index = add_u32 st.filesys.last_allocated_index 1 % st.filesys.total_blocks in
      if st.filesys.mounted
      then scan st.filesys.metadata_sectors prev_index (last_index / fs_mte_per_sector) st
      else (fs_last_block, st)

  unfoldable pub filesys_alloc_block : ℕ → Fs State → Option (ℕ × Fs State)
  unfolding alloc_locked
  filesys_alloc_block prev_index = with_lock (λ st. some (alloc_locked prev_index st))

  -- `while(curr_block != FS_LAST_BLOCK)` with fuel; `none` in the result means that it ran out.
  unfoldable pub free_blocks_all : ℕ → ℕ → Fs State → Option Bool × Fs State
  unfolding get_mte set_mte
  free_blocks_all zero block st = (none, st)
  free_blocks_all (suc fuel) block st = elim (block == fs_last_block) [
    | true ↦ (some true, st)
    | false ↦
        let (r, st1) = get_mte st block in
        elim r [
          | none ↦ (some false, st1)
          | some next_block ↦
              let (done, st2) = set_mte st1 block fs_free_block in
              elim done [ true ↦ free_blocks_all fuel next_block st2 | false ↦ (some false, st2) ]
        ]
  ]
