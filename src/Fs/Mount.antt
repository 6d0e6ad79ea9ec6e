-- ===== src/Fs/Mount.antt =====
-- filesys/filesys.c: `format`, `mount` and `init_filesys`.
use ghittle.Base.{
  ℕ, zero, suc, ◌+◌, ◌-◌, ◌/◌, ◌%◌, ◌^◌, Bool, true, false, Option, none, some, ◌==◌, if◌then◌else◌,
}
use ghittle.Mem.{Mem, load32, store32, memset}
use ghittle.Sync.{init_mutex}
use ghittle.Drive.{Drive}
use ghittle.Fs.{Filesys, Fs, with_lock, fs_sectors_per_block, fs_last_block, fs_free_block, add_u32}

abbrev pub fs_magic : ℕ
fs_magic = 0x7E38CF10

-- The fields of `struct mbr` that are used, by their offsets in sector 0.
abbrev pub mbr_magic : ℕ
mbr_magic = 430

abbrev pub mbr_reserved_sectors : ℕ
mbr_reserved_sectors = 434

abbrev pub mbr_metadata_sectors : ℕ
mbr_metadata_sectors = 438

abbrev pub mbr_total_blocks : ℕ
mbr_total_blocks = 442

abbrev pub mbr_part : ℕ
mbr_part = 446

-- The numbers that `format` derives from the size of the drive: metadata sectors and blocks.
unfoldable pub format_layout : ℕ → ℕ × ℕ
format_layout total_sectors =
    let first_blocks = total_sectors / fs_sectors_per_block in
    let first_metadata = add_u32 first_blocks 127 / 128 in
    let data_sectors = (total_sectors + 2 ^ 32 + 2 ^ 32 - first_metadata - 1) % 2 ^ 32 in
    let total_blocks = data_sectors / fs_sectors_per_block in
    (add_u32 total_blocks 127 / 128, total_blocks)

-- The master boot record that `format` writes.
unfoldable pub format_mbr : Mem → ℕ → ℕ → Mem
format_mbr mbr metadata_sectors total_blocks =
    let m1 = memset mbr mbr_part 0 64 in
    let m2 = store32 m1 mbr_magic fs_magic in
    let m3 = store32 m2 mbr_reserved_sectors 0 in
    store32 (store32 m3 mbr_metadata_sectors metadata_sectors) mbr_total_blocks total_blocks

-- The word that `format` puts at the start of the `i`-th sector that it clears.
abbrev pub first_word : ℕ → ℕ
first_word i = if i == 0 then fs_last_block else fs_free_block

module _ (d : Drive) where
  open d use {State, read, write, info}

  -- The loop of `format` that clears the table and the root directory, with the rounds left.
  unfoldable pub clear_sectors : ℕ → ℕ → Mem → Fs State → Bool × Fs State
  clear_sectors zero i buf st = (true, st)
  clear_sectors (suc n) i buf st =
      let buf' = store32 buf 0 (first_word i) in
      let (done, s) = write st.drive (i + 1) 1 buf' in
      elim done [
        | true ↦ clear_sectors n (i + 1) buf' (record st { drive = s })
        | false ↦ (false, record st { drive = s })
      ]

  -- `format` behind the two reads: `mbr` is what sector 0 holds.
  unfoldable pub format_drive : ℕ → Mem → Fs State → Bool × Fs State
  unfolding clear_sectors format_layout format_mbr
  format_drive total_sectors mbr st =
      let (metadata_sectors, total_blocks) = format_layout total_sectors in
      let (done, s) = write st.drive 0 1 (format_mbr mbr metadata_sectors total_blocks) in
      elim done [
        | true ↦
            clear_sectors (metadata_sectors + fs_sectors_per_block) 0 (memset (λ _. 0) 0 0 512)
              (record st { drive = s })
        | false ↦ (false, record st { drive = s })
      ]

  -- `format` between `lock` and `unlock`.
  unfoldable pub format_locked : Fs State → Bool × Fs State
  unfolding format_drive
  format_locked st =
      let (size, s) = info st.drive in
      elim size [
        | none ↦ (false, record st { drive = s })
        | some total_sectors ↦
            let (r, s') = read s 0 1 in
            elim r [
              | none ↦ (false, record st { drive = s' })
              | some mbr ↦ format_drive total_sectors mbr (record st { drive = s' })
            ]
      ]

  unfoldable pub format : Fs State → Option (Bool × Fs State)
  unfolding format_locked
  format = with_lock (λ st. some (format_locked st))

  -- `mount` behind the check of the magic number: the fields come from the buffer `mbr`.
  unfoldable pub adopt : Mem → Fs State → Fs State
  adopt mbr st =
      let reserved = load32 mbr mbr_reserved_sectors in
      let metadata = load32 mbr mbr_metadata_sectors in
      let data_addr = add_u32 (add_u32 reserved metadata) 1 in
      record st {
        filesys = record (st.filesys) {
          mounted = true;
          reserved_sectors = reserved;
          metadata_addr = add_u32 reserved 1;
          metadata_sectors = metadata;
          data_addr = data_addr;
          total_blocks = load32 mbr mbr_total_blocks;
          last_allocated_index = 0;
        };
        block_base = data_addr;
      }

  -- `mount` between `lock` and `unlock`.
  unfoldable pub mount_locked : Fs State → Option (Bool × Fs State)
  unfolding format adopt
  mount_locked st =
      let (r, s) = read st.drive 0 1 in
      let st1 = record st { drive = s } in
      elim r [
        | none ↦ some (false, st1)
        | some mbr ↦
            if load32 mbr mbr_magic == fs_magic
            then some (true, adopt mbr st1)
            else elim (format st1) [
              | none ↦ none
              | some (true, st2) ↦ some (true, adopt mbr st2)
              | some (false, st2) ↦ some (false, st2)
            ]
      ]

  unfoldable pub mount : Fs State → Option (Bool × Fs State)
  unfolding mount_locked
  mount = with_lock mount_locked

  -- What `memset` leaves of `filesys`, with the mutex that `init_mutex` sets up.
  abbrev pub blank_filesys : Filesys
  blank_filesys = record {
    mounted = false;
    reserved_sectors = 0;
    metadata_addr = 0;
    metadata_sectors = 0;
    data_addr = 0;
    total_blocks = 0;
    last_allocated_index = 0;
    mutex = init_mutex;
  }

  -- `start` is `init_hdd` of the drive.
  unfoldable pub init_filesys : (State → Bool × State) → Fs State → Option (Bool × Fs State)
  unfolding mount
  init_filesys start st =
      let (found, s) = start st.drive in
      let st1 = record st { filesys = blank_filesys; drive = s } in
      if found then mount st1 else some (false, st1)
