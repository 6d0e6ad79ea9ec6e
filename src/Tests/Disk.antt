-- ===== src/Tests/Disk.antt =====
-- The metadata table on a drive in memory.
use mathlib.Core.Path.{subst}
use ghittle.Base.{
  ℕ, Bool-cases, inl, inr, zero, suc, ◌+◌, ◌-◌, ◌*◌, ◌/◌, ◌%◌, ◌<◌, ◌≡◌, ◌≢◌, refl, sym, ap, true,
  ◌&&◌, Option, none, some, [], ◌∷◌, leb, ltb, ◌==◌, if◌then◌else◌, arith,
}
use ghittle.Mem.{Mem, store32}
use ghittle.Sync.{init_mutex}
use ghittle.Drive.{Drive}
use ghittle.Fs.{Fs, fs_last_block, fs_free_block, set_mte, alloc_locked, free_blocks_all}
use ghittle.Fs.Table.{mte, InTable, set_mte_lem}
use ghittle.Base.Int.{pos}
use ghittle.Fs.Block.{block_read, block_write}
use ghittle.Fs.Dir.{set_de, get_de}
use ghittle.Fs.Dir.Laws.{get_de-set_de, dir_byte}
use ghittle.File.{File, Os}
use ghittle.File.Reading.{file_read}
use ghittle.File.Contents.{Readable}
use ghittle.File.Whole.{Positioned, FileRead, file_read-FileRead}
use ghittle.File.Seek.{Reached, follow-seek_plan, walk}
use ghittle.Fs.Sound.{Sound}
use ghittle.Fs.Alloc.{alloc_locked_lem}
use ghittle.Fs.Chain.{Chain, end, link, has, free_blocks_all_lem}

abbrev buffer_of : Option Mem → Mem
buffer_of none a = 0
buffer_of (some m) a = m a

-- A drive that never fails.
abbrev pub ram : Drive
ram = record {
  State = ℕ → Mem;
  read = λ s lba n. (some (λ o. s (lba + o / 512) (o % 512)), s);
  write = λ s lba n m.
      (true, λ k o. if leb lba k && ltb k (lba + n) then m (512 * (k - lba) + o) else s k o);
  info = λ s. (some 4096, s);
  sector = λ s. s;
  read_some = λ s lba n o m e h. ap (λ r. buffer_of r o) (sym e);
  read_keeps = λ s lba n k o. refl;
  info_keeps = λ s k o. refl;
  write_done = λ s lba n m k o e lo hi h. ground arith;
  write_other = λ s lba n m k o h. ground arith;
}

-- The chain 5, 6 and the root directory at 0.
abbrev first_table : Mem
first_table = store32 (store32 (store32 (λ a. 0) 0 fs_last_block) 20 6) 24 fs_last_block

abbrev pub disk : Fs (ℕ → Mem)
disk = record {
  filesys = record {
    mounted = true;
    reserved_sectors = 0;
    metadata_addr = 1;
    metadata_sectors = 2;
    data_addr = 3;
    total_blocks = 200;
    last_allocated_index = 0;
    mutex = init_mutex;
  };
  block_base = 3;
  drive = λ k. if k == 1 then first_table else (λ a. 0);
  tid = 7;
}

disk-Sound : Sound ram disk.filesys
disk-Sound = record {
  fits = omega arith;
  small = omega arith;
  works = record { reads = λ s c h. (_, refl); writes = λ s c m h. refl };
}

written : (st : Fs (ℕ → Mem)) (i v : ℕ) → (set_mte ram st i v).0 ≡ true
unfolding set_mte
written st i v = refl

set_mte_lem_example : mte ram (set_mte ram disk 6 9).1 5 ≡ mte ram disk 5
set_mte_lem_example =
    set_mte_lem ram disk 6 9 5 (omega arith) (omega arith) (omega arith) (omega arith)
      (written disk 6 9)

alloc_locked_lem_example :
    let (b, st) = alloc_locked ram 6 disk in
    (b ≡ fs_last_block
      → (j : ℕ) → InTable disk.filesys j
      → (mte ram disk j ≢ fs_free_block) × (mte ram st j ≡ mte ram disk j))
    × (b ≢ fs_last_block
        → (mte ram disk b ≡ fs_free_block)
          × InTable disk.filesys b
          × ((j : ℕ)
              → InTable disk.filesys j
              → mte ram st j
                ≡ (if j == 6 then b else (if j == b then fs_last_block else mte ram disk j))))
alloc_locked_lem_example =
    alloc_locked_lem ram disk 6 disk-Sound refl (omega arith) (omega arith) (λ ne. omega arith)

Chain-first : Chain (mte ram disk) 5 (5 ∷ 6 ∷ [])
Chain-first = link (omega arith) refl (link (omega arith) refl (end refl))

free_blocks_all_lem_example :
    let (r, st) = free_blocks_all ram 3 5 disk in
    (r ≡ some true)
    × ((j : ℕ)
        → InTable disk.filesys j
        → mte ram st j ≡ (if has j (5 ∷ 6 ∷ []) then fs_free_block else mte ram disk j))
free_blocks_all_lem_example =
    free_blocks_all_lem ram 3 5 (5 ∷ 6 ∷ []) disk disk-Sound (ground arith) (omega arith)
      Chain-first

-- A directory on the same drive: entry 1 is used, the others are free.
abbrev dir_buffer : Mem
dir_buffer = store32 (λ a. 0) 60 5

-- Entry `j` as `get_de` copies it behind the write of entry 2.
abbrev read_entry : ℕ → Mem
read_entry j = elim (get_de ram (set_de ram disk (pos 2) (λ a. 65)).1 (pos j)).0 [
  | none ↦ λ a. 0
  | some e ↦ e
]

first_inside : (k : ℕ) → k < 1 → InTable disk.filesys (walk (mte ram disk) k 5)
first_inside zero h = omega arith
first_inside (suc k) h = omega arith

entry_done : (set_de ram disk (pos 2) (λ a. 65)).0 ≡ true
unfolding set_de block_read block_write
entry_done = refl

entry_read : (get_de ram (set_de ram disk (pos 2) (λ a. 65)).1 (pos 3)).0 ≡ some (read_entry 3)
unfolding get_de set_de block_read block_write
entry_read = refl

get_de-set_de_example : read_entry 3 4 ≡ dir_byte ram disk 100
get_de-set_de_example =
    get_de-set_de ram disk 2 3 4 (λ a. 65) (read_entry 3) entry_done entry_read (omega arith)
      (omega arith)

-- A file of three blocks, with the position in the second one.
abbrev three_blocks : File
three_blocks = record {
  type = 1;
  dentry_offset = 0;
  size = 10000;
  block_index = 5;
  curr_block_index = 6;
  prev_block_index = 5;
  curr_offset = 5000;
}

abbrev pub system : Os (ℕ → Mem)
system = record {
  fs = disk;
  kmem = record {
    bitmap = record { nr_entry = 16; map = 80 };
    shard_bitmap = record { nr_entry = 16; map = 90 };
    shard_pool = 4096;
    mem = λ a. 0;
  };
  file = λ p. three_blocks;
  fuel = 10;
}

-- A file of the blocks 5 and 6, at the offset 5000, at every address.
abbrev two_blocks : File
two_blocks = record {
  type = 1;
  dentry_offset = 0;
  size = 6000;
  block_index = 5;
  curr_block_index = 6;
  prev_block_index = 5;
  curr_offset = 5000;
}

abbrev reading : Os (ℕ → Mem)
reading = record system { file = λ p. two_blocks }

second : mte ram disk 5 ≡ 6
second = refl

first_two : (k : ℕ) → k < 9000 / 4096 → InTable disk.filesys (walk (mte ram disk) k 5)
first_two zero h = omega arith
first_two (suc zero) h = omega (arith, second)
first_two (suc (suc k)) h = omega arith

follow-seek_plan_example : Reached ram three_blocks 9000 system
follow-seek_plan_example =
    follow-seek_plan ram three_blocks 9000 system disk-Sound (omega arith) (sym second) first_two

two_blocks-Positioned : Positioned ram disk two_blocks
two_blocks-Positioned = record {
  is_file = refl;
  current = sym second;
  in_table = λ o h. elim (Bool-cases (ltb o 4096)) [
    | inl low ↦
        let first : 0 ≡ o / 4096 = ground arith in
        subst (λ k. InTable disk.filesys (walk (mte ram disk) k 5)) first (omega arith)
    | inr high ↦
        let next : 1 ≡ o / 4096 = ground arith in
        subst (λ k. InTable disk.filesys (walk (mte ram disk) k 5)) next (omega (arith, second))
  ];
  bounded = omega arith;
}

disk-Readable : Readable ram disk
disk-Readable = record { sound = disk-Sound; blocks = λ s b h. (_, refl) }

file_read-FileRead_example :
    FileRead ram reading 77 1000 (λ a. 0) (file_read ram (λ a. 0) 3000 77 reading)
file_read-FileRead_example =
    file_read-FileRead ram reading 77 two_blocks-Positioned disk-Readable (omega arith)
      (omega arith) (λ a. 0) 3000
