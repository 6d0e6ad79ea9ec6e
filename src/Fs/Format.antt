-- ===== src/Fs/Format.antt =====
-- The layout that `format` chooses, and what `mount` takes from the drive.
use ghittle.Base.{ℕ, ◌+◌, ◌*◌, ◌^◌, ◌≤◌, ◌<◌, ◌≡◌, arith}
use ghittle.Mem.{Mem, load32}
use ghittle.Fs.Mount.{
  fs_magic, mbr_magic, mbr_metadata_sectors, mbr_total_blocks, mbr_reserved_sectors, format_layout,
  format_mbr,
}

-- For a drive of at least 2 and fewer than 2 ^ 31 sectors, the layout has an entry for every
-- block, and the master boot record, the table and the blocks fit on the drive.
pub format_layout_lem :
    (total_sectors : ℕ)
    → 2 ≤ total_sectors
    → total_sectors < 2 ^ 31
    → let (metadata_sectors, total_blocks) = format_layout total_sectors in
      (total_blocks ≤ 128 * metadata_sectors)
      × (1 + metadata_sectors + 8 * total_blocks ≤ total_sectors)
unfolding format_layout
format_layout_lem total_sectors lo hi = (ground arith, ground arith)

-- For numbers of 32 bits, the record that `format` writes reads back as the magic number, no
-- reserved sectors, and the two numbers.
pub format_mbr_lem :
    (mbr : Mem) (metadata_sectors total_blocks : ℕ)
    → metadata_sectors < 2 ^ 32
    → total_blocks < 2 ^ 32
    → let m = format_mbr mbr metadata_sectors total_blocks in
      (load32 m mbr_magic ≡ fs_magic)
      × (load32 m mbr_reserved_sectors ≡ 0)
      × (load32 m mbr_metadata_sectors ≡ metadata_sectors)
      × (load32 m mbr_total_blocks ≡ total_blocks)
unfolding format_mbr
format_mbr_lem mbr metadata_sectors total_blocks a b =
    (ground arith, ground arith, ground arith, ground arith)
