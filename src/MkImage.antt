-- ===== src/MkImage.antt =====
-- mkimage/mkimage.c: the host program that puts the boot loader and the two kernels into one disk
-- image, each filled up to whole sectors, and writes the numbers of sectors into the boot loader.
-- `none` is the exit with -1, or a size that an `int` does not hold. What it prints is left out.
use ghittle.Base.{
  ℕ, zero, suc, ◌+◌, ◌-◌, ◌*◌, ◌/◌, ◌%◌, ◌^◌, Bool, true, false, not, Option, none, some, List, [],
  ◌∷◌, length, ◌||◌, ◌==◌, leb, ltb, if◌then◌else◌,
}
use ghittle.HostFiles.{Source, ImageFile}
pub mod Layout
pub mod Whole
pub mod Boots

abbrev pub byteofsector : ℕ
byteofsector = 512

infixl 5 ◌>>=◌
abbrev pub ◌>>=◌ : {A B : Type 0} → Option A → (A → Option B) → Option B
◌>>=◌ m f = elim m [ none ↦ none | some a ↦ f a ]

module _ (f : Source) (d : ImageFile) where
  -- The loop of `copyfile` with `s_file_size` and fuel.
  unfoldable pub copyfile_from :
      ℕ → Source.State f → ImageFile.State d → ℕ → Option (ℕ × ImageFile.State d)
  copyfile_from zero s i size = none
  copyfile_from (suc n) s i size =
      let (buf, s1) = Source.read f s byteofsector in
      let (w, i1) = ImageFile.write d i buf in
      let total = size + length buf in
      let rest = copyfile_from n s1 i1 total in
      if not (length buf == w) || leb (2 ^ 31) total
      then none
      else (if length buf == byteofsector then rest else some (total, i1))

  unfoldable pub copyfile : ℕ → Source.State f → ImageFile.State d → Option (ℕ × ImageFile.State d)
  unfolding copyfile_from
  copyfile fuel s i = copyfile_from fuel s i 0

-- The two bytes of an `unsigned short`, low byte first.
abbrev pub short_bytes : ℕ → List ℕ
short_bytes v = v % 256 ∷ v / 256 % 256 ∷ []

module _ (d : ImageFile) where
  -- The loop of `adjust_sector_size` with the bytes left to write.
  unfoldable pub fill : ℕ → ImageFile.State d → ImageFile.State d
  fill zero i = i
  fill (suc n) i = fill n (ImageFile.write d i (0 ∷ [])).1

  -- The number of sectors.
  unfoldable pub adjust_sector_size : ImageFile.State d → ℕ → Option (ℕ × ImageFile.State d)
  unfolding fill
  adjust_sector_size i size =
      let odd = size % byteofsector in
      let to_fill = if odd == 0 then 0 else byteofsector - odd in
      if leb (2 ^ 31) (size + to_fill)
      then none
      else some ((size + to_fill) / byteofsector, fill to_fill i)

  unfoldable pub write_kern_info : ImageFile.State d → ℕ → ℕ → Option (ImageFile.State d)
  write_kern_info i t_sec_count kern32_sec_count =
      let (found, i1) = ImageFile.seek d i 5 in
      let i3 = (ImageFile.read d (ImageFile.read d i1 2).1 2).1 in
      let i4 = (ImageFile.seek d i3 5).1 in
      let i5 = (ImageFile.write d i4 (short_bytes t_sec_count)).1 in
      let i6 = (ImageFile.write d i5 (short_bytes kern32_sec_count)).1 in
      if found then some i6 else none

module _ (f : Source) (d : ImageFile) where
  -- One source, as `open` gives it, is copied and filled up.
  unfoldable pub copy_part :
      ℕ → Option (Source.State f) → ImageFile.State d → Option (ℕ × ImageFile.State d)
  unfolding copyfile adjust_sector_size
  copy_part fuel opened i = do
    s ← opened
    (source_size, i1) ← copyfile f d fuel s i
    adjust_sector_size d i1 source_size

  -- `main` with the opened sources of its three arguments and the opened image.
  unfoldable pub main :
      ℕ
      → Option (Source.State f)
      → Option (Source.State f)
      → Option (Source.State f)
      → Option (ImageFile.State d)
      → Option (ImageFile.State d)
  unfolding copy_part write_kern_info
  main fuel boot kern32 kern64 image = do
    i ← image
    (bootloader_size, i1) ← copy_part fuel boot i
    (kern32_sector_count, i2) ← copy_part fuel kern32 i1
    (kern64_sector_count, i3) ← copy_part fuel kern64 i2
    write_kern_info d i3 (kern32_sector_count + kern64_sector_count) kern32_sector_count
