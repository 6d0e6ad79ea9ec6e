-- ===== src/MkImage/Boots.antt =====
-- The disk image of mkimage/mkimage.c meets what `copy_kern64` of core/kernel32/main.c expects.
use ghittle.Base.{
  ℕ, ◌+◌, ◌-◌, ◌*◌, ◌/◌, ◌%◌, ◌^◌, ◌<◌, ◌≤◌, ◌≡◌, ◌∙◌, refl, sym, ap, false, some, List, ◌++◌,
  length, length-append, get_or, leb, ltb, ◌&&◌, if◌then◌else◌, arith,
}
use ghittle.Mem.{Mem}
use ghittle.HostFiles.{Source, ImageFile}
use ghittle.Boot.{copy_kern64, load16, pboot_flag}
use ghittle.Boot.Main.{copy_kern64_lem}
use ghittle.MkImage.{main}
use ghittle.MkImage.Layout.{filled, sectors, missing, zeros, length-zeros, Writes, get_or-append}
use ghittle.MkImage.Whole.{Seeks, parts, counts, main-counts}

length-filled : (bs : List ℕ) → length (filled bs) ≡ 512 * sectors bs
length-filled bs =
    length-append bs (zeros (missing (length bs)))
    ∙ whole (length bs) (length (zeros (missing (length bs)))) (length-zeros (missing (length bs)))
  where
    whole : (n z : ℕ) → z ≡ missing n → n + z ≡ 512 * ((n + missing n) / 512)
    whole n z e = ground arith

-- The two numbers in the boot loader.
load16_counts : (lo hi v : ℕ) → v < 65536 → lo ≡ v % 256 → hi ≡ v / 256 % 256 → lo + 256 * hi ≡ v
load16_counts lo hi v h e e' = omega arith

-- The third part of the image begins where the sectors of the first two end.
module _ (xs ys bs zs : List ℕ) (k j : ℕ) (first : length xs ≡ 512) (second : length ys ≡ 512 * k)
    (h : j < length bs) where
  third_inside : 512 + (k * 512 + j) < length (xs ++ (ys ++ (bs ++ zs)))
  third_inside =
      omega (
        arith,
        length-append xs (ys ++ (bs ++ zs)),
        length-append ys (bs ++ zs),
        length-append bs zs,
      )

  get_or-third : get_or (xs ++ (ys ++ (bs ++ zs))) (512 + (k * 512 + j)) 0 ≡ get_or bs j 0
  get_or-third =
      get_or-append xs (ys ++ (bs ++ zs)) (512 + (k * 512 + j))
      ∙ skip (get_or xs (512 + (k * 512 + j)) 0) (512 + (k * 512 + j)) (length xs) (k * 512 + j)
          (ys ++ (bs ++ zs)) (omega arith)
      ∙ get_or-append ys (bs ++ zs) (k * 512 + j)
      ∙ skip (get_or ys (k * 512 + j) 0) (k * 512 + j) (length ys) j (bs ++ zs) (omega arith)
      ∙ get_or-append bs zs j
      ∙ ground arith
    where
      skip :
          (v a n b : ℕ) (ws : List ℕ)
          → a ≡ n + b
          → (if ltb a n then v else get_or ws (a - n) 0) ≡ get_or ws b 0
      skip v a n b ws e = rw (beyond, ap (λ c. get_or ws c 0) offset) refl
        where
          beyond : ltb a n ≡ false
          beyond = ground arith

          offset : a - n ≡ b
          offset = omega arith

  third_byte :
      (v w : ℕ)
      → (if leb 5 (512 + (k * 512 + j)) && ltb (512 + (k * 512 + j)) 9
          then v
          else (if ltb (512 + (k * 512 + j)) (length (xs ++ (ys ++ (bs ++ zs))))
              then get_or (xs ++ (ys ++ (bs ++ zs))) (512 + (k * 512 + j)) 0
              else w))
        ≡ get_or bs j 0
  third_byte v w =
      behind (get_or (xs ++ (ys ++ (bs ++ zs))) (512 + (k * 512 + j)) 0)
        (length (xs ++ (ys ++ (bs ++ zs)))) third_inside
      ∙ get_or-third
    where
      behind :
          (u n : ℕ)
          → 512 + (k * 512 + j) < n
          → (if leb 5 (512 + (k * 512 + j)) && ltb (512 + (k * 512 + j)) 9
              then v
              else (if ltb (512 + (k * 512 + j)) n then u else w))
            ≡ u
      behind u n h = ground arith

-- A byte of the first part behind the numbers.
first_byte :
    (bs zs ys : List ℕ) (j : ℕ)
    → length bs ≡ 512
    → j < 512
    → 8 < j
    → (v w : ℕ)
    → (if leb 5 j && ltb j 9
        then v
        else (if ltb j (length ((bs ++ zs) ++ ys)) then get_or ((bs ++ zs) ++ ys) j 0 else w))
      ≡ get_or bs j 0
first_byte bs zs ys j e h above v w =
    chosen (get_or ((bs ++ zs) ++ ys) j 0) (length ((bs ++ zs) ++ ys))
      (omega (arith, length-append (bs ++ zs) ys, length-append bs zs))
    ∙ get_or-append (bs ++ zs) ys j
    ∙ inside (get_or (bs ++ zs) j 0) _ (length (bs ++ zs)) (omega (arith, length-append bs zs))
    ∙ get_or-append bs zs j
    ∙ inside (get_or bs j 0) _ (length bs) (omega arith)
  where
    chosen : (u n : ℕ) → j < n → (if leb 5 j && ltb j 9 then v else (if ltb j n then u else w)) ≡ u
    chosen u n h = ground arith

    inside : (u x n : ℕ) → j < n → (if ltb j n then u else x) ≡ u
    inside u x n h = ground arith

-- The image at `byte` is in memory as core/kernel16/kernel16.asm leaves it: the numbers and the flag
-- of its first sector at 0x7C00, where the machine puts it, and the following sectors from 0x10000 on.
-- The boot loader changes variables of its own sector.
pub record Loaded (m : Mem) (byte : ℕ → ℕ) (size : ℕ) : Type 0 where
  pub numbers : (j : ℕ) → 5 ≤ j → j < 9 → m (0x7C00 + j) ≡ byte j
  pub flag : m pboot_flag ≡ byte 508
  pub kernels : (j : ℕ) → 512 + j < size → m (0x10000 + j) ≡ byte (512 + j)
  pub bytes : (a : ℕ) → m a < 256

-- The byte that `copy_kern64` takes.
picked :
    (m : Mem) (total first k64 k32 j : ℕ)
    → total ≡ k32 + k64
    → first ≡ k32
    → j < 512 * k64
    → (if leb 0x200000 (0x200000 + j) && ltb (0x200000 + j) (0x200000 + 512 * (total - first))
        then m (0x10000 + first * 512 + (0x200000 + j - 0x200000))
        else m (0x200000 + j))
      ≡ m (0x10000 + (k32 * 512 + j))
picked m total first k64 k32 j e e' h = rw (e, e') (chosen ∙ ap m (omega arith))
  where
    chosen :
        (if leb 0x200000 (0x200000 + j) && ltb (0x200000 + j) (0x200000 + 512 * (k32 + k64 - k32))
          then m (0x10000 + k32 * 512 + (0x200000 + j - 0x200000))
          else m (0x200000 + j))
        ≡ m (0x10000 + k32 * 512 + (0x200000 + j - 0x200000))
    chosen = ground arith

in_sectors : (bs : List ℕ) → length bs ≤ 512 * sectors bs
in_sectors bs = omega (arith, length-filled bs, length-append bs (zeros (missing (length bs))))

module _ (d : ImageFile) (f : Source) (boot kern32 kern64 : Source.State f) where
  open d use {byte, place}
  open f use {rest}

  abbrev size : ℕ
  size = length (parts d f boot kern32 kern64)

  -- What the numbers in memory say, and the bytes behind those of the 32-bit kernel.
  module _ (byte' : ℕ → ℕ) (old : ℕ → ℕ) (m : Mem)
      (written : (a : ℕ)
        → byte' a ≡ (
            if leb 5 a && ltb a 9
            then get_or (counts d f kern32 kern64) (a - 5) 0
            else (if ltb a size then get_or (parts d f boot kern32 kern64) a 0 else old a)))
      (loaded : Loaded m byte' size) where
    total_count :
        sectors (rest kern32) + sectors (rest kern64) < 65536
        → load16 m 0x7C05 ≡ sectors (rest kern32) + sectors (rest kern64)
    total_count h =
        load16_counts _ _ (sectors (rest kern32) + sectors (rest kern64)) h
          (loaded.numbers 5 (omega arith) (omega arith) ∙ written 5)
          (loaded.numbers 6 (omega arith) (omega arith) ∙ written 6)

    kern32_count : sectors (rest kern32) < 65536 → load16 m 0x7C07 ≡ sectors (rest kern32)
    kern32_count h =
        load16_counts _ _ (sectors (rest kern32)) h
          (loaded.numbers 7 (omega arith) (omega arith) ∙ written 7)
          (loaded.numbers 8 (omega arith) (omega arith) ∙ written 8)

    flag_byte : length (rest boot) ≡ 512 → m pboot_flag ≡ get_or (rest boot) 508 0
    flag_byte e =
        loaded.flag
        ∙ written 508
        ∙ first_byte (rest boot) (zeros (missing (length (rest boot))))
            (filled (rest kern32) ++ filled (rest kern64)) 508 e (omega arith) (omega arith)
            (get_or (counts d f kern32 kern64) (508 - 5) 0) (old 508)

    kern64_byte :
        length (rest boot) ≡ 512
        → (j : ℕ) → j < length (rest kern64)
        → m (0x10000 + (sectors (rest kern32) * 512 + j)) ≡ get_or (rest kern64) j 0
    kern64_byte e j h =
        let zs = zeros (missing (length (rest kern64))) in
        let k = sectors (rest kern32) in
        let one = length-filled (rest boot) ∙ whole_sector (length (rest boot)) e in
        let two = length-filled (rest kern32) in
        loaded.kernels (k * 512 + j)
          (third_inside (filled (rest boot)) (filled (rest kern32)) (rest kern64) zs k j one two h)
        ∙ written (512 + (k * 512 + j))
        ∙ third_byte (filled (rest boot)) (filled (rest kern32)) (rest kern64) zs k j one two h _ _
      where
        whole_sector : (n : ℕ) → n ≡ 512 → 512 * ((n + missing n) / 512) ≡ 512
        whole_sector n e = rw e refl

  -- An image of a boot loader of one sector and kernels that fit below two megabytes, as `main` of
  -- mkimage makes it from the start of a file with complete writes and successful seeks, once loaded,
  -- with PBOOT_FLAG, which is byte 508 of the boot loader, clear: `copy_kern64` puts every byte of the
  -- 64-bit kernel at 0x200000.
  pub copy_kern64-main :
      Writes d
      → Seeks d
      → (fuel : ℕ) (i i' : d.State) → length (rest boot) < 512 * fuel
      → length (rest kern32) < 512 * fuel
      → length (rest kern64) < 512 * fuel
      → 512 * fuel < 2 ^ 31
      → place i ≡ 0
      → main f d fuel (some boot) (some kern32) (some kern64) (some i) ≡ some i'
      → length (rest boot) ≡ 512
      → 512 * (sectors (rest kern32) + sectors (rest kern64)) ≤ 0x1F0000
      → get_or (rest boot) 508 0 ≡ 0
      → (m : Mem) → Loaded m (byte i') size
      → (j : ℕ) → j < length (rest kern64)
      → (copy_kern64 m).1 (0x200000 + j) ≡ get_or (rest kern64) j 0
  copy_kern64-main full found fuel i i' e e32 e64 small start done one_sector room clear m loaded j
        h =
      let (i1, made, bytes_of) =
        main-counts d f full found fuel boot kern32 kern64 i e e32 e64 small start in
      let same : i1 ≡ i' = cc in
      let written = λ (a : ℕ). ap (λ s. byte s a) (sym same) ∙ bytes_of a in
      let both = total_count (byte i') (byte i) m written loaded (omega arith) in
      let first = kern32_count (byte i') (byte i) m written loaded (omega arith) in
      let fits : j < 512 * sectors (rest kern64) = omega (arith, h, in_sectors (rest kern64)) in
      let unset = flag_byte (byte i') (byte i) m written loaded one_sector ∙ clear in
      copy_kern64_lem m (0x200000 + j) unset loaded.bytes (omega (arith, both, first))
        (omega (arith, both, room))
      ∙ picked m (load16 m 0x7C05) (load16 m 0x7C07) (sectors (rest kern64)) (sectors (rest kern32))
          j both first fits
      ∙ kern64_byte (byte i') (byte i) m written loaded one_sector j h
