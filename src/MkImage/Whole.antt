-- ===== src/MkImage/Whole.antt =====
-- The disk image that mkimage/mkimage.c makes.
use ghittle.Base.{
  ℕ, ◌+◌, ◌-◌, ◌*◌, ◌^◌, ◌<◌, ◌≡◌, ◌∙◌, refl, true, some, List, ◌++◌, length, get_or, leb, ltb,
  false, ◌&&◌, if◌then◌else◌, arith,
}
use ghittle.HostFiles.{Source, ImageFile}
use ghittle.MkImage.{adjust_sector_size, fill, short_bytes, write_kern_info, copy_part, main}
use ghittle.MkImage.Layout.{
  filled, sectors, missing, zeros, Appended, Appended-append, Writes, fill-Appended, write-Appended,
  copyfile_lem,
}

module _ (d : ImageFile) where
  open d use {State, write, read, seek, byte, place, read_keeps, seek_keeps, seek_place}

  abbrev pub Seeks : Type 0
  Seeks = (i : State) (p : ℕ) → (seek i p).0 ≡ true

  -- The boot loader's two numbers are at bytes 5 to 8, and nothing else changes.
  pub write_kern_info_lem :
      Writes d
      → Seeks
      → (i : State) (t k : ℕ)
      → (i' : State) × (write_kern_info d i t k ≡ some i')
        × ((a : ℕ)
            → byte i' a ≡ (
                if leb 5 a && ltb a 9
                then get_or (short_bytes t ++ short_bytes k) (a - 5) 0
                else byte i a))
  unfolding write_kern_info
  write_kern_info_lem full found i t k =
      let i3 = (read (read (seek i 5).1 2).1 2).1 in
      let i4 = (seek i3 5).1 in
      let i5 = (write i4 (short_bytes t)).1 in
      let i6 = (write i5 (short_bytes k)).1 in
      let p =
        Appended-append d i4 i5 i6 (short_bytes t) (short_bytes k)
          (write-Appended d full i4 (short_bytes t)) (write-Appended d full i5 (short_bytes k)) in
      (
        i6,
        rw (found i 5),
        λ a.
            p.bytes a
            ∙ at_five a (place i4) (byte i4 a) (byte i a) (seek_place i3 5 (found i3 5))
                (before i a),
      )
    where
      at_five :
          (a p v v' : ℕ)
          → p ≡ 5
          → v ≡ v'
          → (if leb p a && ltb a (p + 4)
              then get_or (short_bytes t ++ short_bytes k) (a - p) 0
              else v)
            ≡ (if leb 5 a && ltb a 9 then get_or (short_bytes t ++ short_bytes k) (a - 5) 0 else v')
      at_five a p v v' e e' = rw (e, e') refl

      before : (i : State) (a : ℕ) → byte (seek (read (read (seek i 5).1 2).1 2).1 5).1 a ≡ byte i a
      before i a = seek_keeps _ 5 a ∙ read_keeps _ 2 a ∙ read_keeps _ 2 a ∙ seek_keeps i 5 a

  -- The patch of an image that was written from its start.
  patched :
      (i i3 : State) (whole patch : List ℕ)
      → Appended d i i3 whole
      → place i ≡ 0
      → (a v : ℕ) → v ≡ (if leb 5 a && ltb a 9 then get_or patch (a - 5) 0 else byte i3 a)
      → v ≡ (
          if leb 5 a && ltb a 9
          then get_or patch (a - 5) 0
          else (if ltb a (length whole) then get_or whole a 0 else byte i a))
  patched i i3 whole patch p start a v e =
      e ∙ else_same (byte i3 a) _ (p.bytes a ∙ from_start (place i) (byte i a) start)
    where
      else_same :
          (b c : ℕ)
          → b ≡ c
          → (if leb 5 a && ltb a 9 then get_or patch (a - 5) 0 else b)
            ≡ (if leb 5 a && ltb a 9 then get_or patch (a - 5) 0 else c)
      else_same b c e = rw e refl

      from_start :
          (q b : ℕ)
          → q ≡ 0
          → (if leb q a && ltb a (q + length whole) then get_or whole (a - q) 0 else b)
            ≡ (if ltb a (length whole) then get_or whole a 0 else b)
      from_start q b e = rw e (ground arith)

  module _ (f : Source) where
    open f use {rest}

    copy_part_lem :
        Writes d
        → (fuel : ℕ) (s : f.State) (i : State) → length (rest s) < 512 * fuel
        → 512 * fuel < 2 ^ 31
        → (i' : State) × (copy_part f d fuel (some s) i ≡ some (sectors (rest s), i'))
          × Appended d i i' (filled (rest s))
    unfolding copy_part adjust_sector_size
    copy_part_lem full fuel s i enough small =
        let (i1, e, p) = copyfile_lem d f full fuel s i enough (omega arith) in
        (
          fill d (missing (length (rest s))) i1,
          rw (e, copy_part) (rw (fits (length (rest s)) enough) refl),
          Appended-append d i i1 _ (rest s) (zeros (missing (length (rest s)))) p
              (fill-Appended d full _ i1),
        )
      where
        fits : (n : ℕ) → n < 512 * fuel → leb (2 ^ 31) (n + missing n) ≡ false
        fits n h = ground arith

    -- The bytes of the three parts, one after the other.
    abbrev pub parts : f.State → f.State → f.State → List ℕ
    parts boot kern32 kern64 = filled (rest boot) ++ (filled (rest kern32) ++ filled (rest kern64))

    -- The two numbers that the image has at byte 5, cut to 16 bits: the sectors of both kernels, and
    -- of the first.
    abbrev pub counts : f.State → f.State → List ℕ
    counts kern32 kern64 =
        short_bytes (sectors (rest kern32) + sectors (rest kern64))
        ++ short_bytes (sectors (rest kern32))

    -- If every write is complete, every seek succeeds, the image is written from its start, and the
    -- sources have fewer than 512 * fuel bytes, which are fewer than 2^31: `main` makes an image of
    -- the boot loader and the two kernels, each filled up with zeros to whole sectors, in which the
    -- low 16 bits of the number of sectors of both kernels stand at byte 5, those of the number of
    -- the 32-bit kernel at byte 7, and all bytes behind the image are as they were.
    pub main-counts :
        Writes d
        → Seeks
        → (fuel : ℕ) (boot kern32 kern64 : f.State) (i : State) → length (rest boot) < 512 * fuel
        → length (rest kern32) < 512 * fuel
        → length (rest kern64) < 512 * fuel
        → 512 * fuel < 2 ^ 31
        → place i ≡ 0
        → (i' : State) × (main f d fuel (some boot) (some kern32) (some kern64) (some i) ≡ some i')
          × ((a : ℕ)
              → byte i' a ≡ (
                  if leb 5 a && ltb a 9
                  then get_or (counts kern32 kern64) (a - 5) 0
                  else (if ltb a (length (parts boot kern32 kern64))
                      then get_or (parts boot kern32 kern64) a 0
                      else byte i a)))
    unfolding main
    main-counts full found fuel boot kern32 kern64 i e e32 e64 small start =
        let (i1, r1, p1) = copy_part_lem full fuel boot i (omega arith) (omega arith) in
        let (i2, r2, p2) = copy_part_lem full fuel kern32 i1 (omega arith) (omega arith) in
        let (i3, r3, p3) = copy_part_lem full fuel kern64 i2 (omega arith) (omega arith) in
        let p =
          Appended-append d i i1 i3 (filled (rest boot))
            (filled (rest kern32) ++ filled (rest kern64)) p1
            (Appended-append d i1 i2 i3 (filled (rest kern32)) (filled (rest kern64)) p2 p3) in
        let (i4, r4, q) =
          write_kern_info_lem full found i3 (sectors (rest kern32) + sectors (rest kern64))
            (sectors (rest kern32)) in
        (
          i4,
          rw (r1, main) (rw (r2, main) (rw (r3, main) r4)),
          λ a.
              patched i i3 (parts boot kern32 kern64) (counts kern32 kern64) p start a (byte i4 a)
                (q a),
        )
