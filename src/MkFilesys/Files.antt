-- ===== src/MkFilesys/Files.antt =====
-- The loop of mkimage/mkfilesys.c over the blocks of one file.
use mathlib.Core.Path.{subst}
use ghittle.Base.{
  ℕ, suc, ◌+◌, ◌*◌, ◌/◌, ◌%◌, ◌^◌, ◌<◌, ◌≤◌, ◌≡◌, ◌≢◌, ◌⊎◌, ◌∙◌, refl, sym, ap, inl, inr,
  Bool-cases, Bool, true, false, Option, some, List, [], ◌∷◌, length, ◌==◌, ltb, ==_refl,
  if◌then◌else◌, arith,
}
use ghittle.Base.Int.{pos}
use ghittle.Mem.{Mem, load32}
use ghittle.Fs.{fs_last_block}
use ghittle.Fs.Chain.{Chain, has}
use ghittle.MkFilesys.{Table, Image, alloc_block, update_dentry, write_piece, put_pieces}
use ghittle.MkFilesys.Enough.{free_count, Picks-enough, update_dentry-room}
use ghittle.MkFilesys.Store.{
  Picks, stop, pick, alloc_block-Picked, Picked-used, Picks-fresh, Picks-Chain, Stored, done, piece,
  bytes_at, bytes_at-write_piece, bytes_at-other,
}

abbrev pub AllPieces : List (List ℕ) → Type 0
AllPieces [] = Unit
AllPieces (p ∷ ps) = (length p ≤ 4096) × AllPieces ps

module _ (size : ℕ) (name : List ℕ) (total : ℕ) (small : size ≤ 2 ^ 22) where
  -- The image behind the piece in block `b`.
  abbrev stepped : Table → Mem → ℕ → List ℕ → Image → Image
  stepped t dentries b p img = record {
    metadata = t;
    dentry_buf = dentries;
    data_area = write_piece img.data_area (b * 4096) p;
  }

  put_pieces-step :
      (p : List ℕ) (ps : List (List ℕ)) (img : Image) (first : Bool) (prev b : ℕ) (t1 : Table)
      (dentries : Mem)
      → alloc_block img.metadata size prev ≡ (pos b, t1)
      → b < size / 4
      → (if first then update_dentry img.dentry_buf name total b else (true, img.dentry_buf))
        ≡ (true, dentries)
      → put_pieces size name total first prev (p ∷ ps) img
        ≡ put_pieces size name total false b ps (stepped t1 dentries b p img)
  unfolding put_pieces
  put_pieces-step p ps img first prev b t1 dentries e low room =
      let place : b % 2 ^ 32 * 4096 % 2 ^ 32 ≡ b * 4096 = omega arith in
      let block : b % 2 ^ 32 ≡ b = omega arith in
      rw (e, put_pieces)
        (rw (block, put_pieces)
          (rw (room, put_pieces)
            (rw e
              (rw block (rw room (rw (ap (λ n. n * 4096 % 2 ^ 32) (sym block) ∙ place) refl))))))

  -- The rest of a file, behind the block `prev`.
  record Put (img : Image) (bs : List ℕ) (ps : List (List ℕ)) (t2 : Table) (run : Option Image)
      : Type 0 where
    after : Image
    ended : run ≡ some after
    table : after.metadata ≡ t2
    dentries : after.dentry_buf ≡ img.dentry_buf
    stored : Stored after.data_area bs ps
    kept :
        (c n : ℕ)
        → n ≤ 4096
        → has c bs ≡ false
        → bytes_at after.data_area (c * 4096) n ≡ bytes_at img.data_area (c * 4096) n

  Put-step :
      (p : List ℕ) (ps : List (List ℕ)) (img img1 : Image) (b : ℕ) (bs : List ℕ) (t2 : Table)
      (run run1 : Option Image)
      → run ≡ run1
      → img1.dentry_buf ≡ img.dentry_buf
      → img1.data_area ≡ write_piece img.data_area (b * 4096) p
      → length p ≤ 4096
      → has b bs ≡ false
      → Put img1 bs ps t2 run1
      → Put img (b ∷ bs) (p ∷ ps) t2 run
  Put-step p ps img img1 b bs t2 run run1 e same placed h fresh y = record {
    after = y.after;
    ended = e ∙ y.ended;
    table = y.table;
    dentries = y.dentries ∙ same;
    stored =
        piece
          (y.kept b (length p) h fresh
            ∙ ap (λ m. bytes_at m (b * 4096) (length p)) placed
            ∙ bytes_at-write_piece p img.data_area (b * 4096))
          y.stored;
    kept = λ c n small other.
        y.kept c n small (ground arith)
        ∙ ap (λ m. bytes_at m (c * 4096) n) placed
        ∙ bytes_at-other n p img.data_area (b * 4096) (c * 4096)
            (blocks_apart c b n p small h (ground arith));
  }
    where
      blocks_apart :
          (c b n : ℕ) (p : List ℕ)
          → n ≤ 4096
          → length p ≤ 4096
          → (c == b) ≡ false
          → (c * 4096 + n ≤ b * 4096) ⊎ (b * 4096 + length p ≤ c * 4096)
      blocks_apart c b n p hn hp ne = elim (Bool-cases (ltb c b)) [
        | inl e ↦ inl (ground arith)
        | inr e ↦ inr (ground arith)
      ]

  last_used : (t : Table) (b : ℕ) → t b ≡ fs_last_block → t b ≢ 0
  last_used t b e e' = omega arith

  put_pieces-Put :
      {t t2 : Table} {prev : ℕ} {bs : List ℕ}
      → Picks size t prev bs t2
      → (ps : List (List ℕ)) (img : Image) → img.metadata ≡ t
      → t 0 ≢ 0
      → length ps ≡ length bs
      → AllPieces ps
      → Put img bs ps t2 (put_pieces size name total false prev ps img)
  unfolding put_pieces
  put_pieces-Put stop [] img e root n sizes = record {
    after = img;
    ended = refl;
    table = e;
    dentries = refl;
    stored = done;
    kept = λ c n h h'. refl;
  }
  put_pieces-Put stop (p ∷ ps) img e root n sizes = absurd (omega (arith, n))
  put_pieces-Put (pick q rest) [] img e root n sizes = absurd (omega (arith, n))
  put_pieces-Put (pick {t} {t1} {t2} {prev} {b} {bs} q rest) (p ∷ ps) img e root n sizes =
      let x = alloc_block-Picked size t t1 prev b q in
      let q' : alloc_block img.metadata size prev ≡ (pos b, t1) =
        ap (λ t. alloc_block t size prev) e ∙ q in
      let img1 = stepped t1 img.dentry_buf b p img in
      let y =
        put_pieces-Put rest ps img1 refl (Picked-used size x root 0 root) (omega (arith, n))
          sizes.1 in
      Put-step p ps img img1 b bs t2 _ _
        (put_pieces-step p ps img false prev b t1 img.dentry_buf q' x.low refl) refl refl sizes.0
        (Picks-fresh size rest (Picked-used size x root 0 root) b
          (last_used t1 b (x.entries b ∙ rw (==_refl b) refl)))
        y

  -- A file in the image: the blocks form a chain in the table, as the kernel reads it, each holds
  -- its piece, and the entry of the root directory has the first of them.
  pub record FileStored (img : Image) (b : ℕ) (bs : List ℕ) (pieces : List (List ℕ))
      (run : Option Image) : Type 0 where
    pub after : Image
    pub ended : run ≡ some after
    pub chain : Chain after.metadata b (b ∷ bs)
    pub stored : Stored after.data_area (b ∷ bs) pieces
    pub entry : after.dentry_buf ≡ (update_dentry img.dentry_buf name total b).1

  FileStored-Picks :
      (p : List ℕ) (ps : List (List ℕ)) (img : Image) (b : ℕ) (bs : List ℕ) (t2 : Table)
      → Picks size img.metadata 0 (b ∷ bs) t2
      → img.metadata 0 ≢ 0
      → length ps ≡ length bs
      → AllPieces (p ∷ ps)
      → (update_dentry img.dentry_buf name total b).0 ≡ true
      → FileStored img b bs (p ∷ ps) (put_pieces size name total true 0 (p ∷ ps) img)
  FileStored-Picks p ps img b bs t2 (pick {t1} e rest) root n sizes room =
      let x = alloc_block-Picked size img.metadata t1 0 b e in
      let root1 = Picked-used size x root 0 root in
      let dentries = (update_dentry img.dentry_buf name total b).1 in
      let img1 = stepped t1 dentries b p img in
      let last : t1 b ≡ fs_last_block = x.entries b ∙ rw (==_refl b) refl in
      let fresh = Picks-fresh size rest root1 b (last_used t1 b last) in
      let b_named : b ≢ 0 = λ q. root (ap img.metadata (sym q) ∙ x.free) in
      let y = put_pieces-Put rest ps img1 refl root1 n sizes.1 in
      record {
        after = y.after;
        ended =
            put_pieces-step p ps img true 0 b t1 dentries e x.low (ap (λ v. (v, dentries)) room)
            ∙ y.ended;
        chain =
            subst (λ t. Chain t b (b ∷ bs)) (sym y.table)
              (Picks-Chain size rest small root1 last b_named x.low);
        stored =
            piece
              (y.kept b (length p) sizes.0 fresh ∙ bytes_at-write_piece p img.data_area (b * 4096))
              y.stored;
        entry = y.dentries;
      }

  -- If the table has at most 2^22 bytes and as many free entries as the file has pieces, entry 0 of
  -- the table is in use, no piece is longer than a block, and some entry of the root directory is
  -- free: the loop over the pieces ends well. The file then has a chain of as many blocks in the
  -- table, each of them holds its piece in the data area, and the directory is the one that
  -- `update_dentry` makes for the first of them.
  pub put_pieces-FileStored :
      (p : List ℕ) (ps : List (List ℕ)) (img : Image) (i : ℕ)
      → suc (length ps) ≤ free_count img.metadata 0 (size / 4)
      → img.metadata 0 ≢ 0
      → AllPieces (p ∷ ps)
      → i < 128
      → load32 img.dentry_buf (32 * i + 28) ≡ 0
      → (b : ℕ) × (bs : List ℕ) × (length bs ≡ length ps)
        × FileStored img b bs (p ∷ ps) (put_pieces size name total true 0 (p ∷ ps) img)
  put_pieces-FileStored p ps img i enough root sizes less free =
      file (Picks-enough size (suc (length ps)) img.metadata 0 enough root (inl refl))
    where
      file :
          ((bs : List ℕ) × (t2 : Table) × Picks size img.metadata 0 bs t2
            × (length bs ≡ suc (length ps)))
          → (b : ℕ) × (bs : List ℕ) × (length bs ≡ length ps)
            × FileStored img b bs (p ∷ ps) (put_pieces size name total true 0 (p ∷ ps) img)
      file ([], t2, picks, count) = absurd (omega (arith, count))
      file (b ∷ bs, t2, picks, count) =
          let same : length bs ≡ length ps = omega (arith, count) in
          (
            b,
            bs,
            same,
            FileStored-Picks p ps img b bs t2 picks root (sym same) sizes
                (update_dentry-room img.dentry_buf name total b i less free),
          )
