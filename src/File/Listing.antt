-- ===== src/File/Listing.antt =====
-- `dir_open` of filesys/dir.c, which makes a file for an entry of the root directory.
use ghittle.Base.{
  ℕ, zero, suc, ◌+◌, ◌*◌, ◌<◌, ◌≤◌, ◌≡◌, ◌≢◌, ◌∙◌, refl, ap, Bool, true, false, Bool-cases, inl,
  inr, none, some, List, ◌==◌, ==_ne, if◌then◌else◌, arith,
}
use ghittle.Base.Int.{is_zero}
use ghittle.Mem.{Mem, load32}
use ghittle.Str.{strcmp}
use ghittle.Kmem.{kmalloc}
use ghittle.Drive.{Drive}
use ghittle.Fs.Block.{block_read}
use ghittle.Fs.Dir.{dentry_size, fs_de_per_block, de_size, de_block_index}
use ghittle.File.{File, Os, Cmd, pure, ◌>>=◌, ◌>>◌, do_fs, store_file, alloc_file, file_struct_size}

abbrev pub fs_type_dir : ℕ
fs_type_dir = 2

-- The file for entry `i` of the directory in `buf`.
abbrev pub directory : Mem → ℕ → File
directory buf i = record {
  type = fs_type_dir;
  dentry_offset = i;
  size = load32 buf (dentry_size * i + de_size);
  block_index = load32 buf (dentry_size * i + de_block_index);
  curr_block_index = load32 buf (dentry_size * i + de_block_index);
  prev_block_index = load32 buf (dentry_size * i + de_block_index);
  curr_offset = 0;
}

-- `strcmp(dentry[i].name, name) == 0`
abbrev pub is_named : List ℕ → Mem → ℕ → Bool
is_named name buf i = is_zero (strcmp buf (dentry_size * i) name)

-- The loop of `dir_open` with `i`, the rounds left, and `dir`. It goes on behind an entry of the
-- name.
unfoldable pub directories_from : {S : Type 0} → ℕ → ℕ → List ℕ → Mem → ℕ → Cmd S ℕ
directories_from i zero name buf dir = pure dir
directories_from i (suc n) name buf dir = elim (is_named name buf i) [
  | false ↦ directories_from (i + 1) n name buf dir
  | true ↦ do
    p ← alloc_file
    elim (p == 0) [
      | true ↦ pure 0
      | false ↦ store_file p (directory buf i) >> directories_from (i + 1) n name buf p
    ]
]

module _ (d : Drive) where
  open d use {State}

  -- The address of the file, 0 if there is none.
  unfoldable pub dir_open : List ℕ → Cmd State ℕ
  unfolding directories_from
  dir_open name = do
    r ← do_fs (λ st. block_read d st 0)
    elim r [ none ↦ pure 0 | some buf ↦ directories_from 0 fs_de_per_block name buf 0 ]

module _ {S : Type 0} (name : List ℕ) (buf : Mem) where
  -- Entries of other names are passed over.
  directories_from-pass :
      (n j dir : ℕ) (os : Os S)
      → ((k : ℕ) → j ≤ k → k < j + n → is_named name buf k ≡ false)
      → directories_from j n name buf dir os ≡ some (dir, os)
  unfolding directories_from
  directories_from-pass zero j dir os other = refl
  directories_from-pass (suc n) j dir os other =
      rw (other j (omega arith) (omega arith), directories_from)
        (directories_from-pass n (j + 1) dir os (λ k lo hi. other k (omega arith) (omega arith)))

  -- The state in which entry `i` is open.
  abbrev opened_at : ℕ → Os S → Os S
  opened_at i os =
      let (p, kmem) = kmalloc os.kmem file_struct_size in
      record os { kmem = kmem; file = λ q. if q == p then directory buf i else os.file q }

  directories_from-found :
      (n j i dir : ℕ) (os : Os S)
      → j ≤ i
      → i < j + n
      → is_named name buf i ≡ true
      → ((k : ℕ) → j ≤ k → k < j + n → k ≢ i → is_named name buf k ≡ false)
      → (kmalloc os.kmem file_struct_size).0 ≢ 0
      → directories_from j n name buf dir os
        ≡ some ((kmalloc os.kmem file_struct_size).0, opened_at i os)
  unfolding directories_from
  directories_from-found zero j i dir os lo hi named other room = absurd (omega arith)
  directories_from-found (suc n) j i dir os lo hi named other room = elim (Bool-cases (j == i)) [
    | inl e ↦
        let here : j ≡ i = ground arith in
        let p = (kmalloc os.kmem file_struct_size).0 in
        let at_j : is_named name buf j ≡ true = ap (is_named name buf) here ∙ named in
        rw (at_j, directories_from)
          (rw (==_ne (kmalloc os.kmem file_struct_size).0 0 room, ◌>>=◌, alloc_file)
            (directories_from-pass n (j + 1) p (opened_at j os)
                (λ k lo hi. other k (omega arith) (omega arith) (omega (arith, here)))
              ∙ ap (λ m. some (p, opened_at m os)) here))
    | inr e ↦
        let apart : j ≢ i = ground arith in
        rw (other j (omega arith) (omega arith) apart, directories_from)
          (directories_from-found n (j + 1) i dir os (omega arith) (omega arith) named
            (λ k lo hi. other k (omega arith) (omega arith)) room)
  ]

module _ (d : Drive) where
  open d use {State}

  -- If exactly one entry of a root directory that can be read has the name, and the heap has room,
  -- `dir_open` gives a file in the memory that `kmalloc` hands out, with the index, the size and the
  -- first block of that entry, and leaves all other files.
  pub dir_open_lem :
      (name : List ℕ) (os : Os State) (buf : Mem) (i : ℕ)
      → (block_read d os.fs 0).0 ≡ some buf
      → i < 128
      → is_named name buf i ≡ true
      → ((k : ℕ) → k < 128 → k ≢ i → is_named name buf k ≡ false)
      → (kmalloc os.kmem file_struct_size).0 ≢ 0
      → dir_open d name os
        ≡ some (
          (kmalloc os.kmem file_struct_size).0,
          opened_at name buf i (record os { fs = (block_read d os.fs 0).1 }),
        )
  unfolding dir_open
  dir_open_lem name os buf i e hi named other room =
      rw (e, ◌>>=◌, do_fs)
        (directories_from-found name buf 128 0 i 0 (record os { fs = (block_read d os.fs 0).1 })
          (omega arith) (omega arith) named (λ k lo h. other k (omega arith)) room)
