-- ===== src/Fs/Dir/Laws.antt =====
-- The entries of the root directory.
use native.Mathlib.Decide.{dec_lt}
use ghittle.Base.{
  ℕ, zero, suc, ◌+◌, ◌-◌, ◌*◌, ◌/◌, ◌%◌, ◌≤◌, ◌<◌, ◌≡◌, ◌≢◌, ◌⊎◌, ◌∙◌, Bool-cases, ==_iff, refl,
  sym, ap, true, false, Option, none, some, Option-cases, inl, inr, leb, ltb, ◌&&◌, ◌==◌,
  if◌then◌else◌, arith,
}
use ghittle.Base.Int.{pos, negsuc}
use ghittle.Mem.{Mem, load32, copy}
use ghittle.Mem.Laws.{copy_lem}
use ghittle.Drive.{Drive}
use ghittle.Fs.{Fs}
use ghittle.Fs.Block.{block_read, block_write, block_sector}
use ghittle.Fs.Dir.{
  dentry_size, de_block_index, dir_free, free_from, set_de, set_de_at, get_de, get_de_at,
}

-- The first block of entry `i`, 0 for a free entry.
abbrev pub entry_block : Mem → ℕ → ℕ
entry_block buf i = load32 buf (dentry_size * i + de_block_index)

false-true : false ≡ true → ⊥
false-true e = cc

none-some : (e : Mem) → (◌≡◌ {A = Option Mem} none (some e)) → ⊥
none-some e p = cc

abbrev byte_of : Option Mem → ℕ → ℕ
byte_of none o = 0
byte_of (some e) o = e o

entry_offset : (m : Mem) (i j o : ℕ) → j ≡ i → m (32 * j + o - 32 * i) ≡ m o
entry_offset m i j o p = ap m (omega arith)

at_first :
    (buf : Mem) (i k : ℕ)
    → i ≤ k
    → (i + 1 ≤ k → entry_block buf k ≢ dir_free)
    → (entry_block buf i == dir_free) ≡ false
    → entry_block buf k ≢ dir_free
at_first buf i k lo used e = elim (dec_lt i k) [
  | yes h ↦ used (omega arith)
  | no h ↦
      let same : k ≡ i = omega arith in
      λ p.
        false-true
          (sym e ∙ (==_iff (entry_block buf i) dir_free).1 (ap (entry_block buf) (sym same) ∙ p))
]

-- The search of `find_free_dentry` gives the first free entry of the rest of the directory, and -1
-- only if there is none.
pub free_from_lem :
    (n i : ℕ) (buf : Mem)
    → ((j : ℕ) × (free_from i n buf ≡ pos j)
        × (i ≤ j)
        × (j < i + n)
        × (entry_block buf j ≡ dir_free)
        × ((k : ℕ) → i ≤ k → k < j → entry_block buf k ≢ dir_free))
      ⊎ ((free_from i n buf ≡ negsuc 0)
          × ((k : ℕ) → i ≤ k → k < i + n → entry_block buf k ≢ dir_free))
unfolding free_from
free_from_lem zero i buf = inr (refl, λ k a b. omega arith)
free_from_lem (suc n) i buf = elim (Bool-cases (entry_block buf i == dir_free)) [
  | inl e ↦ inl (
    i,
    rw e refl,
    omega arith,
    omega arith,
    (==_iff (entry_block buf i) dir_free).0 e,
    λ k a b. omega arith,
  )
  | inr e ↦ elim (free_from_lem n (i + 1) buf) [
    | inl (j, found, lo, hi, free, used) ↦ inl (
      j,
      rw e found,
      omega arith,
      omega arith,
      free,
      λ k a b. at_first buf i k a (λ lo'. used k lo' b) e,
    )
    | inr (missing, used) ↦
        inr (rw e missing, λ k a b. at_first buf i k a (λ lo'. used k lo' (omega arith)) e)
  ]
]

module _ (d : Drive) where
  open d use {State, read, write, sector, read_some, read_keeps, write_done, write_other}

  -- The byte `a` of the root directory on the drive.
  abbrev pub dir_byte : Fs State → ℕ → ℕ
  dir_byte st a = sector st.drive (block_sector d st 0 + a / 512) (a % 512)

  -- A block that is read, and one that is written.
  block_read-byte :
      (st : Fs State) (buf : Mem) (a : ℕ)
      → (block_read d st 0).0 ≡ some buf
      → a < 4096
      → buf a ≡ dir_byte st a
  unfolding block_read
  block_read-byte st buf a e h = read_some st.drive (block_sector d st 0) 8 a buf e h

  block_read-keeps : (st : Fs State) (a : ℕ) → dir_byte (block_read d st 0).1 a ≡ dir_byte st a
  unfolding block_read
  block_read-keeps st a = read_keeps st.drive (block_sector d st 0) 8 _ _

  block_write-byte :
      (st : Fs State) (buf : Mem) (a : ℕ)
      → (block_write d st 0 buf).0 ≡ true
      → a < 4096
      → dir_byte (block_write d st 0 buf).1 a ≡ buf a
  unfolding block_write
  block_write-byte st buf a e h =
      write_done st.drive (block_sector d st 0) 8 buf (block_sector d st 0 + a / 512) (a % 512) e
        (omega arith) (omega arith) (omega arith)
      ∙ ap buf (omega arith)

  set_de_at_lem :
      (st : Fs State) (i a : ℕ) (dentry : Mem)
      → (set_de_at d st i dentry).0 ≡ true
      → a < 4096
      → dir_byte (set_de_at d st i dentry).1 a
        ≡ (if leb (32 * i) a && ltb a (32 * i + 32) then dentry (a - 32 * i) else dir_byte st a)
  unfolding set_de_at
  set_de_at_lem st i a dentry done h = elim (Option-cases (block_read d st 0).0) [
    | inl e ↦ absurd (false-true (rw (e, set_de_at) at done))
    | inr (buf, e) ↦
        rw (e, set_de_at)
          (block_write-byte (block_read d st 0).1 (copy buf (32 * i) dentry 0 32) a
              (rw (e, set_de_at) at done) h
            ∙ ground (arith, copy_lem buf (32 * i) dentry 0 32 a, block_read-byte st buf a e h))
  ]

  get_de_at_lem :
      (st : Fs State) (i o : ℕ) (e : Mem)
      → (get_de_at d st i).0 ≡ some e
      → i < 128
      → o < 32
      → e o ≡ dir_byte st (32 * i + o)
  unfolding get_de_at
  get_de_at_lem st i o e got hi ho = elim (Option-cases (block_read d st 0).0) [
    | inl p ↦ absurd (none-some e (rw (p, get_de_at) at got))
    | inr (buf, p) ↦
        ap (λ r. byte_of r o) (sym (rw (p, get_de_at) at got))
        ∙ copy_lem (λ a. 0) 0 buf (32 * i) 32 o
        ∙ ground (arith, block_read-byte st buf (32 * i + o) p)
  ]

  -- A `set_de` that returns 0 writes the 32 bytes of the entry, and changes no other byte of the
  -- directory.
  pub set_de_lem :
      (st : Fs State) (i a : ℕ) (dentry : Mem)
      → (set_de d st (pos i) dentry).0 ≡ true
      → a < 4096
      → dir_byte (set_de d st (pos i) dentry).1 a
        ≡ (if leb (32 * i) a && ltb a (32 * i + 32) then dentry (a - 32 * i) else dir_byte st a)
  unfolding set_de
  set_de_lem st i a dentry done h = elim (Bool-cases (leb 128 i)) [
    | inl e ↦ absurd (false-true (rw e at done))
    | inr e ↦ rw e (set_de_at_lem st i a dentry (rw e at done) h)
  ]

  pub get_de_lem :
      (st : Fs State) (i o : ℕ) (e : Mem)
      → (get_de d st (pos i)).0 ≡ some e
      → o < 32
      → e o ≡ dir_byte st (32 * i + o)
  unfolding get_de
  get_de_lem st i o e got ho = elim (Bool-cases (leb 128 i)) [
    | inl p ↦ absurd (none-some e (rw p at got))
    | inr p ↦ get_de_at_lem st i o e (rw p at got) (ground arith) ho
  ]

  -- After a `set_de` of entry `i` that returns 0, a `get_de` that returns 0 gives the written
  -- entry for `i`, and the bytes that were in the directory before for every other index below
  -- 128.
  pub get_de-set_de :
      (st : Fs State) (i j o : ℕ) (dentry e : Mem)
      → (set_de d st (pos i) dentry).0 ≡ true
      → (get_de d (set_de d st (pos i) dentry).1 (pos j)).0 ≡ some e
      → j < 128
      → o < 32
      → e o ≡ (if j == i then dentry o else dir_byte st (32 * j + o))
  get_de-set_de st i j o dentry e done got hj ho =
      get_de_lem (set_de d st (pos i) dentry).1 j o e got ho
      ∙ set_de_lem st i (32 * j + o) dentry done (omega arith)
      ∙ elim (dec_lt j i) [
        | yes h ↦ ground arith
        | no h ↦ ground (arith, entry_offset dentry i j o)
      ]
