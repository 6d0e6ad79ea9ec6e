-- ===== src/File/Round.antt =====
-- One round of the loop of `file_read`.
use mathlib.Core.Path.{subst}
use ghittle.Base.{
  ℕ, ◌+◌, ◌-◌, ◌%◌, ◌^◌, min, ◌<◌, ◌≡◌, ◌∙◌, refl, sym, ap, true, false, Bool-cases, inl, inr, some,
  ◌==◌, ==_refl, if◌then◌else◌, arith,
}
use ghittle.Mem.{Mem, copy}
use ghittle.Drive.{Drive}
use ghittle.Fs.{Fs, add_u32, get_mte}
use ghittle.Fs.Block.{fs_block_size, block_read}
use ghittle.Fs.Table.{mte, InTable}
use ghittle.File.{do_fs, load_file, store_file, File, Os, Cmd, ◌>>=◌, cross_block}
use ghittle.File.Reading.{read_round}
use ghittle.File.Contents.{block_byte, Readable, Same, block_read-Same, get_mte-Same}

-- How many bytes a round of `file_read` copies: up to the end of the block, or what is left.
abbrev pub step : ℕ → ℕ → ℕ → ℕ
step c r total = min (fs_block_size - c % fs_block_size) (total - r)

-- A chain of two commands, the first of which is known.
pub bind_some :
    {S A B : Type 0} (m : Cmd S A) (k : A → Cmd S B) (os os' : Os S) (a : A)
    → m os ≡ some (a, os')
    → (m >>= k) os ≡ k a os'
bind_some m k os os' a e = rw (e, ◌>>=◌) refl

module _ (d : Drive) where
  open d use {State}

  cross_block-within :
      (p : ℕ) (os : Os State)
      → ((os.file p).curr_offset % fs_block_size == 0) ≡ false
      → cross_block d p os ≡ some (true, os)
  unfolding cross_block
  cross_block-within p os e = rw e refl

  -- The state in which the file has moved to the block `v`.
  abbrev crossed : ℕ → ℕ → Os State → Os State
  crossed p v os = record os {
    fs = (get_mte d os.fs (os.file p).curr_block_index).1;
    file = λ q.
        if q == p
        then record (os.file p) {
          prev_block_index = (os.file p).curr_block_index;
          curr_block_index = v;
        }
        else os.file q;
  }

  cross_block-crossed :
      (p v : ℕ) (os : Os State)
      → ((os.file p).curr_offset % fs_block_size == 0) ≡ true
      → (get_mte d os.fs (os.file p).curr_block_index).0 ≡ some v
      → cross_block d p os ≡ some (true, crossed p v os)
  unfolding cross_block
  cross_block-crossed p v os e got = rw e (rw (got, ◌>>=◌, do_fs, load_file) refl)

module _ (d : Drive) (st0 : Fs (Drive.State d)) where
  open d use {State}

  abbrev at_next : File → File
  at_next f = record f {
    prev_block_index = f.curr_block_index;
    curr_block_index = mte d st0 f.curr_block_index;
  }

  -- The file behind `cross_block`.
  abbrev turned : File → File
  turned f = if f.curr_offset % fs_block_size == 0 then at_next f else f

  pub record Crossed (os : Os State) (p : ℕ) (f : File) : Type 0 where
    pub after : Os State
    pub done : cross_block d p os ≡ some (true, after)
    pub same : Same d st0 after.fs
    pub moved : after.file p ≡ turned f

  cross_block-Crossed :
      (os : Os State) (p : ℕ) (f : File)
      → os.file p ≡ f
      → Readable d st0
      → Same d st0 os.fs
      → InTable st0.filesys f.curr_block_index
      → Crossed os p f
  cross_block-Crossed os p f e ready same h =
      elim (Bool-cases (f.curr_offset % fs_block_size == 0)) [
        | inl over ↦
            let b = (os.file p).curr_block_index in
            let (next, same') =
              get_mte-Same d st0 os.fs ready same b
                (subst (λ f. InTable st0.filesys f.curr_block_index) (sym e) h) in
            record {
              after = crossed d p (mte d st0 b) os;
              done =
                  cross_block-crossed d p (mte d st0 b) os
                    (ap (λ f. f.curr_offset % fs_block_size == 0) e ∙ over) next;
              same = same';
              moved = rw (==_refl p, over) (ap at_next e);
            }
        | inr within ↦ record {
          after = os;
          done =
              cross_block-within d p os (ap (λ f. f.curr_offset % fs_block_size == 0) e ∙ within);
          same = same;
          moved = rw within e;
        }
      ]

  -- The current block behind `n` bytes of the block `b` from the offset `c` on.
  abbrev pub block_behind : ℕ → ℕ → ℕ → ℕ
  block_behind c n b = if (c + n) % fs_block_size == 0 then mte d st0 b else b

  -- The state behind a round, for a file that stands at the offset `c` in the block `b`.
  pub record Copied (os : Os State) (total p : ℕ) (buf : Mem) (r c b : ℕ) : Type 0 where
    pub after : Os State
    pub rbuf : Mem
    pub same : Same d st0 after.fs
    pub offset : (after.file p).curr_offset ≡ c + step c r total
    pub block : (after.file p).curr_block_index ≡ block_behind c (step c r total) b
    pub rbuf_byte : (a : ℕ) → a < 4096 → rbuf a ≡ block_byte d st0 b a
    pub done :
        read_round d total p buf r os
        ≡ some (
          (true, r + step c r total, copy buf r rbuf (c % fs_block_size) (step c r total)),
          after,
        )

  turned-offset : (f : File) → (turned f).curr_offset ≡ f.curr_offset
  turned-offset f = elim (Bool-cases (f.curr_offset % fs_block_size == 0)) [
    | inl e ↦ rw e refl
    | inr e ↦ rw e refl
  ]

  turned-block :
      (f : File)
      → (turned f).curr_block_index ≡ (
          if f.curr_offset % fs_block_size == 0
          then mte d st0 f.curr_block_index
          else f.curr_block_index)
  turned-block f = elim (Bool-cases (f.curr_offset % fs_block_size == 0)) [
    | inl e ↦ rw e refl
    | inr e ↦ rw e refl
  ]

  module _ (total p : ℕ) (buf : Mem) (r : ℕ) (os : Os State) where
    abbrev c : ℕ
    c = (os.file p).curr_offset

    abbrev b : ℕ
    b = (os.file p).curr_block_index

    round-Copied :
        Readable d st0
        → Same d st0 os.fs
        → InTable st0.filesys b
        → c + step c r total < 2 ^ 32
        → Copied os total p buf r c b
    unfolding read_round
    round-Copied ready same h small =
        let (m, got, bytes, same1) = block_read-Same d st0 os.fs ready same b h in
        let sum : add_u32 c (step c r total) ≡ c + step c r total = omega arith in
        let f1 = record (os.file p) { curr_offset = add_u32 c (step c r total) } in
        let f2 = record (os.file p) { curr_offset = c + step c r total } in
        let os1 = record os {
          fs = (block_read d os.fs b).1;
          file = λ q. if q == p then f1 else os.file q;
        } in
        let x = cross_block-Crossed os1 p f2 (rw (==_refl p, sum) refl) ready same1 h in
        record {
          after = x.after;
          rbuf = m;
          same = x.same;
          offset = ap (λ f. f.curr_offset) x.moved ∙ turned-offset f2;
          block = ap (λ f. f.curr_block_index) x.moved ∙ turned-block f2;
          rbuf_byte = bytes;
          done = rw (got, ◌>>=◌, do_fs, load_file) (rw (x.done, ◌>>=◌, store_file) refl);
        }

    -- On a drive that can be read, a round copies the bytes of the current block.
    pub read_round-Copied :
        (c' b' : ℕ)
        → c ≡ c'
        → b ≡ b'
        → Readable d st0
        → Same d st0 os.fs
        → InTable st0.filesys b'
        → c' + step c' r total < 2 ^ 32
        → Copied os total p buf r c' b'
    read_round-Copied c' b' ec eb ready same h small =
        subst (λ c. Copied os total p buf r c b') ec
          (subst (λ b. Copied os total p buf r c b) eb
            (round-Copied ready same (subst (InTable st0.filesys) (sym eb) h)
              (subst (λ c. c + step c r total < 2 ^ 32) (sym ec) small)))
