-- ===== src/File/Whole.antt =====
-- `file_read` from any position of a file.
use mathlib.Core.Path.{subst}
use ghittle.Base.{
  ℕ, zero, suc, ◌+◌, ◌-◌, ◌*◌, ◌/◌, ◌%◌, ◌^◌, min, ◌<◌, ◌≤◌, ◌≡◌, ◌≢◌, ◌∙◌, refl, sym, ap, false,
  Option, some, ltb, leb, ◌&&◌, ==_ne, if◌then◌else◌, arith,
}
use ghittle.Mem.{Mem}
use ghittle.Drive.{Drive}
use ghittle.Fs.{Fs, fs_last_block}
use ghittle.Fs.Table.{mte, InTable}
use ghittle.File.{File, Os, fs_type_file, rounds}
use ghittle.File.Reading.{read_loop, file_read}
use ghittle.File.Seek.{walk}
use ghittle.File.Contents.{block_byte, Readable, Same, Same-refl}
use ghittle.File.Read.{chain_byte, Result, read_loop-Result}

walk-walk : (t : ℕ → ℕ) (m n b : ℕ) → walk t n (walk t m b) ≡ walk t (m + n) b
walk-walk t zero n b = let same : n ≡ 0 + n = omega arith in ap (λ k. walk t k b) same
walk-walk t (suc m) n b =
    let same : suc (m + n) ≡ suc m + n = omega arith in
    walk-walk t m n (t b) ∙ ap (λ k. walk t k b) same

from_start :
    (a total content v w z : ℕ)
    → content ≡ (if leb 0 a && ltb a total then v else w)
    → v ≡ z
    → content ≡ (if ltb a total then z else w)
from_start a total content v w z e e' = ground arith

gt→leb : (n m : ℕ) → m < n → leb n m ≡ false
gt→leb n m h = ground arith

enough_rounds : (total c : ℕ) → total - 0 ≤ 4096 * rounds total - c % 4096
enough_rounds total c = omega arith

module _ (d : Drive) where
  open d use {State}

  -- An open file whose current block is that of its position, and all of whose blocks have entries
  -- in the table.
  pub record Positioned (st : Fs State) (f : File) : Type 0 where
    pub is_file : f.type ≡ fs_type_file
    pub current : f.curr_block_index ≡ walk (mte d st) (f.curr_offset / 4096) f.block_index
    pub in_table :
        (o : ℕ) → o < f.size → InTable st.filesys (walk (mte d st) (o / 4096) f.block_index)
    pub bounded : f.size < 2 ^ 32

  -- The bytes of a file: those of its chain of blocks.
  abbrev pub file_byte : Fs State → File → ℕ → ℕ
  file_byte st f o = chain_byte d st f.block_index o

  -- A read of `total` bytes: the file system is the same, and the file has moved on.
  pub record FileRead (os : Os State) (p total : ℕ) (buf : Mem)
      (run : Option ((ℕ × Mem) × Os State)) : Type 0 where
    pub after : Os State
    pub content : Mem
    pub done : run ≡ some ((total, content), after)
    pub same : Same d os.fs after.fs
    pub bytes :
        (a : ℕ)
        → content a ≡ (
            if ltb a total
            then file_byte os.fs (os.file p) ((os.file p).curr_offset + a)
            else buf a)
    pub moved : (after.file p).curr_offset ≡ (os.file p).curr_offset + total
    pub current :
        (after.file p).curr_block_index
        ≡ walk (mte d os.fs) (((os.file p).curr_offset + total) / 4096) (os.file p).block_index

  module _ (os : Os State) (p : ℕ) (at : Positioned os.fs (os.file p)) where
    abbrev c : ℕ
    c = (os.file p).curr_offset

    abbrev b : ℕ
    b = (os.file p).curr_block_index

    from_first :
        (j : ℕ)
        → walk (mte d os.fs) ((c % 4096 + j) / 4096) b
          ≡ walk (mte d os.fs) ((c + j) / 4096) (os.file p).block_index
    from_first j =
        let blocks : c / 4096 + (c % 4096 + j) / 4096 ≡ (c + j) / 4096 = omega arith in
        ap (walk (mte d os.fs) ((c % 4096 + j) / 4096)) at.current
        ∙ walk-walk (mte d os.fs) (c / 4096) ((c % 4096 + j) / 4096) (os.file p).block_index
        ∙ ap (λ k. walk (mte d os.fs) k (os.file p).block_index) blocks

    chain_byte-from_first :
        (j : ℕ) → chain_byte d os.fs b (c % 4096 + j) ≡ file_byte os.fs (os.file p) (c + j)
    chain_byte-from_first j =
        let low : (c % 4096 + j) % 4096 ≡ (c + j) % 4096 = omega arith in
        ap (λ w. block_byte d os.fs w ((c % 4096 + j) % 4096)) (from_first j)
        ∙ ap (block_byte d os.fs (walk (mte d os.fs) ((c + j) / 4096) (os.file p).block_index)) low

    FileRead-Result :
        (total : ℕ) (buf : Mem) (run : Option ((ℕ × Mem) × Os State))
        → Result d os.fs total p buf 0 c b run
        → FileRead os p total buf run
    FileRead-Result total buf run x = record {
      after = x.after;
      content = x.content;
      done = x.done;
      same = x.same;
      bytes = λ a. from_start a total (x.content a) _ _ _ (x.bytes a) (
          let same : a - 0 ≡ a = omega arith in
          chain_byte-from_first (a - 0) ∙ ap (λ j. file_byte os.fs (os.file p) (c + j)) same);
      moved = omega (arith, x.offset);
      current =
          let all : total - 0 ≡ total = omega arith in
          x.block
          ∙ from_first (total - 0)
          ∙ ap (λ j. walk (mte d os.fs) ((c + j) / 4096) (os.file p).block_index) all;
    }

    InTable-ne_last : (i : ℕ) → Readable d os.fs → InTable os.fs.filesys i → i ≢ fs_last_block
    InTable-ne_last i ready h e = omega (arith, ready.sound.small)

    file_read-loop :
        p ≢ 0
        → c < (os.file p).size
        → b ≢ fs_last_block
        → (buf : Mem) (size : ℕ)
        → file_read d buf size p os
          ≡ read_loop d
              (rounds (min size ((os.file p).size - c)))
              (min size ((os.file p).size - c))
              p
              buf
              0
              os
    unfolding file_read
    file_read-loop named more linked buf size =
        rw
          (
            ==_ne p 0 named,
            at.is_file,
            gt→leb (os.file p).size c more,
            ==_ne b fs_last_block linked,
          )
          refl

    -- On a drive on which the table and the blocks can be read, a read of an open file inside its
    -- size gives the number of bytes asked for, or that of the bytes up to the end of the file. It
    -- stores exactly those bytes of the chain of blocks, changes nothing on the drive, and leaves
    -- the file behind them, with the current block of that position.
    pub file_read-FileRead :
        Readable d os.fs
        → p ≢ 0
        → c < (os.file p).size
        → (buf : Mem) (size : ℕ)
        → FileRead os p (min size ((os.file p).size - c)) buf (file_read d buf size p os)
    unfolding file_read
    file_read-FileRead ready named more buf size =
        let total = min size ((os.file p).size - c) in
        let inside : InTable os.fs.filesys b =
          subst (InTable os.fs.filesys) (sym at.current) (at.in_table c more) in
        let result =
          read_loop-Result d os.fs (rounds total) total p buf 0 os c b ready (Same-refl d os.fs)
            refl refl (omega arith) (enough_rounds total c) (omega (arith, at.bounded))
            (λ j h.
              subst (InTable os.fs.filesys) (sym (from_first j))
                (at.in_table (c + j) (omega arith))) in
        FileRead-Result total buf (file_read d buf size p os) (
          subst (Result d os.fs total p buf 0 c b)
            (sym (file_read-loop named more (InTable-ne_last b ready inside) buf size)) result)
