-- ===== src/File/Read.antt =====
-- `file_read` gives the bytes of the chain of blocks of a file.
use mathlib.Core.Path.{subst}
use ghittle.Base.{
  ℕ, zero, suc, ◌+◌, ◌-◌, ◌*◌, ◌/◌, ◌%◌, ◌^◌, ◌<◌, ◌≤◌, ◌≡◌, ◌∙◌, refl, sym, ap, Bool-cases, inl,
  inr, Option, some, ltb, leb, ◌&&◌, ◌==◌, lt→ltb, if◌then◌else◌, arith,
}
use ghittle.Mem.{Mem, copy}
use ghittle.Mem.Laws.{copy_lem}
use ghittle.Drive.{Drive}
use ghittle.Fs.{Fs}
use ghittle.Fs.Block.{fs_block_size}
use ghittle.Fs.Table.{mte, InTable}
use ghittle.File.{Os, ◌>>=◌}
use ghittle.File.Reading.{read_loop}
use ghittle.File.Seek.{walk}
use ghittle.File.Contents.{block_byte, Readable, Same}
use ghittle.File.Round.{step, block_behind, Copied, read_round-Copied}

-- A byte of the buffer: from this round, from the later ones, or as before.
joined :
    (r k total a content v w x u z : ℕ)
    → r + k ≤ total
    → r < total
    → content ≡ (if leb (r + k) a && ltb a total then v else w)
    → w ≡ (if leb r a && ltb a (r + k) then x else u)
    → (r ≤ a → a < r + k → x ≡ z)
    → (r + k ≤ a → v ≡ z)
    → content ≡ (if leb r a && ltb a total then z else u)
joined r k total a content v w x u z fits more e e' here later = elim (Bool-cases (ltb a (r + k))) [
  | inl before ↦ elim (Bool-cases (leb r a)) [
    | inl from ↦ ground (arith, here (ground arith) (ground arith))
    | inr below ↦ ground arith
  ]
  | inr behind ↦ ground (arith, later (ground arith))
]

module _ (d : Drive) (st0 : Fs (Drive.State d)) where
  open d use {State}

  -- The byte `o` of the chain of blocks that begins with `b`.
  abbrev pub chain_byte : ℕ → ℕ → ℕ
  chain_byte b o = block_byte d st0 (walk (mte d st0) (o / 4096) b) (o % 4096)

  -- The loop from `r` bytes on: the file stands at the offset `c`, in the block `b`.
  pub record Result (total p : ℕ) (buf : Mem) (r c b : ℕ) (run : Option ((ℕ × Mem) × Os State))
      : Type 0 where
    pub after : Os State
    pub content : Mem
    pub done : run ≡ some ((total, content), after)
    pub same : Same d st0 after.fs
    pub bytes :
        (a : ℕ)
        → content a ≡ (if leb r a && ltb a total then chain_byte b (c % 4096 + (a - r)) else buf a)
    pub offset : (after.file p).curr_offset ≡ c + (total - r)
    pub block :
        (after.file p).curr_block_index ≡ walk (mte d st0) ((c % 4096 + (total - r)) / 4096) b

  -- Bytes of the chain seen from the block behind a round.
  walk-behind :
      (c n b j : ℕ)
      → 0 < n
      → c % 4096 + n ≤ 4096
      → walk (mte d st0) (((c + n) % 4096 + j) / 4096) (block_behind d st0 c n b)
        ≡ walk (mte d st0) ((c % 4096 + (n + j)) / 4096) b
  walk-behind c n b j some_byte h = elim (Bool-cases ((c + n) % fs_block_size == 0)) [
    | inl over ↦
        let one : suc (((c + n) % 4096 + j) / 4096) ≡ (c % 4096 + (n + j)) / 4096 = ground arith in
        rw over (ap (λ k. walk (mte d st0) k b) one)
    | inr within ↦
        let same : ((c + n) % 4096 + j) / 4096 ≡ (c % 4096 + (n + j)) / 4096 = ground arith in
        rw within (ap (λ k. walk (mte d st0) k b) same)
  ]

  chain_byte-behind :
      (c n b j : ℕ)
      → 0 < n
      → c % 4096 + n ≤ 4096
      → chain_byte (block_behind d st0 c n b) ((c + n) % 4096 + j)
        ≡ chain_byte b (c % 4096 + (n + j))
  chain_byte-behind c n b j some_byte h =
      ap (λ w. block_byte d st0 w (((c + n) % 4096 + j) % 4096)) (walk-behind c n b j some_byte h)
      ∙ ap (λ o. block_byte d st0 (walk (mte d st0) ((c % 4096 + (n + j)) / 4096) b) o)
          (omega arith)

  chain_byte-here : (b o : ℕ) → o < 4096 → block_byte d st0 b o ≡ chain_byte b o
  chain_byte-here b o h =
      let first : o / 4096 ≡ 0 = omega arith in
      let same : o % 4096 ≡ o = omega arith in rw (first, same) refl

  Result-done :
      (total p : ℕ) (buf : Mem) (r c b : ℕ) (os : Os State)
      → Same d st0 os.fs
      → (os.file p).curr_offset ≡ c
      → (os.file p).curr_block_index ≡ b
      → r ≡ total
      → Result total p buf r c b (some ((r, buf), os))
  Result-done total p buf r c b os same ec eb e = record {
    after = os;
    content = buf;
    done = ap (λ n. some ((n, buf), os)) e;
    same = same;
    bytes = λ a. ground arith;
    offset = omega (arith, ec);
    block =
        let none_left : 0 ≡ (c % 4096 + (total - r)) / 4096 = omega arith in
        eb ∙ ap (λ k. walk (mte d st0) k b) none_left;
  }

  Result-round :
      (n total p : ℕ) (buf : Mem) (r c b : ℕ) (os : Os State)
      → r < total
      → (x : Copied d st0 os total p buf r c b)
      → let k = step c r total in
        Result total p
          (copy buf r x.rbuf (c % 4096) k)
          (r + k)
          (c + k)
          (block_behind d st0 c k b)
          (read_loop d n total p (copy buf r x.rbuf (c % 4096) k) (r + k) x.after)
        → Result total p buf r c b (read_loop d (suc n) total p buf r os)
  unfolding read_loop
  Result-round n total p buf r c b os more x y = record {
    after = y.after;
    content = y.content;
    done = rw (lt→ltb r total more, read_loop) (rw (x.done, ◌>>=◌) y.done);
    same = y.same;
    bytes = λ a.
        joined r (step c r total) total a (y.content a) _ _ _ _ _ (omega arith) more (y.bytes a)
          (copy_lem buf r x.rbuf (c % 4096) (step c r total) a)
          (λ lo hi.
            x.rbuf_byte (c % 4096 + (a - r)) (omega arith)
            ∙ chain_byte-here b (c % 4096 + (a - r)) (omega arith))
          (λ lo.
            chain_byte-behind c (step c r total) b (a - (r + step c r total)) (omega arith)
              (omega arith)
            ∙ ap (λ o. chain_byte b o) (omega arith));
    offset = omega (arith, y.offset);
    block =
        let rest : step c r total + (total - (r + step c r total)) ≡ total - r = omega arith in
        y.block
        ∙ walk-behind c (step c r total) b (total - (r + step c r total)) (omega arith)
            (omega arith)
        ∙ ap (λ j. walk (mte d st0) ((c % 4096 + j) / 4096) b) rest;
  }

  pub read_loop-Result :
      (n total p : ℕ) (buf : Mem) (r : ℕ) (os : Os State) (c b : ℕ)
      → Readable d st0
      → Same d st0 os.fs
      → (os.file p).curr_offset ≡ c
      → (os.file p).curr_block_index ≡ b
      → r ≤ total
      → total - r ≤ 4096 * n - c % 4096
      → c + (total - r) < 2 ^ 32
      → ((j : ℕ) → j < total - r → InTable st0.filesys (walk (mte d st0) ((c % 4096 + j) / 4096) b))
      → Result total p buf r c b (read_loop d n total p buf r os)
  unfolding read_loop
  read_loop-Result zero total p buf r os c b ready same ec eb le fuel small inside =
      Result-done total p buf r c b os same ec eb (omega arith)
  read_loop-Result (suc n) total p buf r os c b ready same ec eb le fuel small inside =
      elim (Bool-cases (ltb r total)) [
        | inr over ↦
            rw (over, read_loop) (Result-done total p buf r c b os same ec eb (ground arith))
        | inl more ↦
            let k = step c r total in
            let first : (c % 4096 + 0) / 4096 ≡ 0 = omega arith in
            let x =
              read_round-Copied d st0 total p buf r os c b ec eb ready same
                (subst (λ i. InTable st0.filesys (walk (mte d st0) i b)) first
                  (inside 0 (ground arith)))
                (omega arith) in
            Result-round n total p buf r c b os (ground arith) x (
              read_loop-Result n total p (copy buf r x.rbuf (c % 4096) k) (r + k) x.after (c + k)
                (block_behind d st0 c k b) ready x.same x.offset x.block (omega arith)
                (ground arith) (omega arith)
                (λ j h.
                  subst (InTable st0.filesys)
                    (sym (walk-behind c k b j (ground arith) (omega arith)))
                    (inside (k + j) (omega arith))))
      ]
