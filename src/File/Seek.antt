-- ===== src/File/Seek.antt =====
-- Where `file_seek` goes.
use mathlib.Core.Path.{subst}
use ghittle.Base.{
  ℕ, zero, suc, ◌+◌, ◌-◌, ◌/◌, ◌^◌, ◌≤◌, ◌<◌, ◌≡◌, ◌∙◌, refl, sym, ap, fun_ext, Option, none, some,
  leb, if◌then◌else◌, arith, Bool-cases, inl, inr,
}
use ghittle.Base.Int.{pos, negsuc}
use ghittle.Drive.{Drive}
use ghittle.Fs.{Fs, get_mte}
use ghittle.Fs.Table.{mte, InTable, get_mte-same, mte-same}
use ghittle.Fs.Sound.{Sound}
use ghittle.Fs.Chain.{get_mte-done}
use ghittle.Fs.Block.{fs_block_size}
use ghittle.File.{Cmd, pure, File, Os, seek_set, seek_cur, seek_end}
use ghittle.File.Seeking.{seek_plan, follow, new_position, move_offset}

-- The block that stands `n` links behind a block.
abbrev pub walk : (ℕ → ℕ) → ℕ → ℕ → ℕ
walk t zero b = b
walk t (suc n) b = walk t n (t b)

-- Which block of the file `seek_plan` starts from: the first one or the current one.
abbrev pub start_position : File → ℕ → ℕ
start_position f new_offset =
    if leb (f.curr_offset / fs_block_size) (new_offset / fs_block_size)
    then f.curr_offset / fs_block_size
    else 0

previous_step :
    (t u : ℕ → ℕ) (n k b before : ℕ)
    → u ≡ t
    → (n ≡ 0 → before ≡ b)
    → ((j : ℕ) → n ≡ suc j → before ≡ walk u j (t b))
    → n ≡ k
    → before ≡ walk t k b
previous_step t u n zero b before same first later e = first e
previous_step t u n (suc k) b before same first later e = later k e ∙ ap (λ v. walk v k (t b)) same

module _ (d : Drive) where
  open d use {State, sector}

  -- For a position within the file, `seek_plan` starts at the first or at the current block,
  -- whichever does not lie behind the target, and follows as many links as it takes to reach the
  -- block of the position.
  pub seek_plan_lem :
      (f : File) (new_offset : ℕ)
      → new_offset ≤ f.size
      → let (moves, start) = seek_plan d f new_offset in
        (start_position f new_offset + moves ≡ new_offset / fs_block_size)
        × (start ≡ (
            if leb (f.curr_offset / fs_block_size) (new_offset / fs_block_size)
            then f.curr_block_index
            else f.block_index))
  unfolding seek_plan
  seek_plan_lem f new_offset inside = ground arith

  -- For a negative offset the new position is the sum of the origin and the offset, cut off at 0,
  -- and for another one from the current position or the end it is the sum, as long as that is in
  -- the range of `unsigned int`.
  pub new_position_lem :
      (f : File) (n : ℕ)
      → f.curr_offset + n < 2 ^ 32
      → f.size + n < 2 ^ 32
      → (new_position d f (pos n) seek_cur ≡ f.curr_offset + n)
        × (new_position d f (pos n) seek_end ≡ f.size + n)
        × (new_position d f (negsuc n) seek_cur ≡ f.curr_offset - (n + 1))
        × (new_position d f (negsuc n) seek_end ≡ f.size - (n + 1))
        × (new_position d f (negsuc n) seek_set ≡ 0)
  unfolding new_position move_offset
  new_position_lem f n a b = (ground arith, ground arith, ground arith, ground arith, refl)

  get_mte-table : (st : Fs State) (i : ℕ) → mte d (get_mte d st i).1 ≡ mte d st
  get_mte-table st i =
      let same = get_mte-same d st i in
      fun_ext λ j. mte-same d st (get_mte d st i).1 j (ap (λ f. f.metadata_addr) same.0) same.1

  follow_step :
      (n prev b v : ℕ) (os : Os State)
      → (get_mte d os.fs b).0 ≡ some v
      → follow d (suc n) prev b os ≡ follow d n b v (record os { fs = (get_mte d os.fs b).1 })
  unfolding follow
  follow_step n prev b v os e =
      ap
        (λ r.
          (elim r as (λ _. Cmd State (Option (ℕ × ℕ))) [
            | none ↦ pure none
            | some block ↦ follow d n b block
          ])
            (record os { fs = (get_mte d os.fs b).1 }))
        e

  -- The blocks that `follow` ends with.
  pub record Followed (n prev b : ℕ) (os : Os State) : Type 0 where
    pub before : ℕ
    pub after : Os State
    pub result : follow d n prev b os ≡ some (some (before, walk (mte d os.fs) n b), after)
    pub unmoved : n ≡ 0 → before ≡ prev
    pub previous : (k : ℕ) → n ≡ suc k → before ≡ walk (mte d os.fs) k b
    pub table : mte d after.fs ≡ mte d os.fs

  -- On a sound drive, if the first `n` blocks of the walk from `b` are entries of the table,
  -- `follow` succeeds and gives the block `n` links behind `b` and the one before it, and the table
  -- stays as it was.
  pub follow_lem :
      (n prev b : ℕ) (os : Os State)
      → Sound d os.fs.filesys
      → ((k : ℕ) → k < n → InTable os.fs.filesys (walk (mte d os.fs) k b))
      → Followed n prev b os
  unfolding follow
  follow_lem zero prev b os sound inside = record {
    before = prev;
    after = os;
    result = refl;
    unmoved = λ e. refl;
    previous = λ k e. ground arith;
    table = refl;
  }
  follow_lem (suc n) prev b os sound inside =
      let t = mte d os.fs in
      let os1 = record os { fs = (get_mte d os.fs b).1 } in
      let same : mte d os1.fs ≡ t = get_mte-table os.fs b in
      let layout : os1.fs.filesys ≡ os.fs.filesys = (get_mte-same d os.fs b).0 in
      let rest = follow_lem n b (t b) os1 (subst (Sound d) (sym layout) sound) λ k h.
        subst (λ u. InTable os1.fs.filesys (walk u k (t b))) (sym same)
          (subst (λ f. InTable f (walk t k (t b))) (sym layout) (inside (suc k) (omega arith))) in
      record {
        before = rest.before;
        after = rest.after;
        result =
            follow_step n prev b (t b) os (get_mte-done d os.fs b sound (inside 0 (omega arith)))
            ∙ (rest.result ∙ ap (λ u. some (some (rest.before, walk u n (t b)), rest.after)) same);
        unmoved = λ e. ground arith;
        previous = λ k e.
            previous_step t (mte d os1.fs) n k b rest.before same rest.unmoved rest.previous
              (omega (arith, e));
        table = rest.table ∙ same;
      }

walk_add : (t : ℕ → ℕ) (a b x : ℕ) → walk t (a + b) x ≡ walk t b (walk t a x)
walk_add t zero b x = let e : 0 + b ≡ b = omega arith in ap (λ n. walk t n x) e
walk_add t (suc a) b x =
    let e : suc a + b ≡ suc (a + b) = omega arith in ap (λ n. walk t n x) e ∙ walk_add t a b (t x)

module _ (d : Drive) where
  open d use {State}

  -- The block that the loop over the links of `file_seek` ends with, and the table behind it.
  pub record Reached (f : File) (new_offset : ℕ) (os : Os State) : Type 0 where
    pub before : ℕ
    pub after : Os State
    pub result :
        follow d
          (seek_plan d f new_offset).0
          (seek_plan d f new_offset).1
          (seek_plan d f new_offset).1
          os
        ≡ some (some (before, walk (mte d os.fs) (new_offset / fs_block_size) f.block_index), after)
    pub table : mte d after.fs ≡ mte d os.fs

  -- On a sound drive, if the current block of a file is the one that the table links to as many
  -- steps behind the first as the current position says, and the blocks before that of a new
  -- position within the file are entries of the table: `follow`, on what `seek_plan` gives, comes to
  -- the block that the table links to as many steps behind the first as the new position says,
  -- whichever of the two blocks it begins with, and the table stays as it was.
  pub follow-seek_plan :
      (f : File) (new_offset : ℕ) (os : Os State)
      → Sound d os.fs.filesys
      → new_offset ≤ f.size
      → f.curr_block_index ≡ walk (mte d os.fs) (f.curr_offset / fs_block_size) f.block_index
      → ((k : ℕ)
          → k < new_offset / fs_block_size
          → InTable os.fs.filesys (walk (mte d os.fs) k f.block_index))
      → Reached f new_offset os
  follow-seek_plan f new_offset os sound within here inside =
      let t = mte d os.fs in
      let moves = (seek_plan d f new_offset).0 in
      let start = (seek_plan d f new_offset).1 in
      let (whole, from) = seek_plan_lem d f new_offset within in
      let s = start_position f new_offset in
      let at : start ≡ walk t s f.block_index = begins t from here in
      let y = follow_lem d moves start start os sound λ k h.
        subst (InTable os.fs.filesys) (walk_add t s k f.block_index ∙ ap (walk t k) (sym at))
          (inside (s + k) (omega arith)) in
      record {
        before = y.before;
        after = y.after;
        result =
            y.result
            ∙ ap (λ b. some (some (y.before, b), y.after))
                (ap (walk t moves) at
                  ∙ sym (walk_add t s moves f.block_index)
                  ∙ ap (λ n. walk t n f.block_index) whole);
        table = y.table;
      }
    where
      begins :
          (t : ℕ → ℕ) {start : ℕ}
          → start ≡ (
              if leb (f.curr_offset / fs_block_size) (new_offset / fs_block_size)
              then f.curr_block_index
              else f.block_index)
          → f.curr_block_index ≡ walk t (f.curr_offset / fs_block_size) f.block_index
          → start ≡ walk t (start_position f new_offset) f.block_index
      begins t {start} e e' =
          elim (Bool-cases (leb (f.curr_offset / fs_block_size) (new_offset / fs_block_size))) [
            | inl h ↦ e ∙ rw h e'
            | inr h ↦ e ∙ rw h refl
          ]
