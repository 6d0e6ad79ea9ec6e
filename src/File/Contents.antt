-- ===== src/File/Contents.antt =====
-- The blocks of a drive as `file_read` finds them: reads do not change what the drive holds.
use mathlib.Core.Path.{subst}
use ghittle.Base.{
  ℕ, ◌+◌, ◌*◌, ◌/◌, ◌%◌, ◌^◌, ◌<◌, ◌≡◌, ◌∙◌, refl, sym, ap, Bool-cases, inl, inr, Option, none,
  some, ltb,
}
use ghittle.Mem.{Mem}
use ghittle.Drive.{Drive}
use ghittle.Fs.{Fs, add_u32, fs_sectors_per_block, get_mte, take_entry}
use ghittle.Fs.Block.{block_read, block_sector}
use ghittle.Fs.Table.{mte, InTable, get_mte-same, mte-same}
use ghittle.Fs.Sound.{Sound}
use ghittle.Fs.Chain.{get_mte-done}

module _ (d : Drive) where
  open d use {State, read, sector, read_some, read_keeps}

  -- The byte `a` of a block.
  abbrev pub block_byte : Fs State → ℕ → ℕ → ℕ
  block_byte st b a = sector st.drive (block_sector d st b + a / 512) (a % 512)

  -- The table can be read, and so can every block that has an entry in it.
  pub record Readable (st : Fs State) : Type 0 where
    pub sound : Sound d st.filesys
    pub blocks :
        (s : State) (b : ℕ)
        → InTable st.filesys b
        → (m : Mem) × ((read s (block_sector d st b) fs_sectors_per_block).0 ≡ some m)

  -- The file system is as in `st0`, up to what a drive does not show.
  pub record Same (st0 st : Fs State) : Type 0 where
    pub layout : st.filesys ≡ st0.filesys
    pub base : st.block_base ≡ st0.block_base
    pub sectors : (k o : ℕ) → sector st.drive k o ≡ sector st0.drive k o

  pub Same-refl : (st : Fs State) → Same st st
  Same-refl st = record { layout = refl; base = refl; sectors = λ k o. refl }

  module _ (st0 st : Fs State) (ready : Readable st0) (same : Same st0 st) (b : ℕ)
      (h : InTable st0.filesys b) where
    same_sector : block_sector d st b ≡ block_sector d st0 b
    same_sector = ap (λ n. add_u32 (b * fs_sectors_per_block % 2 ^ 32) n) same.base

    -- A read of a block gives its bytes.
    pub block_read-Same :
        (m : Mem) × ((block_read d st b).0 ≡ some m)
        × ((a : ℕ) → a < 4096 → m a ≡ block_byte st0 b a)
        × Same st0 (block_read d st b).1
    unfolding block_read
    block_read-Same =
        let (m, e) = ready.blocks st.drive b h in
        let got : (read st.drive (block_sector d st b) fs_sectors_per_block).0 ≡ some m =
          ap (λ n. (read st.drive n fs_sectors_per_block).0) same_sector ∙ e in
        (
          m,
          got,
          λ a low.
              read_some st.drive (block_sector d st b) fs_sectors_per_block a m got low
              ∙ same.sectors (block_sector d st b + a / 512) (a % 512)
              ∙ ap (λ n. sector st0.drive (n + a / 512) (a % 512)) same_sector,
          record {
            layout = same.layout;
            base = same.base;
            sectors = λ k o.
                read_keeps st.drive (block_sector d st b) fs_sectors_per_block k o
                ∙ same.sectors k o;
          },
        )

    get_mte-base : (get_mte d st b).1.block_base ≡ st.block_base
    unfolding get_mte take_entry
    get_mte-base = elim (Bool-cases (ltb st.filesys.metadata_sectors (b / 128))) [
      | inl out ↦ rw out refl
      | inr inside ↦ rw inside (take_entry-base got.0 (record st { drive = got.1 }))
    ]
      where
        got : Option Mem × State
        got = read st.drive (add_u32 (b / 128) st.filesys.metadata_addr) 1

        take_entry-base :
            (r : Option Mem) (st : Fs State) → (take_entry d b (r, st)).1.block_base ≡ st.block_base
        take_entry-base none st = refl
        take_entry-base (some m) st = refl

    -- `get_mte` gives the entry of the block.
    pub get_mte-Same : ((get_mte d st b).0 ≡ some (mte d st0 b)) × Same st0 (get_mte d st b).1
    get_mte-Same =
        let kept = get_mte-same d st b in
        (
          get_mte-done d st b (subst (λ f. Sound d f) (sym same.layout) ready.sound)
                (subst (λ f. InTable f b) (sym same.layout) h)
              ∙ ap some (mte-same d st0 st b (ap (λ f. f.metadata_addr) same.layout) same.sectors),
          record {
            layout = kept.0 ∙ same.layout;
            base = get_mte-base ∙ same.base;
            sectors = λ k o. kept.1 k o ∙ same.sectors k o;
          },
        )
