-- ===== src/Fs/Chain.antt =====
-- `free_blocks_all` on a chain of blocks.
use mathlib.Core.Path.{subst}
use ghittle.Base.{
  ℕ, zero, suc, ◌/◌, ◌<◌, ◌≡◌, ◌≢◌, ◌∙◌, refl, sym, ap, Bool, true, false, some, inl, inr,
  Bool-cases, List, [], ◌∷◌, ◌||◌, length, ◌==◌, ==_iff, ==_ne, if◌then◌else◌, arith,
}
use ghittle.Mem.{load32}
use ghittle.Drive.{Drive}
use ghittle.Fs.{Filesys, Fs, fs_last_block, fs_free_block, set_mte, get_mte, free_blocks_all}
use ghittle.Fs.Table.{
  InTable, mte, mte_offset, mte-same, set_mte_lem, set_mte-filesys, get_mte-mte, get_mte-same,
}
use ghittle.Fs.Sound.{Sound, set_mte-done}

abbrev pub has : ℕ → List ℕ → Bool
has b [] = false
has b (c ∷ cs) = b == c || has b cs

-- In the table `t` the distinct blocks `bs` lead from `b` to FS_LAST_BLOCK.
pub data Chain (t : ℕ → ℕ) : ℕ → List ℕ → Type 0 where
  end : {b : ℕ} → b ≡ fs_last_block → Chain t b []
  link :
      {b : ℕ} {bs : List ℕ}
      → b ≢ fs_last_block
      → has b bs ≡ false
      → Chain t (t b) bs
      → Chain t b (b ∷ bs)

-- A chain does not depend on the entries of other blocks.
Chain-frame :
    (t u : ℕ → ℕ) {b : ℕ} {bs : List ℕ}
    → Chain t b bs
    → ((j : ℕ) → has j bs ≡ true → u j ≡ t j)
    → Chain u b bs
Chain-frame t u (end e) same = end e
Chain-frame t u (link {b} {bs} ne new rest) same = link ne new (
    subst (λ n. Chain u n bs) (sym (same b (ground arith)))
      (Chain-frame t u rest λ j h. same j (ground arith)))

has_ne : (j b : ℕ) (bs : List ℕ) → j ≡ b → has j bs ≡ true → has b bs ≡ false → ⊥
has_ne j b bs p h new = cc

module _ (d : Drive) where
  open d use {State, read}

  abbrev pub AllInTable : Filesys → List ℕ → Type 0
  AllInTable f [] = Unit
  AllInTable f (b ∷ bs) = InTable f b × AllInTable f bs

  get_mte-some :
      (st : Fs State) (i : ℕ)
      → Sound d st.filesys
      → InTable st.filesys i
      → (v : ℕ) × ((get_mte d st i).0 ≡ some v)
  unfolding get_mte
  get_mte-some st i sound hi =
      let (m, e) = sound.works.reads st.drive (i / 128) hi in
      (load32 m (mte_offset i), ground arith)

  -- On a sound drive `get_mte` succeeds for every entry of the table.
  pub get_mte-done :
      (st : Fs State) (i : ℕ)
      → Sound d st.filesys
      → InTable st.filesys i
      → (get_mte d st i).0 ≡ some (mte d st i)
  get_mte-done st i sound hi =
      let (v, e) = get_mte-some st i sound hi in e ∙ ap some (get_mte-mte d st i v e)

  module _ (fuel b : ℕ) (st : Fs State) where
    abbrev looked : Fs State
    looked = (get_mte d st b).1

    abbrev freed : Fs State
    freed = (set_mte d looked b fs_free_block).1

    free_step :
        (next : ℕ)
        → b ≢ fs_last_block
        → (get_mte d st b).0 ≡ some next
        → (set_mte d looked b fs_free_block).0 ≡ true
        → free_blocks_all d (suc fuel) b st ≡ free_blocks_all d fuel next freed
    unfolding free_blocks_all
    free_step next ne e done =
        rw (==_ne b fs_last_block ne, free_blocks_all, e, free_blocks_all, done)

    freed-mte :
        (j : ℕ)
        → Sound d st.filesys
        → InTable st.filesys b
        → InTable st.filesys j
        → ((set_mte d looked b fs_free_block).0 ≡ true)
          × (mte d freed j ≡ (if j == b then 0 else mte d st j))
    freed-mte j sound hb hj =
        let (kept, same) = get_mte-same d st b in
        let e = sym kept in
        let sound1 = subst (λ f. Sound d f) e sound in
        let hb1 = subst (λ f. InTable f b) e hb in
        let done = set_mte-done d looked b fs_free_block sound1.works hb1 in
        let old : mte d looked j ≡ mte d st j =
          mte-same d st looked j (ap (λ (f : Filesys). f.metadata_addr) kept) same in
        (
          done,
          set_mte_lem d looked b fs_free_block j sound1.fits hb1 (subst (λ f. InTable f j) e hj)
                (omega arith) done
              ∙ ap (λ x. if j == b then 0 else x) old,
        )

    freed-layout : freed.filesys ≡ st.filesys
    freed-layout = set_mte-filesys d looked b fs_free_block ∙ (get_mte-same d st b).0

  free_end :
      (fuel b : ℕ) (st : Fs State)
      → b ≡ fs_last_block
      → free_blocks_all d (suc fuel) b st ≡ (some true, st)
  unfolding free_blocks_all
  free_end fuel b st e = rw e refl

  AllInTable-has :
      (f : Filesys) (bs : List ℕ) (j : ℕ) → AllInTable f bs → has j bs ≡ true → InTable f j
  AllInTable-has f [] j all h = cc
  AllInTable-has f (b ∷ bs) j all h = elim (Bool-cases (j == b)) [
    | inl e ↦ rw ((==_iff j b).0 e) (all.0)
    | inr ne ↦ AllInTable-has f bs j all.1 (rw ne at h)
  ]

  -- On a sound drive, for a chain of entries of the table, and with more fuel than the chain has
  -- blocks, `free_blocks_all` succeeds: it frees exactly the blocks of the chain, and changes no
  -- other entry of the table.
  pub free_blocks_all_lem :
      (fuel b : ℕ) (bs : List ℕ) (st : Fs State)
      → Sound d st.filesys
      → AllInTable st.filesys bs
      → length bs < fuel
      → Chain (mte d st) b bs
      → let (r, st') = free_blocks_all d fuel b st in
        (r ≡ some true)
        × ((j : ℕ)
            → InTable st.filesys j
            → mte d st' j ≡ (if has j bs then fs_free_block else mte d st j))
  free_blocks_all_lem zero b bs st sound all lt chain = elim lt [ ]
  free_blocks_all_lem (suc fuel) b _ st sound all lt (end e) =
      rw (free_end fuel b st e) (refl, λ j hj. refl)
  free_blocks_all_lem (suc fuel) _ _ st sound all lt (link {b} {bs} ne new rest) =
      let t = mte d st in
      let st2 = freed fuel b st in
      let layout = freed-layout fuel b st in
      let e = sym layout in
      let (done, _) = freed-mte fuel b st b sound all.0 all.0 in
      let after = λ (j : ℕ) (hj : InTable st.filesys j). (freed-mte fuel b st j sound all.0 hj).1 in
      let step = free_step fuel b st (t b) ne (get_mte-done st b sound all.0) done in
      let kept : Chain (mte d st2) (t b) bs = Chain-frame t (mte d st2) rest λ j h.
        after j (AllInTable-has st.filesys bs j all.1 h)
        ∙ rw (==_ne j b (λ p. has_ne j b bs p h new)) refl in
      let ih =
        free_blocks_all_lem fuel (t b) bs st2 (subst (λ f. Sound d f) e sound)
          (subst (λ f. AllInTable f bs) e all.1) (omega arith) kept in
      rw step (ih.0, λ j hj. ground (arith, ih.1 j (subst (λ f. InTable f j) e hj), after j hj))
