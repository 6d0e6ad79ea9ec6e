-- ===== src/Fs/Alloc.antt =====
-- `filesys_alloc_block`: what it gives, and when it gives nothing.
use mathlib.Core.Path.{subst}
use ghittle.Base.{
  ℕ, ◌+◌, ◌*◌, ◌/◌, ◌%◌, ◌≤◌, ◌<◌, ◌≡◌, ◌≢◌, ◌∙◌, refl, sym, ap, true, ◌==◌, if◌then◌else◌, arith,
}
use ghittle.Drive.{Drive}
use ghittle.Fs.{Fs, fs_last_block, fs_free_block, add_u32, scan, alloc_locked}
use ghittle.Fs.Table.{InTable, mte}
use ghittle.Fs.Sound.{Sound, take_block-mte}
use ghittle.Fs.Scan.{Took, scan-Took, scan-Took, visited, scan-none, scan-none, visited_all}

module _ (d : Drive) where
  open d use {State, read, write, sector, read_keeps}

  alloc_locked-scan :
      (st : Fs State) (prev_index : ℕ)
      → st.filesys.mounted ≡ true
      → alloc_locked d prev_index st
        ≡ scan d st.filesys.metadata_sectors prev_index
            (add_u32 st.filesys.last_allocated_index 1 % st.filesys.total_blocks / 128)
            st
  unfolding alloc_locked
  alloc_locked-scan st prev_index mounted = rw mounted

  -- A scan of all sectors that gives nothing.
  scan_full :
      (st : Fs State) (prev_index c j : ℕ) (out : ℕ × Fs State)
      → Sound d st.filesys
      → c < st.filesys.metadata_sectors
      → InTable st.filesys j
      → out ≡ scan d st.filesys.metadata_sectors prev_index c st
      → out.0 ≡ fs_last_block
      → (res : ℕ × Fs State) → res ≡ out
      → (mte d st j ≢ fs_free_block) × (mte d res.1 j ≡ mte d st j)
  scan_full st prev_index c j out sound hc hj e eq res same =
      let (none_free, kept) =
        scan-none d st.filesys.metadata_sectors prev_index c st sound hc
          (ap (λ (o : ℕ × Fs State). o.0) (sym e) ∙ eq) in
      let (k, hk, at) = visited_all d st.filesys c j hc hj in
      let whole : visited d st.filesys c k * 128 + j % 128 ≡ j = omega (arith, at) in
      (
        λ p. none_free k (j % 128) hk (omega arith) (ap (mte d st) whole ∙ p),
        ap (λ (o : ℕ × Fs State). mte d o.1 j) (same ∙ e) ∙ kept j,
      )

  Took-table :
      (st : Fs State) (prev_index : ℕ) (out : ℕ × Fs State)
      → Sound d st.filesys
      → (prev_index ≢ fs_last_block → InTable st.filesys prev_index)
      → Took d st prev_index out
      → (mte d st out.0 ≡ fs_free_block)
        × InTable st.filesys out.0
        × ((j : ℕ)
            → InTable st.filesys j
            → mte d out.1 j ≡ (
                if prev_index == fs_last_block
                then (if j == out.0 then fs_last_block else mte d st j)
                else (if j == prev_index
                    then out.0
                    else (if j == out.0 then fs_last_block else mte d st j))))
  Took-table st prev_index out sound hp took =
      let e = sym took.layout in
      (
        took.was_free,
        took.in_table,
        λ j hj.
            ap (λ (o : ℕ × Fs State). mte d o.1 j) took.after
            ∙ take_block-mte d took.before out.0 prev_index j (subst (λ f. Sound d f) e sound)
                (subst (λ f. InTable f out.0) e took.in_table)
                (λ ne. subst (λ f. InTable f prev_index) e (hp ne)) (subst (λ f. InTable f j) e hj)
            ∙ ap
                (λ x.
                  if prev_index == fs_last_block
                  then (if j == out.0 then fs_last_block else x)
                  else (if j == prev_index
                      then out.0
                      else (if j == out.0 then fs_last_block else x)))
                (took.table j),
      )

  -- If the drive does not fail, the file system is mounted with at least one block and no more
  -- blocks than the table has entries, and `prev_index` is FS_LAST_BLOCK or an entry of the
  -- table, `filesys_alloc_block` between its `lock` and `unlock` gives FS_LAST_BLOCK only if no
  -- entry of the table is free, and then leaves the table as it was. Any other result is a block
  -- that was free and is now taken: it ends its chain, `prev_index` points to it (unless that is
  -- FS_LAST_BLOCK), and no other entry changed.
  pub alloc_locked_lem :
      (st : Fs State) (prev_index : ℕ)
      → Sound d st.filesys
      → st.filesys.mounted ≡ true
      → 0 < st.filesys.total_blocks
      → st.filesys.total_blocks ≤ 128 * st.filesys.metadata_sectors
      → (prev_index ≢ fs_last_block → InTable st.filesys prev_index)
      → let (b, st') = alloc_locked d prev_index st in
        (b ≡ fs_last_block
          → (j : ℕ) → InTable st.filesys j
          → (mte d st j ≢ fs_free_block) × (mte d st' j ≡ mte d st j))
        × (b ≢ fs_last_block
            → (mte d st b ≡ fs_free_block)
              × InTable st.filesys b
              × ((j : ℕ)
                  → InTable st.filesys j
                  → mte d st' j ≡ (
                      if prev_index == fs_last_block
                      then (if j == b then fs_last_block else mte d st j)
                      else (if j == prev_index
                          then b
                          else (if j == b then fs_last_block else mte d st j)))))
  alloc_locked_lem st prev_index sound mounted some_blocks fit hp =
      let c = add_u32 st.filesys.last_allocated_index 1 % st.filesys.total_blocks / 128 in
      let n = st.filesys.metadata_sectors in
      let start : c < n = omega arith in
      let same = alloc_locked-scan st prev_index mounted in
      let same_block = ap (λ (o : ℕ × Fs State). o.0) same in
      (
        λ p j hj.
            scan_full st prev_index c j (scan d n prev_index c st) sound start hj refl
              (sym same_block ∙ p) (alloc_locked d prev_index st) same,
        λ ne. Took-table st prev_index (alloc_locked d prev_index st) sound hp (
            subst (λ o. Took d st prev_index o) (sym same)
              (scan-Took d n prev_index c st sound start (λ p. ne (same_block ∙ p)))),
      )
