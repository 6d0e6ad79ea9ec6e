-- ===== src/Fs/Scan.antt =====
-- The search of `filesys_alloc_block` through the sectors of the table.
use mathlib.Core.Path.{subst, ap₂}
use native.Mathlib.Nat.{mod-add-mod, mod-eq_of_lt, mod-eq-sub-mod}
use native.Mathlib.Decide.{dec_lt}
use ghittle.Base.{
  ℕ, zero, suc, ◌+◌, ◌-◌, ◌*◌, ◌/◌, ◌%◌, ◌<◌, ◌≡◌, ◌≢◌, ◌∙◌, refl, sym, ap, none, some, inl, inr,
  Option-cases, arith,
}
use ghittle.Mem.{Mem, load32}
use ghittle.Drive.{Drive, read_one}
use ghittle.Fs.{
  Filesys, Fs, fs_last_block, fs_free_block, add_u32, find_entry, read_metadata_sector, take_block,
  scan,
}
use ghittle.Fs.Table.{InTable, mte, mte_offset, load32-ext, mte-same}
use ghittle.Fs.Sound.{Sound, find_entry-some, find_entry-none}

module _ (d : Drive) where
  open d use {State, read, write, sector, read_keeps}

  -- A read of a sector of the table leaves layout and table as they were.
  read-mte : (st : Fs State) (c j : ℕ) → mte d (read_metadata_sector d st c).1 j ≡ mte d st j
  unfolding read_metadata_sector
  read-mte st c j =
      let lba = add_u32 c st.filesys.metadata_addr in
      mte-same d st (record st { drive = (read st.drive lba 1).1 }) j refl
        λ k o. read_keeps st.drive lba 1 k o

  -- An entry of the buffer is the entry of the table.
  read-entry :
      (st : Fs State) (c j : ℕ) (buf : Mem)
      → (read_metadata_sector d st c).0 ≡ some buf
      → j < 128
      → load32 buf (4 * j) ≡ mte d st (c * 128 + j)
  unfolding read_metadata_sector
  read-entry st c j buf e h =
      let lba = add_u32 c st.filesys.metadata_addr in
      let e1 : c ≡ (c * 128 + j) / 128 = omega arith in
      let e2 : 4 * j ≡ mte_offset (c * 128 + j) = omega arith in
      load32-ext buf (sector st.drive lba) (4 * j)
        (λ o lo hi. read_one d st.drive lba o buf e (omega arith))
      ∙ ap₂ (λ (n a : ℕ). load32 (sector st.drive (add_u32 n st.filesys.metadata_addr)) a) e1 e2

  -- How a scan ends well: with a free block, taken in a state with the table of the start.
  pub record Took (st : Fs State) (prev_index : ℕ) (out : ℕ × Fs State) : Type 0 where
    pub was_free : mte d st out.0 ≡ fs_free_block
    pub in_table : InTable st.filesys out.0
    pub before : Fs State
    pub layout : before.filesys ≡ st.filesys
    pub table : (j : ℕ) → mte d before j ≡ mte d st j
    pub after : out ≡ take_block d before out.0 prev_index

  module _ (n prev_index c : ℕ) (st : Fs State) (m : Mem) where
    abbrev seen : Fs State
    seen = (read_metadata_sector d st c).1

    scan_hit :
        (j : ℕ)
        → (read_metadata_sector d st c).0 ≡ some m
        → find_entry m 0 128 ≡ some j
        → scan d (suc n) prev_index c st ≡ take_block d seen (add_u32 (c * 128) j) prev_index
    unfolding scan
    scan_hit j e f = rw (e, scan, f, scan) refl

    scan_miss :
        (read_metadata_sector d st c).0 ≡ some m
        → find_entry m 0 128 ≡ none
        → scan d (suc n) prev_index c st
          ≡ scan d n prev_index ((c + 1) % st.filesys.metadata_sectors) seen
    unfolding scan
    scan_miss e f = ground arith

  take_block-index :
      (st : Fs State) (index prev_index : ℕ) → (take_block d st index prev_index).0 ≡ index
  unfolding take_block
  take_block-index st index prev_index = refl

  read_keeps_layout : (st : Fs State) (c : ℕ) → (read_metadata_sector d st c).1.filesys ≡ st.filesys
  unfolding read_metadata_sector
  read_keeps_layout st c = refl

  read_works :
      (st : Fs State) (c : ℕ)
      → Sound d st.filesys
      → c < st.filesys.metadata_sectors
      → (m : Mem) × ((read_metadata_sector d st c).0 ≡ some m)
  unfolding read_metadata_sector
  read_works st c sound h = sound.works.reads st.drive c h

  hit-Took :
      (st : Fs State) (c j prev_index : ℕ) (m : Mem) (out : ℕ × Fs State)
      → Sound d st.filesys
      → c < st.filesys.metadata_sectors
      → (read_metadata_sector d st c).0 ≡ some m
      → find_entry m 0 128 ≡ some j
      → out ≡ take_block d (read_metadata_sector d st c).1 (add_u32 (c * 128) j) prev_index
      → Took st prev_index out
  hit-Took st c j prev_index m out sound hc e f eq =
      let hit = find_entry-some m 0 128 j f in
      let index : add_u32 (c * 128) j ≡ c * 128 + j = omega (arith, sound.small) in
      let at : out.0 ≡ c * 128 + j =
        ap (λ (o : ℕ × Fs State). o.0) eq ∙ take_block-index _ _ prev_index ∙ index in
      record {
        was_free = ap (mte d st) at ∙ sym (read-entry st c j m e (omega arith)) ∙ hit.2;
        in_table = omega (arith, at, hit);
        before = (read_metadata_sector d st c).1;
        layout = read_keeps_layout st c;
        table = read-mte st c;
        after =
            eq
            ∙ ap (λ k. take_block d (read_metadata_sector d st c).1 k prev_index) (index ∙ sym at);
      }

  later-Took :
      (st st' : Fs State) (prev_index : ℕ) (out : ℕ × Fs State)
      → st'.filesys ≡ st.filesys
      → ((j : ℕ) → mte d st' j ≡ mte d st j)
      → Took st' prev_index out
      → Took st prev_index out
  later-Took st st' prev_index out e same took = record {
    was_free = sym (same out.0) ∙ took.was_free;
    in_table = subst (λ f. InTable f out.0) e took.in_table;
    before = took.before;
    layout = took.layout ∙ e;
    table = λ j. took.table j ∙ same j;
    after = took.after;
  }

  scan-zero : (prev_index c : ℕ) (st : Fs State) → (scan d zero prev_index c st).0 ≡ fs_last_block
  unfolding scan
  scan-zero prev_index c st = refl

  -- A scan that gives a block gives a free one, and takes it.
  pub scan-Took :
      (n prev_index c : ℕ) (st : Fs State)
      → Sound d st.filesys
      → c < st.filesys.metadata_sectors
      → (scan d n prev_index c st).0 ≢ fs_last_block
      → Took st prev_index (scan d n prev_index c st)
  scan-Took zero prev_index c st sound hc ne = absurd (ne (scan-zero prev_index c st))
  scan-Took (suc n) prev_index c st sound hc ne =
      let (m, e) = read_works st c sound hc in
      elim (Option-cases (find_entry m 0 128)) [
        | inl f ↦
            let st' = (read_metadata_sector d st c).1 in
            let step = scan_miss n prev_index c st m e f in
            let kept = read_keeps_layout st c in
            let sound' = subst (λ g. Sound d g) (sym kept) sound in
            let room : (c + 1) % st.filesys.metadata_sectors < st'.filesys.metadata_sectors =
              omega (arith, ap (λ (g : Filesys). g.metadata_sectors) kept) in
            later-Took st st' prev_index (scan d (suc n) prev_index c st) kept (read-mte st c) (
              subst (λ o. Took st' prev_index o) (sym step)
                (scan-Took n prev_index ((c + 1) % st.filesys.metadata_sectors) st' sound' room
                  λ p. ne (ap (λ (o : ℕ × Fs State). o.0) step ∙ p)))
        | inr (j, f) ↦
            hit-Took st c j prev_index m (scan d (suc n) prev_index c st) sound hc e f
              (scan_hit n prev_index c st m j e f)
      ]

  -- The `k`-th sector that a scan from `c` on reads.
  abbrev pub visited : Filesys → ℕ → ℕ → ℕ
  visited f c k = (c + k) % f.metadata_sectors

  scan-zero_state :
      (prev_index c : ℕ) (st : Fs State) (j : ℕ)
      → mte d (scan d zero prev_index c st).1 j ≡ mte d st j
  unfolding scan
  scan-zero_state prev_index c st j = refl

  -- The entries of the first sector, and those of the later rounds.
  miss_all :
      (st : Fs State) (c : ℕ) (m : Mem) (n : ℕ)
      → (read_metadata_sector d st c).0 ≡ some m
      → find_entry m 0 128 ≡ none
      → c < st.filesys.metadata_sectors
      → ((k j : ℕ)
          → k < n
          → j < 128
          → mte d st (visited st.filesys ((c + 1) % st.filesys.metadata_sectors) k * 128 + j)
            ≢ fs_free_block)
      → (k j : ℕ) → k < suc n
      → j < 128
      → mte d st (visited st.filesys c k * 128 + j) ≢ fs_free_block
  miss_all st c m n e f hc later zero j hk hj p =
      let first : visited st.filesys c 0 ≡ c =
        ap (λ x. x % st.filesys.metadata_sectors) (omega arith) ∙ mod-eq_of_lt hc in
      find_entry-none m 0 128 j f (omega arith) hj
        (read-entry st c j m e hj ∙ ap (λ x. mte d st (x * 128 + j)) (sym first) ∙ p)
  miss_all st c m n e f hc later (suc k) j hk hj p =
      let next : visited st.filesys ((c + 1) % st.filesys.metadata_sectors) k
          ≡ visited st.filesys c (suc k) =
        rw mod-add-mod (ap (λ x. x % st.filesys.metadata_sectors) (omega arith)) in
      later k j (omega arith) hj (ap (λ x. mte d st (x * 128 + j)) next ∙ p)

  -- A scan that gives nothing has seen no free entry in the sectors of its rounds, and has left
  -- the table as it was.
  pub scan-none :
      (n prev_index c : ℕ) (st : Fs State)
      → Sound d st.filesys
      → c < st.filesys.metadata_sectors
      → (scan d n prev_index c st).0 ≡ fs_last_block
      → ((k j : ℕ) → k < n → j < 128 → mte d st (visited st.filesys c k * 128 + j) ≢ fs_free_block)
        × ((j : ℕ) → mte d (scan d n prev_index c st).1 j ≡ mte d st j)
  scan-none zero prev_index c st sound hc eq =
      (λ k j hk hj. elim hk [ ], λ j. scan-zero_state prev_index c st j)
  scan-none (suc n) prev_index c st sound hc eq =
      let (m, e) = read_works st c sound hc in
      elim (Option-cases (find_entry m 0 128)) [
        | inl f ↦
            let st' = (read_metadata_sector d st c).1 in
            let c' = (c + 1) % st.filesys.metadata_sectors in
            let step = scan_miss n prev_index c st m e f in
            let kept = read_keeps_layout st c in
            let sound' = subst (λ g. Sound d g) (sym kept) sound in
            let room : c' < st'.filesys.metadata_sectors =
              omega (arith, ap (λ (g : Filesys). g.metadata_sectors) kept) in
            let (none_free, same) =
              scan-none n prev_index c' st' sound' room
                (ap (λ (o : ℕ × Fs State). o.0) (sym step) ∙ eq) in
            (
              λ k j hk hj.
                  miss_all st c m n e f hc
                    (λ i l hi hl p. none_free i l hi hl (
                      ap (λ g. mte d st' (visited g c' i * 128 + l)) kept
                      ∙ read-mte st c (visited st.filesys c' i * 128 + l)
                      ∙ p))
                    k j hk hj,
              λ j. ap (λ (o : ℕ × Fs State). mte d o.1 j) step ∙ same j ∙ read-mte st c j,
            )
        | inr (j, f) ↦
            let hit = find_entry-some m 0 128 j f in
            let at : (scan d (suc n) prev_index c st).0 ≡ add_u32 (c * 128) j =
              ap (λ (o : ℕ × Fs State). o.0) (scan_hit n prev_index c st m j e f)
              ∙ take_block-index _ _ prev_index in
            absurd (omega (arith, sound.small, at, eq, hit))
      ]

  -- Every entry of the table is read by a scan of all sectors.
  pub visited_all :
      (f : Filesys) (c i : ℕ)
      → c < f.metadata_sectors
      → InTable f i
      → (k : ℕ) × (k < f.metadata_sectors) × (visited f c k ≡ i / 128)
  visited_all f c i hc hi = elim (dec_lt (i / 128) c) [
    | yes p ↦
        let k = i / 128 + f.metadata_sectors - c in
        (
          k,
          omega arith,
          mod-eq-sub-mod {n = c + k} {m = f.metadata_sectors} (omega arith)
              ∙ ap (λ x. x % f.metadata_sectors) (omega arith)
              ∙ mod-eq_of_lt hi,
        )
    | no p ↦
        let k = i / 128 - c in
        (k, omega arith, ap (λ x. x % f.metadata_sectors) (omega arith) ∙ mod-eq_of_lt hi)
  ]
