-- ===== src/Fs/Sound.antt =====
-- A drive on which the table can be read and written, and the table behind `take_block`.
use mathlib.Core.Path.{subst}
use ghittle.Base.{
  ℕ, zero, suc, ◌+◌, ◌*◌, ◌/◌, ◌^◌, ◌≤◌, ◌<◌, ◌≡◌, ◌≢◌, ◌∙◌, refl, sym, ap, true, false, Option,
  none, some, inl, inr, Bool-cases, ◌==◌, if◌then◌else◌, arith,
}
use ghittle.Mem.{Mem, load32}
use ghittle.Drive.{Drive}
use ghittle.Fs.{Filesys, Fs, fs_last_block, add_u32, put_entry, set_mte, find_entry, take_block}
use ghittle.Fs.Table.{InTable, mte, mte_sector, set_mte_lem, set_mte-filesys}

pub find_entry-some :
    (buf : Mem) (j n k : ℕ)
    → find_entry buf j n ≡ some k
    → (j ≤ k) × (k < j + n) × (load32 buf (4 * k) ≡ 0)
unfolding find_entry
find_entry-some buf j zero k e = cc
find_entry-some buf j (suc n) k e = ground (arith, find_entry-some buf (j + 1) n k)

pub find_entry-none :
    (buf : Mem) (j n k : ℕ) → find_entry buf j n ≡ none → j ≤ k → k < j + n → load32 buf (4 * k) ≢ 0
unfolding find_entry
find_entry-none buf j zero k e lo hi = absurd (omega arith)
find_entry-none buf j (suc n) k e lo hi = ground (arith, find_entry-none buf (j + 1) n k)

ne_of_test : (a b : ℕ) → (a == b) ≡ false → a ≡ b → ⊥
ne_of_test a b h e = ground arith

module _ (d : Drive) where
  open d use {State, read, write, sector, read_keeps}

  -- The drive does not fail on the `n` sectors from `addr` on.
  pub record Works (addr n : ℕ) : Type 0 where
    pub reads : (s : State) (c : ℕ) → c < n → (m : Mem) × ((read s (add_u32 c addr) 1).0 ≡ some m)
    pub writes : (s : State) (c : ℕ) (m : Mem) → c < n → (write s (add_u32 c addr) 1 m).0 ≡ true

  -- The table fits its numbers: sectors are below 2 ^ 32, and so are entries.
  pub record SoundAt (addr n : ℕ) : Type 0 where
    pub fits : addr + n < 2 ^ 32
    pub small : 128 * n < 2 ^ 32
    pub works : Works addr n

  abbrev pub Sound : Filesys → Type 0
  Sound f = SoundAt f.metadata_addr f.metadata_sectors

  put_entry-done :
      (r : Option Mem) (st : Fs State) (i v : ℕ)
      → Works st.filesys.metadata_addr st.filesys.metadata_sectors
      → InTable st.filesys i
      → r ≢ none
      → (put_entry d i v (r, st)).0 ≡ true
  unfolding put_entry
  put_entry-done none st i v w h ne = absurd (ne refl)
  put_entry-done (some m) st i v w h ne = w.writes st.drive (i / 128) _ h

  pub set_mte-done :
      (st : Fs State) (i v : ℕ)
      → Works st.filesys.metadata_addr st.filesys.metadata_sectors
      → InTable st.filesys i
      → (set_mte d st i v).0 ≡ true
  unfolding set_mte
  set_mte-done st i v w h =
      let (m, e) = w.reads st.drive (i / 128) h in
      let got = read st.drive (mte_sector st.filesys i) 1 in
      put_entry-done got.0 (record st { drive = got.1 }) i v w h λ p. none_some (sym p ∙ e)
    where
      none_some : {m : Mem} → (◌≡◌ {A = Option Mem} none (some m)) → ⊥
      none_some p = cc

  -- `set_mte` in a later state with the same layout.
  set_mte_after :
      (st st2 : Fs State) (i v j : ℕ)
      → st.filesys ≡ st2.filesys
      → Sound st.filesys
      → InTable st.filesys i
      → InTable st.filesys j
      → v < 2 ^ 32
      → mte d (set_mte d st2 i v).1 j ≡ (if j == i then v else mte d st2 j)
  set_mte_after st st2 i v j e sound hi hj hv =
      let sound2 = subst (λ f. Sound f) e sound in
      let hi2 = subst (λ f. InTable f i) e hi in
      set_mte_lem d st2 i v j sound2.fits hi2 (subst (λ f. InTable f j) e hj) hv
        (set_mte-done st2 i v sound2.works hi2)

  -- The table behind `take_block`: `index` ends a chain, and `prev_index` points to it.
  pub take_block-mte :
      (st : Fs State) (index prev_index j : ℕ)
      → Sound st.filesys
      → InTable st.filesys index
      → (prev_index ≢ fs_last_block → InTable st.filesys prev_index)
      → InTable st.filesys j
      → mte d (take_block d st index prev_index).1 j ≡ (
          if prev_index == fs_last_block
          then (if j == index then fs_last_block else mte d st j)
          else (if j == prev_index
              then index
              else (if j == index then fs_last_block else mte d st j)))
  unfolding take_block
  take_block-mte st index prev_index j sound hi hp hj =
      let st1 = record st { filesys = record (st.filesys) { last_allocated_index = index } } in
      let st2 = (set_mte d st1 index fs_last_block).1 in
      let kept : st2.filesys ≡ st1.filesys = set_mte-filesys d st1 index fs_last_block in
      let one : mte d st2 j ≡ (if j == index then fs_last_block else mte d st j) =
        set_mte_lem d st1 index fs_last_block j sound.fits hi hj (omega arith)
          (set_mte-done st1 index fs_last_block sound.works hi) in
      elim (Bool-cases (prev_index == fs_last_block)) [
        | inl e ↦ rw e one
        | inr e ↦ rw e (
            set_mte_after st1 st2 prev_index index j (sym kept) sound
              (hp (λ p. ne_of_test prev_index fs_last_block e p)) hj (omega (arith, sound.small))
            ∙ ap (λ x. if j == prev_index then index else x) one)
      ]
