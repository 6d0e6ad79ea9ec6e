-- ===== src/Fs/Table.antt =====
-- The entries of the metadata table under `set_mte` and `get_mte`.
use native.Mathlib.Decide.{ℕ_discrete, dec_lt}
use ghittle.Base.{
  ℕ, ◌+◌, ◌*◌, ◌/◌, ◌%◌, ◌^◌, ◌≤◌, ◌<◌, ◌≡◌, ◌≢◌, ◌∙◌, refl, sym, ap, true, false, Option, none,
  some, inl, inr, Bool-cases, ◌==◌, ==_iff, ==_refl, ==_ne, ◌⊎◌, ltb, if◌then◌else◌, arith,
}
use ghittle.Mem.{Mem, load32, store32}
use ghittle.Mem.Laws.{load32-store32_self, load32-store32_ne}
use ghittle.Drive.{Drive, read_one}
use ghittle.Fs.{Filesys, Fs, fs_mte_per_sector, add_u32, put_entry, set_mte, take_entry, get_mte}

pub load32-ext :
    (m m' : Mem) (a : ℕ) → ((o : ℕ) → a ≤ o → o < a + 4 → m o ≡ m' o) → load32 m a ≡ load32 m' a
load32-ext m m' a h = omega (
  arith,
  h a (omega arith) (omega arith),
  h (a + 1) (omega arith) (omega arith),
  h (a + 2) (omega arith) (omega arith),
  h (a + 3) (omega arith) (omega arith),
)

-- The sector of an entry, and its place there.
abbrev pub mte_sector : Filesys → ℕ → ℕ
mte_sector f i = add_u32 (i / fs_mte_per_sector) f.metadata_addr

abbrev pub mte_offset : ℕ → ℕ
mte_offset i = 4 * (i % fs_mte_per_sector)

-- The table lies in the range of 32-bit sector numbers.
abbrev pub Fits : Filesys → Type 0
Fits f = f.metadata_addr + f.metadata_sectors < 2 ^ 32

-- The entry is one of the table.
abbrev pub InTable : Filesys → ℕ → Type 0
InTable f i = i / fs_mte_per_sector < f.metadata_sectors

entries_apart :
    (i j : ℕ)
    → j / fs_mte_per_sector ≡ i / fs_mte_per_sector
    → j ≢ i
    → (mte_offset i + 4 ≤ mte_offset j) ⊎ (mte_offset j + 4 ≤ mte_offset i)
entries_apart i j same ne = elim (dec_lt i j) [
  | yes h ↦ inl (omega arith)
  | no h ↦ inr (omega arith)
]

entry_written :
    (M : Mem) (i j v : ℕ)
    → j / fs_mte_per_sector ≡ i / fs_mte_per_sector
    → v < 2 ^ 32
    → load32 (store32 M (mte_offset i) v) (mte_offset j)
      ≡ (if j == i then v else load32 M (mte_offset j))
entry_written M i j v same hv = elim (ℕ_discrete j i) [
  | yes e ↦ rw (e, ==_refl i) (load32-store32_self M (mte_offset i) v hv)
  | no ne ↦
      rw (==_ne j i ne)
        (load32-store32_ne M (mte_offset i) (mte_offset j) v (entries_apart i j same ne))
]

none_ne_some : (v : ℕ) → (◌≡◌ {A = Option ℕ} none (some v)) → ⊥
none_ne_some v e = cc

other_sector : (f : Filesys) (i j : ℕ) → j ≡ i → (mte_sector f j == mte_sector f i) ≡ false → ⊥
other_sector f i j e h = ground arith

module _ (d : Drive) where
  open d use {State, read, write, sector, read_some, read_keeps, write_done, write_other}

  -- Entry `i` of the table on the drive.
  abbrev pub mte : Fs State → ℕ → ℕ
  mte st i = load32 (sector st.drive (mte_sector st.filesys i)) (mte_offset i)

  put_entry-sector :
      (r : Option Mem) (st : Fs State) (i v k o : ℕ) (M : Mem)
      → ((m : Mem) (p : ℕ) → r ≡ some m → p < 512 → m p ≡ M p)
      → (put_entry d i v (r, st)).0 ≡ true
      → o < 512
      → sector (put_entry d i v (r, st)).1.drive k o ≡ (
          if k == mte_sector st.filesys i
          then store32 M (mte_offset i) v o
          else sector st.drive k o)
  unfolding put_entry
  put_entry-sector none st i v k o M same done lt = cc
  put_entry-sector (some buf) st i v k o M same done lt =
      let lba = mte_sector st.filesys i in
      let buf' = store32 buf (mte_offset i) v in
      ground (
        arith,
        same buf o refl lt,
        write_done st.drive lba 1 buf' k o done,
        write_other st.drive lba 1 buf' k o,
      )

  -- A `set_mte` that returns 0 rewrites one entry of one sector.
  set_mte-sector :
      (st : Fs State) (i v k o : ℕ)
      → (set_mte d st i v).0 ≡ true
      → o < 512
      → sector (set_mte d st i v).1.drive k o ≡ (
          if k == mte_sector st.filesys i
          then store32 (sector st.drive (mte_sector st.filesys i)) (mte_offset i) v o
          else sector st.drive k o)
  unfolding set_mte
  set_mte-sector st i v k o done lt =
      let lba = mte_sector st.filesys i in
      let got = read st.drive lba 1 in
      let st1 = record st { drive = got.1 } in
      ground (
        arith,
        put_entry-sector got.0 st1 i v k o (sector st.drive lba)
            (λ m p e h. read_one d st.drive lba p m e h) done lt,
        read_keeps st.drive lba 1 k o,
      )

  put_entry-filesys :
      (r : Option Mem) (st : Fs State) (i v : ℕ) → (put_entry d i v (r, st)).1.filesys ≡ st.filesys
  unfolding put_entry
  put_entry-filesys none st i v = refl
  put_entry-filesys (some buf) st i v = refl

  -- `set_mte` leaves the fields of the file system alone.
  pub set_mte-filesys : (st : Fs State) (i v : ℕ) → (set_mte d st i v).1.filesys ≡ st.filesys
  unfolding set_mte
  set_mte-filesys st i v =
      let got = read st.drive (mte_sector st.filesys i) 1 in
      put_entry-filesys got.0 (record st { drive = got.1 }) i v

  -- If the table fits in the range of sector numbers and the value in 32 bits, a `set_mte` that
  -- returns 0 for entry `i` of the table changes this entry to the value, and no other entry.
  pub set_mte_lem :
      (st : Fs State) (i v j : ℕ)
      → Fits st.filesys
      → InTable st.filesys i
      → InTable st.filesys j
      → v < 2 ^ 32
      → (set_mte d st i v).0 ≡ true
      → mte (set_mte d st i v).1 j ≡ (if j == i then v else mte st j)
  set_mte_lem st i v j fits hi hj hv done =
      let st' = (set_mte d st i v).1 in
      let k = mte_sector st.filesys j in
      let lba = mte_sector st.filesys i in
      let M = sector st.drive lba in
      let a = mte_offset j in
      let moved : mte st' j ≡ load32 (sector st'.drive k) a =
        ap (λ f. load32 (sector st'.drive (mte_sector f j)) a) (set_mte-filesys st i v) in
      elim (Bool-cases (k == lba)) [
        | inl e ↦
            let to_written : load32 (sector st'.drive k) a ≡ load32 (store32 M (mte_offset i) v) a =
              load32-ext (sector st'.drive k) (store32 M (mte_offset i) v) a
                λ o lo hi. set_mte-sector st i v k o done (omega arith) ∙ rw e refl in
            let k_lba : k ≡ lba = (==_iff k lba).0 e in
            moved
            ∙ to_written
            ∙ entry_written M i j v (omega arith) hv
            ∙ ap (λ (n : ℕ). if j == i then v else load32 (sector st.drive n) a) (sym k_lba)
        | inr e ↦
            let to_old : load32 (sector st'.drive k) a ≡ mte st j =
              load32-ext (sector st'.drive k) (sector st.drive k) a
                λ o lo hi. set_mte-sector st i v k o done (omega arith) ∙ rw e refl in
            let apart : j ≢ i = λ p. other_sector st.filesys i j p e in
            moved ∙ to_old ∙ ground arith
      ]

  -- Two states with the same sectors and the same layout have the same table.
  pub mte-same :
      (st st' : Fs State) (j : ℕ)
      → st'.filesys.metadata_addr ≡ st.filesys.metadata_addr
      → ((k o : ℕ) → sector st'.drive k o ≡ sector st.drive k o)
      → mte st' j ≡ mte st j
  mte-same st st' j e same =
      let k = mte_sector st.filesys j in
      let a = mte_offset j in
      ap (λ n. load32 (sector st'.drive (add_u32 (j / fs_mte_per_sector) n)) a) e
      ∙ load32-ext (sector st'.drive k) (sector st.drive k) a λ o lo hi. same k o

  take_entry-some :
      (r : Option Mem) (st : Fs State) (i v : ℕ)
      → (take_entry d i (r, st)).0 ≡ some v
      → (m : Mem) × (r ≡ some m) × (v ≡ load32 m (mte_offset i))
  unfolding take_entry
  take_entry-some none st i v e = cc
  take_entry-some (some m) st i v e = (m, refl, ground arith)

  take_entry-state : (r : Option Mem) (st : Fs State) (i : ℕ) → (take_entry d i (r, st)).1 ≡ st
  unfolding take_entry
  take_entry-state none st i = refl
  take_entry-state (some m) st i = refl

  -- The value that `get_mte` gives is the entry on the drive.
  pub get_mte-mte : (st : Fs State) (i v : ℕ) → (get_mte d st i).0 ≡ some v → v ≡ mte st i
  unfolding get_mte
  get_mte-mte st i v e = elim (Bool-cases (ltb st.filesys.metadata_sectors (i / 128))) [
    | inl out ↦ absurd (none_ne_some v (rw out at e))
    | inr inside ↦
        let k = mte_sector st.filesys i in
        let got = read st.drive k 1 in
        let (m, em, ev) =
          take_entry-some got.0 (record st { drive = got.1 }) i v (rw inside at e) in
        ev
        ∙ load32-ext m (sector st.drive k) (mte_offset i)
            λ o lo hi. read_one d st.drive k o m em (omega arith)
  ]

  -- `get_mte` leaves the layout and every sector as they were.
  pub get_mte-same :
      (st : Fs State) (i : ℕ)
      → ((get_mte d st i).1.filesys ≡ st.filesys)
        × ((k o : ℕ) → sector (get_mte d st i).1.drive k o ≡ sector st.drive k o)
  unfolding get_mte
  get_mte-same st i = elim (Bool-cases (ltb st.filesys.metadata_sectors (i / 128))) [
    | inl out ↦ rw out (refl, λ k o. refl)
    | inr inside ↦
        let lba = mte_sector st.filesys i in
        let got = read st.drive lba 1 in
        rw (inside, take_entry-state got.0 (record st { drive = got.1 }) i)
          (refl, λ k o. read_keeps st.drive lba 1 k o)
  ]

  -- What `set_mte` wrote `get_mte` reads back, if neither fails.
  pub get_mte-set_mte :
      (st : Fs State) (i v w : ℕ)
      → Fits st.filesys
      → InTable st.filesys i
      → v < 2 ^ 32
      → (set_mte d st i v).0 ≡ true
      → (get_mte d (set_mte d st i v).1 i).0 ≡ some w
      → w ≡ v
  get_mte-set_mte st i v w fits hi hv done got =
      get_mte-mte (set_mte d st i v).1 i w got
      ∙ set_mte_lem st i v i fits hi hi hv done
      ∙ rw (==_refl i) refl
