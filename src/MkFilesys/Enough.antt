-- ===== src/MkFilesys/Enough.antt =====
-- When mkimage/mkfilesys.c has room for a file: free entries in the table and in the root directory.
use ghittle.Base.{
  ℕ, zero, suc, ◌+◌, ◌*◌, ◌/◌, ◌<◌, ◌≤◌, ◌≡◌, ◌≢◌, ◌⊎◌, ◌∙◌, refl, sym, ap, inl, inr, Bool-cases,
  true, List, [], ◌∷◌, length, ◌==◌, ==_ne, ==_refl, if◌then◌else◌, arith,
}
use ghittle.Base.Int.{ℤ, pos, negsuc}
use ghittle.Mem.{Mem, load32}
use ghittle.Fs.{fs_last_block}
use ghittle.MkFilesys.{Table, alloc_block, base_name, update_from, update_dentry}
use ghittle.MkFilesys.Alloc.{Outcome, alloc_block-Outcome}
use ghittle.MkFilesys.Store.{Picks, stop, pick, Picked, alloc_block-Picked, Picked-used}

-- How many of `n` entries from `i` on are free.
unfoldable pub free_count : Table → ℕ → ℕ → ℕ
free_count t i zero = 0
free_count t i (suc n) = let rest = free_count t (i + 1) n in if t i == 0 then suc rest else rest

free_count-none :
    (t : Table) (i n : ℕ) → ((j : ℕ) → i ≤ j → j < i + n → t j ≢ 0) → free_count t i n ≡ 0
unfolding free_count
free_count-none t i zero used = refl
free_count-none t i (suc n) used = ground (
  arith,
  used i (omega arith) (omega arith),
  free_count-none t (i + 1) n (λ j low high. used j (omega arith) (omega arith)),
)

free_count-kept :
    (t t1 : Table) (i n : ℕ)
    → ((j : ℕ) → i ≤ j → t j ≡ 0 → t1 j ≡ 0)
    → free_count t i n ≤ free_count t1 i n
unfolding free_count
free_count-kept t t1 i zero kept = omega arith
free_count-kept t t1 i (suc n) kept = ground (
  arith,
  kept i (omega arith),
  free_count-kept t t1 (i + 1) n (λ j low e. kept j (omega arith) e),
)

-- A table that has taken one entry.
free_count-taken :
    (t t1 : Table) (b i n : ℕ)
    → ((j : ℕ) → j ≢ b → t j ≡ 0 → t1 j ≡ 0)
    → free_count t i n ≤ suc (free_count t1 i n)
unfolding free_count
free_count-taken t t1 b i zero kept = omega arith
free_count-taken t t1 b i (suc n) kept = elim (Bool-cases (i == b)) [
  | inl e ↦
      ground
        (arith, free_count-kept t t1 (i + 1) n (λ j low free. kept j (ground (arith, e, low)) free))
  | inr e ↦ ground (arith, kept i (ground (arith, e)), free_count-taken t t1 b (i + 1) n kept)
]

found :
    (size prev : ℕ) (t : Table) (r : ℤ × Table)
    → Outcome 0 (size / 4) prev t r
    → 0 < free_count t 0 (size / 4)
    → (b : ℕ) × (t1 : Table) × (r ≡ (pos b, t1))
unfolding Outcome
found size prev t (negsuc k, t1) o h = absurd (omega (arith, h, free_count-none t 0 (size / 4) o.1))
found size prev t (pos b, t1) o h = (b, t1, refl)

-- What is free behind an allocation was free before, and only the block is taken.
Picked-free :
    (size : ℕ) {t t1 : Table} {prev b : ℕ}
    → Picked size t prev b t1
    → (prev ≡ 0) ⊎ (t prev ≢ 0)
    → (j : ℕ) → j ≢ b
    → t j ≡ 0
    → t1 j ≡ 0
Picked-free size {t} {t1} {prev} {b} p (inl none) j ne free =
    p.entries j ∙ rw (==_ne j b ne, none) (ground (arith, free))
Picked-free size {t} {t1} {prev} {b} p (inr used) j ne free =
    let apart : j ≢ prev = λ q. used (ap t (sym q) ∙ free) in
    p.entries j ∙ rw (==_ne j b ne, ==_ne j prev apart) free

-- With as many free entries, `alloc_block` gives so many blocks one after the other.
pub Picks-enough :
    (size n : ℕ) (t : Table) (prev : ℕ)
    → n ≤ free_count t 0 (size / 4)
    → t 0 ≢ 0
    → (prev ≡ 0) ⊎ (t prev ≢ 0)
    → (bs : List ℕ) × (t2 : Table) × Picks size t prev bs t2 × (length bs ≡ n)
Picks-enough size zero t prev enough root linked = ([], t, stop, refl)
Picks-enough size (suc n) t prev enough root linked =
    let (b, t1, e) =
      found size prev t (alloc_block t size prev) (alloc_block-Outcome t size prev) (omega arith) in
    let p = alloc_block-Picked size t t1 prev b e in
    let last : t1 b ≡ fs_last_block = p.entries b ∙ rw (==_refl b) refl in
    let taken = free_count-taken t t1 b 0 (size / 4) (Picked-free size p linked) in
    let (bs, t2, picks, count) =
      Picks-enough size n t1 b (omega (arith, taken, enough)) (Picked-used size p root 0 root)
        (inr (λ q. omega (arith, last, q))) in
    (b ∷ bs, t2, pick e picks, omega (arith, count))

update_from-room :
    (n i entry : ℕ) (m : Mem) (name : List ℕ) (total b : ℕ)
    → i < n
    → load32 m (entry + 32 * i + 28) ≡ 0
    → (update_from entry n m name total b).0 ≡ true
unfolding update_from
update_from-room zero i entry m name total b less free = ground arith
update_from-room (suc n) zero entry m name total b less free = ground (arith, free)
update_from-room (suc n) (suc i) entry m name total b less free =
    let next : entry + 32 * suc i + 28 ≡ entry + 32 + 32 * i + 28 = omega arith in
    let rest =
      update_from-room n i (entry + 32) m name total b (omega arith)
        (ap (load32 m) (sym next) ∙ free) in
    elim (Bool-cases (load32 m (entry + 28) == 0)) [ inl e ↦ rw e refl | inr e ↦ rw e rest ]

-- A file finds its place in a root directory with a free entry.
pub update_dentry-room :
    (m : Mem) (name : List ℕ) (total b i : ℕ)
    → i < 128
    → load32 m (32 * i + 28) ≡ 0
    → (update_dentry m name total b).0 ≡ true
unfolding update_dentry
update_dentry-room m name total b i less free =
    let at : 0 + 32 * i + 28 ≡ 32 * i + 28 = omega arith in
    update_from-room 128 i 0 m (base_name name name) total b less (ap (load32 m) at ∙ free)
