-- ===== src/MkFilesys/Alloc.antt =====
-- How mkimage/mkfilesys.c chains the blocks of a file.
use mathlib.Core.Path.{subst}
use mathlib.Core.Bool.{true}
use ghittle.Base.{
  ℕ, zero, suc, ◌+◌, ◌/◌, ◌<◌, ◌≤◌, ◌≡◌, ◌≢◌, refl, ◌==◌, if◌then◌else◌, arith, inl, inr,
  Bool-cases,
}
use ghittle.Base.Int.{ℤ, pos, negsuc}
use ghittle.MkFilesys.{Table, alloc_from, alloc_block}

-- The first free entry of a range, with the table that is left, or none free.
unfoldable pub Outcome : ℕ → ℕ → ℕ → Table → ℤ × Table → Type 0
Outcome i n prev t (negsuc _, t') = (t' ≡ t) × ((j : ℕ) → i ≤ j → j < i + n → t j ≢ 0)
Outcome i n prev t (pos k, t') =
    (i ≤ k)
    × (k < i + n)
    × (t k ≡ 0)
    × ((j : ℕ) → i ≤ j → j < k → t j ≢ 0)
    × ((j : ℕ)
        → t' j ≡ (
            if j == k
            then 0xFFFFFFFF
            else (if j == prev then (if prev == 0 then t j else k) else t j)))

same_index : (i j : ℕ) → (j == i) ≡ true → i ≡ j
same_index i j e = ground arith

Outcome-wider :
    (i n prev : ℕ) (t : Table) (r : ℤ × Table)
    → t i ≢ 0
    → Outcome (i + 1) n prev t r
    → Outcome i (suc n) prev t r
unfolding Outcome
Outcome-wider i n prev t (negsuc _, t') used (same, full) = (
  same,
  λ j from to. elim (Bool-cases (j == i)) [
    | inl e ↦ subst (λ j. t j ≢ 0) (same_index i j e) used
    | inr e ↦ full j (ground arith) (ground arith)
  ],
)
Outcome-wider i n prev t (pos k, t') used (from, to, free, before, after) = (
  omega arith,
  omega arith,
  free,
  λ j low high. elim (Bool-cases (j == i)) [
    | inl e ↦ subst (λ j. t j ≢ 0) (same_index i j e) used
    | inr e ↦ before j (ground arith) high
  ],
  after,
)

alloc_from-Outcome : (i n prev : ℕ) (t : Table) → Outcome i n prev t (alloc_from i n prev t)
unfolding alloc_from Outcome
alloc_from-Outcome i zero prev t = (refl, λ j from to. ground arith)
alloc_from-Outcome i (suc n) prev t = elim (Bool-cases (t i == 0)) [
  | inl e ↦
      rw e
        (omega arith, omega arith, ground (arith, e), λ j from to. ground arith, λ j. ground arith)
  | inr e ↦ rw e (
      Outcome-wider i n prev t (alloc_from (i + 1) n prev t) (ground (arith, e))
        (alloc_from-Outcome (i + 1) n prev t))
]

-- `alloc_block` gives the first free entry of the table, marks it as the last of a chain, and links
-- it behind the entry `prev` unless that is 0; it changes nothing else. It gives -1 exactly if no
-- entry is free, and changes nothing then.
pub alloc_block-Outcome :
    (t : Table) (size prev : ℕ) → Outcome 0 (size / 4) prev t (alloc_block t size prev)
unfolding alloc_block
alloc_block-Outcome t size prev = alloc_from-Outcome 0 (size / 4) prev t
