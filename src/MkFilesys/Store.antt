-- ===== src/MkFilesys/Store.antt =====
-- What mkimage/mkfilesys.c leaves of a file in the image: a chain of blocks, as the kernel reads it.
use mathlib.Core.Path.{subst}
use ghittle.Base.{
  ℕ, zero, suc, ◌+◌, ◌*◌, ◌/◌, ◌^◌, ◌<◌, ◌≤◌, ◌≡◌, ◌≢◌, ◌⊎◌, ◌∙◌, refl, sym, ap, inl, inr, false,
  List, [], ◌∷◌, length, ◌==◌, ==_ne, ==_refl, if◌then◌else◌, arith,
}
use ghittle.Base.Int.{pos}
use ghittle.Mem.{Mem, store}
use ghittle.Fs.{fs_last_block}
use ghittle.Fs.Chain.{Chain, end, link, has}
use ghittle.MkFilesys.{Table, alloc_block, write_piece}
use ghittle.MkFilesys.Alloc.{Outcome, alloc_block-Outcome}

-- Blocks that `alloc_block` gives one after the other, each behind the one before it.
pub data Picks (size : ℕ) : Table → ℕ → List ℕ → Table → Type 0 where
  stop : {t : Table} {prev : ℕ} → Picks size t prev [] t
  pick :
      {t t1 t2 : Table} {prev b : ℕ} {bs : List ℕ}
      → alloc_block t size prev ≡ (pos b, t1)
      → Picks size t1 b bs t2
      → Picks size t prev (b ∷ bs) t2

-- A block that is found: it was free, and the table behind it.
pub record Picked (size : ℕ) (t : Table) (prev b : ℕ) (t1 : Table) : Type 0 where
  pub low : b < size / 4
  pub free : t b ≡ 0
  pub entries :
      (j : ℕ)
      → t1 j ≡ (
          if j == b
          then fs_last_block
          else (if j == prev then (if prev == 0 then t j else b) else t j))

pub alloc_block-Picked :
    (size : ℕ) (t t1 : Table) (prev b : ℕ)
    → alloc_block t size prev ≡ (pos b, t1)
    → Picked size t prev b t1
unfolding Outcome
alloc_block-Picked size t t1 prev b e =
    let (low, high, free, before, after) =
      subst (Outcome 0 (size / 4) prev t) e (alloc_block-Outcome t size prev) in
    record { low = omega arith; free = free; entries = after }

-- An entry in use stays in use. Entry 0 is in use, so that no block 0 is picked.
pub Picked-used :
    (size : ℕ) {t t1 : Table} {prev b : ℕ}
    → Picked size t prev b t1
    → t 0 ≢ 0
    → (j : ℕ) → t j ≢ 0
    → t1 j ≢ 0
Picked-used size {t} {t1} {prev} {b} p root j used e =
    let apart : j ≢ b = λ q. used (ap t q ∙ p.free) in
    let b_named : b ≢ 0 = λ q. root (ap t (sym q) ∙ p.free) in
    let entry : (if j == prev then (if prev == 0 then t j else b) else t j) ≡ 0 =
      sym (p.entries j ∙ rw (==_ne j b apart) refl) ∙ e in
    ground arith

pub Picks-fresh :
    (size : ℕ) {t t2 : Table} {prev : ℕ} {bs : List ℕ}
    → Picks size t prev bs t2
    → t 0 ≢ 0
    → (j : ℕ) → t j ≢ 0
    → has j bs ≡ false
Picks-fresh size stop root j used = refl
Picks-fresh size (pick {t} {t1} {t2} {prev} {b} {bs} e rest) root j used =
    let p = alloc_block-Picked size t t1 prev b e in
    let apart : j ≢ b = λ q. used (ap t q ∙ p.free) in
    rw (==_ne j b apart)
      (Picks-fresh size rest (Picked-used size p root 0 root) j (Picked-used size p root j used))

-- An entry that is in use stays as it is, unless it is the one to link behind.
pub Picks-keep :
    (size : ℕ) {t t2 : Table} {prev : ℕ} {bs : List ℕ}
    → Picks size t prev bs t2
    → (j : ℕ) → t j ≢ 0
    → j ≢ prev
    → t2 j ≡ t j
Picks-keep size stop j used ne = refl
Picks-keep size (pick {t} {t1} {t2} {prev} {b} {bs} e rest) j used ne =
    let p = alloc_block-Picked size t t1 prev b e in
    let apart : j ≢ b = λ q. used (ap t q ∙ p.free) in
    let same : t1 j ≡ t j = p.entries j ∙ rw (==_ne j b apart, ==_ne j prev ne) refl in
    Picks-keep size rest j (subst (λ v. v ≢ 0) (sym same) used) apart ∙ same

-- The chain from the block `prev`, behind which the others are picked.
pub Picks-Chain :
    (size : ℕ) {t t2 : Table} {prev : ℕ} {bs : List ℕ}
    → Picks size t prev bs t2
    → size ≤ 2 ^ 22
    → t 0 ≢ 0
    → t prev ≡ fs_last_block
    → prev ≢ 0
    → prev < size / 4
    → Chain t2 prev (prev ∷ bs)
Picks-Chain size (stop {t} {prev}) small root last ne low = link (λ e. omega arith) refl (end last)
Picks-Chain size (pick {t} {t1} {t2} {prev} {b} {bs} e rest) small root last ne low =
    let p = alloc_block-Picked size t t1 prev b e in
    let prev_b : prev ≢ b = λ q. last_used (sym last ∙ ap t q ∙ p.free) in
    let linked : t1 prev ≡ b =
      p.entries prev ∙ rw (==_ne prev b prev_b, ==_refl prev, ==_ne prev 0 ne) refl in
    let b_named : b ≢ 0 = λ q. root (ap t (sym q) ∙ p.free) in
    let last1 : t1 b ≡ fs_last_block = p.entries b ∙ rw (==_refl b) refl in
    let root1 = Picked-used size p root 0 root in
    let linked_used : t1 prev ≢ 0 = subst (λ v. v ≢ 0) (sym linked) b_named in
    let kept = Picks-keep size rest prev linked_used prev_b in
    let fresh = Picks-fresh size rest root1 prev linked_used in
    let tail = Picks-Chain size rest small root1 last1 b_named p.low in
    link (λ q. omega arith) (rw (==_ne prev b prev_b) fresh)
      (subst (λ v. Chain t2 v (b ∷ bs)) (sym (kept ∙ linked)) tail)
  where
    last_used : fs_last_block ≡ 0 → ⊥
    last_used e = ground arith

-- The bytes at an address.
abbrev pub bytes_at : Mem → ℕ → ℕ → List ℕ
bytes_at m a zero = []
bytes_at m a (suc n) = m a ∷ bytes_at m (a + 1) n

-- Each block holds its piece of the file.
pub data Stored (m : Mem) : List ℕ → List (List ℕ) → Type 0 where
  done : Stored m [] []
  piece :
      {b : ℕ} {bs : List ℕ} {p : List ℕ} {ps : List (List ℕ)}
      → bytes_at m (b * 4096) (length p) ≡ p
      → Stored m bs ps
      → Stored m (b ∷ bs) (p ∷ ps)

write_piece-other :
    (p : List ℕ) (m : Mem) (a x : ℕ) → (x < a) ⊎ (a + length p ≤ x) → write_piece m a p x ≡ m x
write_piece-other [] m a x h = refl
write_piece-other (c ∷ cs) m a x (inl h) =
    write_piece-other cs (store m a c) (a + 1) x (inl (omega arith)) ∙ ground arith
write_piece-other (c ∷ cs) m a x (inr h) =
    write_piece-other cs (store m a c) (a + 1) x (inr (omega arith)) ∙ ground arith

pub bytes_at-write_piece :
    (p : List ℕ) (m : Mem) (a : ℕ) → bytes_at (write_piece m a p) a (length p) ≡ p
bytes_at-write_piece [] m a = refl
bytes_at-write_piece (c ∷ cs) m a =
    let first : write_piece (store m a c) (a + 1) cs a ≡ c =
      write_piece-other cs (store m a c) (a + 1) a (inl (omega arith)) ∙ rw (==_refl a) refl in
    rw (first, bytes_at-write_piece cs (store m a c) (a + 1)) refl

pub bytes_at-other :
    (n : ℕ) (p : List ℕ) (m : Mem) (a b : ℕ)
    → (b + n ≤ a) ⊎ (a + length p ≤ b)
    → bytes_at (write_piece m a p) b n ≡ bytes_at m b n
bytes_at-other zero p m a b h = refl
bytes_at-other (suc n) p m a b (inl h) =
    rw
      (
        write_piece-other p m a b (inl (omega arith)),
        bytes_at-other n p m a (b + 1) (inl (omega arith)),
      )
      refl
bytes_at-other (suc n) p m a b (inr h) =
    rw
      (
        write_piece-other p m a b (inr (omega arith)),
        bytes_at-other n p m a (b + 1) (inr (omega arith)),
      )
      refl
