-- ===== src/Page/Walk.antt =====
-- The walk of memory/page.c through the four levels of tables.
use ghittle.Base.{
  ℕ, ◌+◌, ◌*◌, ◌/◌, ◌%◌, ◌^◌, ◌≡◌, refl, Bool, true, false, not, Option, none, some, ◌==◌, ◌&&◌,
  if◌then◌else◌, arith,
}
use ghittle.Mem.{Mem}
use ghittle.Bitmap.{Bitmap}
use ghittle.Kmem.{Kmem}
use ghittle.Page.{
  load64, masked, get_pud, get_pmd, get_pd, pd_addr, offset, pd_present, pte_present, get_pte,
  ensure_table, ensure_page, page_setup,
}

infixl 5 ◌>>=◌
abbrev ◌>>=◌ : Option ℕ → (ℕ → Option ℕ) → Option ℕ
◌>>=◌ o k = elim o [ none ↦ none | some a ↦ k a ]

-- The table that an entry leads the processor to, by bits 12 to 51: it must be present and no large
-- page, and bits 52 to 62, which the processor leaves to the kernel, are to be clear.
abbrev pub next_table : ℕ → Option ℕ
next_table e =
    if e % 2 == 1 && (e / 2 ^ 7 % 2 == 0) && (e / 2 ^ 52 % 2 ^ 11 == 0)
    then some (e / 2 ^ 12 % 2 ^ 40 * 2 ^ 12)
    else none

-- The walk of the processor from the table at `cr3` to the entry of a small page.
abbrev pub entry_of : Mem → ℕ → ℕ → Option ℕ
entry_of m cr3 addr = do
  pud ← next_table (load64 m (cr3 + 8 * (addr / 2 ^ 39 % 512)))
  pmd ← next_table (load64 m (pud + 8 * (addr / 2 ^ 30 % 512)))
  pd ← next_table (load64 m (pmd + 8 * (addr / 2 ^ 21 % 512)))
  let pte = pd + 8 * (addr / 2 ^ 12 % 512)
  if load64 m pte % 2 == 1 then some pte else none

-- An entry that leads on is present, and `masked` gives the table.
next_table-some : (e t : ℕ) → next_table e ≡ some t → ((e % 2 == 1) ≡ true) × (masked e ≡ t)
next_table-some e t h = ground (arith, h)

bind-some :
    (o : Option ℕ) (k : ℕ → Option ℕ) (v : ℕ)
    → (o >>= k) ≡ some v
    → (a : ℕ) × (o ≡ some a) × (k a ≡ some v)
bind-some none k v h = ground (arith, h)
bind-some (some a) k v h = (a, refl, h)

-- One level of `get_pte`.
go_on :
    (m : Mem) (d t pte : ℕ) (next : ℕ → Option ℕ)
    → next_table (load64 m d) ≡ some t
    → next t ≡ some pte
    → (if not (pd_present m d) then none else next (pd_addr m d)) ≡ some pte
unfolding pd_present pd_addr
go_on m d t pte next e h =
    let (present, table) = next_table-some (load64 m d) t e in rw (present, table) h

-- What `get_pte` does from a table of the last level on, of the one above it, and so on.
abbrev from_pte : Mem → ℕ → ℕ → Option ℕ
from_pte m table addr =
    let pte = table + 8 * offset 12 addr in if not (pte_present m pte) then none else some pte

abbrev from_pd : Mem → ℕ → ℕ → Option ℕ
from_pd m table addr =
    let pd = get_pd table addr in
    if not (pd_present m pd) then none else from_pte m (pd_addr m pd) addr

abbrev from_pmd : Mem → ℕ → ℕ → Option ℕ
from_pmd m table addr =
    let pmd = get_pmd table addr in
    if not (pd_present m pmd) then none else from_pd m (pd_addr m pmd) addr

last_level :
    (b : Bool) (p pte : ℕ)
    → (if b then some p else none) ≡ some pte
    → (if not b then none else some p) ≡ some pte
last_level true p pte h = h
last_level false p pte h = h

-- Where the processor finds the entry of a small page, by tables whose entries leave bits 52 to 62
-- clear, `get_pte` finds the same entry.
pub get_pte-entry_of :
    (m : Mem) (pgd addr pte : ℕ) → entry_of m pgd addr ≡ some pte → get_pte m pgd addr ≡ some pte
unfolding get_pte pte_present get_pud get_pmd get_pd
get_pte-entry_of m pgd addr pte h =
    let (t₁, e₁, h₁) =
      bind-some (next_table (load64 m (pgd + 8 * (addr / 2 ^ 39 % 512)))) _ pte h in
    let (t₂, e₂, h₂) =
      bind-some (next_table (load64 m (t₁ + 8 * (addr / 2 ^ 30 % 512)))) _ pte h₁ in
    let (t₃, e₃, h₃) =
      bind-some (next_table (load64 m (t₂ + 8 * (addr / 2 ^ 21 % 512)))) _ pte h₂ in
    go_on m (pgd + 8 * (addr / 2 ^ 39 % 512)) t₁ pte (λ t. from_pmd m t addr) e₁
      (go_on m (t₁ + 8 * (addr / 2 ^ 30 % 512)) t₂ pte (λ t. from_pd m t addr) e₂
        (go_on m (t₂ + 8 * (addr / 2 ^ 21 % 512)) t₃ pte (λ t. from_pte m t addr) e₃
          (last_level (load64 m (t₃ + 8 * (addr / 2 ^ 12 % 512)) % 2 == 1)
            (t₃ + 8 * (addr / 2 ^ 12 % 512)) pte h₃)))

present-some :
    (b : Bool) (x : Option ℕ) (pte : ℕ)
    → (if not b then none else x) ≡ some pte
    → (b ≡ true) × (x ≡ some pte)
present-some true x pte e = (refl, e)
present-some false x pte e = ground (arith, e)

ensure_table-present : (k : Kmem) (d : ℕ) → pd_present k.mem d ≡ true → ensure_table k d ≡ k
unfolding ensure_table
ensure_table-present k d e = rw e refl

ensure_page-present :
    (bm : Bitmap) (k : Kmem) (pte flags : ℕ)
    → pte_present k.mem pte ≡ true
    → ensure_page bm k pte flags ≡ k
unfolding ensure_page
ensure_page-present bm k pte flags e = rw e refl

-- `page_setup` on an address that `get_pte` finds changes nothing: neither the tables nor the pages
-- that are free, whatever physical address it is given.
pub page_setup-get_pte :
    (bm : Bitmap) (k : Kmem) (phys_addr virt_addr pgd flags pte : ℕ)
    → get_pte k.mem pgd virt_addr ≡ some pte
    → page_setup bm k phys_addr virt_addr pgd flags ≡ k
unfolding get_pte page_setup
page_setup-get_pte bm k phys_addr virt_addr pgd flags pte e =
    let (pud_ok, e₁) = present-some _ _ pte e in
    let (pmd_ok, e₂) = present-some _ _ pte e₁ in
    let (pd_ok, e₃) = present-some _ _ pte e₂ in
    let (pte_ok, e₄) = present-some _ _ pte e₃ in
    rw
      (
        ensure_table-present k _ pud_ok,
        ensure_table-present k _ pmd_ok,
        ensure_table-present k _ pd_ok,
      )
      (ensure_page-present bm k _ flags pte_ok)
