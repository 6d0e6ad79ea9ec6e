-- ===== src/Page.antt =====
-- memory/page.c and include/page.h: the page tables of the 64-bit kernel. A pointer to an entry is
-- its address. The pages for tables come from memory/kmem.c.
use ghittle.Base.{
  ℕ, ◌+◌, ◌-◌, ◌*◌, ◌/◌, ◌%◌, ◌^◌, bit_or, Bool, true, false, Option, none, some, ◌==◌,
  if◌then◌else◌, not,
}
use ghittle.Mem.{Mem, load32, store32}
use ghittle.Bitmap.{Bitmap}
use ghittle.Kmem.{Kmem, kpage_alloc, page_alloc_phys}
pub mod Walk

-- PD_DEFAULT
abbrev pub pd_default : ℕ
pd_default = 3

abbrev pub load64 : Mem → ℕ → ℕ
load64 m a = load32 m a + 2 ^ 32 * load32 m (a + 4)

abbrev pub store64 : Mem → ℕ → ℕ → Mem
store64 m a v = store32 (store32 m a (v % 2 ^ 32)) (a + 4) (v / 2 ^ 32)

-- `x & PD_MASK`, which is PTE_MASK too: bits 12 to 62.
abbrev pub masked : ℕ → ℕ
masked x = x / 2 ^ 12 % 2 ^ 51 * 2 ^ 12

-- `x | flags` for flags of 16 bits: the bits above are those of `x`.
abbrev pub with_flags : ℕ → ℕ → ℕ
with_flags x flags = x / 2 ^ 16 * 2 ^ 16 + bit_or (x % 2 ^ 16) flags

-- PGD_OFFSET and its kin
abbrev pub offset : ℕ → ℕ → ℕ
offset shift addr = addr / 2 ^ shift % 512

unfoldable pub get_pud : ℕ → ℕ → ℕ
get_pud pgd addr = pgd + 8 * offset 39 addr

unfoldable pub get_pmd : ℕ → ℕ → ℕ
get_pmd pud addr = pud + 8 * offset 30 addr

unfoldable pub get_pd : ℕ → ℕ → ℕ
get_pd pmd addr = pmd + 8 * offset 21 addr

unfoldable pub pd_addr : Mem → ℕ → ℕ
pd_addr m pd = masked (load64 m pd)

-- `pd_present`, and `pte_present`, which is the same.
unfoldable pub pd_present : Mem → ℕ → Bool
pd_present m pd = load64 m pd % 2 == 1

unfoldable pub pte_present : Mem → ℕ → Bool
pte_present m pte = load64 m pte % 2 == 1

-- The address of the entry; none is the null pointer.
unfoldable pub get_pte : Mem → ℕ → ℕ → Option ℕ
unfolding get_pud get_pmd get_pd pd_addr pd_present pte_present
get_pte m pgd addr =
    let pud = get_pud pgd addr in
    if not (pd_present m pud)
    then none
    else (let pmd = get_pmd (pd_addr m pud) addr in
        if not (pd_present m pmd)
        then none
        else (let pd = get_pd (pd_addr m pmd) addr in
            if not (pd_present m pd)
            then none
            else (let pte = pd_addr m pd + 8 * offset 12 addr in
                if not (pte_present m pte) then none else some pte)))

unfoldable pub set_pd : Mem → ℕ → ℕ → ℕ → Mem
set_pd m d addr flags = store64 m d (with_flags (masked addr) flags)

unfoldable pub set_pte : Mem → ℕ → ℕ → ℕ → Mem
set_pte m e addr flags = store64 m e (with_flags (masked addr) flags)

-- `if(!pd_present(d)) { new_page = kpage_alloc(1); set_pd(d, new_page, PD_DEFAULT); }`, which stands
-- in `page_setup` three times.
unfoldable pub ensure_table : Kmem → ℕ → Kmem
unfolding pd_present set_pd
ensure_table k d =
    if pd_present k.mem d
    then k
    else (let (new_page, k') = kpage_alloc k 1 in
        record k' { mem = set_pd k'.mem d new_page pd_default })

unfoldable pub ensure_page : Bitmap → Kmem → ℕ → ℕ → Kmem
unfolding pte_present set_pte
ensure_page bm k pte flags =
    if pte_present k.mem pte
    then k
    else (let (new_page, m) = page_alloc_phys k.mem bm 1 in
        record k { mem = set_pte m pte new_page flags })

-- `bm` is `phy_page_bitmap`. The argument `phys_addr` is not used.
unfoldable pub page_setup : Bitmap → Kmem → ℕ → ℕ → ℕ → ℕ → Kmem
unfolding ensure_table ensure_page get_pud get_pmd get_pd pd_addr
page_setup bm k phys_addr virt_addr pgd flags =
    let pud = get_pud pgd virt_addr in
    let k₁ = ensure_table k pud in
    let pmd = get_pmd (pd_addr k₁.mem pud) virt_addr in
    let k₂ = ensure_table k₁ pmd in
    let pd = get_pd (pd_addr k₂.mem pmd) virt_addr in
    let k₃ = ensure_table k₂ pd in
    ensure_page bm k₃ (pd_addr k₃.mem pd + 8 * offset 12 virt_addr) flags
