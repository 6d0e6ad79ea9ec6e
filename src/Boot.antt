-- ===== src/Boot.antt =====
-- core/kernel32/main.c: the 32-bit part of the kernel clears the memory of the 64-bit part, makes
-- its first page tables, checks the processor, and copies the kernel. `read_cpuid` is the processor's
-- and what the board keeps of a write is a parameter. PBOOT_FLAG is a byte of the memory: once it is
-- set, the stages that write memory do nothing.
use ghittle.Base.{
  ℕ, zero, suc, ◌+◌, ◌-◌, ◌*◌, ◌/◌, ◌%◌, ◌^◌, bit_and, bit_or, Bool, true, false, List, [], ◌∷◌,
  ◌==◌, if◌then◌else◌,
}
use ghittle.Base.Text.{codes}
use ghittle.Mem.{Mem, load32, store32, memset}
use ghittle.Console.{print_cells, console_width}
pub mod Clear
pub mod Tables
pub mod Walk
pub mod Main

-- The address of PBOOT_FLAG, which include/types.h names.
abbrev pub pboot_flag : ℕ
pboot_flag = 0x7DFC

abbrev pub kmem_start : ℕ
kmem_start = 0x100000

abbrev pub kmem_size : ℕ
kmem_size = 0x500000

abbrev pub pgd_start : ℕ
pgd_start = 0x100000

abbrev pub pmd_start : ℕ
pmd_start = 0x101000

abbrev pub pd_start : ℕ
pd_start = 0x102000

abbrev pub num_pmd_entry : ℕ
num_pmd_entry = 1

abbrev pub num_pd_entry : ℕ
num_pd_entry = 16

abbrev pub page_maxentry_count : ℕ
page_maxentry_count = 512

abbrev pub pagetable_size : ℕ
pagetable_size = 0x1000

abbrev pub spage_size : ℕ
spage_size = 0x200000

-- PTE_PRESENT | PTE_WRITABLE, and the same for PD
abbrev pub pd_default : ℕ
pd_default = 3

abbrev pub pte_pae : ℕ
pte_pae = 0x80

-- `scr[i].ch` is the character of a cell of the screen.
unfoldable pub print_string : Mem → ℕ → ℕ → List ℕ → Mem
print_string m x y str = print_cells str (y * console_width + x) m

-- The loop of `init_kern64_mem` with `pos` and the rounds left. `keep` is a write to the memory of
-- the board.
unfoldable pub clear_words : (Mem → ℕ → ℕ → Mem) → ℕ → ℕ → Mem → Bool × Mem
clear_words keep zero pos m = (true, m)
clear_words keep (suc n) pos m =
    let m' = keep m pos 0 in
    elim (load32 m' pos == 0) [ true ↦ clear_words keep n (pos + 4) m' | false ↦ (false, m') ]

-- The truth value is "returns 0".
unfoldable pub init_kern64_mem : (Mem → ℕ → ℕ → Mem) → Mem → Bool × Mem
init_kern64_mem keep m =
    if m pboot_flag == 0 then clear_words keep (kmem_size / 4) kmem_start m else (true, m)

-- `set_pd_32`, and `set_pte_32`, which is the same.
unfoldable pub set_pd_32 : Mem → ℕ → ℕ → ℕ → ℕ → Mem
set_pd_32 m d addr_high addr_low flags =
    store32 (store32 m d (bit_or addr_low flags)) (d + 4) (bit_and addr_high 0xFF)

unfoldable pub set_pte_32 : Mem → ℕ → ℕ → ℕ → ℕ → Mem
set_pte_32 m e addr_high addr_low flags =
    store32 (store32 m e (bit_or addr_low flags)) (e + 4) (bit_and addr_high 0xFF)

-- The entries of a table from `i` on, with the rounds left.
unfoldable pub clear_entries : ℕ → ℕ → ℕ → Mem → Mem
unfolding set_pd_32
clear_entries d i zero m = m
clear_entries d i (suc n) m = clear_entries d (i + 1) n (set_pd_32 m (d + 8 * i) 0 0 0)

unfoldable pub link_entries : ℕ → ℕ → Mem → Mem
unfolding set_pd_32
link_entries i zero m = m
link_entries i (suc n) m =
    link_entries (i + 1) n
      (set_pd_32 m (pmd_start + 8 * i) 0 (pd_start + i * pagetable_size) pd_default)

-- The loop over the page entries: `i`, `map_addr` and `map_high_addr`, with the rounds left.
unfoldable pub map_entries : ℕ → ℕ → ℕ → ℕ → Mem → Mem
unfolding set_pte_32
map_entries i map_addr map_high_addr zero m = m
map_entries i map_addr map_high_addr (suc n) m =
    let next = (map_addr + spage_size) % 2 ^ 32 in
    map_entries (i + 1) next (if next == 0 then (map_high_addr + 1) % 2 ^ 32 else map_high_addr) n
      (set_pte_32 m (pd_start + 8 * i) map_high_addr map_addr (bit_or pd_default pte_pae))

unfoldable pub init_pagetable : Mem → Bool × Mem
init_pagetable m =
    if m pboot_flag == 0
    then (
      true,
      let pgd =
            clear_entries pgd_start 1 (page_maxentry_count - 1)
              (set_pd_32 m pgd_start 0 pmd_start pd_default) in
          let pmd =
            clear_entries pmd_start num_pmd_entry (page_maxentry_count - num_pmd_entry)
              (link_entries 0 num_pmd_entry pgd) in
          map_entries 0 0 0 (num_pmd_entry * num_pd_entry) pmd,
    )
    else (true, m)

-- The registers EAX, EBX, ECX and EDX that the processor gives.
abbrev pub Cpuid : Type 0
Cpuid = ℕ → ℕ × ℕ × ℕ × ℕ

-- The bytes of `vendor_str`, which ends with a NUL.
abbrev pub vendor_str : ℕ × ℕ × ℕ × ℕ → Mem
vendor_str (eax, ebx, ecx, edx) = store32 (store32 (store32 (λ a. 0) 0 ebx) 4 edx) 8 ecx

abbrev pub str_at : Mem → ℕ → ℕ → List ℕ
str_at m a zero = []
str_at m a (suc n) = let rest = str_at m (a + 1) n in if m a == 0 then [] else m a ∷ rest

unfoldable pub validate_64bit_mode : Cpuid → Mem → Bool × Mem
unfolding print_string
validate_64bit_mode cpuid m =
    let shown =
      print_string (print_string m 3 7 (codes "vendor:")) 11 7
        (str_at (vendor_str (cpuid 0)) 0 16) in
    (if bit_and (cpuid 0x80000001).3 (2 ^ 29) == 0 then false else true, shown)

-- The loop of `copy_kern64` with `dst`, `src` and the rounds left.
unfoldable pub copy_words : ℕ → ℕ → ℕ → Mem → Mem
copy_words zero dst src m = m
copy_words (suc n) dst src m = copy_words n (dst + 4) (src + 4) (store32 m dst (load32 m src))

abbrev pub load16 : Mem → ℕ → ℕ
load16 m a = m a + 256 * m (a + 1)

unfoldable pub copy_kern64 : Mem → Bool × Mem
copy_kern64 m =
    if m pboot_flag == 0
    then (
      true,
      let total_sec_cnt = load16 m 0x7C05 in
          let kern32_sec_cnt = load16 m 0x7C07 in
          copy_words (512 * (total_sec_cnt - kern32_sec_cnt) / 4) (kmem_start + 0x100000)
            (0x10000 + kern32_sec_cnt * 512) m,
    )
    else (true, m)

-- `if (err < 0) goto ERR_OUT`, with what stands at ERR_OUT and what comes next.
unfoldable pub unless_failed : Bool × Mem → (Mem → Bool × Mem) → Bool × Mem
unfolding print_string
unless_failed (false, m) next = (false, print_string m 30 20 (codes "ERROR!!!"))
unless_failed (true, m) next = next m

-- The first lines that `main` shows.
unfoldable pub opening : Mem → Mem
unfolding print_string
opening m =
    print_string (print_string m 0 3 (codes "[[[ Kernel entry ]]]")) 0 4
      (codes "Initializing 64bit memory...")

-- `main` up to `switch_to_64bit`, for which the truth value stands, or to the endless loop after
-- the error.
unfoldable pub main : (Mem → ℕ → ℕ → Mem) → Cpuid → Mem → Bool × Mem
unfolding unless_failed opening
main keep cpuid m = unless_failed (init_kern64_mem keep (opening m)) (λ m₁.
    unless_failed (init_pagetable (print_string m₁ 0 5 (codes "Initializing 64bit pagetable...")))
      (λ m₂.
        unless_failed
          (validate_64bit_mode cpuid (print_string m₂ 0 6 (codes "Validating 64bit mode...")))
          (λ m₃.
            unless_failed
              (copy_kern64 (print_string m₃ 0 8 (codes "Copying 64bit kernel image...")))
              (λ m₄. (true, print_string m₄ 0 9 (codes "Switching to 64bit mode..."))))))
