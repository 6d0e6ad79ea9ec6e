-- ===== src/Boot/Walk.antt =====
-- The address translation that `init_kern64_mem` and `init_pagetable` of core/kernel32/main.c make.
use ghittle.Base.{ℕ, ◌/◌, ◌%◌, ◌^◌, Option, none, some}
use ghittle.Mem.{Mem}
use ghittle.Boot.{clear_entries, map_entries, set_pd_32, pgd_start, pmd_start}
use ghittle.Boot.Tables.{table_entry, step, large_page}

pgd_made : Mem → Mem
pgd_made m = clear_entries pgd_start 1 511 (set_pd_32 m pgd_start 0 pmd_start 3)

pmd_made : Mem → Mem
pmd_made m = clear_entries pmd_start 1 511 (set_pd_32 (pgd_made m) pmd_start 0 0x102000 3)

tables : Mem → Mem
tables m = map_entries 0 0 0 16 (pmd_made m)

infixl 5 ◌>>=◌
◌>>=◌ : Option ℕ → (ℕ → Option ℕ) → Option ℕ
◌>>=◌ none k = none
◌>>=◌ (some a) k = k a

-- Four-level paging with large pages, from the table at `cr3`.
pub translate : Mem → ℕ → ℕ → Option ℕ
translate m cr3 addr = do
  pmd ← step (table_entry m cr3 (addr / 2 ^ 39 % 512))
  pd ← step (table_entry m pmd (addr / 2 ^ 30 % 512))
  large_page (table_entry m pd (addr / 2 ^ 21 % 512)) addr
