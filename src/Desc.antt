-- ===== src/Desc.antt =====
-- core/kernel64/desc.c and include/desc.h: the descriptor tables, as bytes at the addresses where the
-- processor reads them. The interrupt service routines are assembly, and their addresses arguments.
use ghittle.Base.{
  ℕ, zero, suc, ◌+◌, ◌-◌, ◌*◌, ◌/◌, ◌%◌, ◌^◌, bit_and, bit_or, List, [], ◌∷◌, get_or, ltb,
  if◌then◌else◌,
}
use ghittle.Mem.{Mem, store, store32, memset}
pub mod Decode

abbrev pub gdt_type_code : ℕ
gdt_type_code = 0x0A

abbrev pub gdt_type_data : ℕ
gdt_type_data = 0x02

abbrev pub gdt_type_tss : ℕ
gdt_type_tss = 0x09

-- GDT_TYPE_CODE | GDT_FLAGS_LOWER_S | GDT_FLAGS_LOWER_DPL0 | GDT_FLAGS_LOWER_P, and its kin
abbrev pub gdt_flags_lower_kernel_code : ℕ
gdt_flags_lower_kernel_code = bit_or (bit_or (bit_or gdt_type_code 0x10) 0x00) 0x80

abbrev pub gdt_flags_lower_kernel_data : ℕ
gdt_flags_lower_kernel_data = bit_or (bit_or (bit_or gdt_type_data 0x10) 0x00) 0x80

abbrev pub gdt_flags_lower_tss : ℕ
gdt_flags_lower_tss = bit_or 0x00 0x80

-- GDT_FLAGS_UPPER_G | GDT_FLAGS_UPPER_L, for code and data
abbrev pub gdt_flags_upper_code : ℕ
gdt_flags_upper_code = bit_or 0x80 0x20

abbrev pub gdt_flags_upper_data : ℕ
gdt_flags_upper_data = bit_or 0x80 0x20

abbrev pub gdt_flags_upper_tss : ℕ
gdt_flags_upper_tss = 0x80

abbrev pub gdtr_start_addr : ℕ
gdtr_start_addr = 0x142000

-- `sizeof(GDTR)`, which is packed: 2 + 8 + 2 + 4
abbrev pub gdtr_size : ℕ
gdtr_size = 16

-- Three entries of 8 bytes and one of 16.
abbrev pub gdt_table_size : ℕ
gdt_table_size = 8 * 3 + 16 * 1

-- `sizeof(struct tss_data)`: 4 + 24 + 8 + 56 + 8 + 2 + 2
abbrev pub tss_segment_size : ℕ
tss_segment_size = 104

abbrev pub idt_max_entry_cnt : ℕ
idt_max_entry_cnt = 100

abbrev pub idtr_start_addr : ℕ
idtr_start_addr = gdtr_start_addr + gdtr_size + gdt_table_size + tss_segment_size

abbrev pub idt_table_size : ℕ
idt_table_size = idt_max_entry_cnt * 16

abbrev pub idt_type_interrupt : ℕ
idt_type_interrupt = 0x0E

-- IDT_FLAGS_DPL0 | IDT_FLAGS_P
abbrev pub idt_flags_kernel : ℕ
idt_flags_kernel = bit_or 0x00 0x80

abbrev pub idt_flags_ist1 : ℕ
idt_flags_ist1 = 1

abbrev pub store16 : Mem → ℕ → ℕ → Mem
store16 m a v = store (store m a (v % 256)) (a + 1) (v / 256 % 256)

abbrev pub store64 : Mem → ℕ → ℕ → Mem
store64 m a v = store32 (store32 m a (v % 2 ^ 32)) (a + 4) (v / 2 ^ 32 % 2 ^ 32)

-- The fields from `limit_0_15` to `addr_24_31`, which both kinds of entry have.
abbrev set_gdt_fields : Mem → ℕ → ℕ → ℕ → ℕ → ℕ → ℕ → Mem
set_gdt_fields m ent addr limit flags_4_7 flags_0_3 type =
    let m₁ = store16 m ent (limit % 2 ^ 16) in
    let m₂ = store16 m₁ (ent + 2) (addr % 2 ^ 16) in
    let m₃ = store m₂ (ent + 4) (addr / 2 ^ 16 % 256) in
    let m₄ = store m₃ (ent + 5) (bit_or flags_0_3 type) in
    let m₅ = store m₄ (ent + 6) (bit_or (limit / 2 ^ 16 % 256) flags_4_7) in
    store m₅ (ent + 7) (addr / 2 ^ 24 % 256)

unfoldable pub set_gdt_entry8 : Mem → ℕ → ℕ → ℕ → ℕ → ℕ → ℕ → Mem
set_gdt_entry8 m ent addr limit flags_4_7 flags_0_3 type =
    set_gdt_fields m ent addr limit flags_4_7 flags_0_3 type

unfoldable pub set_gdt_entry16 : Mem → ℕ → ℕ → ℕ → ℕ → ℕ → ℕ → Mem
set_gdt_entry16 m ent addr limit flags_4_7 flags_0_3 type =
    let m' = set_gdt_fields m ent addr limit flags_4_7 flags_0_3 type in
    store32 (store32 m' (ent + 8) (addr / 2 ^ 32)) (ent + 12) 0

-- The fields of an interrupt gate up to `addr_16_31`.
abbrev pub set_idt_fields : Mem → ℕ → ℕ → ℕ → ℕ → ℕ → ℕ → Mem
set_idt_fields m ent handler selector ist flags type =
    let m₁ = store16 m ent (handler % 2 ^ 16) in
    let m₂ = store16 m₁ (ent + 2) selector in
    let m₃ = store m₂ (ent + 4) (ist % 4) in
    let m₄ = store m₃ (ent + 5) (bit_or type flags) in
    store16 m₄ (ent + 6) (handler / 2 ^ 16 % 2 ^ 16)

unfoldable pub set_idt_entry : Mem → ℕ → ℕ → ℕ → ℕ → ℕ → ℕ → Mem
set_idt_entry m ent handler selector ist flags type =
    store32
      (store32 (set_idt_fields m ent handler selector ist flags type) (ent + 8) (handler / 2 ^ 32))
      (ent + 12) 0

-- The fields `ist[0]` and `iomap_addr` stand at 36 and 102.
unfoldable pub init_tss : Mem → ℕ → Mem
init_tss m tss =
    store16 (store64 (memset m tss 0 tss_segment_size) (tss + 36) 0x800000) (tss + 102) 0xFFFF

unfoldable pub init_gdt_tss : Mem → Mem
unfolding set_gdt_entry8 set_gdt_entry16 init_tss
init_gdt_tss m =
    let gdtr = gdtr_start_addr in
    let entry = gdtr_start_addr + gdtr_size in
    let m₁ = store16 m gdtr (gdt_table_size - 1) in
    let m₂ = store64 m₁ (gdtr + 2) entry in
    let tss = entry + gdt_table_size in
    let m₃ = set_gdt_entry8 m₂ entry 0 0 0 0 0 in
    let m₄ =
      set_gdt_entry8 m₃ (entry + 8) 0 0xFFFF gdt_flags_upper_code gdt_flags_lower_kernel_code
        gdt_type_code in
    let m₅ =
      set_gdt_entry8 m₄ (entry + 16) 0 0xFFFF gdt_flags_upper_data gdt_flags_lower_kernel_data
        gdt_type_data in
    let m₆ =
      set_gdt_entry16 m₅ (entry + 24) tss (tss_segment_size - 1) gdt_flags_upper_tss
        gdt_flags_lower_tss gdt_type_tss in
    init_tss m₆ tss

-- The routine for each vector. `isr` is the address of the routine that the source names: those of
-- the vectors 0 to 19 and 32 to 47 in this order, then `ISR_exception` and `ISR_interrupt`.
abbrev pub handler_at : List ℕ → ℕ → ℕ
handler_at isr i =
    if ltb i 20
    then get_or isr i 0
    else (if ltb i 32
        then get_or isr 36 0
        else (if ltb i 48 then get_or isr (i - 12) 0 else get_or isr 37 0))

-- The entries from `i` on, each with the same options.
unfoldable pub set_idt_entries : List ℕ → ℕ → ℕ → ℕ → Mem → Mem
unfolding set_idt_entry
set_idt_entries isr entry i zero m = m
set_idt_entries isr entry i (suc n) m = set_idt_entries isr entry (i + 1) n (
    set_idt_entry m (entry + 16 * i) (handler_at isr i) 0x08 idt_flags_ist1 idt_flags_kernel
      idt_type_interrupt)

unfoldable pub init_idt : List ℕ → Mem → Mem
unfolding set_idt_entries
init_idt isr m =
    let idtr = idtr_start_addr in
    let entry = idtr_start_addr + gdtr_size in
    let m₁ = store64 m (idtr + 2) entry in
    let m₂ = store16 m₁ idtr (idt_table_size - 1) in
    set_idt_entries isr entry 0 idt_max_entry_cnt m₂
