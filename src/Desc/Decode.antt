-- ===== src/Desc/Decode.antt =====
-- The descriptor tables of core/kernel64/desc.c, read the way the processor does.
use mathlib.Core.Path.{subst}
use ghittle.Base.{
  ℕ, zero, suc, ◌+◌, ◌*◌, ◌/◌, ◌%◌, ◌^◌, ◌<◌, ◌≤◌, ◌≡◌, ◌∙◌, ap, refl, true, List, ◌==◌, arith,
  Bool-cases, inl, inr,
}
use ghittle.Mem.{Mem, load32, store32, memset}
use ghittle.Mem.Laws.{load32-store32_self, load32-store32_ne}
use ghittle.Desc.{
  set_idt_fields, set_idt_entry, set_idt_entries, init_idt, handler_at, idtr_start_addr,
  init_gdt_tss, gdtr_start_addr,
}

abbrev load16 : Mem → ℕ → ℕ
load16 m a = m a + 256 * m (a + 1)

-- The gate that the processor reads: the address to jump to, the code segment, the number of the
-- interrupt stack, and the byte of the type and the privilege.
pub gate : Mem → ℕ → ℕ × ℕ × ℕ × ℕ
gate m ent = (
  load16 m ent + 2 ^ 16 * load16 m (ent + 6) + 2 ^ 32 * load32 m (ent + 8),
  load16 m (ent + 2),
  m (ent + 4) % 8,
  m (ent + 5),
)

same_index : (i j : ℕ) → (i == j) ≡ true → i ≡ j
same_index i j e = ground arith

-- The bytes of an entry that the processor reads.
set_idt_entry_bytes :
    (m : Mem) (ent handler : ℕ)
    → handler < 2 ^ 64
    → let m' = set_idt_entry m ent handler 8 1 0x80 0x0E in
      (load16 m' ent ≡ handler % 2 ^ 16)
      × (load16 m' (ent + 2) ≡ 8)
      × (m' (ent + 4) ≡ 1)
      × (m' (ent + 5) ≡ 0x8E)
      × (load16 m' (ent + 6) ≡ handler / 2 ^ 16 % 2 ^ 16)
      × (load32 m' (ent + 8) ≡ handler / 2 ^ 32)
unfolding set_idt_entry
set_idt_entry_bytes m ent handler h = (
  ground arith,
  ground arith,
  ground arith,
  ground arith,
  ground arith,
  load32-store32_ne
        (store32 (set_idt_fields m ent handler 8 1 0x80 0x0E) (ent + 8) (handler / 2 ^ 32))
        (ent + 12) (ent + 8) 0 (inr (ground arith))
      ∙ load32-store32_self (set_idt_fields m ent handler 8 1 0x80 0x0E) (ent + 8)
          (handler / 2 ^ 32) (ground arith),
)

set_idt_entry-gate :
    (m : Mem) (ent handler : ℕ)
    → handler < 2 ^ 64
    → gate (set_idt_entry m ent handler 8 1 0x80 0x0E) ent ≡ (handler, 8, 1, 0x8E)
unfolding gate
set_idt_entry-gate m ent handler h =
    let (low, selector, ist, type, mid, high) = set_idt_entry_bytes m ent handler h in
    rw (low, selector, ist, type, mid, high) (ap (λ a. (a, 8, 1, 0x8E)) (ground arith))

set_idt_entry_else :
    (m : Mem) (ent handler a : ℕ) → a < ent → set_idt_entry m ent handler 8 1 0x80 0x0E a ≡ m a
unfolding set_idt_entry
set_idt_entry_else m ent handler a h = ground arith

-- The entries behind the first ones are written later, and leave them alone.
set_idt_entries_below :
    (isr : List ℕ) (entry i n : ℕ) (m : Mem) (a : ℕ)
    → a < entry + 16 * i
    → set_idt_entries isr entry i n m a ≡ m a
unfolding set_idt_entries
set_idt_entries_below isr entry i zero m a h = refl
set_idt_entries_below isr entry i (suc n) m a h =
    set_idt_entries_below isr entry (i + 1) n
      (set_idt_entry m (entry + 16 * i) (handler_at isr i) 8 1 0x80 0x0E) a (ground arith)
    ∙ set_idt_entry_else m (entry + 16 * i) (handler_at isr i) a h

gate_same :
    (m m' : Mem) (ent : ℕ) → ((a : ℕ) → a < ent + 16 → m a ≡ m' a) → gate m ent ≡ gate m' ent
unfolding gate
gate_same m m' ent same =
    rw
      (
        same ent (omega arith),
        same (ent + 1) (omega arith),
        same (ent + 2) (omega arith),
        same (ent + 2 + 1) (omega arith),
        same (ent + 4) (omega arith),
        same (ent + 5) (omega arith),
        same (ent + 6) (omega arith),
        same (ent + 6 + 1) (omega arith),
        same (ent + 8) (omega arith),
        same (ent + 8 + 1) (omega arith),
        same (ent + 8 + 2) (omega arith),
        same (ent + 8 + 3) (omega arith),
      )
      refl

set_idt_entries-gate :
    (isr : List ℕ) (entry i n j : ℕ) (m : Mem)
    → ((k : ℕ) → handler_at isr k < 2 ^ 64)
    → i ≤ j
    → j < i + n
    → gate (set_idt_entries isr entry i n m) (entry + 16 * j) ≡ (handler_at isr j, 8, 1, 0x8E)
unfolding set_idt_entries
set_idt_entries-gate isr entry i zero j m words low high = ground arith
set_idt_entries-gate isr entry i (suc n) j m words low high =
    let m' = set_idt_entry m (entry + 16 * i) (handler_at isr i) 8 1 0x80 0x0E in
    elim (Bool-cases (i == j)) [
      | inl e ↦
          subst
            (λ k.
              gate (set_idt_entries isr entry (i + 1) n m') (entry + 16 * k)
              ≡ (handler_at isr k, 8, 1, 0x8E))
            (same_index i j e)
            (gate_same (set_idt_entries isr entry (i + 1) n m') m' (entry + 16 * i)
                (λ a h. set_idt_entries_below isr entry (i + 1) n m' a (ground arith))
              ∙ set_idt_entry-gate m (entry + 16 * i) (handler_at isr i) (words i))
      | inr e ↦ set_idt_entries-gate isr entry (i + 1) n j m' words (ground arith) (ground arith)
    ]

-- After `init_IDT` each of the hundred vectors has a present interrupt gate of the kernel: to the
-- routine that the source names for it, in the code segment 8, on the interrupt stack 1. The
-- addresses of the routines are of 64 bits.
pub init_idt-gate :
    (isr : List ℕ) (m : Mem) (j : ℕ)
    → ((k : ℕ) → handler_at isr k < 2 ^ 64)
    → j < 100
    → gate (init_idt isr m) (idtr_start_addr + 16 + 16 * j) ≡ (handler_at isr j, 8, 1, 0x8E)
unfolding init_idt
init_idt-gate isr m j words less =
    set_idt_entries-gate isr (idtr_start_addr + 16) 0 100 j _ words (ground arith) less

-- The segment that the processor reads at an entry: the base (with the upper half of a system
-- segment), the limit, the access byte and the four flags.
pub segment : Mem → ℕ → ℕ × ℕ × ℕ × ℕ
segment m ent = (
  load16 m (ent + 2) + 2 ^ 16 * m (ent + 4) + 2 ^ 24 * m (ent + 7),
  load16 m ent + 2 ^ 16 * (m (ent + 6) % 16),
  m (ent + 5),
  m (ent + 6) / 16,
)

-- After `init_GDT_TSS`, whatever the memory was: GDTR names the table of 40 bytes behind it, the
-- entries 1 and 2 are the flat code and data segments of ring 0 with the granularity and the 64-bit
-- flag set, entry 3 is the task segment right behind the table, with no upper half, and the task
-- segment has the stack 0x800000 for the interrupts and no I/O map.
pub init_gdt_tss_lem :
    (m : Mem)
    → let m' = init_gdt_tss m in
      (load16 m' gdtr_start_addr ≡ 39)
      × (load32 m' (gdtr_start_addr + 2) ≡ gdtr_start_addr + 16)
      × (segment m' (gdtr_start_addr + 24) ≡ (0, 0xFFFF, 0x9A, 0xA))
      × (segment m' (gdtr_start_addr + 32) ≡ (0, 0xFFFF, 0x92, 0xA))
      × (segment m' (gdtr_start_addr + 40) ≡ (gdtr_start_addr + 56, 103, 0x89, 0x8))
      × (load32 m' (gdtr_start_addr + 48) ≡ 0)
      × (load32 m' (gdtr_start_addr + 56 + 36) ≡ 0x800000)
      × (load32 m' (gdtr_start_addr + 56 + 40) ≡ 0)
      × (load16 m' (gdtr_start_addr + 56 + 102) ≡ 0xFFFF)
unfolding init_gdt_tss segment memset
init_gdt_tss_lem m = (refl, refl, refl, refl, refl, refl, refl, refl, refl)
