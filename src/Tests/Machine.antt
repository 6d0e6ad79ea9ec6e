-- ===== src/Tests/Machine.antt =====
-- The boot code, the descriptor tables, the waits and the disk on concrete data.
use ghittle.Base.{
  ℕ, zero, suc, ◌+◌, ◌-◌, ◌*◌, ◌/◌, get_or, ◌^◌, ◌<◌, ◌≤◌, ◌≡◌, ◌≢◌, refl, true, false, ◌&&◌, not,
  none, some, List, [], ◌∷◌, ◌==◌, ltb, leb, bit_and, if◌then◌else◌, arith, inl, inr, ◌⊎◌,
}
use ghittle.Base.Int.{pos}
use ghittle.Mem.{Mem, load32, store32}
use ghittle.Mem.Laws.{load32-store32_self}
use ghittle.Boot.{init_kern64_mem, main, opening}
use ghittle.Boot.Clear.{init_kern64_mem_lem}
use ghittle.Boot.Main.{main_lem}
use ghittle.Desc.{init_idt, handler_at, idtr_start_addr}
use ghittle.Desc.Decode.{gate, init_idt-gate}
use ghittle.Timer.{mdelay}
use ghittle.Timer.Wait.{mdelay_lem}
use ghittle.Page.{get_pte}
use ghittle.Page.Walk.{entry_of, get_pte-entry_of}
use ghittle.Str.Laws.{AllBelow}
use ghittle.Sync.{Mutex, init_mutex, lock, unlock}
use ghittle.Sync.Laws.{depth}
use ghittle.Sync.Runs.{Run, begin, locks, changed, mutual_exclusion}
use ghittle.MkFilesys.{alloc_block}
use ghittle.MkFilesys.Alloc.{Outcome, alloc_block-Outcome}
use ghittle.Hdd.{Board, Hdd, wait_stat, wait_hdd_ready}
use ghittle.Hdd.Sector.{read_hdd_sector, write_hdd_sector}
use ghittle.Hdd.Waits.{wait_hdd_ready_lem}
use ghittle.Hdd.Transfer.{Returns, mutex-hdd_sector}
use ghittle.Hdd.Refuse.{Refuses, Refused, hdd_sector-Refused}

abbrev sevens : Mem
sevens a = 7

-- A board that stores a 1 for every word.
abbrev stuck : Mem → ℕ → ℕ → Mem
stuck m a v = store32 m a 1

stuck_lost : (m : Mem) (a : ℕ) → load32 (stuck m a 0) a ≢ 0
stuck_lost m a e = ground (arith, load32-store32_self m a 1 (ground arith), e)

-- PBOOT_FLAG is clear.
abbrev fresh : Mem
fresh a = if a == 0x7DFC then 0 else 7

init_kern64_mem_lem_example :
    ((init_kern64_mem store32 fresh).0 ≡ true)
    × ((init_kern64_mem store32 fresh).1 0x5FFFFF
        ≡ (if leb 0x100000 0x5FFFFF && ltb 0x5FFFFF 0x600000 then 0 else fresh 0x5FFFFF))
    × ((init_kern64_mem stuck fresh).0 ≡ false)
    × (init_kern64_mem stuck sevens ≡ (true, sevens))
init_kern64_mem_lem_example =
    init_kern64_mem_lem fresh sevens 0x5FFFFF stuck 5 refl (λ e. ground (arith, e)) (omega arith)
      (λ m. stuck_lost m (0x100000 + 4 * 5))

-- A processor with the long mode, on a board that loses what is written.
main_lem_example :
    (main stuck (λ leaf. (0, 0, 0, 2 ^ 29)) fresh).0
    ≡ (init_kern64_mem stuck (opening fresh)).0 && not (bit_and (2 ^ 29) (2 ^ 29) == 0)
main_lem_example = main_lem stuck (λ leaf. (0, 0, 0, 2 ^ 29)) fresh

-- The handlers stand at multiples of 16.
abbrev isr : List ℕ
isr = 0x1000 ∷ 0x1010 ∷ 0x1020 ∷ 0x1030 ∷ []

get_or_below : (xs : List ℕ) (i : ℕ) → AllBelow (2 ^ 64) xs → get_or xs i 0 < 2 ^ 64
get_or_below [] i h = omega arith
get_or_below (x ∷ xs) zero h = h.0
get_or_below (x ∷ xs) (suc i) h = get_or_below xs i h.1

isr_words : (j : ℕ) → handler_at isr j < 2 ^ 64
isr_words j = ground (arith, in_list j, in_list (j - 12), in_list 36, in_list 37)
  where
    in_list : (i : ℕ) → get_or isr i 0 < 2 ^ 64
    in_list i = get_or_below isr i (omega arith, (omega arith, (omega arith, (omega arith, tt))))

init_idt-gate_example :
    gate (init_idt isr sevens) (idtr_start_addr + 16 + 16 * 2) ≡ (handler_at isr 2, 8, 1, 0x8E)
init_idt-gate_example = init_idt-gate isr sevens 2 isr_words (omega arith)

-- A clock that moves at every second reading.
mdelay_lem_example :
    (j : ℕ) × (mdelay (λ i. i / 2) 7 2 ≡ some j)
    × (j ≤ 1 + 5)
    × (0 / 2 + 2 < j / 2)
    × ((n : ℕ) → 1 ≤ n → n < j → n / 2 ≤ 0 / 2 + 2)
mdelay_lem_example =
    mdelay_lem (λ i. i / 2) 2 5 7 (λ i to. omega arith) (λ i to. omega arith) (omega arith)
      (omega arith)

-- One table that leads to itself.
abbrev tables : Mem
tables = store32 (λ a. 0) 0x100000 0x100003

tables_found : entry_of tables 0x100000 0xFFF ≡ some 0x100000
tables_found = refl

get_pte-entry_of_example : get_pte tables 0x100000 0xFFF ≡ some 0x100000
get_pte-entry_of_example = get_pte-entry_of tables 0x100000 0xFFF 0x100000 tables_found

-- Task 3 is inside.
abbrev taken : Mutex
taken = record { tid = 3; count = 1; flag = 1 }

taken-Run : Run 1 taken (changed (λ t. 0) 3 1)
unfolding lock
taken-Run = locks 0 3 init_mutex taken (λ t. 0) begin refl

mutual_exclusion_example :
    (depth taken 3 ≡ 1)
    × (changed (λ t. 0) 3 1 4 ≡ 0)
    × (lock 4 taken ≡ none)
    × (unlock 4 taken ≡ taken)
mutual_exclusion_example =
    mutual_exclusion 1 taken (changed (λ t. 0) 3 1) 3 4 taken-Run (omega arith) (omega arith)
      (ground arith)

-- Blocks 0 and 1 are used.
alloc_block-Outcome_example :
    Outcome 0
      (512 / 4)
      1
      (λ i. if ltb i 2 then 9 else 0)
      (alloc_block (λ i. if ltb i 2 then 9 else 0) 512 1)
alloc_block-Outcome_example = alloc_block-Outcome (λ i. if ltb i 2 then 9 else 0) 512 1

-- A disk that is busy for ever, on a board whose clock counts the delays.
abbrev slow : Board
slow = record {
  State = ℕ;
  in_b = λ s p. (0x80, s);
  in_w = λ s p. (0, s);
  out_b = λ s p v. s;
  out_w = λ s p v. s;
  delay = λ s. s + 1;
  tick = λ s. s;
  arrived = λ s. (false, false);
}

abbrev disk : Hdd
disk = record {
  detected = 1;
  writable = 0;
  int_primary = 0;
  int_secondary = 0;
  mutex = init_mutex;
  hdd_info = λ a. 0;
}

wait_hdd_ready_lem_example :
    (wait_stat slow (λ stat. not (bit_and stat 0x40 == 0)) true 600 3 (disk, 3)
      ≡ wait_hdd_ready slow true (disk, 3))
    × (((wait_hdd_ready slow true (disk, 3)).0 ≡ true)
        ⊎ (3 + 500 < (wait_hdd_ready slow true (disk, 3)).1.1))
wait_hdd_ready_lem_example =
    wait_hdd_ready_lem slow (λ s p. (omega arith, omega arith)) (λ s. (omega arith, omega arith))
      true 600 (disk, 3) (omega arith)

mutex-hdd_sector_example :
    Returns slow (read_hdd_sector slow 5 true true 8 (pos 2) 4096 sevens (disk, 3)) init_mutex
    × Returns slow (write_hdd_sector slow 5 true true 8 (pos 2) 4096 sevens (disk, 3)) init_mutex
mutex-hdd_sector_example =
    mutex-hdd_sector slow 5 true true 8 (pos 2) 4096 sevens (disk, 3) (inl refl) (omega arith)

nothing_there : Refuses disk false 8 2
nothing_there = inr (inr (omega arith, omega arith))

hdd_sector-Refused_example :
    Refused slow 5 sevens
      (disk, 3)
      (read_hdd_sector slow 5 true true 8 (pos 2) 4096 sevens (disk, 3))
    × Refused slow 5 sevens
        (disk, 3)
        (write_hdd_sector slow 5 true true 8 (pos 2) 4096 sevens (disk, 3))
hdd_sector-Refused_example =
    hdd_sector-Refused slow 5 true true 8 2 4096 sevens (disk, 3) (inl refl) (omega arith)
      (inr nothing_there)
