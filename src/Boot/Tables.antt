-- ===== src/Boot/Tables.antt =====
-- The page tables of `init_pagetable` in core/kernel32/main.c, read the way the processor does.
use mathlib.Core.Path.{subst}
use ghittle.Base.{
  ℕ, zero, suc, ◌+◌, ◌*◌, ◌/◌, ◌%◌, ◌^◌, ◌<◌, ◌≤◌, ◌≡◌, ◌⊎◌, inl, inr, false, Option, none, some,
  Bool-cases, ◌&&◌, ◌==◌, ltb, leb, bit_or, refl, ap, ◌∙◌, if◌then◌else◌, arith,
}
use ghittle.Base.Finite.{passes, passes_at}
use ghittle.Mem.{Mem, store32, load32}
use ghittle.Mem.Laws.{load32-store32_self, load32-store32_ne}
use ghittle.Boot.{clear_entries, map_entries, set_pd_32, set_pte_32, spage_size, pd_start}

-- An entry of a table, eight bytes.
abbrev pub table_entry : Mem → ℕ → ℕ → ℕ
table_entry m table i = load32 m (table + 8 * i) + 2 ^ 32 * load32 m (table + 8 * i + 4)

abbrev next_table : ℕ → ℕ
next_table e = e / 4096 % 2 ^ 40 * 4096

-- The walk of the processor down to a large page: a present entry of the first two levels leads to
-- the next table, and one of the third with the size bit is a page of two megabytes.
abbrev pub step : ℕ → Option ℕ
step e = if e % 2 == 1 then some (next_table e) else none

abbrev pub large_page : ℕ → ℕ → Option ℕ
large_page e addr =
    if e % 2 == 1 && (e / 128 % 2 == 1)
    then some (e / 2 ^ 21 % 2 ^ 31 * 2 ^ 21 + addr % 2 ^ 21)
    else none

set_pd_32_zero :
    (m : Mem) (d a : ℕ) → set_pd_32 m d 0 0 0 a ≡ (if leb d a && ltb a (d + 8) then 0 else m a)
unfolding set_pd_32
set_pd_32_zero m d a = ground arith

set_pd_32_here :
    (m : Mem) (d low flags : ℕ)
    → bit_or low flags < 2 ^ 32
    → (load32 (set_pd_32 m d 0 low flags) d ≡ bit_or low flags)
      × (load32 (set_pd_32 m d 0 low flags) (d + 4) ≡ 0)
unfolding set_pd_32
set_pd_32_here m d low flags h = (
  load32-store32_ne (store32 m d (bit_or low flags)) (d + 4) d 0 (inr (ground arith))
      ∙ load32-store32_self m d (bit_or low flags) h,
  load32-store32_self (store32 m d (bit_or low flags)) (d + 4) 0 (ground arith),
)

pub set_pd_32_else :
    (m : Mem) (d high low flags a : ℕ)
    → (a < d) ⊎ (d + 8 ≤ a)
    → set_pd_32 m d high low flags a ≡ m a
unfolding set_pd_32
set_pd_32_else m d high low flags a h = ground arith

-- The loop over whole entries clears them and leaves the other bytes alone.
pub clear_entries_lem :
    (d i n : ℕ) (m : Mem) (a : ℕ)
    → clear_entries d i n m a ≡ (if leb (d + 8 * i) a && ltb a (d + 8 * (i + n)) then 0 else m a)
unfolding clear_entries
clear_entries_lem d i zero m a = ground arith
clear_entries_lem d i (suc n) m a =
    rw
      (
        clear_entries_lem d (i + 1) n (set_pd_32 m (d + 8 * i) 0 0 0) a,
        set_pd_32_zero m (d + 8 * i) a,
      )
      (ground arith)

pub entry_same :
    (m m' : Mem) (t i : ℕ)
    → ((a : ℕ) → t + 8 * i ≤ a → a < t + 8 * i + 8 → m a ≡ m' a)
    → table_entry m t i ≡ table_entry m' t i
entry_same m m' t i same =
    let at = λ (k : ℕ) (less : k < 8). same (t + 8 * i + k) (ground arith) (ground arith) in
    ground (
      arith,
      at 0 (ground arith),
      at 1 (ground arith),
      at 2 (ground arith),
      at 3 (ground arith),
      at 4 (ground arith),
      at 5 (ground arith),
      at 6 (ground arith),
      at 7 (ground arith),
    )

pub table_entry-set_pd_32 :
    (m : Mem) (t i low flags : ℕ)
    → bit_or low flags < 2 ^ 32
    → table_entry (set_pd_32 m (t + 8 * i) 0 low flags) t i ≡ bit_or low flags
table_entry-set_pd_32 m t i low flags h =
    let here = set_pd_32_here m (t + 8 * i) low flags h in rw (here.0, here.1) (ground arith)

set_pte_32-set_pd_32 :
    (m : Mem) (e high low flags : ℕ) → set_pte_32 m e high low flags ≡ set_pd_32 m e high low flags
unfolding set_pte_32 set_pd_32
set_pte_32-set_pd_32 m e high low flags = refl

-- A byte outside a run of entries is outside the first of them and outside the rest.
abbrev pub Outside : ℕ → ℕ → ℕ → Type 0
Outside i n a = (a < pd_start + 8 * i) ⊎ (pd_start + 8 * (i + n) ≤ a)

Outside-first :
    (i n a : ℕ) → Outside i (suc n) a → (a < pd_start + 8 * i) ⊎ (pd_start + 8 * i + 8 ≤ a)
Outside-first i n a (inl h) = inl h
Outside-first i n a (inr h) = inr (ground arith)

Outside-rest : (i n a : ℕ) → Outside i (suc n) a → Outside (i + 1) n a
Outside-rest i n a (inl h) = inl (ground arith)
Outside-rest i n a (inr h) = inr (ground arith)

pub map_entries_else :
    (i addr high n : ℕ) (m : Mem) (a : ℕ) → Outside i n a → map_entries i addr high n m a ≡ m a
unfolding map_entries
map_entries_else i addr high zero m a h = refl
map_entries_else i addr high (suc n) m a h =
    let next = (addr + spage_size) % 2 ^ 32 in
    map_entries_else (i + 1) next (if next == 0 then (high + 1) % 2 ^ 32 else high) n
      (set_pte_32 m (pd_start + 8 * i) high addr 0x83) a (Outside-rest i n a h)
    ∙ ap (λ m'. m' a) (set_pte_32-set_pd_32 m (pd_start + 8 * i) high addr 0x83)
    ∙ set_pd_32_else m (pd_start + 8 * i) high addr 0x83 a (Outside-first i n a h)

-- The flags of a large page go into bits that its address leaves clear.
large_flags : (j : ℕ) → j < 16 → bit_or (j * spage_size) 0x83 ≡ j * spage_size + 0x83
unfolding passes
large_flags j less =
    ground
      (arith, passes_at (λ k. bit_or (k * spage_size) 0x83 == k * spage_size + 0x83) 16 j less refl)

next_address :
    (i : ℕ)
    → i < 16
    → ((i * spage_size + spage_size) % 2 ^ 32 ≡ (i + 1) * spage_size)
      × (((i * spage_size + spage_size) % 2 ^ 32 == 0) ≡ false)
next_address i less = (ground arith, ground arith)

table_entry-set_pte_32 :
    (m : Mem) (i : ℕ)
    → i < 16
    → table_entry (set_pte_32 m (pd_start + 8 * i) 0 (i * spage_size) 0x83) pd_start i
      ≡ i * spage_size + 0x83
table_entry-set_pte_32 m i less =
    ap (λ m'. table_entry m' pd_start i)
      (set_pte_32-set_pd_32 m (pd_start + 8 * i) 0 (i * spage_size) 0x83)
    ∙ table_entry-set_pd_32 m pd_start i (i * spage_size) 0x83 (ground (arith, large_flags i less))
    ∙ large_flags i less

-- Entry j of the table is the page at j times two megabytes.
pub table_entry-map_entries :
    (i n j : ℕ) (m : Mem)
    → i ≤ j
    → j < i + n
    → i + n ≤ 16
    → table_entry (map_entries i (i * spage_size) 0 n m) pd_start j ≡ j * spage_size + 0x83
unfolding map_entries
table_entry-map_entries i zero j m low high bound = ground arith
table_entry-map_entries i (suc n) j m low high bound =
    let next = next_address i (ground arith) in
    rw (next.1, next.0)
      (elim (Bool-cases (i == j)) [
        | inl e ↦
            entry_same
              (map_entries (i + 1) ((i + 1) * spage_size) 0 n
                (set_pte_32 m (pd_start + 8 * i) 0 (i * spage_size) 0x83))
              (set_pte_32 m (pd_start + 8 * i) 0 (i * spage_size) 0x83) pd_start j
              (λ a from to.
                map_entries_else (i + 1) ((i + 1) * spage_size) 0 n
                  (set_pte_32 m (pd_start + 8 * i) 0 (i * spage_size) 0x83) a (inl (ground arith)))
            ∙ subst
                (λ k.
                  table_entry (set_pte_32 m (pd_start + 8 * i) 0 (i * spage_size) 0x83) pd_start k
                  ≡ k * spage_size + 0x83)
                (ground arith) (table_entry-set_pte_32 m i (ground arith))
        | inr e ↦
            table_entry-map_entries (i + 1) n j
              (set_pte_32 m (pd_start + 8 * i) 0 (i * spage_size) 0x83) (ground arith)
              (ground arith) (ground arith)
      ])
