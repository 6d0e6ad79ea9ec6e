-- ===== src/Boot/Main.antt =====
-- When `main` of core/kernel32/main.c goes on to the 64-bit kernel, and what it copies there.
use ghittle.Base.{
  ℕ, zero, suc, ◌+◌, ◌-◌, ◌*◌, ◌/◌, ◌^◌, ◌<◌, ◌≤◌, ◌≡◌, ◌⊎◌, inl, inr, Bool, true, false,
  Bool-cases, ◌&&◌, ◌==◌, ltb, leb, refl, ap, ◌∙◌, if◌then◌else◌, arith, not, bit_and,
}
use ghittle.Mem.{Mem, store32, load32}
use ghittle.Boot.{
  init_kern64_mem, init_pagetable, validate_64bit_mode, copy_kern64, copy_words, load16, Cpuid,
  main, opening, unless_failed, pboot_flag,
}

and_true : (b : Bool) → b && true ≡ b
and_true true = refl
and_true false = refl

unless_failed_0 :
    (r : Bool × Mem) (next : Mem → Bool × Mem) (ok : Bool)
    → ((m : Mem) → (next m).0 ≡ ok)
    → (unless_failed r next).0 ≡ r.0 && ok
unfolding unless_failed
unless_failed_0 (false, m) next ok h = refl
unless_failed_0 (true, m) next ok h = h m

init_pagetable_0 : (m : Mem) → (init_pagetable m).0 ≡ true
unfolding init_pagetable
init_pagetable_0 m = elim (Bool-cases (m pboot_flag == 0)) [ inl e ↦ rw e refl | inr e ↦ rw e refl ]

validate_64bit_mode_0 :
    (cpuid : Cpuid) (m : Mem)
    → (validate_64bit_mode cpuid m).0 ≡ not (bit_and (cpuid 0x80000001).3 (2 ^ 29) == 0)
unfolding validate_64bit_mode
validate_64bit_mode_0 cpuid m = elim (Bool-cases (bit_and (cpuid 0x80000001).3 (2 ^ 29) == 0)) [
  | inl e ↦ rw e refl
  | inr e ↦ rw e refl
]

copy_kern64_0 : (m : Mem) → (copy_kern64 m).0 ≡ true
unfolding copy_kern64
copy_kern64_0 m = elim (Bool-cases (m pboot_flag == 0)) [ inl e ↦ rw e refl | inr e ↦ rw e refl ]

-- Storing a loaded word copies its four bytes.
store32-load32 :
    (m : Mem) (dst src a : ℕ)
    → ((b : ℕ) → m b < 256)
    → store32 m dst (load32 m src) a
      ≡ (if leb dst a && ltb a (dst + 4) then m (src + (a - dst)) else m a)
store32-load32 m dst src a bytes =
    ground (arith, bytes src, bytes (src + 1), bytes (src + 2), bytes (src + 3))

store32_byte : (m : Mem) (a v b : ℕ) → m b < 256 → store32 m a v b < 256
store32_byte m a v b h = ground arith

copy_words_lem :
    (n dst src : ℕ) (m : Mem) (a : ℕ)
    → (src + 4 * n ≤ dst) ⊎ (dst ≤ src)
    → ((b : ℕ) → m b < 256)
    → copy_words n dst src m a
      ≡ (if leb dst a && ltb a (dst + 4 * n) then m (src + (a - dst)) else m a)
unfolding copy_words
copy_words_lem zero dst src m a apart bytes = ground arith
copy_words_lem (suc n) dst src m a (inl apart) bytes =
    let m' = store32 m dst (load32 m src) in
    copy_words_lem n (dst + 4) (src + 4) m' a (inl (ground arith))
      (λ b. store32_byte m dst (load32 m src) b (bytes b))
    ∙ ground (
      arith,
      store32-load32 m dst src a bytes,
      store32-load32 m dst src (src + 4 + (a - (dst + 4))) bytes,
    )
copy_words_lem (suc n) dst src m a (inr apart) bytes =
    let m' = store32 m dst (load32 m src) in
    copy_words_lem n (dst + 4) (src + 4) m' a (inr (ground arith))
      (λ b. store32_byte m dst (load32 m src) b (bytes b))
    ∙ ground (
      arith,
      store32-load32 m dst src a bytes,
      store32-load32 m dst src (src + 4 + (a - (dst + 4))) bytes,
    )

-- `copy_kern64` while PBOOT_FLAG is clear, for sector counts whose difference fits the two megabytes
-- below the kernel's place: exactly the bytes of the sectors behind those of the 32-bit kernel are
-- at 0x200000, as they were before.
pub copy_kern64_lem :
    (m : Mem) (a : ℕ)
    → m pboot_flag ≡ 0
    → ((b : ℕ) → m b < 256)
    → load16 m 0x7C07 ≤ load16 m 0x7C05
    → 512 * load16 m 0x7C05 ≤ 0x1F0000
    → (copy_kern64 m).1 a ≡ (
        if leb 0x200000 a && ltb a (0x200000 + 512 * (load16 m 0x7C05 - load16 m 0x7C07))
        then m (0x10000 + load16 m 0x7C07 * 512 + (a - 0x200000))
        else m a)
unfolding copy_kern64
copy_kern64_lem m a clear bytes some_kernel room =
    rw (test, copy_kern64)
      (copy_words_lem (512 * (load16 m 0x7C05 - load16 m 0x7C07) / 4) 0x200000
          (0x10000 + load16 m 0x7C07 * 512) m a (inl (ground arith)) bytes
        ∙ ground arith)
  where
    test : (m pboot_flag == 0) ≡ true
    test = ground (arith, clear)

-- `main` comes to `switch_to_64bit` exactly if `init_kern64_mem`, with what the first lines on the
-- screen leave of the memory, succeeds and the processor says that it has the long mode (bit 29 of
-- EDX): the other stages never fail, whether PBOOT_FLAG is set or not.
pub main_lem :
    (keep : Mem → ℕ → ℕ → Mem) (cpuid : Cpuid) (m : Mem)
    → (main keep cpuid m).0
      ≡ (init_kern64_mem keep (opening m)).0 && not (bit_and (cpuid 0x80000001).3 (2 ^ 29) == 0)
unfolding main
main_lem keep cpuid m =
    let long_mode = not (bit_and (cpuid 0x80000001).3 (2 ^ 29) == 0) in
    unless_failed_0 (init_kern64_mem keep (opening m)) _ long_mode (λ m₁.
      unless_failed_0 (init_pagetable _) _ long_mode (λ m₂.
        unless_failed_0 (validate_64bit_mode cpuid _) _ true (λ m₃.
          unless_failed_0 (copy_kern64 _) _ true (λ m₄. refl)
          ∙ ap (λ b. b && true) (copy_kern64_0 _))
        ∙ ap (λ b. b && true) (validate_64bit_mode_0 cpuid _)
        ∙ and_true long_mode)
      ∙ ap (λ b. b && long_mode) (init_pagetable_0 _))
