-- ===== src/Boot/Clear.antt =====
-- What `init_kern64_mem` of core/kernel32/main.c does to the memory of the 64-bit kernel.
use mathlib.Core.Path.{subst}
use ghittle.Base.{
  ℕ, zero, suc, ◌+◌, ◌*◌, ◌<◌, ◌≡◌, ◌≢◌, true, false, ◌&&◌, ◌==◌, ltb, leb, refl, ap, ◌∙◌,
  if◌then◌else◌, arith, Bool-cases, inl, inr,
}
use ghittle.Mem.{Mem, store32, load32}
use ghittle.Mem.Laws.{load32-store32_self}
use ghittle.Boot.{clear_words, init_kern64_mem, kmem_start, pboot_flag}

keeps : (m : Mem) (pos : ℕ) → (load32 (store32 m pos 0) pos == 0) ≡ true
keeps m pos = ap (λ v. v == 0) (load32-store32_self m pos 0 (ground arith))

-- On memory that keeps each word, the loop ends well.
pub clear_words-kept : (pos n : ℕ) (m : Mem) → (clear_words store32 n pos m).0 ≡ true
unfolding clear_words
clear_words-kept pos zero m = refl
clear_words-kept pos (suc n) m =
    rw (keeps m pos, clear_words) (clear_words-kept (pos + 4) n (store32 m pos 0))

pub clear_words-zero :
    (pos n : ℕ) (m : Mem) (a : ℕ)
    → (clear_words store32 n pos m).1 a ≡ (if leb pos a && ltb a (pos + 4 * n) then 0 else m a)
unfolding clear_words
clear_words-zero pos zero m a = ground arith
clear_words-zero pos (suc n) m a =
    rw (keeps m pos, clear_words)
      (rw (clear_words-zero (pos + 4) n (store32 m pos 0) a) (ground arith))

fails :
    (keep : Mem → ℕ → ℕ → Mem) (m : Mem) (pos : ℕ)
    → load32 (keep m pos 0) pos ≢ 0
    → (load32 (keep m pos 0) pos == 0) ≡ false
fails keep m pos lost = ground (arith, lost)

-- A word that the board does not keep stops the loop at it, or before.
clear_words-lost :
    (keep : Mem → ℕ → ℕ → Mem) (pos n k bad : ℕ) (m : Mem)
    → k < n
    → bad ≡ pos + 4 * k
    → ((m' : Mem) → load32 (keep m' bad 0) bad ≢ 0)
    → (clear_words keep n pos m).0 ≡ false
unfolding clear_words
clear_words-lost keep pos zero k bad m less here lost = ground arith
clear_words-lost keep pos (suc n) zero bad m less here lost =
    rw
      (
        fails keep m pos (subst (λ p. load32 (keep m p 0) p ≢ 0) (here ∙ ground arith) (lost m)),
        clear_words,
      )
      refl
clear_words-lost keep pos (suc n) (suc k) bad m less here lost =
    elim (Bool-cases (load32 (keep m pos 0) pos == 0)) [
      | inl e ↦
          rw (e, clear_words)
            (clear_words-lost keep (pos + 4) n k bad (keep m pos 0) (ground arith) (ground arith)
              lost)
      | inr e ↦ rw (e, clear_words) refl
    ]

-- If PBOOT_FLAG is clear, `init_kern64_mem` works: on a board that keeps what is written, it returns
-- 0, and exactly the five megabytes of the kernel are zero; on one where some word of them never
-- keeps a zero, it returns an error. If the flag is set, it returns 0 and does nothing.
pub init_kern64_mem_lem :
    (m m₁ : Mem) (a : ℕ) (keep : Mem → ℕ → ℕ → Mem) (k : ℕ)
    → m pboot_flag ≡ 0
    → m₁ pboot_flag ≢ 0
    → k < 0x140000
    → ((m' : Mem) → load32 (keep m' (0x100000 + 4 * k) 0) (0x100000 + 4 * k) ≢ 0)
    → ((init_kern64_mem store32 m).0 ≡ true)
      × ((init_kern64_mem store32 m).1 a ≡ (if leb 0x100000 a && ltb a 0x600000 then 0 else m a))
      × ((init_kern64_mem keep m).0 ≡ false)
      × (init_kern64_mem keep m₁ ≡ (true, m₁))
unfolding init_kern64_mem
init_kern64_mem_lem m m₁ a keep k clear set less lost =
    rw (test, test₁, init_kern64_mem)
      (
        clear_words-kept kmem_start 0x140000 m,
        clear_words-zero kmem_start 0x140000 m a,
        clear_words-lost keep kmem_start 0x140000 k (0x100000 + 4 * k) m less refl lost,
        refl,
      )
  where
    test : (m pboot_flag == 0) ≡ true
    test = ground (arith, clear)

    test₁ : (m₁ pboot_flag == 0) ≡ false
    test₁ = ground (arith, set)
