-- ===== src/Str/Laws.antt =====
-- What the functions of utils/string.c compute.
use ghittle.Base.{
  ℕ, zero, suc, ◌+◌, ◌-◌, ◌≤◌, ◌<◌, ◌≡◌, ◌∙◌, ap, refl, ◌&&◌, List, [], ◌∷◌, get_or, ◌==◌, leb, ltb,
  if◌then◌else◌, inl, inr, Bool-cases, arith,
}
use ghittle.Base.Int.{pos}
use ghittle.Mem.{Mem, store}
use ghittle.Str.{strlen, char_diff, strcmp, strcpy}

-- Byte `i` of a string.
abbrev pub char_at : List ℕ → ℕ → ℕ
char_at s i = get_or s i 0

abbrev pub AllBelow : ℕ → List ℕ → Type 0
AllBelow n [] = Unit
AllBelow n (c ∷ cs) = (c < n) × AllBelow n cs

char_at-cons :
    (c : ℕ) (cs : List ℕ) (i : ℕ) → char_at (c ∷ cs) i ≡ (if i == 0 then c else char_at cs (i - 1))
char_at-cons c cs zero = refl
char_at-cons c cs (suc i) = ground (arith, ap (char_at cs) (pred_suc i))
  where
    pred_suc : (i : ℕ) → suc i - 1 ≡ i
    pred_suc i = omega arith

-- `strcpy` writes the bytes of the string without its NUL, and nothing else: in particular not
-- the byte behind the copy.
pub strcpy_lem :
    (m : Mem) (dst : ℕ) (s : List ℕ) (a : ℕ)
    → strcpy m dst s a ≡ (if leb dst a && ltb a (dst + strlen s) then char_at s (a - dst) else m a)
unfolding strcpy strlen
strcpy_lem m dst [] a = ground arith
strcpy_lem m dst (c ∷ cs) a = ground (
  arith,
  strcpy_lem (store m dst c) (dst + 1) cs a,
  char_at-cons c cs (a - dst),
  ap (char_at cs) (shift a dst),
)
  where
    shift : (a dst : ℕ) → a - dst - 1 ≡ a - (dst + 1)
    shift a dst = omega arith

char_diff-zero : (a b : ℕ) → a < 256 → b < 256 → char_diff b a ≡ pos 0 → a ≡ b
char_diff-zero a b ha hb e = ground arith

-- The string at an address is the given one, up to and with the NUL.
abbrev pub Holds : Mem → ℕ → List ℕ → Type 0
Holds m a s = (i : ℕ) → i ≤ strlen s → m (a + i) ≡ char_at s i

-- For bytes in memory and in the string, `strcmp` gives 0 only if the memory holds the string
-- with its end.
pub Holds-of_strcmp :
    (m : Mem) (a : ℕ) (s : List ℕ)
    → ((b : ℕ) → m b < 256)
    → AllBelow 256 s
    → strcmp m a s ≡ pos 0
    → Holds m a s
unfolding strcmp strlen
Holds-of_strcmp m a [] hm hs e i h =
    ground (arith, char_diff-zero (m a) 0 (hm a), ap m (at_start a i h))
  where
    at_start : (a i : ℕ) → i ≤ 0 → a + i ≡ a
    at_start a i h = omega arith
Holds-of_strcmp m a (c ∷ cs) hm hs e zero h =
    ground (arith, char_diff-zero (m a) c (hm a) hs.0, ap m (at_start a))
  where
    at_start : (a : ℕ) → a + 0 ≡ a
    at_start a = omega arith
Holds-of_strcmp m a (c ∷ cs) hm hs e (suc i) h = ground (
  arith,
  char_diff-zero (m a) c (hm a) hs.0,
  λ (p : strcmp m (a + 1) cs ≡ pos 0) (q : i ≤ strlen cs).
      Holds-of_strcmp m (a + 1) cs hm hs.1 p i q,
  ap m (shift a i),
)
  where
    shift : (a i : ℕ) → a + 1 + i ≡ a + suc i
    shift a i = omega arith

-- `strcmp` gives 0 if the strings are equal.
pub strcmp_of_Holds : (m : Mem) (a : ℕ) (s : List ℕ) → Holds m a s → strcmp m a s ≡ pos 0
unfolding strcmp strlen
strcmp_of_Holds m a [] h = ground (arith, first)
  where
    first : m a ≡ 0
    first = ap m (omega arith) ∙ h 0 (omega arith)
strcmp_of_Holds m a (c ∷ cs) h = elim (Bool-cases (c == 0)) [
  | inl e ↦ ground (arith, first)
  | inr ne ↦ ground (
    arith,
    first,
    strcmp_of_Holds m (a + 1) cs
        λ i le. ap m (omega arith) ∙ h (suc i) (rw (ne, strlen) (omega arith)),
  )
]
  where
    first : m a ≡ c
    first = ap m (omega arith) ∙ h 0 (omega arith)
