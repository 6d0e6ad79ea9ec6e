-- ===== src/Str/Format.antt =====
-- utils/string.c: `vsprintf` and `sprintf`, and the conversions `dqtos`, `hltos` and `hqtos`. A
-- buffer is the list of the bytes that are written to it.
use ghittle.Base.{
  ℕ, zero, suc, ◌+◌, ◌-◌, ◌*◌, ◌/◌, ◌%◌, ◌^◌, Bool, true, false, Option, none, some, List, [], ◌∷◌,
  ◌++◌, length, ◌==◌, leb, ltb, if◌then◌else◌, ◌||◌,
}
use mathlib.Core.Option.{map}
use ghittle.Base.Int.{ℤ, pos, negsuc, signed_int}
use ghittle.Str.{itos, digit_char}
pub mod Pieces

-- What `va_arg` can take from the list of arguments.
pub data Arg : Type 0 where
  text : List ℕ → Arg
  number : ℤ → Arg

-- The low half of a register.
abbrev pub low_word : ℤ → ℕ
low_word (pos n) = n % 2 ^ 32
low_word (negsuc n) = 2 ^ 32 - 1 - n % 2 ^ 32

-- The bytes of a string up to its NUL.
unfoldable pub string_bytes : List ℕ → List ℕ
string_bytes [] = []
string_bytes (c ∷ cs) = let rest = string_bytes cs in if c == 0 then [] else c ∷ rest

-- The cases of the `switch` in `vsprintf` that take a number from the arguments.
unfoldable pub conversion : ℕ → Option (ℤ → List ℕ)
conversion c =
    if c == b'c'
    then some (λ v. low_word v % 256 ∷ [])
    else (if c == b'd' || (c == b'i')
        then some (λ v. itos (signed_int (low_word v)) false)
        else (if c == b'x'
            then some (λ v. itos (signed_int (low_word v)) true)
            else (if c == b'X'
                then some (λ v. itos v true)
                else (if c == b'q' then some (λ v. itos v false) else none))))

-- None stands for an argument that is missing or of another kind: C leaves open what follows.
abbrev take_text : List Arg → Option (List ℕ × List Arg)
take_text (text s ∷ args) = some (string_bytes s, args)
take_text _ = none

abbrev take_number : (ℤ → List ℕ) → List Arg → Option (List ℕ × List Arg)
take_number show (number v ∷ args) = some (show v, args)
take_number show _ = none

-- The whole `switch` on the byte behind a `%`: what it writes and the arguments left.
unfoldable pub convert : ℕ → List Arg → Option (List ℕ × List Arg)
unfolding conversion
convert c args =
    if c == b's'
    then take_text args
    else elim (conversion c) [ none ↦ some (c ∷ [], args) | some show ↦ take_number show args ]

-- The bytes of one conversion before those of the rest.
abbrev pub format_rest : Option (List ℕ × List Arg) → (List Arg → Option (List ℕ)) → Option (List ℕ)
format_rest none rest = none
format_rest (some (out, args)) rest = map (λ more. out ++ more) (rest args)

-- The loop of `vsprintf` over the bytes of `fstring`. Behind a last `%` the NUL itself is written.
unfoldable pub format_from : List ℕ → List Arg → Option (List ℕ)
unfolding convert
format_from [] args = some []
format_from (c ∷ []) args =
    if c == 0 then some [] else (if c == b'%' then some (0 ∷ []) else some (c ∷ []))
format_from (c ∷ k ∷ cs) args = elim (c == 0) [
  | true ↦ some []
  | false ↦ elim (c == b'%') [
    | false ↦ map (λ out. c ∷ out) (format_from (k ∷ cs) args)
    | true ↦ elim (k == 0) [
      | true ↦ some (0 ∷ [])
      | false ↦ format_rest (convert k args) (format_from cs)
    ]
  ]
]

-- The result is `buf_index` and the bytes of `buf`.
unfoldable pub vsprintf : List ℕ → List Arg → Option (ℕ × List ℕ)
unfolding format_from
vsprintf fstring args = map (λ out. (length out, out ++ (0 ∷ []))) (format_from fstring args)

unfoldable pub sprintf : List ℕ → List Arg → Option (ℕ × List ℕ)
unfolding vsprintf
sprintf fstring args = vsprintf fstring args
