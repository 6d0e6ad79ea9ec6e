-- ===== src/Str/Format/Pieces.antt =====
-- `vsprintf` of utils/string.c against formats that are given as a list of pieces.
use mathlib.Core.Option.{map}
use ghittle.Base.{
  ℕ, ◌^◌, ◌<◌, ◌≡◌, ◌≢◌, ◌∙◌, ap, refl, Bool, true, false, some, List, [], ◌∷◌, ◌++◌, length, ◌==◌,
  arith, ==_ne,
}
use ghittle.Base.Int.{ℤ, pos, negsuc}
use ghittle.Str.{itos}
use ghittle.Str.Format.{
  Arg, text, number, low_word, signed_int, string_bytes, conversion, convert, format_rest,
  format_from, vsprintf,
}

-- A piece of a format: a byte as it stands, `%%`, or a conversion with what it shows.
pub data Piece : Type 0 where
  byte : ℕ → Piece
  percent : Piece
  string : List ℕ → Piece
  char : ℕ → Piece
  decimal : Bool → ℤ → Piece
  hex : ℤ → Piece
  long_hex : ℤ → Piece
  long_decimal : ℤ → Piece

-- The letter, the argument and the output of a conversion.
abbrev source : Piece → List ℕ
source (byte c) = c ∷ []
source percent = b'%' ∷ b'%' ∷ []
source (string s) = b'%' ∷ b's' ∷ []
source (char c) = b'%' ∷ b'c' ∷ []
source (decimal true v) = b'%' ∷ b'd' ∷ []
source (decimal false v) = b'%' ∷ b'i' ∷ []
source (hex v) = b'%' ∷ b'x' ∷ []
source (long_hex v) = b'%' ∷ b'X' ∷ []
source (long_decimal v) = b'%' ∷ b'q' ∷ []

abbrev arguments : Piece → List Arg
arguments (byte c) = []
arguments percent = []
arguments (string s) = text s ∷ []
arguments (char c) = number (pos c) ∷ []
arguments (decimal d v) = number v ∷ []
arguments (hex v) = number v ∷ []
arguments (long_hex v) = number v ∷ []
arguments (long_decimal v) = number v ∷ []

abbrev shown : Piece → List ℕ
shown (byte c) = c ∷ []
shown percent = b'%' ∷ []
shown (string s) = s
shown (char c) = c ∷ []
shown (decimal d v) = itos v false
shown (hex v) = itos v true
shown (long_hex v) = itos v true
shown (long_decimal v) = itos v false

-- The bytes of a string are not NUL.
abbrev AllNonzero : List ℕ → Type 0
AllNonzero [] = Unit
AllNonzero (c ∷ cs) = (c ≢ 0) × AllNonzero cs

abbrev IsInt : ℤ → Type 0
IsInt (pos n) = n < 2 ^ 31
IsInt (negsuc n) = n < 2 ^ 31

-- A byte that stands for itself, a string without a NUL, a `char`, and an `int` where one is read.
abbrev pub IsPiece : Piece → Type 0
IsPiece (byte c) = (c ≢ 0) × (c ≢ b'%')
IsPiece (string s) = AllNonzero s
IsPiece (char c) = c < 256
IsPiece (decimal d v) = IsInt v
IsPiece (hex v) = IsInt v
IsPiece _ = Unit

abbrev pub ArePieces : List Piece → Type 0
ArePieces [] = Unit
ArePieces (p ∷ ps) = IsPiece p × ArePieces ps

abbrev pub fstring : List Piece → List ℕ
fstring [] = []
fstring (p ∷ ps) = source p ++ fstring ps

abbrev pub va_list : List Piece → List Arg
va_list [] = []
va_list (p ∷ ps) = arguments p ++ va_list ps

abbrev pub output : List Piece → List ℕ
output [] = []
output (p ∷ ps) = shown p ++ output ps

signed_int-low_word : (v : ℤ) → IsInt v → signed_int (low_word v) ≡ v
signed_int-low_word (pos n) h = ground arith
signed_int-low_word (negsuc n) h = ground arith

string_bytes_same : (s : List ℕ) → AllNonzero s → string_bytes s ≡ s
unfolding string_bytes
string_bytes_same [] h = refl
string_bytes_same (c ∷ cs) (h, hs) = rw (==_ne c 0 h, string_bytes_same cs hs) refl

-- One piece that is written with `%`.
format_from-convert :
    (k : ℕ) (cs : List ℕ) (args : List Arg)
    → (k == 0) ≡ false
    → format_from (b'%' ∷ k ∷ cs) args ≡ format_rest (convert k args) (format_from cs)
unfolding format_from
format_from-convert k cs args h = rw (h, format_from) refl

format_from-byte :
    (c : ℕ) (cs : List ℕ) (args : List Arg)
    → c ≢ 0
    → c ≢ b'%'
    → format_from (c ∷ cs) args ≡ map (λ out. c ∷ out) (format_from cs args)
unfolding format_from
format_from-byte c [] args h h' = rw (==_ne c 0 h, ==_ne c b'%' h') refl
format_from-byte c (k ∷ cs) args h h' = rw (==_ne c 0 h, format_from, ==_ne c b'%' h') refl

format_from-piece :
    (p : Piece) (cs : List ℕ) (args : List Arg)
    → IsPiece p
    → format_from (source p ++ cs) (arguments p ++ args)
      ≡ map (λ out. shown p ++ out) (format_from cs args)
unfolding convert conversion
format_from-piece (byte c) cs args (h, h') = format_from-byte c cs args h h'
format_from-piece percent cs args h = format_from-convert b'%' cs args refl
format_from-piece (string s) cs args h =
    format_from-convert b's' cs (text s ∷ args) refl
    ∙ ap (λ out. map (λ more. out ++ more) (format_from cs args)) (string_bytes_same s h)
format_from-piece (char c) cs args h =
    format_from-convert b'c' cs (number (pos c) ∷ args) refl
    ∙ ap (λ b. map (λ more. b ∷ more) (format_from cs args)) (ground arith)
format_from-piece (decimal true v) cs args h =
    format_from-convert b'd' cs (number v ∷ args) refl
    ∙ ap (λ w. map (λ more. itos w false ++ more) (format_from cs args)) (signed_int-low_word v h)
format_from-piece (decimal false v) cs args h =
    format_from-convert b'i' cs (number v ∷ args) refl
    ∙ ap (λ w. map (λ more. itos w false ++ more) (format_from cs args)) (signed_int-low_word v h)
format_from-piece (hex v) cs args h =
    format_from-convert b'x' cs (number v ∷ args) refl
    ∙ ap (λ w. map (λ more. itos w true ++ more) (format_from cs args)) (signed_int-low_word v h)
format_from-piece (long_hex v) cs args h = format_from-convert b'X' cs (number v ∷ args) refl
format_from-piece (long_decimal v) cs args h = format_from-convert b'q' cs (number v ∷ args) refl

format_from-output :
    (ps : List Piece) → ArePieces ps → format_from (fstring ps) (va_list ps) ≡ some (output ps)
unfolding format_from
format_from-output [] h = refl
format_from-output (p ∷ ps) (h, hs) =
    format_from-piece p (fstring ps) (va_list ps) h
    ∙ ap (map (λ out. shown p ++ out)) (format_from-output ps hs)

-- `vsprintf` on the format of any list of pieces, with their arguments, writes what the pieces show
-- one after the other and a NUL, and returns the number of the bytes before it. Numbers at `%d`,
-- `%i` and `%x` are `int`s, and strings have no NUL inside.
pub vsprintf_lem :
    (ps : List Piece)
    → ArePieces ps
    → vsprintf (fstring ps) (va_list ps) ≡ some (length (output ps), output ps ++ (0 ∷ []))
unfolding vsprintf
vsprintf_lem ps h = ap (map (λ out. (length out, out ++ (0 ∷ [])))) (format_from-output ps h)
