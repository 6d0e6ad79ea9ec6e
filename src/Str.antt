-- ===== src/Str.antt =====
-- utils/string.c, the functions on C strings. A string that is only read is the list of its bytes,
-- whose end stands for the terminating NUL; a 0 inside the list ends it too.
use ghittle.Base.{
  ℕ, zero, suc, ◌+◌, ◌-◌, ◌*◌, ◌/◌, ◌%◌, ◌^◌, Bool, true, false, ◌&&◌, ◌||◌, not, List, [], ◌∷◌,
  get_or, ◌==◌, leb, ltb, if◌then◌else◌,
}
use ghittle.Base.Int.{ℤ, pos, negsuc, signed_int, signed_char, ◌-ℤ◌}
use ghittle.Mem.{Mem, store}
pub mod Laws
pub mod Digits
pub mod Numbers
pub mod Format
pub mod Unsigned

unfoldable pub strlen : List ℕ → ℕ
strlen [] = 0
strlen (c ∷ cs) = let rest = strlen cs in if c == 0 then 0 else suc rest

-- The difference of two characters, `*b - *a`.
abbrev pub char_diff : ℕ → ℕ → ℤ
char_diff b a = signed_char b -ℤ signed_char a

-- `strcmp(a, b)` with `a` an address and `b` a string.
unfoldable pub strcmp : Mem → ℕ → List ℕ → ℤ
strcmp m a [] = if m a == 0 then pos 0 else char_diff 0 (m a)
strcmp m a (c ∷ cs) =
    let rest = strcmp m (a + 1) cs in
    if not (m a == 0) && not (c == 0)
    then (if m a == c then rest else char_diff c (m a))
    else (if not (m a == 0) || not (c == 0) then char_diff c (m a) else pos 0)

-- `strcpy`: the NUL at the end is written back to the source, where it stands already, and not to
-- the destination.
unfoldable pub strcpy : Mem → ℕ → List ℕ → Mem
strcpy m dst [] = m
strcpy m dst (c ∷ cs) = let rest = strcpy (store m dst c) (dst + 1) cs in if c == 0 then m else rest

-- The loop of `reverse_string` with `i` and the rounds left.
unfoldable pub reverse_from : ℕ → ℕ → Mem → ℕ → ℕ → Mem
reverse_from i zero m str length = m
reverse_from i (suc n) m str length =
    let tmp = m (str + i) in
    let m' = store m (str + i) (m (str + (length - 1 - i))) in
    reverse_from (i + 1) n (store m' (str + (length - 1 - i)) tmp) str length

-- `reverse_string` on a string whose length `strlen` gives.
unfoldable pub reverse_string : Mem → ℕ → ℕ → Mem
unfolding reverse_from
reverse_string m str length = reverse_from 0 (length / 2) m str length

-- The value of a hexadecimal digit; 16 stands for every value that the loop refuses.
unfoldable pub hex_digit : ℕ → ℕ
hex_digit c =
    if leb b'A' c && leb c b'F'
    then c - b'A' + 10
    else (if leb b'a' c && leb c b'f'
        then c - b'a' + 10
        else (if leb b'0' c && leb c (b'0' + 15) then c - b'0' else 16))

-- The two loops of `stoi`, with the value so far. The truth value says that the loop came to the
-- end of the string: a `return ret` inside a loop does not apply the sign. `ret` is an `int` that wraps
-- round: since a step multiplies and adds only, the bits are taken at the end.
unfoldable pub stoi_hex : ℕ → List ℕ → ℕ × Bool
unfolding hex_digit
stoi_hex ret [] = (ret, true)
stoi_hex ret (c ∷ cs) =
    let rest = stoi_hex (ret * 16 + hex_digit c) cs in
    if c == 0 then (ret, true) else (if ltb 15 (hex_digit c) then (ret, false) else rest)

unfoldable pub stoi_dec : ℕ → List ℕ → ℕ × Bool
stoi_dec ret [] = (ret, true)
stoi_dec ret (c ∷ cs) =
    let rest = stoi_dec (ret * 10 + (c - b'0')) cs in
    if c == 0 then (ret, true) else (if ltb c b'0' || ltb b'9' c then (ret, false) else rest)

-- `ret` or `-ret`, as an `int` of 32 bits.
abbrev with_sign : Bool → ℕ × Bool → ℤ
with_sign negative (ret, ended) =
    let bits = ret % 2 ^ 32 in
    signed_int (if negative && ended then (2 ^ 32 - bits) % 2 ^ 32 else bits)

stoi_digits : Bool → List ℕ → ℤ
unfolding stoi_hex stoi_dec
stoi_digits negative (b0 ∷ b1 ∷ cs) =
    if b0 == b'0' && b1 == b'x'
    then with_sign negative (stoi_hex 0 cs)
    else with_sign negative (stoi_dec 0 (b0 ∷ b1 ∷ cs))
stoi_digits negative cs = with_sign negative (stoi_dec 0 cs)

unfoldable pub stoi : List ℕ → ℤ
unfolding stoi_digits
stoi [] = stoi_digits false []
stoi (c ∷ cs) = if c == b'-' then stoi_digits true cs else stoi_digits false (c ∷ cs)

-- The loops of `itos` that find the power of the base: `tmp` and `i`, with fuel.
unfoldable pub power_from : ℕ → ℕ → ℕ → ℕ → ℕ
power_from base zero tmp i = i
power_from base (suc fuel) tmp i =
    let rest = power_from base fuel (tmp / base) (i * base) in if leb base tmp then rest else i

-- A digit of `itos`.
unfoldable pub digit_char : ℕ → ℕ
digit_char t = if ltb 9 t then t - 10 + b'A' else t + b'0'

-- The loops of `itos` that write the digits: `val` and `i`, with fuel.
unfoldable pub digits_from : ℕ → ℕ → ℕ → ℕ → List ℕ
unfolding digit_char
digits_from base zero val i = []
digits_from base (suc fuel) val i =
    let rest = digits_from base fuel (val % i) (i / base) in
    if i == 0 then [] else digit_char (val / i) ∷ rest

-- `-val` for the `long` that is -(n + 1). The least `long` is its own negative: no loop runs on it, and
-- its one digit is that of 0.
abbrev pub negated_long : ℕ → ℕ
negated_long n = if n + 1 == 2 ^ 63 then 0 else n + 1

-- The bytes that `itos` writes; it returns their number. The magnitude of a `long` has at most 64
-- digits in any base, which is the fuel.
unfoldable pub itos : ℤ → Bool → List ℕ
unfolding power_from digits_from
itos (pos val) hex =
    if hex
    then b'0' ∷ b'x' ∷ digits_from 16 65 val (power_from 16 65 val 1)
    else digits_from 10 65 val (power_from 10 65 val 1)
itos (negsuc n) hex =
    if hex
    then b'-'
      ∷ b'0'
      ∷ b'x'
      ∷ digits_from 16 65 (negated_long n) (power_from 16 65 (negated_long n) 1)
    else b'-' ∷ digits_from 10 65 (negated_long n) (power_from 10 65 (negated_long n) 1)
