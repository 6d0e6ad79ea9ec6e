-- ===== src/Str/Numbers.antt =====
-- Numbers in utils/string.c: `stoi` reads what `itos` writes.
use native.Mathlib.Nat.{mod-lt}
use mathlib.Core.Path.{subst}
use ghittle.Base.{
  ℕ, zero, suc, ◌+◌, ◌*◌, ◌/◌, ◌%◌, ◌≤◌, ◌<◌, ◌^◌, ◌≡◌, ◌∙◌, ap, refl, sym, ◌-◌, Bool, true, false,
  List, [], ◌∷◌, ◌==◌, inl, inr, Bool-cases, arith,
}
use ghittle.Base.Finite.{passes, passes_at}
use ghittle.Base.Int.{ℤ, pos, negsuc, pos_part, neg_part}
use ghittle.Str.{
  power_from, digits_from, digit_char, hex_digit, stoi_hex, stoi_dec, with_sign, stoi_digits, stoi,
  itos, negated_long,
}
use ghittle.Str.Digits.{
  place, power_from_lem, digits_head, read_numeral, digits_from-zero, place_below, place_positive,
}

hex_digit-digit_char : (d : ℕ) → d < 16 → hex_digit (digit_char d) ≡ d
unfolding passes hex_digit digit_char
hex_digit-digit_char d less =
    ground (arith, passes_at (λ t. hex_digit (digit_char t) == t) 16 d less refl)

digit_char_range : (d : ℕ) → d < 16 → (b'0' ≤ digit_char d) × (digit_char d ≤ b'F')
unfolding digit_char
digit_char_range d less = (ground arith, ground arith)

digit_char_dec : (d : ℕ) → d < 10 → digit_char d ≡ b'0' + d
unfolding digit_char
digit_char_dec d less = ground arith

stoi_dec_nil : (ret : ℕ) → stoi_dec ret [] ≡ (ret, true)
unfolding stoi_dec
stoi_dec_nil ret = refl

stoi_hex_nil : (ret : ℕ) → stoi_hex ret [] ≡ (ret, true)
unfolding stoi_hex
stoi_hex_nil ret = refl

add-sub_same : (d : ℕ) → b'0' + d - b'0' ≡ d
add-sub_same d = omega arith

stoi_dec_digit :
    (ret d : ℕ) (cs : List ℕ)
    → d < 10
    → stoi_dec ret (digit_char d ∷ cs) ≡ stoi_dec (ret * 10 + d) cs
unfolding stoi_dec
stoi_dec_digit ret d cs less = rw (digit_char_dec d less, add-sub_same d) (ground arith)

stoi_hex_digit :
    (ret d : ℕ) (cs : List ℕ)
    → d < 16
    → stoi_hex ret (digit_char d ∷ cs) ≡ stoi_hex (ret * 16 + d) cs
unfolding stoi_hex
stoi_hex_digit ret d cs less =
    rw (hex_digit-digit_char d less) (ground (arith, digit_char_range d less))

not_x : (c : ℕ) → c ≤ b'F' → (c == b'x') ≡ false
not_x c h = ground arith

stoi_digits_two :
    (negative : Bool) (c c' : ℕ) (cs : List ℕ)
    → c' ≤ b'F'
    → stoi_digits negative (c ∷ c' ∷ cs) ≡ with_sign negative (stoi_dec 0 (c ∷ c' ∷ cs))
unfolding stoi_digits
stoi_digits_two negative c c' cs h = elim (Bool-cases (c == b'0')) [
  | inl e ↦ rw (e, not_x c' h) refl
  | inr e ↦ rw e refl
]

-- The byte after the first is no `x`.
abbrev Plain : List ℕ → Type 0
Plain [] = Unit
Plain (c ∷ cs) = c ≤ b'F'

stoi_digits-Plain :
    (negative : Bool) (c : ℕ) (cs : List ℕ)
    → Plain cs
    → stoi_digits negative (c ∷ cs) ≡ with_sign negative (stoi_dec 0 (c ∷ cs))
unfolding stoi_digits
stoi_digits-Plain negative c [] h = refl
stoi_digits-Plain negative c (c' ∷ cs) h = stoi_digits_two negative c c' cs h

digits_from-Plain :
    (k fuel val : ℕ) → val < place 10 (suc k) → Plain (digits_from 10 fuel val (place 10 k))
unfolding digits_from
digits_from-Plain k zero val less = tt
digits_from-Plain k (suc fuel) val less =
    let (below, head) = digits_head 10 (omega arith) k fuel val less in
    subst Plain (sym head) (digit_char_range (val / place 10 k) (omega arith)).1

tail-Plain : (k fuel val : ℕ) → Plain (digits_from 10 fuel (val % place 10 k) (place 10 k / 10))
unfolding place
tail-Plain zero fuel val = subst Plain (sym (digits_from-zero 10 fuel (val % 1))) tt
tail-Plain (suc k) fuel val =
    subst (λ i. Plain (digits_from 10 fuel (val % place 10 (suc k)) i))
      (sym (place_below 10 (omega arith) k))
      (digits_from-Plain k fuel (val % place 10 (suc k))
        (mod-lt val (place_positive 10 (omega arith) (suc k))))

-- `stoi` after the sign, on the decimal digits of `itos`.
stoi_digits-dec :
    (negative : Bool) (k fuel val : ℕ)
    → k ≤ fuel
    → val < place 10 (suc k)
    → stoi_digits negative (digits_from 10 (suc fuel) val (place 10 k))
      ≡ with_sign negative (val, true)
stoi_digits-dec negative k fuel val enough less =
    let (below, head) = digits_head 10 (omega arith) k fuel val less in
    subst (λ cs. stoi_digits negative cs ≡ with_sign negative (stoi_dec 0 cs)) (sym head)
      (stoi_digits-Plain negative (digit_char (val / place 10 k))
        (digits_from 10 fuel (val % place 10 k) (place 10 k / 10)) (tail-Plain k fuel val))
    ∙ ap (with_sign negative) (
        read_numeral 10 (omega arith) stoi_dec stoi_dec_nil stoi_dec_digit k (suc fuel) val
          (omega arith) less)

stoi_digits-hex :
    (negative : Bool) (k fuel val : ℕ)
    → k ≤ fuel
    → val < place 16 (suc k)
    → stoi_digits negative (b'0' ∷ b'x' ∷ digits_from 16 (suc fuel) val (place 16 k))
      ≡ with_sign negative (val, true)
unfolding stoi_digits
stoi_digits-hex negative k fuel val enough less = ap (with_sign negative) (
    read_numeral 16 (omega arith) stoi_hex stoi_hex_nil stoi_hex_digit k (suc fuel) val
      (omega arith) less)

one_place : (p : ℕ) → 1 * p ≡ p
one_place p = omega arith

-- The magnitude of an `int` in both bases, without its sign.
int_places : (val : ℕ) → val ≤ 2 ^ 31 → (val < place 10 65) × (val < place 16 65)
unfolding place
int_places val h = (omega arith, omega arith)

numeral_dec :
    (negative : Bool) (val : ℕ)
    → val ≤ 2 ^ 31
    → stoi_digits negative (digits_from 10 65 val (power_from 10 65 val 1))
      ≡ with_sign negative (val, true)
numeral_dec negative val h =
    let (k, bound, power, below) =
      power_from_lem 10 (omega arith) 64 65 val 1 (omega arith) (int_places val h).0 in
    ap (λ i. stoi_digits negative (digits_from 10 65 val i)) power
    ∙ ap (λ i. stoi_digits negative (digits_from 10 65 val i)) (one_place (place 10 k))
    ∙ stoi_digits-dec negative k 64 val bound below

numeral_hex :
    (negative : Bool) (val : ℕ)
    → val ≤ 2 ^ 31
    → stoi_digits negative (b'0' ∷ b'x' ∷ digits_from 16 65 val (power_from 16 65 val 1))
      ≡ with_sign negative (val, true)
numeral_hex negative val h =
    let (k, bound, power, below) =
      power_from_lem 16 (omega arith) 64 65 val 1 (omega arith) (int_places val h).1 in
    ap (λ i. stoi_digits negative (b'0' ∷ b'x' ∷ digits_from 16 65 val i)) power
    ∙ ap (λ i. stoi_digits negative (b'0' ∷ b'x' ∷ digits_from 16 65 val i))
        (one_place (place 16 k))
    ∙ stoi_digits-hex negative k 64 val bound below

no_sign : (t : ℕ) → (digit_char t == b'-') ≡ false
unfolding digit_char
no_sign t = ground arith

-- A numeral without a sign begins with a digit.
stoi-digits :
    (fuel val i : ℕ)
    → stoi (digits_from 10 fuel val i) ≡ stoi_digits false (digits_from 10 fuel val i)
unfolding stoi digits_from
stoi-digits zero val i = refl
stoi-digits (suc fuel) val i = elim (Bool-cases (i == 0)) [
  | inl e ↦ rw e refl
  | inr e ↦ rw (e, no_sign (val / i)) refl
]

-- The number is that of an `int`.
abbrev IsInt : ℤ → Type 0
IsInt v = (pos_part v < 2 ^ 31) × (neg_part v ≤ 2 ^ 31)

positive_int : (val : ℕ) → val < 2 ^ 31 → with_sign false (val, true) ≡ pos val
positive_int val h = ground arith

negative_int : (n : ℕ) → n + 1 ≤ 2 ^ 31 → with_sign true (n + 1, true) ≡ negsuc n
negative_int n h = ground arith

negated_long_int : (n : ℕ) → n + 1 ≤ 2 ^ 31 → negated_long n ≡ n + 1
negated_long_int n h = ground arith

-- `stoi` gives back each `int` that `itos` wrote, decimal or hexadecimal.
pub stoi-itos : (v : ℤ) (hex : Bool) → IsInt v → stoi (itos v hex) ≡ v
unfolding itos stoi
stoi-itos (pos val) false h =
    stoi-digits 65 val (power_from 10 65 val 1)
    ∙ numeral_dec false val (omega (arith, h.0))
    ∙ positive_int val h.0
stoi-itos (pos val) true h = numeral_hex false val (omega (arith, h.0)) ∙ positive_int val h.0
stoi-itos (negsuc n) false h =
    let small : n + 1 ≤ 2 ^ 31 = omega (arith, h.1) in
    rw (negated_long_int n small) (numeral_dec true (n + 1) small ∙ negative_int n small)
stoi-itos (negsuc n) true h =
    let small : n + 1 ≤ 2 ^ 31 = omega (arith, h.1) in
    rw (negated_long_int n small) (numeral_hex true (n + 1) small ∙ negative_int n small)
