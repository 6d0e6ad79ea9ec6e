-- ===== src/Str/Digits.antt =====
-- The two loops of `itos` in utils/string.c against a reader of the digits: for any base, and any
-- reader that takes one digit at a time as the loops of `stoi` do.
use native.Mathlib.Nat.{div-lt_iff_lt-mul, mul-div_cancel_left, div-eq_of_lt, mod-lt, div-add-mod'}
use ghittle.Base.{
  ℕ, zero, suc, ◌+◌, ◌*◌, ◌/◌, ◌%◌, ◌≤◌, ◌<◌, ◌≡◌, ◌∙◌, ap, refl, Bool, true, false, List, [], ◌∷◌,
  leb, inl, inr, Bool-cases, arith,
}
use ghittle.Str.{power_from, digits_from, digit_char}

-- The place value of digit k.
unfoldable pub place : ℕ → ℕ → ℕ
place base zero = 1
place base (suc k) = base * place base k

digits_from-suc :
    (base fuel val i : ℕ)
    → 1 ≤ i
    → digits_from base (suc fuel) val i
      ≡ digit_char (val / i) ∷ digits_from base fuel (val % i) (i / base)
unfolding digits_from
digits_from-suc base fuel val i positive = ground arith

pub digits_from-zero : (base fuel val : ℕ) → digits_from base fuel val 0 ≡ []
unfolding digits_from
digits_from-zero base zero val = refl
digits_from-zero base (suc fuel) val = refl

module _ (base : ℕ) (base_big : 2 ≤ base) where
  pub place_positive : (k : ℕ) → 1 ≤ place base k
  unfolding place
  place_positive zero = omega arith
  place_positive (suc k) = grind (arith, place_positive k)

  -- A number of at most n + 1 digits: the loop ends, with the place of its first digit.
  pub power_from_lem :
      (n fuel tmp : ℕ) (i : ℕ)
      → n ≤ fuel
      → tmp < place base (suc n)
      → (k : ℕ) × (k ≤ n)
        × (power_from base fuel tmp i ≡ i * place base k)
        × (tmp < place base (suc k))
  unfolding power_from place
  power_from_lem zero zero tmp i enough less = (0, omega arith, grind arith, less)
  power_from_lem (suc n) zero tmp i enough less = ground arith
  power_from_lem zero (suc fuel) tmp i enough less =
      let small : leb base tmp ≡ false = grind arith in
      (0, omega arith, rw small (grind arith), less)
  power_from_lem (suc n) (suc fuel) tmp i enough less = elim (Bool-cases (leb base tmp)) [
    | inl e ↦
        let (k, bound, power, below) =
          power_from_lem n fuel (tmp / base) (i * base) (omega arith)
            ((div-lt_iff_lt-mul (omega arith)).1 (grind (arith, less))) in
        (
          suc k,
          omega arith,
          rw e (power ∙ grind arith),
          grind (
            arith,
            (div-lt_iff_lt-mul {k = base} {x = tmp} {y = place base (suc k)} (omega arith)).0 below,
          ),
        )
    | inr e ↦ (0, omega arith, rw e (grind arith), ground arith)
  ]

  pub place_below : (k : ℕ) → place base (suc k) / base ≡ place base k
  unfolding place
  place_below k = mul-div_cancel_left (place base k) (omega arith)

  -- The digits begin with one below the base, and go on with those of the rest.
  pub digits_head :
      (k fuel val : ℕ)
      → val < place base (suc k)
      → (val / place base k < base)
        × (digits_from base (suc fuel) val (place base k)
            ≡ digit_char (val / place base k)
              ∷ digits_from base fuel (val % place base k) (place base k / base))
  unfolding place
  digits_head k fuel val less = (
    (div-lt_iff_lt-mul (place_positive k)).1 less,
    digits_from-suc base fuel val (place base k) (place_positive k),
  )

  module _ (read : ℕ → List ℕ → ℕ × Bool) (read_nil : (ret : ℕ) → read ret [] ≡ (ret, true))
      (read_digit : (ret d : ℕ) (cs : List ℕ)
        → d < base
        → read ret (digit_char d ∷ cs) ≡ read (ret * base + d) cs) where
    read-digits_from :
        (k fuel val ret : ℕ)
        → k < fuel
        → val < place base (suc k)
        → read ret (digits_from base fuel val (place base k))
          ≡ (ret * place base (suc k) + val, true)
    unfolding place
    read-digits_from k zero val ret enough less = ground arith
    read-digits_from zero (suc fuel) val ret enough less =
        rw
          (
            digits_from-suc base fuel val 1 (omega arith),
            read_digit ret (val / 1) (digits_from base fuel (val % 1) (1 / base)) (grind arith),
          )
          (ap (λ i. read (ret * base + val / 1) (digits_from base fuel (val % 1) i))
              (div-eq_of_lt {n = 1} {m = base} (omega arith))
            ∙ ap (read (ret * base + val / 1)) (digits_from-zero base fuel (val % 1))
            ∙ read_nil (ret * base + val / 1)
            ∙ ap (λ v. (v, true)) (grind arith))
    read-digits_from (suc k) (suc fuel) val ret enough less =
        let p = place base (suc k) in
        rw
          (
            digits_from-suc base fuel val p (place_positive (suc k)),
            read_digit ret (val / p) (digits_from base fuel (val % p) (p / base))
                ((div-lt_iff_lt-mul (place_positive (suc k))).1 (grind (arith, less))),
            place_below k,
            read-digits_from k fuel (val % p) (ret * base + val / p) (omega arith)
                (mod-lt val (place_positive (suc k))),
          )
          (ap (λ v. (v, true)) (grind (arith, div-add-mod' val (place base (suc k)))))

    pub read_numeral :
        (k fuel val : ℕ)
        → k < fuel
        → val < place base (suc k)
        → read 0 (digits_from base fuel val (place base k)) ≡ (val, true)
    read_numeral k fuel val enough less =
        read-digits_from k fuel val 0 enough less ∙ ap (λ v. (v, true)) (omega arith)
