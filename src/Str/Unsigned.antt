-- ===== src/Str/Unsigned.antt =====
-- utils/string.c: `dqtos`, `hltos` and `hqtos`. The result is the bytes that are written, or none
-- where C leaves the behaviour open: `i` is an `int` that can overflow, or become 0 and divide. What
-- they return is a variable that is never set, and is not modelled.
use mathlib.Core.Option.{map}
use ghittle.Base.{
  ℕ, zero, suc, ◌+◌, ◌-◌, ◌*◌, ◌/◌, ◌%◌, ◌^◌, Option, none, some, List, [], ◌∷◌, ◌==◌, leb, ltb,
  if◌then◌else◌,
}
use ghittle.Base.Int.{ℤ, pos, negsuc}

-- `while(tmp >= low) { tmp /= base; i *= base; }`, with fuel for the 20 rounds of a long.
unfoldable pub int_power : ℕ → ℕ → ℕ → ℕ → ℕ → Option ℕ
int_power base low zero tmp i = some i
int_power base low (suc fuel) tmp i =
    let rest = int_power base low fuel (tmp / base) (i * base) in
    if leb low tmp then (if leb (2 ^ 31) (i * base) then none else rest) else some i

-- `while(val) { ... val = val%i; i/=10; }`, where `show` is the byte for `val/i`. The loop ends after
-- at most 11 rounds, since `i` is then 0.
unfoldable pub show_from : (ℕ → ℕ) → ℕ → ℕ → ℕ → Option (List ℕ)
show_from show zero val i = some []
show_from show (suc fuel) val i =
    let rest = show_from show fuel (val % i) (i / 10) in
    if val == 0 then some [] else (if i == 0 then none else map (λ cs. show (val / i) ∷ cs) rest)

abbrev after_power : Option ℕ → (ℕ → Option (List ℕ)) → Option (List ℕ)
after_power none write = none
after_power (some i) write = write i

unfoldable pub dqtos : ℕ → Option (List ℕ)
unfolding int_power show_from
dqtos val = after_power (int_power 10 10 20 val 1) (show_from (λ d. (d + b'0') % 256) 12 val)

-- Small digits are written as they are, without `'0'`.
abbrev hex_byte : ℕ → ℕ
hex_byte t = if ltb 9 t then (t - 10 + b'A') % 256 else t

unfoldable pub hqtos : ℕ → Option (List ℕ)
unfolding int_power show_from
hqtos val = after_power (int_power 16 1 20 val 1) (show_from hex_byte 12 val)

-- A negative `val` stays negative: each quotient is, and its low byte is written.
unfoldable pub hltos : ℤ → Option (List ℕ)
unfolding hqtos
hltos (pos val) = hqtos val
hltos (negsuc n) =
    map (λ cs. b'-' ∷ cs)
      (after_power (int_power 16 1 20 (n + 1) 1)
        (show_from (λ t. (256 - t % 256) % 256) 12 (n + 1)))
