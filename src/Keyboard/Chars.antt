-- ===== src/Keyboard/Chars.antt =====
-- The characters that the keyboard gives.
use mathlib.Core.Path.{subst}
use ghittle.Base.{
  ℕ, ◌+◌, ◌-◌, ◌<◌, ◌≡◌, ◌∙◌, refl, sym, ap, Bool, true, false, ◌&&◌, get_or, leb, bit_and, ◌==◌,
  ==_iff, ==_ne, Bool-cases, inl, inr, lt→ltb, if◌then◌else◌, arith,
}
use ghittle.Base.Finite.{passes, passes_at}
use ghittle.Keyboard.Table.{key_map_entry}
use ghittle.Keyboard.{
  Keyboard, entry, is_alphabet, is_tobe_combined, code_to_ascii, key_mapping_table_count,
}

-- A code of the table has no bit 7, and a letter is combined to its capital.
abbrev sound_entry : ℕ → Bool
sound_entry code =
    let e = get_or key_map_entry code (0, 0) in
    bit_and code 0x7F == code && (if leb b'a' e.0 && leb e.0 b'z' then e.1 + 32 == e.0 else true)

both : (a b : Bool) → (a && b) ≡ true → (a ≡ true) × (b ≡ true)
both a b h = ground arith

sound_table : passes sound_entry 89 ≡ true
unfolding passes
sound_table = refl

sound_at : (code : ℕ) → code < 89 → sound_entry code ≡ true
sound_at code h = passes_at sound_entry 89 code h sound_table

entry-inside :
    (k : Keyboard) (code : ℕ) → code < 89 → entry k code ≡ get_or key_map_entry code (0, 0)
entry-inside k code h = rw (lt→ltb code 89 h)

code_kept : (code : ℕ) → code < 89 → bit_and code 0x7F ≡ code
code_kept code h =
    (==_iff (bit_and code 0x7F) code).0 (both (bit_and code 0x7F == code) _ (sound_at code h)).0

combined_of :
    (a b : ℕ)
    → (if leb b'a' a && leb a b'z' then b + 32 == a else true) ≡ true
    → (leb b'a' a && leb a b'z') ≡ true
    → b ≡ a - 32
combined_of a b h letter = omega (arith, (==_iff (b + 32) a).0 (rw letter at h))

capital :
    (k : Keyboard) (code : ℕ)
    → code < 89
    → is_alphabet k code ≡ true
    → (entry k code).1 ≡ (entry k code).0 - 32
unfolding is_alphabet
capital k code h letter =
    let same = entry-inside k code h in
    let e = get_or key_map_entry code (0, 0) in
    ap (λ (p : ℕ × ℕ). p.1) same
    ∙ combined_of e.0 e.1 (both (bit_and code 0x7F == code) _ (sound_at code h)).1
        (ap (λ (p : ℕ × ℕ). leb b'a' p.0 && leb p.0 b'z') (sym same) ∙ letter)
    ∙ ap (λ (p : ℕ × ℕ). p.0 - 32) (sym same)

-- If no codes are being skipped, the press of a letter key of the table gives the small letter if
-- shift and caps lock are both on or both off, and otherwise the capital.
pub code_to_ascii-letter :
    (led : Keyboard → Bool × Keyboard) (k : Keyboard) (code : ℕ)
    → code < key_mapping_table_count
    → is_alphabet k code ≡ true
    → k.skip_count ≡ 0
    → ((code_to_ascii led k code).0 ≡ true)
      × ((code_to_ascii led k code).1
          ≡ (if k.shift_down == k.caps_on then (entry k code).0 else (entry k code).0 - 32))
unfolding code_to_ascii is_tobe_combined
code_to_ascii-letter led k code h letter awake =
    rw
      (
        awake,
        ==_ne code 0xE1 (omega arith),
        ==_ne code 0xE0 (omega arith),
        code_kept code h,
        letter,
      )
      (elim (Bool-cases (k.shift_down == k.caps_on)) [
        | inl e ↦ rw e (refl, refl)
        | inr e ↦ rw e (refl, capital k code h letter)
      ])

-- The two codes `c1` and `c2` behind the first code of the pause key are swallowed.
abbrev Swallowed : (Keyboard → Bool × Keyboard) → ℕ → ℕ → Keyboard → Type 0
Swallowed led c1 c2 k =
    let (found1, ascii1, flags1, k1) = code_to_ascii led k 0xE1 in
    let (found2, ascii2, flags2, k2) = code_to_ascii led k1 c1 in
    let (found3, ascii3, flags3, k3) = code_to_ascii led k2 c2 in
    (found1 ≡ true) × (ascii1 ≡ 0xA0) × (found2 ≡ false) × (found3 ≡ false) × (k3 ≡ k)

-- If no codes are being skipped, the first code of the pause key gives that key, the next two
-- codes give nothing, and the keyboard is then as it was.
pub code_to_ascii-pause :
    (led : Keyboard → Bool × Keyboard) (k : Keyboard) (c1 c2 : ℕ)
    → k.skip_count ≡ 0
    → let (found1, ascii1, flags1, k1) = code_to_ascii led k 0xE1 in
      let (found2, ascii2, flags2, k2) = code_to_ascii led k1 c1 in
      let (found3, ascii3, flags3, k3) = code_to_ascii led k2 c2 in
      (found1 ≡ true) × (ascii1 ≡ 0xA0) × (found2 ≡ false) × (found3 ≡ false) × (k3 ≡ k)
unfolding code_to_ascii
code_to_ascii-pause led k c1 c2 awake =
    subst (Swallowed led c1 c2) (ap (λ n. record k { skip_count = n }) (sym awake))
      (refl, refl, refl, refl, refl)
