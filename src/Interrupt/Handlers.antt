-- ===== src/Interrupt/Handlers.antt =====
-- The end of the interrupts of core/kernel64/interrupt.c.
use ghittle.Base.{
  ℕ, ◌-◌, ◌≤◌, ◌≡◌, refl, ap, Bool, true, false, List, [], ◌∷◌, ◌++◌, ◌==◌, leb, if◌then◌else◌,
  arith, Bool-cases, inl, inr,
}
use ghittle.Timer.{eoi_pic}
use ghittle.Hdd.{set_hdd_interrupt_state}
use ghittle.Interrupt.{Machine, interrupt_handler, keyboard_handler, hdd_handler}

-- What the two controllers are told for a vector: the second one only for its eight lines.
pub acknowledged : ℕ → List (ℕ × ℕ)
acknowledged num = if leb 40 num then (0x20, 0x20) ∷ (0xA0, 0x20) ∷ [] else (0x20, 0x20) ∷ []

eoi_pic-acknowledged : (num : ℕ) → 32 ≤ num → eoi_pic (num - 32) ≡ acknowledged num
unfolding eoi_pic acknowledged
eoi_pic-acknowledged num h = elim (Bool-cases (leb 40 num)) [
  | inl e ↦ let slave : leb 8 (num - 32) ≡ true = ground arith in rw (e, slave) refl
  | inr e ↦ let master : leb 8 (num - 32) ≡ false = ground arith in rw (e, master) refl
]

hdd_handler_flag :
    (num : ℕ) (k : Machine)
    → 32 ≤ num
    → hdd_handler num k ≡ record k {
      ports = k.ports ++ acknowledged num;
      hdd =
          if num == 46
          then record (k.hdd) { int_primary = 1 }
          else record (k.hdd) { int_secondary = 1 };
    }
unfolding hdd_handler set_hdd_interrupt_state
hdd_handler_flag num k h = elim (Bool-cases (num == 46)) [
  | inl e ↦
      let first : (num - 32 == 14) ≡ true = ground arith in
      rw (e, first, eoi_pic-acknowledged num h) refl
  | inr e ↦
      let second : (num - 32 == 14) ≡ false = ground arith in
      rw (e, second, eoi_pic-acknowledged num h) refl
]

-- Each handler of a vector from 32 on that does not switch tasks acknowledges the interrupt exactly
-- once: to the first controller, and to the second one exactly for the vectors from 40 on. And
-- `hdd_handler` sets the flag of the first channel for the vector 46 and that of the second one for
-- every other vector, and touches no other part.
pub handlers-acknowledge :
    (fuel num : ℕ) (full : Bool) (k : Machine)
    → 32 ≤ num
    → ((interrupt_handler num k).ports ≡ k.ports ++ acknowledged num)
      × ((keyboard_handler fuel full num k).ports ≡ k.ports ++ acknowledged num)
      × (hdd_handler num k ≡ record k {
        ports = k.ports ++ acknowledged num;
        hdd =
            if num == 46
            then record (k.hdd) { int_primary = 1 }
            else record (k.hdd) { int_secondary = 1 };
      })
unfolding interrupt_handler keyboard_handler
handlers-acknowledge fuel num full k h =
    let eoi = eoi_pic-acknowledged num h in
    (ap (λ w. k.ports ++ w) eoi, ap (λ w. k.ports ++ w) eoi, hdd_handler_flag num k h)
