-- ===== src/Hdd/Refuse.antt =====
-- What device/hdd.c refuses before it sends anything to the disk.
use mathlib.Core.Bool.{true≢false}
use ghittle.Base.{
  ℕ, ◌+◌, ◌%◌, ◌^◌, ◌<◌, ◌≤◌, ◌≡◌, ◌∙◌, ap, refl, sym, Bool, true, false, not, Option, none, some,
  ◌==◌, leb, ltb, ◌&&◌, ◌||◌, arith, Bool-cases, Option-cases, inl, inr, ◌⊎◌,
}
use ghittle.Base.Int.{pos}
use ghittle.Mem.{Mem}
use ghittle.Sync.{lock}
use ghittle.Sync.Laws.{IsValid, depth, unlock-lock}
use ghittle.Hdd.{Board, Hdd, Sys, total_sector}
use ghittle.Hdd.Sector.{
  locked, release, accepted, checked, unless_err, send_command, receive_sectors, send_sectors,
  read_hdd_sector, write_hdd_sector,
}

-- A disk that is not there, or not writable where it must be, or does not reach behind the sectors,
-- whose end is a number of 32 bits.
abbrev pub Refuses : Hdd → Bool → ℕ → ℕ → Type 0
Refuses h writes lba n =
    (h.detected ≡ 0)
    ⊎ ((writes ≡ true) × (h.writable ≡ 0))
    ⊎ ((lba + n < 2 ^ 32) × (total_sector h.hdd_info ≤ lba + n))

module _ (board : Board) where
  abbrev Body : Type 0
  Body = ℕ → Sys board → Bool × Mem × Sys board

  -- An operation that waits for the mutex, or returns -1 with all as it was: nothing is sent, and the
  -- mutex is given back.
  abbrev pub Refused : ℕ → Mem → Sys board → Option (Bool × Mem × Sys board) → Type 0
  Refused me m x r = ((lock me (x.0).mutex ≡ none) × (r ≡ none)) ⊎ (r ≡ some (false, m, x))

  accepted-refused :
      (m : Mem) (lba n : ℕ) (needs : Hdd → Bool) (body : Sys board → Bool × Mem × Sys board)
      (y : Sys board)
      → (needs y.0 ≡ false) ⊎ (total_sector (y.0).hdd_info ≤ (lba + n) % 2 ^ 32)
      → accepted board m lba needs n body y ≡ (false, m, y)
  unfolding accepted
  accepted-refused m lba n needs body y (inl e) = rw e refl
  accepted-refused m lba n needs body y (inr h) =
      let behind : leb (total_sector (y.0).hdd_info) ((lba + n) % 2 ^ 32) ≡ true = ground arith in
      elim (Bool-cases (needs y.0)) [ inl e ↦ rw (e, behind) refl | inr e ↦ rw e refl ]

  locked-Refused :
      (me : ℕ) (m : Mem) (x : Sys board) (body : Sys board → Bool × Mem × Sys board)
      → IsValid (x.0).mutex
      → depth (x.0).mutex me + 1 < 2 ^ 32
      → ((y : Sys board)
          → (y.0).hdd_info ≡ (x.0).hdd_info
          → (y.0).detected ≡ (x.0).detected
          → (y.0).writable ≡ (x.0).writable
          → body y ≡ (false, m, y))
      → Refused me m x (locked board me m x body)
  unfolding locked release
  locked-Refused me m (h, s) body v small refused = elim (Option-cases (lock me h.mutex)) [
    | inl e ↦ inl (e, rw (e, locked) refl)
    | inr (m', e) ↦
        let back = unlock-lock me h.mutex m' v small e in
        inr (
          rw (e, locked)
            (ap (λ r. some (release board me r))
                (refused (record h { mutex = m' }, s) refl refl refl)
              ∙ ap (λ μ. some (false, m, (record h { mutex = μ }, s))) back.3))
  ]

  -- The tests of both operations on a state that they refuse.
  checked-Refused :
      (me : ℕ) (m : Mem) (n lba : ℕ) (needs : Hdd → Bool) (body : Body) (x : Sys board)
      → IsValid (x.0).mutex
      → depth (x.0).mutex me + 1 < 2 ^ 32
      → ((y : Sys board)
          → (y.0).hdd_info ≡ (x.0).hdd_info
          → (y.0).detected ≡ (x.0).detected
          → (y.0).writable ≡ (x.0).writable
          → (needs y.0 ≡ false) ⊎ (total_sector (y.0).hdd_info ≤ (lba + n) % 2 ^ 32))
      → Refused me m x (checked board me m (pos n) lba needs body x)
  unfolding checked
  checked-Refused me m n lba needs body x v small refuse = elim (Bool-cases (n == 0 || ltb 256 n)) [
    | inl e ↦ rw e (inr refl)
    | inr e ↦ rw e (
        locked-Refused me m x (accepted board m lba needs n (body n)) v small
          (λ y e₁ e₂ e₃. accepted-refused m lba n needs (body n) y (refuse y e₁ e₂ e₃)))
  ]

  refused_read :
      (h h' : Hdd) (lba n : ℕ)
      → h'.hdd_info ≡ h.hdd_info
      → h'.detected ≡ h.detected
      → Refuses h false lba n
      → (not (h'.detected == 0) ≡ false) ⊎ (total_sector h'.hdd_info ≤ (lba + n) % 2 ^ 32)
  refused_read h h' lba n e₁ e₂ (inl e) = inl (rw e₂ (ground (arith, e)))
  refused_read h h' lba n e₁ e₂ (inr (inl e)) = absurd (true≢false (sym e.0))
  refused_read h h' lba n e₁ e₂ (inr (inr e)) = inr (rw e₁ (omega (arith, e.0, e.1)))

  refused_write :
      (h h' : Hdd) (lba n : ℕ)
      → h'.hdd_info ≡ h.hdd_info
      → h'.detected ≡ h.detected
      → h'.writable ≡ h.writable
      → Refuses h true lba n
      → (not (h'.detected == 0) && not (h'.writable == 0) ≡ false)
        ⊎ (total_sector h'.hdd_info ≤ (lba + n) % 2 ^ 32)
  refused_write h h' lba n e₁ e₂ e₃ (inl e) = inl (rw (e₂, e₃) (ground (arith, e)))
  refused_write h h' lba n e₁ e₂ e₃ (inr (inl e)) = inl (rw (e₂, e₃) (ground (arith, e.1)))
  refused_write h h' lba n e₁ e₂ e₃ (inr (inr e)) = inr (rw e₁ (omega (arith, e.0, e.1)))

  -- A read from such a disk.
  read_hdd_sector-Refuses :
      (me : ℕ) (primary master : Bool) (lba n buf : ℕ) (m : Mem) (x : Sys board)
      → IsValid (x.0).mutex
      → depth (x.0).mutex me + 1 < 2 ^ 32
      → Refuses x.0 false lba n
      → Refused me m x (read_hdd_sector board me primary master lba (pos n) buf m x)
  unfolding read_hdd_sector
  read_hdd_sector-Refuses me primary master lba n buf m x v small refuse =
      checked-Refused me m n lba (λ h. not (h.detected == 0))
        (λ k y.
          unless_err board (send_command board primary master lba k 0x20 y) m
            (receive_sectors board primary buf k m))
        x v small (λ y e₁ e₂ e₃. refused_read x.0 y.0 lba n e₁ e₂ refuse)

  -- A write does the same, and also on a disk that is not writable.
  write_hdd_sector-Refuses :
      (me : ℕ) (primary master : Bool) (lba n buf : ℕ) (m : Mem) (x : Sys board)
      → IsValid (x.0).mutex
      → depth (x.0).mutex me + 1 < 2 ^ 32
      → Refuses x.0 true lba n
      → Refused me m x (write_hdd_sector board me primary master lba (pos n) buf m x)
  unfolding write_hdd_sector
  write_hdd_sector-Refuses me primary master lba n buf m x v small refuse =
      checked-Refused me m n lba (λ h. not (h.detected == 0) && not (h.writable == 0))
        (λ k y.
          unless_err board (send_command board primary master lba k 0x30 y) m
            (send_sectors board primary buf k m))
        x v small (λ y e₁ e₂ e₃. refused_write x.0 y.0 lba n e₁ e₂ e₃ refuse)

  -- If the number of sectors is 0 or above 256, or there is no disk, or the sectors do not end before
  -- the last one of the disk and their end is a number of 32 bits: a read and a write each return -1,
  -- have sent nothing, and leave the buffer, the mutex and the rest of `hdd` as they were, unless the
  -- mutex makes them wait.
  pub hdd_sector-Refused :
      (me : ℕ) (primary master : Bool) (lba n buf : ℕ) (m : Mem) (x : Sys board)
      → IsValid (x.0).mutex
      → depth (x.0).mutex me + 1 < 2 ^ 32
      → ((n ≡ 0) ⊎ (256 < n)) ⊎ Refuses x.0 false lba n
      → Refused me m x (read_hdd_sector board me primary master lba (pos n) buf m x)
        × Refused me m x (write_hdd_sector board me primary master lba (pos n) buf m x)
  unfolding read_hdd_sector write_hdd_sector checked
  hdd_sector-Refused me primary master lba n buf m x v small (inl count) =
      let bad : (n == 0 || ltb 256 n) ≡ true = ground (arith, count) in
      (rw bad (inr refl), rw bad (inr refl))
  hdd_sector-Refused me primary master lba n buf m x v small (inr refuse) = (
    read_hdd_sector-Refuses me primary master lba n buf m x v small refuse,
    write_hdd_sector-Refuses me primary master lba n buf m x v small (writes_too refuse),
  )
    where
      writes_too : Refuses x.0 false lba n → Refuses x.0 true lba n
      writes_too (inl e) = inl e
      writes_too (inr (inl e)) = absurd (true≢false (sym e.0))
      writes_too (inr (inr e)) = inr (inr e)
