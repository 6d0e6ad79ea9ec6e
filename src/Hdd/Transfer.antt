-- ===== src/Hdd/Transfer.antt =====
-- The operations of device/hdd.c give back the mutex on every path.
use ghittle.Base.{
  ℕ, ◌+◌, ◌%◌, ◌^◌, ◌<◌, ◌≡◌, ◌∙◌, ap, refl, Bool, not, Option, none, some, Option-cases, ◌||◌,
  ◌==◌, leb, ltb, ◌&&◌, Bool-cases, inl, inr,
}
use ghittle.Base.Int.{ℤ, pos, negsuc}
use ghittle.Mem.{Mem}
use ghittle.Sync.{Mutex, lock, unlock}
use ghittle.Sync.Laws.{IsValid, depth, unlock-lock}
use ghittle.Hdd.{Board, Hdd, Sys, total_sector}
use ghittle.Hdd.Sector.{
  send_command, locked, release, accepted, checked, read_hdd_sector, write_hdd_sector,
}
use ghittle.Hdd.Keeps.{
  mutex, mutex-unless_err, mutex-receive_sectors, mutex-send_sectors, mutex-send_command,
}

module _ (board : Board) where
  -- What a body leaves locked once, `release` gives back.
  mutex-release :
      (me : ℕ) (r : Bool × Mem × Sys board)
      → mutex board (release board me r).2 ≡ unlock me (mutex board r.2)
  unfolding release
  mutex-release me (ok, m, (h, s)) = refl

  -- What an operation returns, if it need not wait, has the given mutex.
  abbrev pub Returns : Option (Bool × Mem × Sys board) → Mutex → Type 0
  Returns none y = Unit
  Returns (some r) y = mutex board r.2 ≡ y

  Returns-locked :
      (me : ℕ) (m : Mem) (x : Sys board) (body : Sys board → Bool × Mem × Sys board)
      → IsValid (mutex board x)
      → depth (mutex board x) me + 1 < 2 ^ 32
      → ((y : Sys board) → mutex board (body y).2 ≡ mutex board y)
      → Returns (locked board me m x body) (mutex board x)
  unfolding locked
  Returns-locked me m (h, s) body v small keeps = elim (Option-cases (lock me h.mutex)) [
    | inl e ↦ rw (e, locked) tt
    | inr (m', e) ↦
        let back = unlock-lock me h.mutex m' v small e in
        rw (e, locked)
          (mutex-release me (body (record h { mutex = m' }, s))
            ∙ ap (unlock me) (keeps (record h { mutex = m' }, s))
            ∙ back.3)
  ]

  mutex-accepted :
      (m : Mem) (lba : ℕ) (needs : Hdd → Bool) (sectors : ℕ)
      (body : Sys board → Bool × Mem × Sys board) (y : Sys board)
      → mutex board (body y).2 ≡ mutex board y
      → mutex board (accepted board m lba needs sectors body y).2 ≡ mutex board y
  unfolding accepted
  mutex-accepted m lba needs sectors body y keeps = elim (Bool-cases (needs y.0)) [
    | inr e ↦ rw e refl
    | inl e ↦ elim (Bool-cases (leb (total_sector (y.0).hdd_info) ((lba + sectors) % 2 ^ 32))) [
      | inl e' ↦ rw (e, e') refl
      | inr e' ↦ rw (e, e') keeps
    ]
  ]

  -- With the tests of the arguments.
  Returns-checked :
      (me : ℕ) (m : Mem) (sectors : ℤ) (lba : ℕ) (needs : Hdd → Bool)
      (body : ℕ → Sys board → Bool × Mem × Sys board) (x : Sys board)
      → IsValid (mutex board x)
      → depth (mutex board x) me + 1 < 2 ^ 32
      → ((n : ℕ) (y : Sys board) → mutex board (body n y).2 ≡ mutex board y)
      → Returns (checked board me m sectors lba needs body x) (mutex board x)
  unfolding checked
  Returns-checked me m (negsuc n) lba needs body x v small keeps = refl
  Returns-checked me m (pos n) lba needs body x v small keeps =
      elim (Bool-cases (n == 0 || ltb 256 n)) [
        | inl e ↦ rw e refl
        | inr e ↦ rw e (
            Returns-locked me m x (accepted board m lba needs n (body n)) v small
              (λ y. mutex-accepted m lba needs n (body n) y (keeps n y)))
      ]

  -- Whatever happens - bad arguments, no disk, a disk that stays busy, reports an error or sends no
  -- interrupt - a read or a write that returns gives the mutex back as it found it.
  pub mutex-hdd_sector :
      (me : ℕ) (primary master : Bool) (lba : ℕ) (sectors : ℤ) (buf : ℕ) (m : Mem) (x : Sys board)
      → IsValid (mutex board x)
      → depth (mutex board x) me + 1 < 2 ^ 32
      → Returns (read_hdd_sector board me primary master lba sectors buf m x) (mutex board x)
        × Returns (write_hdd_sector board me primary master lba sectors buf m x) (mutex board x)
  unfolding read_hdd_sector write_hdd_sector
  mutex-hdd_sector me primary master lba sectors buf m x v small = (
    Returns-checked me m sectors lba (λ h. not (h.detected == 0)) _ x v small
        (λ n y.
          mutex-unless_err board (send_command board primary master lba n 0x20 y) m _
            (mutex board y) (mutex-send_command board primary master lba n 0x20 y)
            (λ y' e. mutex-receive_sectors board primary buf n m y' ∙ e)),
    Returns-checked me m sectors lba (λ h. not (h.detected == 0) && not (h.writable == 0)) _ x v
        small
        (λ n y.
          mutex-unless_err board (send_command board primary master lba n 0x30 y) m _
            (mutex board y) (mutex-send_command board primary master lba n 0x30 y)
            (λ y' e. mutex-send_sectors board primary buf n m y' ∙ e)),
  )
