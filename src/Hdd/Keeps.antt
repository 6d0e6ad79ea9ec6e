-- ===== src/Hdd/Keeps.antt =====
-- The steps of device/hdd.c between `lock` and `unlock` leave the mutex alone.
use ghittle.Base.{
  ℕ, zero, suc, ◌+◌, ◌-◌, ◌*◌, ◌/◌, ◌%◌, ◌^◌, ◌≡◌, ◌∙◌, refl, bit_and, Bool, true, false, not, ◌==◌,
  leb, if◌then◌else◌, Bool-cases, inl, inr,
}
use ghittle.Mem.{Mem, store}
use ghittle.Sync.{Mutex}
use ghittle.Hdd.{
  Board, Sys, wait_stat, wait_interrupt_from, wait_hdd_nobusy, wait_hdd_ready, wait_hdd_interrupt,
  read_hdd_stat, pause, deliver, port_of, interrupted, out, set_flag, set_hdd_interrupt_state,
}
use ghittle.Hdd.Sector.{
  receive_words, send_words, await_data, receive_sectors, send_sectors, send_address, send_command,
  unless_err,
}

module _ (board : Board) where
  open board use {State, in_b, in_w, out_b, out_w, delay, tick, arrived}

  -- The mutex of a state.
  abbrev pub mutex : Sys board → Mutex
  mutex x = (x.0).mutex

  pub mutex-out : (port v : ℕ) (x : Sys board) → mutex (out board port v x) ≡ mutex x
  unfolding out deliver
  mutex-out port v (h, s) = refl

  pub mutex-set_flag :
      (primary : Bool) (v : ℕ) (x : Sys board) → mutex (set_flag board primary v x) ≡ mutex x
  unfolding set_flag set_hdd_interrupt_state
  mutex-set_flag true v (h, s) = refl
  mutex-set_flag false v (h, s) = refl

  pub mutex-stat :
      (primary : Bool) (x : Sys board) → mutex (read_hdd_stat board primary x).1 ≡ mutex x
  unfolding read_hdd_stat deliver
  mutex-stat primary (h, s) = refl

  pub mutex-pause : (x : Sys board) → mutex (pause board x) ≡ mutex x
  unfolding pause deliver
  mutex-pause (h, s) = refl

  pub mutex-wait_stat :
      (good : ℕ → Bool) (primary : Bool) (fuel start : ℕ) (x : Sys board)
      → mutex (wait_stat board good primary fuel start x).1 ≡ mutex x
  unfolding wait_stat
  mutex-wait_stat good primary zero start x = refl
  mutex-wait_stat good primary (suc fuel) start x =
      elim (Bool-cases (leb ((tick x.1 + 2 ^ 64 - start) % 2 ^ 64) 500)) [
        | inr e ↦ rw (e, wait_stat) refl
        | inl e ↦ elim (Bool-cases (good (read_hdd_stat board primary x).0)) [
          | inl e' ↦ rw (e, wait_stat) (rw (e') (mutex-stat primary x))
          | inr e' ↦
              rw (e, wait_stat)
                (rw (e') (
                  mutex-wait_stat good primary fuel start
                    (pause board (read_hdd_stat board primary x).1)
                  ∙ mutex-pause (read_hdd_stat board primary x).1
                  ∙ mutex-stat primary x))
        ]
      ]

  pub mutex-wait_interrupt_from :
      (primary : Bool) (fuel start : ℕ) (x : Sys board)
      → mutex (wait_interrupt_from board primary fuel start x).1 ≡ mutex x
  unfolding wait_interrupt_from
  mutex-wait_interrupt_from primary zero start x = refl
  mutex-wait_interrupt_from primary (suc fuel) start x =
      elim (Bool-cases (leb ((tick x.1 + 2 ^ 64 - start) % 2 ^ 64) 500)) [
        | inr e ↦ rw (e, wait_interrupt_from) refl
        | inl e ↦ elim (Bool-cases (interrupted board primary x.0)) [
          | inl e' ↦ rw (e, wait_interrupt_from) (rw (e') refl)
          | inr e' ↦
              rw (e, wait_interrupt_from)
                (rw (e')
                  (mutex-wait_interrupt_from primary fuel start (pause board x) ∙ mutex-pause x))
        ]
      ]

  pub mutex-receive_words :
      (port buf n : ℕ) (m : Mem) (x : Sys board)
      → mutex (receive_words board port buf n m x).1 ≡ mutex x
  unfolding receive_words deliver
  mutex-receive_words port buf zero m x = refl
  mutex-receive_words port buf (suc n) m (h, s) =
      let (w, s') = in_w s port in
      mutex-receive_words port (buf + 2) n (store (store m buf (w % 256)) (buf + 1) (w / 256 % 256))
        (deliver board h s')

  pub mutex-send_words :
      (port buf n : ℕ) (m : Mem) (x : Sys board) → mutex (send_words board port buf n m x) ≡ mutex x
  unfolding send_words deliver
  mutex-send_words port buf zero m x = refl
  mutex-send_words port buf (suc n) m (h, s) =
      mutex-send_words port (buf + 2) n m
        (deliver board h (out_w s port (m buf + 256 * m (buf + 1))))

  pub mutex-await_data :
      (primary : Bool) (x : Sys board) → mutex (await_data board primary x).1 ≡ mutex x
  unfolding await_data wait_hdd_interrupt
  mutex-await_data primary x =
      mutex-set_flag primary 0 (wait_hdd_interrupt board primary x).1
      ∙ mutex-wait_interrupt_from primary 502 (tick x.1) x

  -- A step behind a wait: both ways keep the mutex.
  pub mutex-unless_err :
      (r : Bool × Sys board) (m : Mem) (next : Sys board → Bool × Mem × Sys board) (y : Mutex)
      → mutex r.1 ≡ y
      → ((x : Sys board) → mutex x ≡ y → mutex (next x).2 ≡ y)
      → mutex (unless_err board r m next).2 ≡ y
  mutex-unless_err (false, x) m next y e h = e
  mutex-unless_err (true, x) m next y e h = h x e

  pub mutex-data_ready :
      (stat : Bool) (primary : Bool) (x : Sys board)
      → mutex (if stat then await_data board primary x else (true, x)).1 ≡ mutex x
  mutex-data_ready true primary x = mutex-await_data primary x
  mutex-data_ready false primary x = refl

  pub mutex-receive_sectors :
      (primary : Bool) (buf n : ℕ) (m : Mem) (x : Sys board)
      → mutex (receive_sectors board primary buf n m x).2 ≡ mutex x
  unfolding receive_sectors
  mutex-receive_sectors primary buf zero m x = refl
  mutex-receive_sectors primary buf (suc n) m x =
      let x₁ = (read_hdd_stat board primary x).1 in
      let stat = (read_hdd_stat board primary x).0 in
      elim (Bool-cases (bit_and stat 0x01 == 0)) [
        | inr e ↦ rw (e, receive_sectors) (mutex-stat primary x)
        | inl e ↦
            rw (e, receive_sectors)
              (mutex-unless_err
                (if bit_and stat 0x08 == 0 then await_data board primary x₁ else (true, x₁)) m _
                (mutex x)
                (mutex-data_ready (bit_and stat 0x08 == 0) primary x₁ ∙ mutex-stat primary x)
                (λ x₂ e₂.
                  mutex-receive_sectors primary (buf + 512) n
                    (receive_words board (port_of primary) buf 256 m x₂).0
                    (receive_words board (port_of primary) buf 256 m x₂).1
                  ∙ mutex-receive_words (port_of primary) buf 256 m x₂
                  ∙ e₂))
      ]

  pub mutex-send_sectors :
      (primary : Bool) (buf n : ℕ) (m : Mem) (x : Sys board)
      → mutex (send_sectors board primary buf n m x).2 ≡ mutex x
  unfolding send_sectors
  mutex-send_sectors primary buf zero m x = refl
  mutex-send_sectors primary buf (suc n) m x =
      let x₀ = send_words board (port_of primary) buf 256 m (set_flag board primary 0 x) in
      let x₁ = (read_hdd_stat board primary x₀).1 in
      let stat = (read_hdd_stat board primary x₀).0 in
      let sent =
        mutex-stat primary x₀
        ∙ mutex-send_words (port_of primary) buf 256 m (set_flag board primary 0 x)
        ∙ mutex-set_flag primary 0 x in
      elim (Bool-cases (bit_and stat 0x01 == 0)) [
        | inr e ↦ rw (e, send_sectors) sent
        | inl e ↦
            rw (e, send_sectors)
              (mutex-unless_err
                (if bit_and stat 0x08 == 0 then await_data board primary x₁ else (true, x₁)) m _
                (mutex x) (mutex-data_ready (bit_and stat 0x08 == 0) primary x₁ ∙ sent)
                (λ x₂ e₂. mutex-send_sectors primary (buf + 512) n m x₂ ∙ e₂))
      ]

  pub mutex-send_address :
      (primary master : Bool) (lba sectors : ℕ) (x : Sys board)
      → mutex (send_address board primary master lba sectors x) ≡ mutex x
  unfolding send_address out deliver
  mutex-send_address primary master lba sectors (h, s) = refl

  pub mutex-nobusy :
      (primary : Bool) (x : Sys board) → mutex (wait_hdd_nobusy board primary x).1 ≡ mutex x
  unfolding wait_hdd_nobusy
  mutex-nobusy primary x = mutex-wait_stat (λ stat. bit_and stat 0x80 == 0) primary 502 (tick x.1) x

  pub mutex-ready :
      (primary : Bool) (x : Sys board) → mutex (wait_hdd_ready board primary x).1 ≡ mutex x
  unfolding wait_hdd_ready
  mutex-ready primary x =
      mutex-wait_stat (λ stat. not (bit_and stat 0x40 == 0)) primary 502 (tick x.1) x

  pub mutex-send_command :
      (primary master : Bool) (lba sectors command : ℕ) (x : Sys board)
      → mutex (send_command board primary master lba sectors command x).1 ≡ mutex x
  unfolding send_command
  mutex-send_command primary master lba sectors command x =
      let free = wait_hdd_nobusy board primary x in
      let addressed = send_address board primary master lba sectors free.1 in
      let ready = wait_hdd_ready board primary addressed in
      let e₁ : mutex free.1 ≡ mutex x = mutex-nobusy primary x in
      let e₂ : mutex ready.1 ≡ mutex x =
        mutex-ready primary addressed ∙ mutex-send_address primary master lba sectors free.1 ∙ e₁ in
      elim (Bool-cases free.0) [
        | inr e ↦ rw e e₁
        | inl e ↦ elim (Bool-cases ready.0) [
          | inr e' ↦ rw (e, e') e₂
          | inl e' ↦
              rw (e, e')
                (mutex-out (port_of primary + 7) command (set_flag board primary 0 ready.1)
                  ∙ mutex-set_flag primary 0 ready.1
                  ∙ e₂)
        ]
      ]
