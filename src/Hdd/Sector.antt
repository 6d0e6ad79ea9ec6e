-- ===== src/Hdd/Sector.antt =====
-- device/hdd.c: reading and writing sectors, and finding the disk.
use ghittle.Base.{
  ℕ, zero, suc, ◌+◌, ◌*◌, ◌/◌, ◌%◌, ◌^◌, bit_and, bit_or, Bool, true, false, ◌&&◌, ◌||◌, not,
  Option, none, some, List, [], ◌∷◌, ◌==◌, leb, ltb, if◌then◌else◌,
}
use ghittle.Base.Int.{ℤ, pos, negsuc, is_zero}
use ghittle.Base.Text.{codes}
use ghittle.Mem.{Mem, store, memcmp}
use ghittle.Sync.{init_mutex, lock, unlock}
use ghittle.Hdd.{
  Board, Hdd, total_sector, port_of, Sys, deliver, out, set_flag, read_hdd_stat, wait_hdd_nobusy,
  wait_hdd_ready, wait_hdd_interrupt,
}

-- `dflag`.
abbrev pub drive_flag : Bool → ℕ
drive_flag master = if master then 0xE0 else bit_or 0xE0 0x10

-- The loop of `swap_byte_in_word` over the words from `data` on.
unfoldable pub swap_byte_in_word : Mem → ℕ → ℕ → Mem
swap_byte_in_word m word zero = m
swap_byte_in_word m word (suc n) =
    swap_byte_in_word (store (store m word (m (word + 1))) (word + 1) (m word)) (word + 2) n

module _ (board : Board) where
  open board use {State, in_w, out_w}

  -- `goto err_out` behind a failed wait, with what was read so far.
  abbrev pub unless_err :
      Bool × Sys board → Mem → (Sys board → Bool × Mem × Sys board) → Bool × Mem × Sys board
  unless_err (false, x) m next = (false, m, x)
  unless_err (true, x) m next = next x

  -- One sector or less from the data port: 16-bit words, low byte first.
  unfoldable pub receive_words : ℕ → ℕ → ℕ → Mem → Sys board → Mem × Sys board
  unfolding deliver
  receive_words port buf zero m x = (m, x)
  receive_words port buf (suc n) m (h, s) =
      let (w, s') = in_w s port in
      receive_words port (buf + 2) n (store (store m buf (w % 256)) (buf + 1) (w / 256 % 256))
        (deliver board h s')

  unfoldable pub send_words : ℕ → ℕ → ℕ → Mem → Sys board → Sys board
  unfolding deliver
  send_words port buf zero m x = x
  send_words port buf (suc n) m (h, s) =
      send_words port (buf + 2) n m (deliver board h (out_w s port (m buf + 256 * m (buf + 1))))

  -- The wait for the interrupt of a sector, which clears the flag in both cases.
  unfoldable pub await_data : Bool → Sys board → Bool × Sys board
  unfolding wait_hdd_interrupt set_flag
  await_data primary x =
      let (came, x') = wait_hdd_interrupt board primary x in (came, set_flag board primary 0 x')

  -- The loop over the sectors in `read_hdd_sector`.
  unfoldable pub receive_sectors : Bool → ℕ → ℕ → Mem → Sys board → Bool × Mem × Sys board
  unfolding read_hdd_stat await_data receive_words
  receive_sectors primary buf zero m x = (true, m, x)
  receive_sectors primary buf (suc n) m x =
      let (stat, x₁) = read_hdd_stat board primary x in
      elim (bit_and stat 0x01 == 0) [
        | false ↦ (false, m, x₁)
        | true ↦
            unless_err (if bit_and stat 0x08 == 0 then await_data primary x₁ else (true, x₁)) m
              (λ x₂.
                let (m', x₃) = receive_words (port_of primary) buf 256 m x₂ in
                receive_sectors primary (buf + 512) n m' x₃)
      ]

  -- The loop over the sectors in `write_hdd_sector`.
  unfoldable pub send_sectors : Bool → ℕ → ℕ → Mem → Sys board → Bool × Mem × Sys board
  unfolding read_hdd_stat await_data send_words set_flag
  send_sectors primary buf zero m x = (true, m, x)
  send_sectors primary buf (suc n) m x =
      let (stat, x₁) =
        read_hdd_stat board primary
          (send_words (port_of primary) buf 256 m (set_flag board primary 0 x)) in
      elim (bit_and stat 0x01 == 0) [
        | false ↦ (false, m, x₁)
        | true ↦
            unless_err (if bit_and stat 0x08 == 0 then await_data primary x₁ else (true, x₁)) m
              (λ x₂. send_sectors primary (buf + 512) n m x₂)
      ]

  -- The registers of an operation: the count, the bytes of `lba`, and the drive.
  unfoldable pub send_address : Bool → Bool → ℕ → ℕ → Sys board → Sys board
  unfolding out
  send_address primary master lba sectors x =
      let port = port_of primary in
      let x₁ = out board (port + 2) (sectors % 256) x in
      let x₂ = out board (port + 3) (lba % 256) x₁ in
      let x₃ = out board (port + 4) (lba / 2 ^ 8 % 256) x₂ in
      let x₄ = out board (port + 5) (lba / 2 ^ 16 % 256) x₃ in
      out board (port + 6) (bit_or (drive_flag master) (lba / 2 ^ 24 % 16)) x₄

  -- The common part of both operations, from `wait_hdd_nobusy` to the command.
  unfoldable pub send_command : Bool → Bool → ℕ → ℕ → ℕ → Sys board → Bool × Sys board
  unfolding wait_hdd_nobusy wait_hdd_ready send_address set_flag out
  send_command primary master lba sectors command x =
      let (free, x₁) = wait_hdd_nobusy board primary x in
      if not free
      then (false, x₁)
      else (let (ready, x₂) =
            wait_hdd_ready board primary (send_address primary master lba sectors x₁) in
          if not ready
          then (false, x₂)
          else (true, out board (port_of primary + 7) command (set_flag board primary 0 x₂)))

  -- `unlock` by the task `me` at the end of an operation.
  unfoldable pub release : ℕ → Bool × Mem × Sys board → Bool × Mem × Sys board
  release me (ok, m, (h, s)) = (ok, m, (record h { mutex = unlock me h.mutex }, s))

  -- The body of an operation between `lock` and `unlock`. None is a `lock` that has to wait.
  unfoldable pub locked :
      ℕ → Mem → Sys board → (Sys board → Bool × Mem × Sys board) → Option (Bool × Mem × Sys board)
  unfolding release
  locked me m (h, s) body = elim (lock me h.mutex) [
    | none ↦ none
    | some mutex ↦ some (release me (body (record h { mutex = mutex }, s)))
  ]

  -- The tests behind `lock`; `needs` is the one of the fields of `hdd`.
  unfoldable pub accepted :
      Mem
      → ℕ
      → (Hdd → Bool)
      → ℕ
      → (Sys board → Bool × Mem × Sys board)
      → Sys board
      → Bool × Mem × Sys board
  accepted m lba needs sectors body y =
      if not (needs y.0)
      then (false, m, y)
      else (if leb (total_sector (y.0).hdd_info) ((lba + sectors) % 2 ^ 32)
          then (false, m, y)
          else body y)

  unfoldable pub checked :
      ℕ
      → Mem
      → ℤ
      → ℕ
      → (Hdd → Bool)
      → (ℕ → Sys board → Bool × Mem × Sys board)
      → Sys board
      → Option (Bool × Mem × Sys board)
  unfolding locked accepted
  checked me m (negsuc _) lba needs body x = some (false, m, x)
  checked me m (pos sectors) lba needs body x =
      if sectors == 0 || ltb 256 sectors
      then some (false, m, x)
      else locked me m x (accepted m lba needs sectors (body sectors))

  -- The truth value is "returns 0"; the buffer is at `buf` in the memory.
  unfoldable pub read_hdd_sector :
      ℕ → Bool → Bool → ℕ → ℤ → ℕ → Mem → Sys board → Option (Bool × Mem × Sys board)
  unfolding checked send_command receive_sectors
  read_hdd_sector me primary master lba sectors buf m x =
      checked me m sectors lba (λ h. not (h.detected == 0))
        (λ n y.
          unless_err (send_command primary master lba n 0x20 y) m (receive_sectors primary buf n m))
        x

  unfoldable pub write_hdd_sector :
      ℕ → Bool → Bool → ℕ → ℤ → ℕ → Mem → Sys board → Option (Bool × Mem × Sys board)
  unfolding checked send_command send_sectors
  write_hdd_sector me primary master lba sectors buf m x =
      checked me m sectors lba (λ h. not (h.detected == 0) && not (h.writable == 0))
        (λ n y.
          unless_err (send_command primary master lba n 0x30 y) m (send_sectors primary buf n m))
        x

  -- `hdd_info` is at `info` in the memory.
  unfoldable pub read_hdd_info :
      ℕ → Bool → Bool → ℕ → Mem → Sys board → Option (Bool × Mem × Sys board)
  unfolding locked wait_hdd_nobusy wait_hdd_ready wait_hdd_interrupt read_hdd_stat receive_words
      set_flag out swap_byte_in_word
  read_hdd_info me primary master info m x = locked me m x (λ y.
      unless_err (wait_hdd_nobusy board primary y) m (λ y₁.
        unless_err
          (wait_hdd_ready board primary (out board (port_of primary + 6) (drive_flag master) y₁)) m
          (λ y₂.
            unless_err
              (wait_hdd_interrupt board primary
                (out board (port_of primary + 7) 0xEC (set_flag board primary 0 y₂)))
              m
              (λ y₃.
                let (stat, y₄) = read_hdd_stat board primary y₃ in
                if not (bit_and stat 0x01 == 0)
                then (false, m, y₄)
                else (let (m', y₅) = receive_words (port_of primary) info 256 m y₄ in
                    (
                      true,
                      swap_byte_in_word (swap_byte_in_word m' (info + 54) 20) (info + 20) 10,
                      y₅,
                    ))))))

  -- The bytes of a constant in memory.
  abbrev bytes_at : Mem → ℕ → List ℕ → Mem
  bytes_at m a [] = m
  bytes_at m a (c ∷ cs) = bytes_at (store m a c) (a + 1) cs

  -- `init_hdd` sets the mutex first, so that its `lock` never waits. The model is compared with the
  -- text that the linker puts somewhere; here it stands behind `hdd_info`.
  unfoldable pub init_hdd : ℕ → Sys board → Option (Bool × Sys board)
  unfolding read_hdd_info out
  init_hdd me (h, s) =
      let h₁ = record h { mutex = init_mutex; int_primary = 0; int_secondary = 0 } in
      let x = out board 0x376 0 (out board 0x3F6 0 (h₁, s)) in
      elim (read_hdd_info me true true 0 (x.0).hdd_info x) [
        | none ↦ none
        | some (ok, info, (h₂, s₂)) ↦
            if not ok
            then some (false, (record h₂ { hdd_info = info; detected = 0; writable = 0 }, s₂))
            else some (
              true,
              (
                record h₂ {
                  hdd_info = info;
                  detected = 1;
                  writable =
                      if is_zero (memcmp (bytes_at info 512 (codes "QEMU")) 54 512 4) then 1 else 0;
                },
                s₂,
              ),
            )
      ]
