-- ===== src/Hdd/Data.antt =====
-- The data that device/hdd.c reads from the port of the disk.
use ghittle.Base.{
  ℕ, zero, suc, ◌+◌, ◌-◌, ◌*◌, ◌/◌, ◌%◌, ◌<◌, ◌≤◌, ◌≡◌, ◌∙◌, ap, refl, Bool-cases, inl, inr, ◌&&◌,
  ◌==◌, ltb, leb, if◌then◌else◌, arith,
}
use ghittle.Mem.{Mem, store}
use ghittle.Hdd.{Board, Sys, deliver}
use ghittle.Hdd.Sector.{receive_words}

module _ (board : Board) (port : ℕ) where
  open board use {State, in_w}

  -- Word j of what the port gives from a state on.
  pub word_at : State → ℕ → ℕ
  word_at s zero = (in_w s port).0
  word_at s (suc j) = word_at (in_w s port).1 j

  pub byte_at : State → ℕ → ℕ
  byte_at s o = if o % 2 == 0 then word_at s (o / 2) % 256 else word_at s (o / 2) / 256 % 256

  word_later :
      (s : State) (o : ℕ) → 2 ≤ o → word_at s (o / 2) ≡ word_at (in_w s port).1 ((o - 2) / 2)
  unfolding word_at
  word_later s o h = ap (word_at s) half
    where
      half : o / 2 ≡ suc ((o - 2) / 2)
      half = omega arith

  byte_later : (s : State) (o : ℕ) → 2 ≤ o → byte_at s o ≡ byte_at (in_w s port).1 (o - 2)
  unfolding byte_at
  byte_later s o h = ground (arith, word_later s o h)

  byte_first :
      (s : State) (o : ℕ)
      → o < 2
      → byte_at s o ≡ (if o == 0 then (in_w s port).0 % 256 else (in_w s port).0 / 256 % 256)
  unfolding byte_at word_at
  byte_first s zero h = refl
  byte_first s (suc zero) h = refl
  byte_first s (suc (suc o)) h = ground arith

  -- `receive_words` puts the words that the port gives into the buffer, in their order and low byte
  -- first, and writes no byte outside the buffer.
  pub receive_words_lem :
      (buf n : ℕ) (m : Mem) (x : Sys board) (a : ℕ)
      → (receive_words board port buf n m x).0 a
        ≡ (if leb buf a && ltb a (buf + 2 * n) then byte_at x.1 (a - buf) else m a)
  unfolding receive_words deliver
  receive_words_lem buf zero m x a = ground arith
  receive_words_lem buf (suc n) m (h, s) a =
      let w = (in_w s port).0 in
      let s' = (in_w s port).1 in
      receive_words_lem (buf + 2) n (store (store m buf (w % 256)) (buf + 1) (w / 256 % 256))
        (deliver board h s') a
      ∙ elim (Bool-cases (leb (buf + 2) a)) [
        | inl e ↦
            let offset : a - (buf + 2) ≡ a - buf - 2 = omega arith in
            rw offset (ground (arith, byte_later s (a - buf) (ground arith)))
        | inr e ↦ elim (Bool-cases (leb buf a)) [
          | inl e' ↦ ground (arith, byte_first s (a - buf) (ground arith))
          | inr e' ↦ ground arith
        ]
      ]
