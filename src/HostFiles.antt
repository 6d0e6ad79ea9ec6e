-- ===== src/HostFiles.antt =====
-- What the tools of mkimage/ ask of the host system: files that are read from their start, and the
-- file of the disk image. The sources and the image are different files.
use ghittle.Base.{
  ℕ, ◌+◌, ◌-◌, ◌≡◌, Bool, true, List, ◌++◌, length, get_or, leb, ltb, ◌&&◌, if◌then◌else◌,
}

-- `read s n` is `read(fd, buf, n)` of an open source that does not fail: the bytes it stores in
-- `buf`. `rest` is what is not read yet. A read gives the next bytes, and fewer than asked for only
-- at the end of the file.
pub record Source : Type 1 where
  pub State : Type 0
  pub read : State → ℕ → List ℕ × State
  pub rest : State → List ℕ
  pub read_next : (s : State) (n : ℕ) → (read s n).0 ++ rest (read s n).1 ≡ rest s
  pub read_length :
      (s : State) (n : ℕ)
      → length (read s n).0 ≡ (if leb n (length (rest s)) then n else length (rest s))

-- The image, open for reading and writing. `write` gives the number of bytes that it wrote, `read`
-- the bytes that it read, `seek` is `lseek` with SEEK_SET and tells whether it succeeded. `byte` is
-- the contents of the file and `place` its offset.
pub record ImageFile : Type 1 where
  pub State : Type 0
  pub write : State → List ℕ → ℕ × State
  pub read : State → ℕ → List ℕ × State
  pub seek : State → ℕ → Bool × State
  pub byte : State → ℕ → ℕ
  pub place : State → ℕ
  pub write_byte :
      (s : State) (bs : List ℕ) (a : ℕ)
      → (write s bs).0 ≡ length bs
      → byte (write s bs).1 a ≡ (
          if leb (place s) a && ltb a (place s + length bs)
          then get_or bs (a - place s) 0
          else byte s a)
  pub write_place :
      (s : State) (bs : List ℕ)
      → (write s bs).0 ≡ length bs
      → place (write s bs).1 ≡ place s + length bs
  pub read_keeps : (s : State) (n a : ℕ) → byte (read s n).1 a ≡ byte s a
  pub seek_keeps : (s : State) (p a : ℕ) → byte (seek s p).1 a ≡ byte s a
  pub seek_place : (s : State) (p : ℕ) → (seek s p).0 ≡ true → place (seek s p).1 ≡ p
