-- ===== src/Tests/Image.antt =====
-- The disk image on small sources, with files as lists of bytes.
use ghittle.Base.{
  ℕ, zero, suc, ◌+◌, ◌-◌, ◌<◌, ◌≤◌, ◌/◌, ◌≡◌, refl, ◌==◌, ap, Bool, true, some, List, [], ◌∷◌, ◌++◌,
  length, get_or, leb, ltb, ◌&&◌, if◌then◌else◌, arith,
}
use ghittle.Mem.{Mem}
use ghittle.HostFiles.{Source, ImageFile}
use ghittle.Boot.{copy_kern64}
use ghittle.MkFilesys.{Image, put_pieces}
use ghittle.MkFilesys.Enough.{free_count}
use ghittle.MkFilesys.Files.{FileStored, put_pieces-FileStored}
use ghittle.MkImage.{main}
use ghittle.MkImage.Layout.{zeros}
use ghittle.MkImage.Whole.{parts, counts, main-counts}
use ghittle.MkImage.Boots.{Loaded, copy_kern64-main}

abbrev read_list : List ℕ → ℕ → List ℕ × List ℕ
read_list [] n = ([], [])
read_list (x ∷ xs) zero = ([], x ∷ xs)
read_list (x ∷ xs) (suc n) = (x ∷ (read_list xs n).0, (read_list xs n).1)

read_list_joins : (xs : List ℕ) (n : ℕ) → (read_list xs n).0 ++ (read_list xs n).1 ≡ xs
read_list_joins [] n = refl
read_list_joins (x ∷ xs) zero = refl
read_list_joins (x ∷ xs) (suc n) = ap (λ ys. x ∷ ys) (read_list_joins xs n)

length-read_list :
    (xs : List ℕ) (n : ℕ) → length (read_list xs n).0 ≡ (if leb n (length xs) then n else length xs)
length-read_list [] n = ground arith
length-read_list (x ∷ xs) zero = ground arith
length-read_list (x ∷ xs) (suc n) = ground (arith, length-read_list xs n)

abbrev lists : Source
lists = record {
  State = List ℕ;
  read = read_list;
  rest = λ xs. xs;
  read_next = read_list_joins;
  read_length = length-read_list;
}

abbrev Bytes : Type 0
Bytes = (ℕ → ℕ) × ℕ

abbrev image : ImageFile
image = record {
  State = Bytes;
  write = λ s bs. (
    length bs,
    (
      λ a. if leb (s.1) a && ltb a (s.1 + length bs) then get_or bs (a - s.1) 0 else s.0 a,
      s.1 + length bs,
    ),
  );
  read = λ s n. (zeros n, (s.0, s.1 + n));
  seek = λ s p. (true, (s.0, p));
  byte = λ s. s.0;
  place = λ s. s.1;
  write_byte = λ s bs a h. refl;
  write_place = λ s bs h. refl;
  read_keeps = λ s n a. refl;
  seek_keeps = λ s p a. refl;
  seek_place = λ s p h. refl;
}

abbrev loader : List ℕ
loader = zeros 512

abbrev kern32 : List ℕ
kern32 = 1 ∷ 2 ∷ 3 ∷ []

abbrev kern64 : List ℕ
kern64 = 4 ∷ 5 ∷ []

abbrev empty : Bytes
empty = (λ a. 0, 0)

-- What `main` makes of them, with what it holds.
abbrev Made : Type 0
Made =
    (i : Bytes) × (main lists image 2 (some loader) (some kern32) (some kern64) (some empty)
      ≡ some i)
    × ((a : ℕ)
        → i.0 a ≡ (
            if leb 5 a && ltb a 9
            then get_or (counts image lists kern32 kern64) (a - 5) 0
            else (if ltb a (length (parts image lists loader kern32 kern64))
                then get_or (parts image lists loader kern32 kern64) a 0
                else 0)))

made : Made
made =
    main-counts image lists (λ i bs. refl) (λ i p. refl) 2 loader kern32 kern64 empty (omega arith)
      (omega arith) (omega arith) (omega arith) refl

main-counts_example : Made
main-counts_example =
    main-counts image lists (λ i bs. refl) (λ i p. refl) 2 loader kern32 kern64 empty (omega arith)
      (omega arith) (omega arith) (omega arith) refl

small_bytes : List ℕ → Bool
small_bytes [] = true
small_bytes (x ∷ xs) = ltb x 256 && small_bytes xs

get_or-small : (xs : List ℕ) (a : ℕ) → small_bytes xs ≡ true → get_or xs a 0 < 256
unfolding small_bytes
get_or-small [] a h = omega arith
get_or-small (x ∷ xs) zero h = ground arith
get_or-small (x ∷ xs) (suc a) h = ground (arith, get_or-small xs a)

counts_small : small_bytes (counts image lists kern32 kern64) ≡ true
unfolding small_bytes
counts_small = refl

parts_small : small_bytes (parts image lists loader kern32 kern64) ≡ true
unfolding small_bytes
parts_small = refl

made_byte : (a : ℕ) → (made.0).0 a < 256
made_byte a =
    below (leb 5 a && ltb a 9) (ltb a (length (parts image lists loader kern32 kern64))) (made.2 a)
      (get_or-small (counts image lists kern32 kern64) (a - 5) counts_small)
      (get_or-small (parts image lists loader kern32 kern64) a parts_small)
  where
    below :
        (b d : Bool) {v c p : ℕ}
        → v ≡ (if b then c else (if d then p else 0))
        → c < 256
        → p < 256
        → v < 256
    below b d e h h' = ground arith

-- The memory after the boot loader.
abbrev memory : (ℕ → ℕ) → Mem
memory byte a =
    if leb 0x10000 a
    then byte (512 + (a - 0x10000))
    else (if leb 0x7C00 a then byte (a - 0x7C00) else 0)

memory-Loaded :
    (byte : ℕ → ℕ) (size : ℕ) → ((a : ℕ) → byte a < 256) → Loaded (memory byte) byte size
memory-Loaded byte size small = record {
  numbers = λ j low high. ground arith;
  flag = refl;
  kernels = λ j h. ground arith;
  bytes = λ a. ground (arith, small (512 + (a - 0x10000)), small (a - 0x7C00));
}

copy_kern64-main_example : (copy_kern64 (memory (made.0.0))).1 0x200001 ≡ 5
copy_kern64-main_example =
    copy_kern64-main image lists loader kern32 kern64 (λ i bs. refl) (λ i p. refl) 2 empty (made.0)
      (omega arith) (omega arith) (omega arith) (omega arith) refl (made.1) refl (omega arith) refl
      (memory (made.0.0)) (memory-Loaded (made.0.0) _ made_byte) 1 (omega arith)

-- An image whose table has 16 entries, of which the root directory has the first.
abbrev formatted : Image
formatted = record {
  metadata = λ i. if i == 0 then 0xFFFFFFFF else 0;
  dentry_buf = λ a. 0;
  data_area = λ a. 0;
}

-- Fifteen of them are free.
room_for_two : 2 ≤ free_count formatted.metadata 0 (64 / 4)
unfolding free_count
room_for_two = omega arith

put_pieces-FileStored_example :
    (b : ℕ) × (bs : List ℕ) × (length bs ≡ 1)
    × FileStored 64
        (b'a' ∷ [])
        3
        (omega arith)
        formatted
        b
        bs
        ((4 ∷ 5 ∷ []) ∷ (6 ∷ []) ∷ [])
        (put_pieces 64 (b'a' ∷ []) 3 true 0 ((4 ∷ 5 ∷ []) ∷ (6 ∷ []) ∷ []) formatted)
put_pieces-FileStored_example =
    put_pieces-FileStored 64 (b'a' ∷ []) 3 (omega arith) (4 ∷ 5 ∷ []) ((6 ∷ []) ∷ []) formatted 0
      room_for_two (λ e. ground (arith, e)) (omega arith, (omega arith, tt)) (omega arith) refl
