-- ===== src/MkImage/Layout.antt =====
-- What the copies of mkimage/mkimage.c append to the disk image.
use mathlib.Core.Path.{subst}
use ghittle.Base.{
  ℕ, zero, suc, ◌+◌, ◌-◌, ◌*◌, ◌/◌, ◌%◌, ◌^◌, ◌<◌, ◌≡◌, ◌∙◌, refl, sym, ap, inl, inr, false, Option,
  some, List, [], ◌∷◌, ◌++◌, append-nil, length, length-append, get_or, ◌==◌, ==_refl, leb, ltb,
  ◌&&◌, Bool-cases, if◌then◌else◌, arith,
}
use ghittle.HostFiles.{Source, ImageFile}
use ghittle.MkImage.{byteofsector, copyfile_from, copyfile, fill}

pub get_or-append :
    (xs ys : List ℕ) (j : ℕ)
    → get_or (xs ++ ys) j 0
      ≡ (if ltb j (length xs) then get_or xs j 0 else get_or ys (j - length xs) 0)
get_or-append [] ys j = ground arith
get_or-append (x ∷ xs) ys zero = ground arith
get_or-append (x ∷ xs) ys (suc j) = ground (arith, get_or-append xs ys j)

abbrev pub zeros : ℕ → List ℕ
zeros zero = []
zeros (suc n) = 0 ∷ zeros n

pub length-zeros : (n : ℕ) → length (zeros n) ≡ n
length-zeros zero = refl
length-zeros (suc n) = omega (arith, length-zeros n)

length-nil : (xs : List ℕ) → length xs ≡ 0 → xs ≡ []
length-nil [] e = refl
length-nil (x ∷ xs) e = absurd (omega arith)

-- How many zeros fill up the last sector of `size` bytes.
abbrev pub missing : ℕ → ℕ
missing size = if size % byteofsector == 0 then 0 else byteofsector - size % byteofsector

-- A part of the image: the bytes, filled up with zeros to whole sectors.
abbrev pub filled : List ℕ → List ℕ
filled bs = bs ++ zeros (missing (length bs))

abbrev pub sectors : List ℕ → ℕ
sectors bs = (length bs + missing (length bs)) / byteofsector

module _ (d : ImageFile) where
  open d use {State, write, byte, place, write_byte, write_place}

  -- The image `i'` has the bytes `bs` behind what was written to `i`.
  pub record Appended (i i' : State) (bs : List ℕ) : Type 0 where
    pub moved : place i' ≡ place i + length bs
    pub bytes :
        (a : ℕ)
        → byte i' a ≡ (
            if leb (place i) a && ltb a (place i + length bs)
            then get_or bs (a - place i) 0
            else byte i a)

  -- Every write is complete.
  abbrev pub Writes : Type 0
  Writes = (i : State) (bs : List ℕ) → (write i bs).0 ≡ length bs

  pub Appended-nil : (i : State) → Appended i i []
  Appended-nil i = record { moved = omega arith; bytes = λ a. ground arith }

  pub Appended-append :
      (i j k : State) (xs ys : List ℕ) → Appended i j xs → Appended j k ys → Appended i k (xs ++ ys)
  Appended-append i j k xs ys p q = record {
    moved = omega (arith, p.moved, q.moved, length-append xs ys);
    bytes = λ a. ground (
      arith,
      p.moved,
      p.bytes a,
      q.bytes a,
      length-append xs ys,
      get_or-append xs ys (a - place i),
    );
  }

  pub write-Appended : Writes → (i : State) (bs : List ℕ) → Appended i (write i bs).1 bs
  write-Appended full i bs = record {
    moved = write_place i bs (full i bs);
    bytes = λ a. write_byte i bs a (full i bs);
  }

  pub fill-Appended : Writes → (n : ℕ) (i : State) → Appended i (fill d n i) (zeros n)
  unfolding fill
  fill-Appended full zero i = Appended-nil i
  fill-Appended full (suc n) i =
      let i1 = (write i (0 ∷ [])).1 in
      Appended-append i i1 (fill d n i1) (0 ∷ []) (zeros n) (write-Appended full i (0 ∷ []))
        (fill-Appended full n i1)

  module _ (f : Source) where
    open f use {read, rest, read_next, read_length}

    rest_length :
        (s : f.State) → length (rest s) ≡ length (read s 512).0 + length (rest (read s 512).1)
    rest_length s =
        ap length (sym (read_next s 512)) ∙ length-append (read s 512).0 (rest (read s 512).1)

    -- A short read is the last one.
    read-last : (s : f.State) → (length (read s 512).0 == 512) ≡ false → (read s 512).0 ≡ rest s
    read-last s e =
        let none_left : length (rest (read s 512).1) ≡ 0 =
          ground (arith, read_length s 512, rest_length s) in
        sym (append-nil (read s 512).0)
        ∙ ap (λ bs. (read s 512).0 ++ bs) (sym (length-nil (rest (read s 512).1) none_left))
        ∙ read_next s 512

    -- One round of the loop, if the write is complete and the size fits.
    copyfile_from-suc :
        Writes
        → (n : ℕ) (s : f.State) (i : State) (size : ℕ) → size + length (read s 512).0 < 2 ^ 31
        → copyfile_from f d (suc n) s i size ≡ (
            if length (read s 512).0 == 512
            then copyfile_from f d n
                (read s 512).1
                (write i (read s 512).0).1
                (size + length (read s 512).0)
            else some (size + length (read s 512).0, (write i (read s 512).0).1))
    unfolding copyfile_from
    copyfile_from-suc full n s i size small = rw (
      full i (read s 512).0,
      ==_refl (length (read s 512).0),
      over_limit (size + length (read s 512).0) small,
    )
      where
        over_limit : (t : ℕ) → t < 2 ^ 31 → leb (2 ^ 31) t ≡ false
        over_limit t h = ground arith

    copyfile_from_lem :
        Writes
        → (n : ℕ) (s : f.State) (i : State) (size : ℕ) → length (rest s) < 512 * n
        → size + length (rest s) < 2 ^ 31
        → (i' : State) × (copyfile_from f d n s i size ≡ some (size + length (rest s), i'))
          × Appended i i' (rest s)
    copyfile_from_lem full zero s i size enough small = absurd (omega arith)
    copyfile_from_lem full (suc n) s i size enough small =
        let buf = (read s 512).0 in
        let s1 = (read s 512).1 in
        let i1 = (write i buf).1 in
        let step = copyfile_from-suc full n s i size (omega (arith, rest_length s)) in
        elim (Bool-cases (length buf == 512)) [
          | inl more ↦
              let (i', e, p) =
                copyfile_from_lem full n s1 i1 (size + length buf) (ground (arith, rest_length s))
                  (omega (arith, rest_length s)) in
              (
                i',
                step ∙ rw more (e ∙ same_size i' (omega (arith, rest_length s))),
                subst (λ bs. Appended i i' bs) (read_next s 512)
                    (Appended-append i i1 i' buf (rest s1) (write-Appended full i buf) p),
              )
          | inr last ↦ (
            i1,
            step ∙ rw last (same_size i1 (ap (λ bs. size + length bs) (read-last s last))),
            subst (λ bs. Appended i i1 bs) (read-last s last) (write-Appended full i buf),
          )
        ]
      where
        same_size :
            (j : State) {a b : ℕ} → a ≡ b → Path (Option (ℕ × State)) (some (a, j)) (some (b, j))
        same_size j e = ap (λ a. some (a, j)) e

    -- With enough fuel, `copyfile` appends the whole source and gives its size.
    pub copyfile_lem :
        Writes
        → (n : ℕ) (s : f.State) (i : State) → length (rest s) < 512 * n
        → length (rest s) < 2 ^ 31
        → (i' : State) × (copyfile f d n s i ≡ some (length (rest s), i')) × Appended i i' (rest s)
    unfolding copyfile
    copyfile_lem full n s i enough small =
        let (i', e, p) = copyfile_from_lem full n s i 0 enough (omega arith) in
        (i', e ∙ ap (λ k. some (k, i')) (omega arith), p)
