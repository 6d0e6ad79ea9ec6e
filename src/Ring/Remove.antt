-- ===== src/Ring/Remove.antt =====
-- Taking nodes out of a list of include/list.h.
use ghittle.Base.{
  ℕ, ◌≡◌, ◌≢◌, refl, true, false, List, [], ◌∷◌, ◌++◌, ◌||◌, length-append, ◌==◌, arith,
}
use ghittle.Ring.{Links, Header, list_del, list_pop, list_remove}
use ghittle.Ring.Laws.{has, Distinct, Seg, Holds, Seg-frame, mem_ne}

pub has-append : (c : ℕ) (xs ys : List ℕ) → has c (xs ++ ys) ≡ (has c xs || has c ys)
has-append c [] ys = refl
has-append c (x ∷ xs) ys = ground (arith, has-append c xs ys)

module _ (s : Links) (del : ℕ) (ys : List ℕ) (b : ℕ) where
  -- The neighbours of a node in a segment.
  mid_prev : (a : ℕ) (xs : List ℕ) → Seg s a (xs ++ (del ∷ ys)) b → has (s.prev del) (a ∷ xs) ≡ true
  mid_prev a [] (n, p, rest) = ground arith
  mid_prev a (x ∷ xs) (n, p, rest) = ground (arith, mid_prev x xs rest)

  next_head : (ys : List ℕ) → Seg s del ys b → has (s.next del) (b ∷ ys) ≡ true
  next_head [] (n, p) = ground arith
  next_head (y ∷ zs) (n, p, rest) = ground arith

  mid_next : (a : ℕ) (xs : List ℕ) → Seg s a (xs ++ (del ∷ ys)) b → has (s.next del) (b ∷ ys) ≡ true
  mid_next a [] (n, p, rest) = next_head ys rest
  mid_next a (x ∷ xs) (n, p, rest) = mid_next x xs rest

  -- Behind the removal of its first node, a segment begins with the next one.
  Seg-del_first :
      (a : ℕ) (zs : List ℕ)
      → s.next a ≡ del
      → s.prev del ≡ a
      → Seg s del zs b
      → Distinct (del ∷ zs)
      → has a (del ∷ zs) ≡ false
      → has b (del ∷ zs) ≡ false
      → Seg (list_del s del) a zs b
  unfolding list_del
  Seg-del_first a [] n p (n', p') dist ha hb = ground arith
  Seg-del_first a (z ∷ zs) n p (n', p', rest) dist ha hb = (
    ground arith,
    ground arith,
    Seg-frame s (list_del s del) z zs b (λ c h. keeps_next c h) (λ c h. keeps_prev c h) rest,
  )
    where
      keeps_next : (c : ℕ) → has c (z ∷ zs) ≡ true → (list_del s del).next c ≡ s.next c
      keeps_next c h =
          let c_a = mem_ne a c (z ∷ zs) (ground arith) h in
          let c_del = mem_ne del c (z ∷ zs) dist.0 h in ground arith

      keeps_prev : (c : ℕ) → has c (b ∷ zs) ≡ true → (list_del s del).prev c ≡ s.prev c
      keeps_prev c h =
          let c_z = mem_ne z c (b ∷ zs) (ground arith) h in
          let c_del = mem_ne del c (b ∷ zs) (ground arith) h in ground arith

  Seg-del :
      (a : ℕ) (xs : List ℕ)
      → Seg s a (xs ++ (del ∷ ys)) b
      → Distinct (xs ++ (del ∷ ys))
      → has a (xs ++ (del ∷ ys)) ≡ false
      → has b (xs ++ (del ∷ ys)) ≡ false
      → Seg (list_del s del) a (xs ++ ys) b
  unfolding list_del
  Seg-del a [] (n, p, rest) dist ha hb = Seg-del_first a ys n p rest dist ha hb
  Seg-del a (x ∷ xs) (n, p, rest) dist ha hb =
      let before = mid_prev x xs rest in
      let after = mid_next x xs rest in
      let split = λ (c : ℕ). has-append c xs (del ∷ ys) in
      let a_before : a ≢ s.prev del =
        mem_ne a (s.prev del) (x ∷ xs) (ground (arith, split a)) before in
      let x_after : x ≢ s.next del =
        mem_ne x (s.next del) (b ∷ ys) (ground (arith, split x)) after in
      let a_del : a ≢ del = λ e. ne_del a e (ground (arith, split a)) in
      let x_del : x ≢ del = λ e. ne_del x e (ground (arith, split x)) in
      (ground arith, ground arith, Seg-del x xs rest dist.1 dist.0 (ground arith))
    where
      ne_del : (c : ℕ) → c ≡ del → (c == del) ≡ false → ⊥
      ne_del c e h = ground arith

Distinct-del :
    (xs : List ℕ) (del : ℕ) (ys : List ℕ) → Distinct (xs ++ (del ∷ ys)) → Distinct (xs ++ ys)
Distinct-del [] del ys d = d.1
Distinct-del (x ∷ xs) del ys d =
    (ground (arith, d, has-append x xs (del ∷ ys), has-append x xs ys), Distinct-del xs del ys d.1)

-- `list_remove` takes a node out of the list, wherever it stands, and keeps the order of the rest.
pub list_remove-Holds :
    (s : Links) (l : Header) (xs : List ℕ) (item : ℕ) (ys : List ℕ)
    → Holds s l (xs ++ (item ∷ ys))
    → let (l', s') = list_remove s l item in Holds s' l' (xs ++ ys)
unfolding list_remove
list_remove-Holds s l xs item ys h = record {
  links = Seg-del s item ys l.head l.head xs h.links h.distinct.1 h.distinct.0 h.distinct.0;
  distinct = Distinct-del (l.head ∷ xs) item ys h.distinct;
  counted = ground (arith, h.counted, length-append xs ys, length-append xs (item ∷ ys));
}

-- `list_pop` gives the first node of the list, and leaves the others in their order.
pub list_pop-Holds :
    (s : Links) (l : Header) (item : ℕ) (xs : List ℕ)
    → Holds s l (item ∷ xs)
    → let (first, l', s') = list_pop s l in (first ≡ item) × Holds s' l' xs
unfolding list_pop list_remove
list_pop-Holds s l item xs h = (h.links.0, rw (h.links.0) (list_remove-Holds s l [] item xs h))
