-- ===== src/Ring/Laws.antt =====
-- The lists of include/list.h as sequences of nodes.
use ghittle.Base.{
  ℕ, ◌≡◌, ◌≢◌, ◌∙◌, ap, Bool, true, false, List, [], ◌∷◌, ◌++◌, ◌||◌, length, length-append, ◌==◌,
  arith,
}
use ghittle.Base.Int.{ℤ, pos, negsuc}
use ghittle.Ring.{Links, Header, init_list_header, list_add, list_empty, list_add_tail}

abbrev pub has : ℕ → List ℕ → Bool
has b [] = false
has b (c ∷ cs) = b == c || has b cs

abbrev pub Distinct : List ℕ → Type 0
Distinct [] = Unit
Distinct (x ∷ xs) = (has x xs ≡ false) × Distinct xs

-- From `a` the links lead through `xs` to `b`, and back.
abbrev pub Seg : Links → ℕ → List ℕ → ℕ → Type 0
Seg s a [] b = (s.next a ≡ b) × (s.prev b ≡ a)
Seg s a (x ∷ xs) b = (s.next a ≡ x) × (s.prev x ≡ a) × Seg s x xs b

-- The list of a header holds the nodes `xs`, in this order, and counts them.
pub record Holds (s : Links) (l : Header) (xs : List ℕ) : Type 0 where
  pub links : Seg s l.head xs l.head
  pub distinct : Distinct (l.head ∷ xs)
  pub counted : l.items ≡ pos (length xs)

-- Writes of `next` away from `a` and `xs`, and of `prev` away from `xs` and `b`, keep a segment.
pub Seg-frame :
    (s s' : Links) (a : ℕ) (xs : List ℕ) (b : ℕ)
    → ((c : ℕ) → has c (a ∷ xs) ≡ true → s'.next c ≡ s.next c)
    → ((c : ℕ) → has c (b ∷ xs) ≡ true → s'.prev c ≡ s.prev c)
    → Seg s a xs b
    → Seg s' a xs b
Seg-frame s s' a [] b hn hp (n, p) = (hn a (ground arith) ∙ n, hp b (ground arith) ∙ p)
Seg-frame s s' a (x ∷ xs) b hn hp (n, p, rest) = (
  hn a (ground arith) ∙ n,
  hp x (ground arith) ∙ p,
  Seg-frame s s' x xs b (λ c h. hn c (ground arith)) (λ c h. hp c (ground arith)) rest,
)

-- The last node of a segment that is not empty is one of its nodes.
last_mem :
    (s : Links) (a x : ℕ) (xs : List ℕ) (b : ℕ)
    → Seg s a (x ∷ xs) b
    → has (s.prev b) (x ∷ xs) ≡ true
last_mem s a x [] b (n, p, (n', p')) = ground arith
last_mem s a x (y ∷ ys) b (n, p, rest) = ground (arith, last_mem s x y ys b rest)

last_next : (s : Links) (a : ℕ) (xs : List ℕ) (b : ℕ) → Seg s a xs b → s.next (s.prev b) ≡ b
last_next s a [] b (n, p) = ap s.next p ∙ n
last_next s a (x ∷ xs) b (n, p, rest) = last_next s x xs b rest

pub mem_ne : (a b : ℕ) (xs : List ℕ) → has a xs ≡ false → has b xs ≡ true → a ≢ b
mem_ne a b xs ha hb e = cc

-- A new node between the last node of a segment and its end.
Seg-snoc :
    (s : Links) (a : ℕ) (xs : List ℕ) (b new : ℕ)
    → Seg s a xs b
    → Distinct xs
    → has a xs ≡ false
    → has b xs ≡ false
    → has new (a ∷ b ∷ xs) ≡ false
    → Seg (list_add s new (s.prev b)) a (xs ++ (new ∷ [])) b
unfolding list_add
Seg-snoc s a [] b new seg dist ha hb hnew = ground arith
Seg-snoc s a (x ∷ xs) b new (n, p, rest) dist ha hb hnew =
    let l = s.prev b in
    let last = last_mem s a x xs b (n, p, rest) in
    let at_end : s.next l ≡ b = last_next s x xs b rest in
    let a_l : a ≢ l = mem_ne a l (x ∷ xs) ha last in
    (
      ground arith,
      ground arith,
      Seg-snoc s x xs b new rest dist.1 dist.0 (ground arith) (ground arith),
    )

has-snoc : (c : ℕ) (xs : List ℕ) (x : ℕ) → has c (xs ++ (x ∷ [])) ≡ (has c xs || c == x)
has-snoc c [] x = ground arith
has-snoc c (y ∷ ys) x = ground (arith, has-snoc c ys x)

Distinct-snoc : (xs : List ℕ) (x : ℕ) → Distinct xs → has x xs ≡ false → Distinct (xs ++ (x ∷ []))
Distinct-snoc [] x d h = ground arith
Distinct-snoc (y ∷ ys) x d h = ground (arith, has-snoc y ys x, Distinct-snoc ys x d.1)

-- `init_list_header` makes an empty list.
pub init_list_header-Holds :
    (s : Links) (head : ℕ) → let (l, s') = init_list_header s head in Holds s' l []
unfolding init_list_header
init_list_header-Holds s head = ground arith

-- `list_add_tail` puts a node that is neither in the list nor its head behind the others.
pub list_add_tail-Holds :
    (s : Links) (l : Header) (xs : List ℕ) (item : ℕ)
    → Holds s l xs
    → has item (l.head ∷ xs) ≡ false
    → let (l', s') = list_add_tail s l item in Holds s' l' (xs ++ (item ∷ []))
unfolding list_add_tail
list_add_tail-Holds s l xs item h new = record {
  links =
      Seg-snoc s l.head xs l.head item h.links h.distinct.1 h.distinct.0 h.distinct.0
        (ground arith);
  distinct = (
    ground (arith, h.distinct, has-snoc l.head xs item),
    Distinct-snoc xs item h.distinct.1 (ground arith),
  );
  counted = ground (arith, h.counted, length-append xs (item ∷ []));
}

-- `list_empty` tells whether the list holds no node.
pub list_empty-Holds :
    (s : Links) (l : Header) (xs : List ℕ) → Holds s l xs → list_empty l ≡ (length xs == 0)
list_empty-Holds s l xs h = ap list_empty_of h.counted
  where
    list_empty_of : ℤ → Bool
    list_empty_of (pos n) = n == 0
    list_empty_of (negsuc n) = false
