-- ===== src/Queue/Laws.antt =====
-- Valid queues, and what they hold.
use native.Mathlib.Nat.{mod-eq_of_lt, mod-eq-sub-mod}
use native.Mathlib.Decide.{dec_lt}
use mathlib.Core.Path.{ap₂}
use ghittle.Base.{
  Bool-cases, ltb, ltb→lt, ℕ, zero, suc, ◌+◌, ◌-◌, ◌*◌, ◌%◌, ◌≤◌, ◌<◌, ◌≡◌, refl, ap, ◌∙◌, ◌≢◌, ◌⊎◌,
  inl, inr, List, [], ◌∷◌, ◌==◌, if◌then◌else◌, arith, leb,
}
use ghittle.Mem.{Mem}
use ghittle.Queue.{Queue, init_queue, put_queue, get_queue}

pub record IsValid (q : Queue) : Type 0 where
  pub room : 0 < q.max_count
  pub put_in : q.put < q.max_count
  pub get_in : q.get < q.max_count
  pub last : q.last_op ≤ 1

-- The `n` bytes from an address on.
abbrev pub bytes : Mem → ℕ → ℕ → List ℕ
bytes m a zero = []
bytes m a (suc n) = m a ∷ bytes m (a + 1) n

-- How many items the queue holds.
abbrev pub count : Queue → ℕ
count q =
    if q.get == q.put
    then (if q.last_op == 1 then q.max_count else 0)
    else (if leb q.get q.put then q.put - q.get else q.put + q.max_count - q.get)

-- The bytes at `[a, a + n)` lie outside the array of the queue.
abbrev pub Apart : Queue → ℕ → Type 0
Apart q a = (a + q.data_size ≤ q.array) ⊎ (q.array + q.data_size * q.max_count ≤ a)

-- The `n` items from slot `h` on, going round at `max`.
abbrev pub slots : ℕ → ℕ → ℕ → Mem → ℕ → ℕ → List (List ℕ)
slots array size max m h zero = []
slots array size max m h (suc n) =
    bytes m (array + size * h) size ∷ slots array size max m ((h + 1) % max) n

abbrev pub items : Queue → Mem → ℕ → ℕ → List (List ℕ)
items q = slots q.array q.data_size q.max_count

abbrev pub contents : Queue → Mem → List (List ℕ)
contents q m = items q m q.get (count q)

pub bytes-ext :
    (m m' : Mem) (a b n : ℕ)
    → ((k : ℕ) → k < n → m' (b + k) ≡ m (a + k))
    → bytes m' b n ≡ bytes m a n
bytes-ext m m' a b zero h = refl
bytes-ext m m' a b (suc n) h =
    ap₂ ◌∷◌ (ap m' (omega arith) ∙ h 0 (omega arith) ∙ ap m (omega arith)) (
      bytes-ext m m' (a + 1) (b + 1) n
        λ k lt. ap m' (omega arith) ∙ h (k + 1) (omega arith) ∙ ap m (omega arith))

pub mul_mono : (d i j : ℕ) → i ≤ j → d * i ≤ d * j
mul_mono d i j h = grind arith

-- Two slots of an array do not overlap.
pub slots_apart : (d i j k : ℕ) → i ≢ j → k < d → (d * i + k < d * j) ⊎ (d * j + d ≤ d * i + k)
slots_apart d i j k ne lt = elim (dec_lt i j) [
  | yes h ↦ inl (omega (arith, mul_mono d (i + 1) j (omega arith)))
  | no h ↦ inr (omega (arith, mul_mono d (j + 1) i (omega arith)))
]

pub slot_in : (d i n k : ℕ) → i < n → k < d → d * i + k < d * n
slot_in d i n k h lt = omega (arith, mul_mono d (i + 1) n (omega arith))

-- A walk round the ring that is shorter than the ring ends elsewhere.
pub walk_ne : (h k max : ℕ) → h < max → suc k < max → (h + suc k) % max ≢ h
walk_ne h k max inside short = elim (Bool-cases (ltb (h + suc k) max)) [
  | inl below ↦ omega (arith, mod-eq_of_lt (ltb→lt (h + suc k) max below))
  | inr past ↦
      let over : max ≤ h + suc k = ground arith in
      let back : (h + suc k - max) % max ≡ h + suc k - max = mod-eq_of_lt (omega arith) in
      omega (arith, mod-eq-sub-mod {n = h + suc k} {m = max} over, back)
]

pub Apart-slot :
    (q : Queue) (a i : ℕ)
    → i < q.max_count
    → Apart q a
    → (q.array + q.data_size * i ≤ a) ⊎ (a + q.data_size ≤ q.array + q.data_size * i)
Apart-slot q a i h (inl low) = inr (omega arith)
Apart-slot q a i h (inr high) =
    inl (omega (arith, mul_mono q.data_size i q.max_count (omega arith)))

-- The next index, without `%`.
pub next_cases : (i max : ℕ) → i < max → (i + 1) % max ≡ (if i + 1 == max then 0 else i + 1)
next_cases i max h = elim (dec_lt (i + 1) max) [
  | yes p ↦ rw (mod-eq_of_lt p) (ground arith)
  | no p ↦ ground (arith, mod-eq-sub-mod {n = i + 1} {m = max})
]

-- `init_queue` makes a valid empty queue.
pub init_queue-IsValid :
    (buf max size : ℕ)
    → 0 < max
    → IsValid (init_queue buf max size) × (count (init_queue buf max size) ≡ 0)
unfolding init_queue
init_queue-IsValid buf max size h = ground arith

-- `put_queue` keeps a valid queue valid, on every path.
pub put_queue-IsValid : (q : Queue) (m : Mem) (src : ℕ) → IsValid q → IsValid (put_queue q m src).1
unfolding put_queue
put_queue-IsValid q m src v = ground arith

-- `get_queue` keeps a valid queue valid, on every path.
pub get_queue-IsValid : (q : Queue) (m : Mem) (dst : ℕ) → IsValid q → IsValid (get_queue q m dst).1
unfolding get_queue
get_queue-IsValid q m dst v = ground arith

-- A queue that holds `max_count` items refuses the item, and nothing changes.
pub put_queue-full :
    (q : Queue) (m : Mem) (src : ℕ)
    → IsValid q
    → count q ≡ q.max_count
    → put_queue q m src ≡ (0, q, m)
unfolding put_queue
put_queue-full q m src v full = ground arith

-- An empty queue gives nothing, and nothing changes.
pub get_queue-empty :
    (q : Queue) (m : Mem) (dst : ℕ) → IsValid q → count q ≡ 0 → get_queue q m dst ≡ (0, q, m)
unfolding get_queue
get_queue-empty q m dst v empty = ground arith
