-- ===== src/Queue.antt =====
-- utils/queue.c and include/queue.h: a ring of fixed-size items in memory.
use ghittle.Base.{ℕ, ◌+◌, ◌*◌, ◌%◌, ◌&&◌, Bool, ◌==◌, if◌then◌else◌}
use ghittle.Mem.{Mem, memcpy}
pub mod Laws
pub mod Put
pub mod Get

abbrev pub queue_last_put : ℕ
queue_last_put = 1

abbrev pub queue_last_get : ℕ
queue_last_get = 0

pub record Queue : Type 0 where
  pub data_size : ℕ
  pub max_count : ℕ
  pub array : ℕ
  pub put : ℕ
  pub get : ℕ
  pub last_op : ℕ

unfoldable pub init_queue : ℕ → ℕ → ℕ → Queue
init_queue buf max_count data_size = record {
  data_size = data_size;
  max_count = max_count;
  array = buf;
  put = 0;
  get = 0;
  last_op = queue_last_get;
}

abbrev pub is_queue_full : Queue → Bool
is_queue_full q = q.get == q.put && q.last_op == queue_last_put

abbrev pub is_queue_empty : Queue → Bool
is_queue_empty q = q.get == q.put && q.last_op == queue_last_get

-- The result is the returned byte, the queue and the memory. `data` is an address.
unfoldable pub put_queue : Queue → Mem → ℕ → ℕ × Queue × Mem
put_queue q m src = if is_queue_full q then (0, q, m) else (
  1,
  record q { put = (q.put + 1) % q.max_count; last_op = queue_last_put },
  memcpy m (q.array + q.data_size * q.put) src q.data_size,
)

unfoldable pub get_queue : Queue → Mem → ℕ → ℕ × Queue × Mem
get_queue q m dst = if is_queue_empty q then (0, q, m) else (
  1,
  record q { get = (q.get + 1) % q.max_count; last_op = queue_last_get },
  memcpy m dst (q.array + q.data_size * q.get) q.data_size,
)
