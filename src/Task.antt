-- ===== src/Task.antt =====
-- task/task.c: the pool of tasks. A task is known by its pointer, which is its index in the pool
-- plus 1, so that 0 is the null pointer. The node `link` of a task has the address of the task.
-- `task_test` only exercises other parts and is not modelled.
use ghittle.Base.{
  ℕ, zero, suc, ◌+◌, ◌-◌, ◌*◌, Bool, true, false, Option, none, some, ltb, ◌==◌, if◌then◌else◌,
  bit_or,
}
use ghittle.Base.Int.{ℤ, pos, negsuc}
use ghittle.Sync.{Mutex, init_mutex}
use ghittle.Ring.{Links, increment, decrement, set_next, set_prev}
pub mod Laws

abbrev pub task_max : ℕ
task_max = 1024

-- TASK_POOL_ADDR + sizeof(struct task) * TASK_MAX
abbrev pub stack_pool_addr : ℕ
stack_pool_addr = 0x800000 + 240 * task_max

abbrev pub stack_size : ℕ
stack_size = 8192

-- The registers of a context by their numbers.
abbrev pub Context : Type 0
Context = ℕ → ℕ

abbrev pub context_offset_gs : ℕ
context_offset_gs = 0

abbrev pub context_offset_fs : ℕ
context_offset_fs = 1

abbrev pub context_offset_es : ℕ
context_offset_es = 2

abbrev pub context_offset_ds : ℕ
context_offset_ds = 3

abbrev pub context_offset_rbp : ℕ
context_offset_rbp = 18

abbrev pub context_offset_rip : ℕ
context_offset_rip = 19

abbrev pub context_offset_cs : ℕ
context_offset_cs = 20

abbrev pub context_offset_rflags : ℕ
context_offset_rflags = 21

abbrev pub context_offset_rsp : ℕ
context_offset_rsp = 22

abbrev pub context_offset_ss : ℕ
context_offset_ss = 23

pub record Task : Type 0 where
  pub context : Context
  pub id : ℕ
  pub enabled : ℕ
  pub flags : ℕ
  pub stack : ℕ
  pub stack_size : ℕ

-- What `memset` leaves of a task.
abbrev pub blank : Task
blank = record { context = λ _. 0; id = 0; enabled = 0; flags = 0; stack = 0; stack_size = 0 }

-- The pool, with the nodes of all lists.
pub record Pool : Type 0 where
  pub task : ℕ → Task
  pub links : Links
  pub num_task : ℤ
  pub lock : Mutex

abbrev pub put_task : Pool → ℕ → Task → Pool
put_task p t v = record p { task = λ q. if q == t then v else p.task q }

abbrev pub pointer : ℕ → ℕ
pointer i = i + 1

unfoldable pub init_taskpool : Pool
init_taskpool = record {
  task = λ _. blank;
  links = record { next = λ _. 0; prev = λ _. 0 };
  num_task = pos 0;
  lock = init_mutex;
}

-- The loop of `alloc_task` with `i` and the rounds left; `none` is `i == TASK_MAX`.
unfoldable pub free_slot : Pool → ℕ → ℕ → Option ℕ
free_slot p i zero = none
free_slot p i (suc n) =
    let rest = free_slot p (i + 1) n in if (p.task (pointer i)).enabled == 0 then some i else rest

-- `num_task >= TASK_MAX`
unfoldable pub is_pool_full : ℤ → Bool
is_pool_full (pos n) = if ltb n task_max then false else true
is_pool_full (negsuc n) = false

-- The result is the pointer, 0 if there is no free task.
unfoldable pub alloc_task : Pool → ℕ × Pool
alloc_task p = if is_pool_full p.num_task then (0, p) else elim (free_slot p 0 task_max) [
  | none ↦ (0, p)
  | some i ↦ (
    pointer i,
    record (put_task p (pointer i) (record (p.task (pointer i)) { id = i; enabled = 1 })) {
      num_task = increment p.num_task;
    },
  )
]

-- The `memset` clears the node of the task too.
unfoldable pub free_task : Pool → ℕ → Pool
free_task p id = record (put_task p (pointer id) blank) {
  links = set_next (set_prev p.links (pointer id) 0) (pointer id) 0;
  num_task = decrement p.num_task;
}

abbrev pub set_reg : Context → ℕ → ℕ → Context
set_reg c r v q = if q == r then v else c q

-- GDT_KERNEL_CODE_SEGMENT and GDT_KERNEL_DATA_SEGMENT
abbrev pub kernel_code_segment : ℕ
kernel_code_segment = 0x08

abbrev pub kernel_data_segment : ℕ
kernel_data_segment = 0x10

unfoldable pub setup_context : ℕ → ℕ → Context
setup_context entry top =
    let c0 = set_reg (λ _. 0) context_offset_rsp top in
    let c1 = set_reg c0 context_offset_rbp top in
    let c2 = set_reg c1 context_offset_cs kernel_code_segment in
    let c3 = set_reg c2 context_offset_ds kernel_data_segment in
    let c4 = set_reg c3 context_offset_es kernel_data_segment in
    let c5 = set_reg c4 context_offset_fs kernel_data_segment in
    let c6 = set_reg c5 context_offset_gs kernel_data_segment in
    let c7 = set_reg c6 context_offset_ss kernel_data_segment in
    let c8 = set_reg c7 context_offset_rip entry in
    set_reg c8 context_offset_rflags (bit_or (c8 context_offset_rflags) 0x200)

unfoldable pub setup_task : Task → ℕ → ℕ → ℕ → ℕ → Task
unfolding setup_context
setup_task t flags entry stack size = record t {
  context = setup_context entry (stack + size);
  stack = stack;
  stack_size = size;
  flags = flags;
}
