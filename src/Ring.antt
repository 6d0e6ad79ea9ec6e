-- ===== src/Ring.antt =====
-- include/list.h: circular doubly linked lists through nodes in memory. A node is its address, a
-- list header is the number of items with the address of its own node.
use ghittle.Base.{ℕ, suc, ◌+◌, Bool, ◌==◌, not, if◌then◌else◌}
use ghittle.Base.Int.{ℤ, pos, negsuc, is_zero, ◌-ℤ◌}
pub mod Laws
pub mod Remove

-- The fields `next` and `prev` of every node.
pub record Links : Type 0 where
  pub next : ℕ → ℕ
  pub prev : ℕ → ℕ

pub record Header : Type 0 where
  pub items : ℤ
  pub head : ℕ

abbrev pub set_next : Links → ℕ → ℕ → Links
set_next s a v = record s { next = λ b. if b == a then v else s.next b }

abbrev pub set_prev : Links → ℕ → ℕ → Links
set_prev s a v = record s { prev = λ b. if b == a then v else s.prev b }

unfoldable pub init_list : Links → ℕ → Links
init_list s list = set_next (set_prev s list list) list list

-- The header stands at `head`; its own node is `head` too.
unfoldable pub init_list_header : Links → ℕ → Header × Links
unfolding init_list
init_list_header s head = (record { items = pos 0; head = head }, init_list s head)

-- The four assignments of `list_add`, in order.
unfoldable pub list_add : Links → ℕ → ℕ → Links
list_add s new head =
    let s1 = set_prev s (s.next head) new in
    let s2 = set_next s1 new (s1.next head) in let s3 = set_prev s2 new head in set_next s3 head new

unfoldable pub list_del : Links → ℕ → Links
list_del s del =
    let s1 = set_next s (s.prev del) (s.next del) in
    let s2 = set_prev s1 (s1.next del) (s1.prev del) in set_prev (set_next s2 del 0) del 0

abbrev pub list_empty : Header → Bool
list_empty l = is_zero l.items

abbrev pub increment : ℤ → ℤ
increment a = a -ℤ negsuc 0

abbrev pub decrement : ℤ → ℤ
decrement a = a -ℤ pos 1

unfoldable pub list_pop : Links → Header → ℕ × Header × Links
unfolding list_del
list_pop s l =
    let item = s.next l.head in (item, record l { items = decrement l.items }, list_del s item)

unfoldable pub list_add_tail : Links → Header → ℕ → Header × Links
unfolding list_add
list_add_tail s l item = (record l { items = increment l.items }, list_add s item (s.prev l.head))

unfoldable pub list_remove : Links → Header → ℕ → Header × Links
unfolding list_del
list_remove s l item = (record l { items = decrement l.items }, list_del s item)
