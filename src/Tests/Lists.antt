-- ===== src/Tests/Lists.antt =====
-- The lists of include/list.h and the mutex on concrete data.
use ghittle.Base.{◌≡◌, refl, [], ◌∷◌, some, arith}
use ghittle.Sync.{Mutex, lock}
use ghittle.Sync.Laws.{IsValid}
use ghittle.Ring.{Links, Header, init_list_header, list_add_tail, list_remove}
use ghittle.Ring.Laws.{Holds, init_list_header-Holds, list_add_tail-Holds}
use ghittle.Ring.Remove.{list_remove-Holds}

-- Task 4 holds the mutex once.
abbrev held : Mutex
held = record { tid = 4; count = 1; flag = 1 }

held-IsValid : IsValid held
held-IsValid = ground arith

locked_again : lock 4 held ≡ some (record held { count = 2 })
unfolding lock
locked_again = refl

abbrev no_links : Links
no_links = record { next = λ a. 0; prev = λ a. 0 }

-- A list at 90 with the nodes 3 and 5.
abbrev empty_list : Header × Links
empty_list = init_list_header no_links 90

abbrev one_node : Header × Links
one_node = list_add_tail empty_list.1 empty_list.0 3

abbrev two_nodes : Header × Links
two_nodes = list_add_tail one_node.1 one_node.0 5

empty_list-Holds : Holds empty_list.1 empty_list.0 []
empty_list-Holds = init_list_header-Holds no_links 90

at_90 : (empty_list.0.head ≡ 90) × (one_node.0.head ≡ 90) × (two_nodes.0.head ≡ 90)
unfolding init_list_header list_add_tail
at_90 = (refl, refl, refl)

one_node-Holds : Holds one_node.1 one_node.0 (3 ∷ [])
one_node-Holds = list_add_tail-Holds empty_list.1 empty_list.0 [] 3 empty_list-Holds (rw at_90.0)

two_nodes-Holds : Holds two_nodes.1 two_nodes.0 (3 ∷ 5 ∷ [])
two_nodes-Holds = list_add_tail-Holds one_node.1 one_node.0 (3 ∷ []) 5 one_node-Holds (rw at_90.1)

list_add_tail-Holds_example :
    let (l, s) = list_add_tail two_nodes.1 two_nodes.0 8 in Holds s l (3 ∷ 5 ∷ 8 ∷ [])
list_add_tail-Holds_example =
    list_add_tail-Holds two_nodes.1 two_nodes.0 (3 ∷ 5 ∷ []) 8 two_nodes-Holds (rw at_90.2)

list_remove-Holds_example : let (l, s) = list_remove two_nodes.1 two_nodes.0 5 in Holds s l (3 ∷ [])
list_remove-Holds_example = list_remove-Holds two_nodes.1 two_nodes.0 (3 ∷ []) 5 [] two_nodes-Holds
