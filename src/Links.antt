-- ===== src/Links.antt =====
-- include/list.hh: doubly linked rings through a head. A node is its address; the memory is the two
-- fields of every node.
pub mod Ring
pub mod Laws
pub mod Queue
pub mod Whole
use double_take.Prelude.{
  ℕ, ◌+◌, Bool, true, Option, none, some, ◌==◌, ltb, ◌&&◌, not, if◌then◌else◌,
}

pub record Links : Type 0 where
  pub next : ℕ → ℕ
  pub prev : ℕ → ℕ

abbrev pub update : (ℕ → ℕ) → ℕ → ℕ → ℕ → ℕ
update f p v q = if p == q then v else f q

abbrev pub set_next : Links → ℕ → ℕ → Links
set_next h p v = record h { next = update h.next p v }

abbrev pub set_prev : Links → ℕ → ℕ → Links
set_prev h p v = record h { prev = update h.prev p v }

unfoldable pub node_init : Links → ℕ → Links
node_init h node = set_next (set_prev h node node) node node

unfoldable pub list_init : Links → ℕ → Links
unfolding node_init
list_init h node = node_init h node

unfoldable pub is_list_empty : Links → ℕ → Bool
is_list_empty h head = h.next head == head

unfoldable pub next_entry : Links → ℕ → ℕ
next_entry h cur = h.next cur

unfoldable pub prev_entry : Links → ℕ → ℕ
prev_entry h cur = h.prev cur

unfoldable pub tail_list : Links → ℕ → Option ℕ
unfolding is_list_empty
tail_list h head = if is_list_empty h head then none else some (h.prev head)

unfoldable pub insert_between : Links → ℕ → ℕ → ℕ → Links
insert_between h node prev next =
    let h1 = set_next h node next in
    let h2 = set_prev h1 node prev in let h3 = set_next h2 prev node in set_prev h3 next node

unfoldable pub list_insert_node : Links → ℕ → ℕ → Links
unfolding insert_between
list_insert_node h node prev = insert_between h node prev (h.next prev)

unfoldable pub list_insert_tail : Links → ℕ → ℕ → Links
unfolding insert_between
list_insert_tail h node head = insert_between h node (h.prev head) head

unfoldable pub list_insert_head : Links → ℕ → ℕ → Links
unfolding insert_between
list_insert_head h node head = insert_between h node head (h.next head)

unfoldable pub list_link : Links → ℕ → ℕ → Links
list_link h p n = set_prev (set_next h p n) n p

-- The second link reads the fields that the first one wrote.
unfoldable pub list_insert_list : Links → ℕ → ℕ → Links
unfolding list_link
list_insert_list h list place =
    let h1 = list_link h place list in list_link h1 (h1.prev list) (h1.next place)

unfoldable pub list_insert_list_tail : Links → ℕ → ℕ → Links
unfolding list_link
list_insert_list_tail h list place =
    let h1 = list_link h (h.prev place) (h.next list) in list_link h1 (h1.prev list) place

unfoldable pub list_remove_node : Links → ℕ → Links
unfolding list_link node_init
list_remove_node h node = node_init (list_link h (h.prev node) (h.next node)) node

unfoldable pub is_list_tail : Links → ℕ → ℕ → Bool
is_list_tail h node head = h.next node == head

unfoldable pub list_retrieve_item : Links → ℕ → Option ℕ × Links
unfolding is_list_empty list_remove_node
list_retrieve_item h list =
    if is_list_empty h list
    then (none, h)
    else (some (h.next list), list_remove_node h (h.next list))

unfoldable pub list_retrieve_all_items : Links → ℕ → ℕ → Links
unfolding list_init
list_retrieve_all_items h dest src =
    let first = h.next src in
    let last = h.prev src in
    let h1 = set_prev h first dest in
    let h2 = set_next h1 last dest in
    let h3 = set_next h2 dest first in let h4 = set_prev h3 dest last in list_init h4 src
