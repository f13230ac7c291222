-- ===== src/Links/Queue.antt =====
-- The lists of include/list.hh as queues.
use double_take.Prelude.{
  ℕ, ◌≡◌, refl, ap, true, false, Option, none, some, List, [], ◌∷◌, ◌++◌, arith,
}
use double_take.Links.{Links, is_list_empty, list_insert_tail, list_remove_node, list_retrieve_item}
use double_take.Links.Ring.{has, IsRing}
use double_take.Links.Laws.{list_remove_node-IsRing, list_insert_tail-IsRing}

is_list_empty_nil : (h : Links) (head : ℕ) → IsRing h head [] → is_list_empty h head ≡ true
unfolding is_list_empty
is_list_empty_nil h head r = ground (arith, r.chain)

is_list_empty_cons :
    (h : Links) (head x : ℕ) (xs : List ℕ) → IsRing h head (x ∷ xs) → is_list_empty h head ≡ false
unfolding is_list_empty
is_list_empty_cons h head x xs r = ground (arith, r.chain.0, r.distinct.0)

-- `listRetrieveItem` of a list with no node gives none, and changes nothing.
pub list_retrieve_item_empty :
    (h : Links) (head : ℕ) → IsRing h head [] → list_retrieve_item h head ≡ (none, h)
unfolding list_retrieve_item
list_retrieve_item_empty h head r = rw (is_list_empty_nil h head r) refl

list_retrieve_item_eq :
    (h : Links) (head x : ℕ) (xs : List ℕ)
    → IsRing h head (x ∷ xs)
    → list_retrieve_item h head ≡ (some x, list_remove_node h x)
unfolding list_retrieve_item
list_retrieve_item_eq h head x xs r = rw (is_list_empty_cons h head x xs r, r.chain.0) refl

-- `listRetrieveItem` takes the first node.
pub list_retrieve_item-IsRing :
    (h : Links) (head x : ℕ) (xs : List ℕ)
    → IsRing h head (x ∷ xs)
    → ((list_retrieve_item h head).0 ≡ some x) × IsRing (list_retrieve_item h head).1 head xs
list_retrieve_item-IsRing h head x xs r =
    let (ring, alone) = list_remove_node-IsRing h head x [] xs r in
    rw (list_retrieve_item_eq h head x xs r) (refl, ring)

pub data QueueOp : Type 0 where
  enqueue : ℕ → QueueOp
  dequeue : QueueOp

-- A run of operations on the links: what the retrievals gave, and the links that are left.
unfoldable pub run : Links → ℕ → List QueueOp → List (Option ℕ) × Links
run h head [] = ([], h)
run h head (enqueue node ∷ ops) = run (list_insert_tail h node head) head ops
run h head (dequeue ∷ ops) =
    let (item, h') = list_retrieve_item h head in
    let (items, h'') = run h' head ops in (item ∷ items, h'')

-- The same run on a list.
unfoldable pub run_list : List ℕ → List QueueOp → List (Option ℕ) × List ℕ
run_list xs [] = ([], xs)
run_list xs (enqueue node ∷ ops) = run_list (xs ++ node ∷ []) ops
run_list [] (dequeue ∷ ops) = let (items, rest) = run_list [] ops in (none ∷ items, rest)
run_list (x ∷ xs) (dequeue ∷ ops) = let (items, rest) = run_list xs ops in (some x ∷ items, rest)

-- No node is put in while it is there, and the head never.
unfoldable pub Fits : ℕ → List ℕ → List QueueOp → Type 0
Fits head xs [] = false ≡ false
Fits head xs (enqueue node ∷ ops) = (has node (head ∷ xs) ≡ false) × Fits head (xs ++ node ∷ []) ops
Fits head [] (dequeue ∷ ops) = Fits head [] ops
Fits head (x ∷ xs) (dequeue ∷ ops) = Fits head xs ops

-- `listInsertTail` and `listRetrieveItem`, in any order, on a list with the nodes `xs`, where no
-- node is inserted while it is in the list, and the head never: the retrievals give what a
-- first-in, first-out queue gives, with none where it is empty, and the list ends with the queue's
-- nodes in their order.
pub run-run_list :
    (h : Links) (head : ℕ) (xs : List ℕ) (ops : List QueueOp)
    → IsRing h head xs
    → Fits head xs ops
    → ((run h head ops).0 ≡ (run_list xs ops).0)
      × IsRing (run h head ops).1 head (run_list xs ops).1
unfolding run run_list Fits
run-run_list h head xs [] r f = (refl, r)
run-run_list h head xs (enqueue node ∷ ops) r (out, f) =
    run-run_list (list_insert_tail h node head) head (xs ++ node ∷ []) ops
      (list_insert_tail-IsRing h head node xs r out) f
run-run_list h head [] (dequeue ∷ ops) r f =
    let (same, ring) = run-run_list h head [] ops r f in
    rw (list_retrieve_item_empty h head r) (ap (λ l. none ∷ l) same, ring)
run-run_list h head (x ∷ xs) (dequeue ∷ ops) r f =
    let (item, left) = list_retrieve_item-IsRing h head x xs r in
    let (same, ring) = run-run_list (list_retrieve_item h head).1 head xs ops left f in
    (rw (item, same) refl, ring)
