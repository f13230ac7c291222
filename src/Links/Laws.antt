-- ===== src/Links/Laws.antt =====
-- Insertion and removal in a ring: include/list.hh.
use double_take.Prelude.{ℕ, ◌≡◌, ◌≢◌, refl, true, false, List, [], ◌∷◌, ◌++◌, arith}
use double_take.Links.{
  Links, node_init, insert_between, list_insert_node, list_insert_tail, list_insert_head, list_link,
  list_remove_node,
}
use double_take.Links.Ring.{
  has, Distinct, last, Walk, Chain, IsRing, has-append_left, has-append_right, has-append, has-last,
  Distinct-append_left, Distinct-append_right, Distinct-insert, Distinct-delete, has_middle,
  Chain-split, Chain-join, Chain-prev, Walk-frame, Chain-frame,
}

abbrev pub first : List ℕ → ℕ → ℕ
first [] q = q
first (x ∷ xs) q = x

pub has_of_mem : (a b : ℕ) (xs : List ℕ) → has a xs ≡ true → has b xs ≡ false → a ≢ b
has_of_mem a b xs m n e = ground (arith, e, m, n)

-- The last node of a prefix is not in the rest.
last_not_after : (p : ℕ) (xs ys : List ℕ) → Distinct (p ∷ xs ++ ys) → has (last p xs) ys ≡ false
last_not_after p [] ys (o, d) = o
last_not_after p (x ∷ xs) ys (o, d) = last_not_after x xs ys d

-- The writes of an insertion do not touch the path before it.
Walk-insert_between :
    (h : Links) (head node n : ℕ) (xs : List ℕ)
    → Distinct (head ∷ xs)
    → has node (head ∷ xs) ≡ false
    → has n xs ≡ false
    → Walk h head xs
    → Walk (insert_between h node (last head xs) n) head xs
unfolding insert_between
Walk-insert_between h head node n xs d out other path =
    Walk-frame h _ head xs (λ a i ne. ground (arith, has_of_mem a node (head ∷ xs) i out, ne))
      (λ a i.
        ground (arith, has_of_mem a node xs i (ground (arith, out)), has_of_mem a n xs i other))
      d path

-- The chain behind an insertion.
Chain-insert_between :
    (h : Links) (p head node : ℕ) (ys : List ℕ)
    → has node (head ∷ ys) ≡ false
    → has p ys ≡ false
    → Distinct (head ∷ ys)
    → node ≢ p
    → Chain h p ys head
    → Chain (insert_between h node p (first ys head)) p (node ∷ ys) head
unfolding insert_between
Chain-insert_between h p head node [] out apart d ne (e, f) =
    (ground (arith, ne), ground arith, (ground (arith, ne), ground arith))
Chain-insert_between h p head node (y ∷ ys) out apart (o, (o', d)) ne (e, f, c) = (
  ground (arith, ne),
  ground arith,
  (
    ground (arith, ne),
    ground arith,
    Chain-frame h _ y head ys
        (λ a i. ground (
          arith,
          has_of_mem a node (y ∷ ys) i (ground arith),
          has_of_mem a p (y ∷ ys) i (ground arith),
        ))
        (λ a i. ground (
          arith,
          has_of_mem a node (head ∷ ys) i (ground arith),
          has_of_mem a y (head ∷ ys) i (ground arith),
        ))
        c,
  ),
)

Distinct-first :
    (xs ys : List ℕ) (head : ℕ) → Distinct (head ∷ xs ++ ys) → has (first ys head) xs ≡ false
Distinct-first xs [] head (o, d) = has-append_left head xs [] o
Distinct-first xs (y ∷ ys) head (o, d) = has-append_left y xs ys (has_middle y xs ys d)

-- An insertion behind any node of the list, or behind its head.
pub insert_between-IsRing :
    (h : Links) (head node : ℕ) (xs ys : List ℕ)
    → IsRing h head (xs ++ ys)
    → has node (head ∷ xs ++ ys) ≡ false
    → IsRing (insert_between h node (last head xs) (first ys head)) head (xs ++ node ∷ ys)
insert_between-IsRing h head node xs ys r out =
    let (path, chain) = Chain-split h head head xs ys r.chain in
    let (o, d) = r.distinct in
    let o' : has node (xs ++ ys) ≡ false = ground (arith, out) in
    let dl : Distinct (head ∷ xs) = (has-append_left head xs ys o, Distinct-append_left xs ys d) in
    let dr : Distinct (head ∷ ys) =
      (has-append_right head xs ys o, Distinct-append_right xs ys d) in
    let ol : has node (head ∷ xs) ≡ false = ground (arith, has-append_left node xs ys o') in
    let or : has node (head ∷ ys) ≡ false = ground (arith, has-append_right node xs ys o') in
    record {
      chain =
          Chain-join _ head head xs (node ∷ ys)
            (Walk-insert_between h head node (first ys head) xs dl ol
              (Distinct-first xs ys head r.distinct) path)
            (Chain-insert_between h (last head xs) head node ys or
              (last_not_after head xs ys r.distinct) dr (has-last node head xs ol) chain);
      distinct = (
        has-append head xs (node ∷ ys) (has-append_left head xs ys o)
            (ground (arith, has-append_right head xs ys o)),
        Distinct-insert node xs ys d o',
      );
    }

-- A removal, with the two neighbours that it reads.
unlink : Links → ℕ → ℕ → ℕ → Links
unfolding list_link node_init
unlink h node p n = node_init (list_link h p n) node

pub Chain-first : (h : Links) (p q : ℕ) (xs : List ℕ) → Chain h p xs q → h.next p ≡ first xs q
Chain-first h p q [] (e, f) = e
Chain-first h p q (x ∷ xs) (e, f, c) = e

Walk-unlink :
    (h : Links) (head node n : ℕ) (xs : List ℕ)
    → Distinct (head ∷ xs)
    → has node (head ∷ xs) ≡ false
    → has n xs ≡ false
    → Walk h head xs
    → Walk (unlink h node (last head xs) n) head xs
unfolding unlink list_link node_init
Walk-unlink h head node n xs d out other path =
    Walk-frame h _ head xs (λ a i ne. ground (arith, has_of_mem a node (head ∷ xs) i out, ne))
      (λ a i.
        ground (arith, has_of_mem a node xs i (ground (arith, out)), has_of_mem a n xs i other))
      d path

Chain-unlink :
    (h : Links) (p head node : ℕ) (ys : List ℕ)
    → has node (head ∷ ys) ≡ false
    → has p ys ≡ false
    → Distinct (head ∷ ys)
    → node ≢ p
    → Chain h node ys head
    → Chain (unlink h node p (first ys head)) p ys head
unfolding unlink list_link node_init
Chain-unlink h p head node [] out apart d ne (e, f) = (ground (arith, ne), ground arith)
Chain-unlink h p head node (y ∷ ys) out apart (o, (o', d)) ne (e, f, c) = (
  ground (arith, ne),
  ground arith,
  Chain-frame h _ y head ys
      (λ a i. ground (
        arith,
        has_of_mem a node (y ∷ ys) i (ground arith),
        has_of_mem a p (y ∷ ys) i (ground arith),
      ))
      (λ a i. ground (
        arith,
        has_of_mem a node (head ∷ ys) i (ground arith),
        has_of_mem a y (head ∷ ys) i (ground arith),
      ))
      c,
)

unlink-IsRing :
    (h : Links) (head node : ℕ) (xs ys : List ℕ)
    → IsRing h head (xs ++ node ∷ ys)
    → IsRing (unlink h node (last head xs) (first ys head)) head (xs ++ ys)
unlink-IsRing h head node xs ys r =
    let (path, (e, f, chain)) = Chain-split h head head xs (node ∷ ys) r.chain in
    let (o, d) = r.distinct in
    let o' = has_middle node xs ys d in
    let here : has head (node ∷ ys) ≡ false = has-append_right head xs (node ∷ ys) o in
    let (od, dy) = Distinct-append_right xs (node ∷ ys) d in
    let dl : Distinct (head ∷ xs) =
      (has-append_left head xs (node ∷ ys) o, Distinct-append_left xs (node ∷ ys) d) in
    let dr : Distinct (head ∷ ys) = (ground (arith, here), dy) in
    let ol : has node (head ∷ xs) ≡ false = ground (arith, has-append_left node xs ys o', here) in
    let or : has node (head ∷ ys) ≡ false = ground (arith, od, here) in
    let all : Distinct (head ∷ xs ++ ys) = (
      has-append head xs ys (has-append_left head xs (node ∷ ys) o) (ground (arith, here)),
      Distinct-delete node xs ys d,
    ) in
    record {
      chain =
          Chain-join _ head head xs ys
            (Walk-unlink h head node (first ys head) xs dl ol (Distinct-first xs ys head all) path)
            (Chain-unlink h (last head xs) head node ys or (last_not_after head xs ys all) dr
              (has-last node head xs ol) chain);
      distinct = all;
    }

list_remove_node-unlink :
    (h : Links) (node p n : ℕ)
    → h.prev node ≡ p
    → h.next node ≡ n
    → list_remove_node h node ≡ unlink h node p n
unfolding list_remove_node unlink
list_remove_node-unlink h node p n e f = rw (e, f) refl

node_init-Alone :
    (h : Links) (node : ℕ)
    → ((node_init h node).next node ≡ node) × ((node_init h node).prev node ≡ node)
unfolding node_init
node_init-Alone h node = (ground arith, ground arith)

-- `listRemoveNode` takes a node out of the list that it is in, wherever it stands there, leaves the
-- other nodes in their order, and makes the node a list of its own that is empty.
pub list_remove_node-IsRing :
    (h : Links) (head node : ℕ) (xs ys : List ℕ)
    → IsRing h head (xs ++ node ∷ ys)
    → IsRing (list_remove_node h node) head (xs ++ ys) × IsRing (list_remove_node h node) node []
unfolding list_remove_node
list_remove_node-IsRing h head node xs ys r =
    let (path, (e, f, chain)) = Chain-split h head head xs (node ∷ ys) r.chain in
    (
      rw
          (list_remove_node-unlink h node (last head xs) (first ys head) f
            (Chain-first h node head ys chain))
          (unlink-IsRing h head node xs ys r),
      record {
        chain = node_init-Alone (list_link h (h.prev node) (h.next node)) node;
        distinct = (refl, refl);
      },
    )

pub append_nil : (xs : List ℕ) → xs ++ [] ≡ xs
append_nil [] = refl
append_nil (x ∷ xs) = rw (append_nil xs) refl

-- `listInsertTail` of a node that is not in the list puts it behind the last one.
pub list_insert_tail-IsRing :
    (h : Links) (head node : ℕ) (xs : List ℕ)
    → IsRing h head xs
    → has node (head ∷ xs) ≡ false
    → IsRing (list_insert_tail h node head) head (xs ++ node ∷ [])
unfolding list_insert_tail
list_insert_tail-IsRing h head node xs r out =
    rw (Chain-prev h head head xs r.chain)
      (insert_between-IsRing h head node xs [] (rw (append_nil xs) r) (rw (append_nil xs) out))

-- `listInsertHead` of a node that is not in the list puts it in front of the first one.
pub list_insert_head-IsRing :
    (h : Links) (head node : ℕ) (xs : List ℕ)
    → IsRing h head xs
    → has node (head ∷ xs) ≡ false
    → IsRing (list_insert_head h node head) head (node ∷ xs)
unfolding list_insert_head
list_insert_head-IsRing h head node xs r out =
    rw (Chain-first h head head xs r.chain) (insert_between-IsRing h head node [] xs r out)

snoc_append : (x : ℕ) (xs ys : List ℕ) → (xs ++ x ∷ []) ++ ys ≡ xs ++ x ∷ ys
snoc_append x [] ys = refl
snoc_append x (y ∷ xs) ys = rw (snoc_append x xs ys) refl

last_snoc : (p x : ℕ) (xs : List ℕ) → last p (xs ++ x ∷ []) ≡ x
last_snoc p x [] = refl
last_snoc p x (y ∷ xs) = last_snoc y x xs

-- `listInsertNode` of a node that is not in the list, behind one that is, puts it there.
pub list_insert_node-IsRing :
    (h : Links) (head place node : ℕ) (xs ys : List ℕ)
    → IsRing h head (xs ++ place ∷ ys)
    → has node (head ∷ xs ++ place ∷ ys) ≡ false
    → IsRing (list_insert_node h node place) head (xs ++ place ∷ node ∷ ys)
unfolding list_insert_node
list_insert_node-IsRing h head place node xs ys r out =
    let (path, (e, f, chain)) = Chain-split h head head xs (place ∷ ys) r.chain in
    let at = xs ++ place ∷ [] in
    let inserted =
      insert_between-IsRing h head node at ys (rw (snoc_append place xs ys) r)
        (rw (snoc_append place xs ys) out) in
    rw (Chain-first h place head ys chain)
      (rw (snoc_append place xs (node ∷ ys), last_snoc head place xs) at inserted)
