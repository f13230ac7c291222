-- ===== src/Links/Whole.antt =====
-- The operations of include/list.hh on whole lists.
use mathlib.Core.Path.{fun_ext}
use double_take.Prelude.{
  ℕ, ◌≡◌, ◌≢◌, refl, true, false, List, [], ◌∷◌, ◌++◌, eq→==, Bool-cases, inl, inr, arith,
}
use double_take.Links.{
  Links, update, list_init, node_init, list_link, list_insert_list, list_insert_list_tail,
  list_retrieve_all_items,
}
use double_take.Links.Ring.{
  has, Distinct, last, Walk, Chain, IsRing, has-append, Chain-prev, Chain-next, Chain-join,
  Walk-frame, Chain-frame, has-last,
}
use double_take.Links.Laws.{append_nil, has_of_mem}

Links-ext :
    (h g : Links) → ((q : ℕ) → h.next q ≡ g.next q) → ((q : ℕ) → h.prev q ≡ g.prev q) → h ≡ g
Links-ext h g en ep =
    let e : h.next ≡ g.next = fun_ext en in
    let f : h.prev ≡ g.prev = fun_ext ep in λ i. record { next = e i; prev = f i }

-- `listInsertList` behind `place` does no more than to link `place` to the list's head: its second
-- link reads the fields that the first one has just written, and writes them again.
pub list_insert_list-link :
    (h : Links) (list place : ℕ) → list_insert_list h list place ≡ list_link h place list
unfolding list_insert_list list_link
list_insert_list-link h list place =
    Links-ext _ _ (λ q. ground (arith, eq→== place place refl, eq→== list list refl))
      (λ q. ground (arith, eq→== place place refl, eq→== list list refl))

Chain-Walk : (h : Links) (p q : ℕ) (xs : List ℕ) → Chain h p xs q → Walk h p xs
Chain-Walk h p q [] c = refl
Chain-Walk h p q (x ∷ xs) (e, f, c) = (e, f, Chain-Walk h x q xs c)

Walk-Chain :
    (h : Links) (p q : ℕ) (xs : List ℕ)
    → Walk h p xs
    → h.next (last p xs) ≡ q
    → h.prev q ≡ last p xs
    → Chain h p xs q
Walk-Chain h p q [] path e f = (e, f)
Walk-Chain h p q (x ∷ xs) (a, b, path) e f = (a, b, Walk-Chain h x q xs path e f)

mem-last : (p : ℕ) (xs : List ℕ) → has (last p xs) (p ∷ xs) ≡ true
mem-last p [] = ground (arith, eq→== p p refl)
mem-last p (x ∷ xs) = ground (arith, mem-last x xs)

module _ (h : Links) (dest src x : ℕ) (xs : List ℕ) where
  -- `listRetrieveAllItems` from a list with a node or more, to a head that is neither in the list
  -- nor its head: all nodes are then in the list of the new head, in their order, and the old list
  -- is empty.
  pub list_retrieve_all_items-IsRing :
      IsRing h src (x ∷ xs)
      → has dest (src ∷ x ∷ xs) ≡ false
      → IsRing (list_retrieve_all_items h dest src) dest (x ∷ xs)
        × IsRing (list_retrieve_all_items h dest src) src []
  unfolding list_retrieve_all_items list_init node_init
  list_retrieve_all_items-IsRing r out =
      let (e, f, chain) = r.chain in
      let (o, (ox, d)) = r.distinct in
      let back : h.prev src ≡ last x xs = Chain-prev h src src (x ∷ xs) r.chain in
      let apart_src = has-last src x xs o in
      let apart_dest = has-last dest x xs (ground (arith, out)) in
      (
        record {
          chain = (
            ground (arith, e),
            ground (arith, e, back),
            Walk-Chain _ x dest xs
                (Walk-frame h _ x xs
                  (λ a i ne. ground (
                    arith,
                    back,
                    has_of_mem a dest (x ∷ xs) i (ground (arith, out)),
                    has_of_mem a src (x ∷ xs) i o,
                  ))
                  (λ a i. ground (
                    arith,
                    e,
                    has_of_mem a dest xs i (ground (arith, out)),
                    has_of_mem a src xs i (ground (arith, o)),
                    has_of_mem a x xs i ox,
                  ))
                  (ox, d) (Chain-Walk h x src xs chain))
                (ground (arith, back)) (ground (arith, back)),
          );
          distinct = (ground (arith, out), (ox, d));
        },
        record { chain = (ground arith, ground arith); distinct = (refl, refl) },
      )

-- From an empty list it leaves the new head linked to the old one, and not back.
pub list_retrieve_all_items_empty :
    (h : Links) (dest src : ℕ)
    → IsRing h src []
    → dest ≢ src
    → ((list_retrieve_all_items h dest src).next dest ≡ src)
      × ((list_retrieve_all_items h dest src).next src ≡ src)
unfolding list_retrieve_all_items list_init node_init
list_retrieve_all_items_empty h dest src r ne = (ground (arith, r.chain), ground (arith, r.chain))

-- No node is in both lists.
abbrev pub Apart : List ℕ → List ℕ → Type 0
Apart xs ys = (a : ℕ) → has a xs ≡ true → has a ys ≡ false

Distinct-append : (xs ys : List ℕ) → Distinct xs → Distinct ys → Apart xs ys → Distinct (xs ++ ys)
Distinct-append [] ys dx dy apart = dy
Distinct-append (x ∷ xs) ys (o, dx) dy apart = (
  has-append x xs ys o (apart x (ground (arith, eq→== x x refl))),
  Distinct-append xs ys dx dy (λ a i. apart a (ground arith)),
)

not_has : (a : ℕ) (xs ys : List ℕ) → Apart xs (a ∷ ys) → has a xs ≡ false
not_has a xs ys apart = elim (Bool-cases (has a xs)) [
  | inl there ↦ absurd (ground (arith, apart a there, eq→== a a refl))
  | inr out ↦ out
]

module _ (h : Links) (list place : ℕ) (xs : List ℕ) where
  insert_nothing :
      IsRing h place xs
      → IsRing h list []
      → has list (place ∷ xs) ≡ false
      → IsRing (list_insert_list_tail h list place) place xs
  unfolding list_insert_list_tail list_link
  insert_nothing r s out =
      let back = Chain-prev h place place xs r.chain in
      let forth = Chain-next h place place xs r.chain in
      record {
        chain =
            Chain-frame h _ place place xs
              (λ a i. ground (arith, back, forth, s.chain, eq→== list list refl))
              (λ a i. ground (
                arith,
                back,
                forth,
                s.chain,
                eq→== list list refl,
                has_of_mem a list (place ∷ xs) i out,
              ))
              r.chain;
        distinct = r.distinct;
      }

  insert_some :
      (y : ℕ) (ys : List ℕ)
      → IsRing h place xs
      → IsRing h list (y ∷ ys)
      → Apart (place ∷ xs) (list ∷ y ∷ ys)
      → IsRing (list_insert_list_tail h list place) place (xs ++ y ∷ ys)
  unfolding list_insert_list_tail list_link
  insert_some y ys r s apart =
      let back = Chain-prev h place place xs r.chain in
      let (e, f, chain) = s.chain in
      let tail : h.prev list ≡ last y ys = Chain-prev h list list (y ∷ ys) s.chain in
      let (o, (oy, dy)) = s.distinct in
      let (op, dx) = r.distinct in
      let apart_place = apart place (ground (arith, eq→== place place refl)) in
      let apart_l = apart (last place xs) (mem-last place xs) in
      let kept : update h.prev (h.next list) (h.prev place) list ≡ last y ys =
        ground (arith, e, tail, o) in
      let apart_m = has-last (last place xs) y ys (ground (arith, apart_l)) in
      record {
        chain =
            Chain-join _ place place xs (y ∷ ys)
              (Walk-frame h _ place xs
                (λ a i ne. ground (
                  arith,
                  e,
                  back,
                  kept,
                  ne,
                  has_of_mem (last y ys) a (y ∷ ys) (mem-last y ys) (ground (arith, apart a i)),
                ))
                (λ a i. ground (
                  arith,
                  e,
                  back,
                  has_of_mem a place xs i op,
                  has_of_mem y a (y ∷ ys) (ground (arith, eq→== y y refl))
                      (ground (arith, apart a (ground arith))),
                ))
                r.distinct (Chain-Walk h place place xs r.chain))
              (
                ground (arith, e, back, kept, apart_m),
                ground (arith, e, back, kept, apart_place),
                Walk-Chain _ y place ys
                    (Walk-frame h _ y ys
                      (λ a i ne. ground (
                        arith,
                        e,
                        back,
                        kept,
                        ne,
                        has_of_mem a (last place xs) (y ∷ ys) i (ground (arith, apart_l)),
                      ))
                      (λ a i. ground (
                        arith,
                        e,
                        back,
                        has_of_mem a y ys i oy,
                        has_of_mem a place ys i (ground (arith, apart_place)),
                      ))
                      (oy, dy) (Chain-Walk h y list ys chain))
                    (ground (arith, kept)) (ground (arith, kept)),
              );
        distinct =
            Distinct-append (place ∷ xs) (y ∷ ys) r.distinct (oy, dy)
              (λ a i. ground (arith, apart a i));
      }

  -- `listInsertListTail` of a list to the end of another, that shares no node with it: all nodes are
  -- then in the other list, in the order of both.
  pub list_insert_list_tail-IsRing :
      (ys : List ℕ)
      → IsRing h place xs
      → IsRing h list ys
      → Apart (place ∷ xs) (list ∷ ys)
      → IsRing (list_insert_list_tail h list place) place (xs ++ ys)
  list_insert_list_tail-IsRing [] r s apart =
      rw (append_nil xs) (insert_nothing r s (not_has list (place ∷ xs) [] apart))
  list_insert_list_tail-IsRing (y ∷ ys) r s apart = insert_some y ys r s apart
